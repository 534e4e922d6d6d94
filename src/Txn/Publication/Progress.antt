-- ===== src/Txn/Publication/Progress.antt =====
-- The waits of transaction/transaction_manager.cpp for the turn to publish: they all end.
use database.Prelude.{ℕ, suc, ◌≤◌, ◌≡◌, refl, ap, ◌∙◌, List, [], ◌∷◌, some, Bool, arith}
use database.Txn.Defs.{Result, done, ◌>>=◌}
use database.Txn.Publication.{
  Publications, init, find, erase_at, set_durable, announce, has_turn, complete,
}
use database.Txn.Publication.Between.{Between, IsOrdered}
use database.Txn.Publication.Order.{Reach, Reach-IsOrdered}

-- A thread that has a commit pending announces that it is durable and waits, and completes it.
abbrev pub finish : Publications → ℕ → Result Publications
finish p ts = announce p ts >>= λ p₁. complete p₁ ts

abbrev pub finish_all : List ℕ → Publications → Result Publications
finish_all [] p = done p
finish_all (ts ∷ tss) p = finish p ts >>= λ q. finish_all tss q

abbrev pub timestamps : List (ℕ × Bool) → List ℕ
timestamps [] = []
timestamps ((ts, durable) ∷ m) = ts ∷ timestamps m

abbrev newest : ℕ → List (ℕ × Bool) → ℕ
newest last [] = last
newest last ((ts, durable) ∷ m) = newest ts m

finish_first :
    (p : Publications) (ts : ℕ) (b : Bool) (m : List (ℕ × Bool))
    → p.commit_publications ≡ (ts, b) ∷ m
    → finish p ts ≡ done (record p { commit_publications = m; last_commit_ts = ts })
unfolding announce complete has_turn find set_durable erase_at
finish_first p ts b m e = ground arith

finish_all_last :
    (p : Publications) (m : List (ℕ × Bool))
    → p.commit_publications ≡ m
    → finish_all (timestamps m) p
      ≡ done (record p { commit_publications = []; last_commit_ts = newest p.last_commit_ts m })
finish_all_last p [] e = ground (arith, e)
finish_all_last p ((ts, b) ∷ m) e =
    let p₁ : Publications = record p { commit_publications = m; last_commit_ts = ts } in
    ap (λ r. r >>= λ q. finish_all (timestamps m) q) (finish_first p ts b m e)
    ∙ finish_all_last p₁ m refl

newest_least :
    (lo hi last : ℕ) (m : List (ℕ × Bool)) → Between lo hi m → last ≤ lo → last ≤ newest last m
newest_least lo hi last [] h le = omega arith
newest_least lo hi last ((t, b) ∷ m) h le =
    let rest : t ≤ newest t m = newest_least (suc t) hi t m h.2 (omega arith) in
    omega (arith, rest, h.0, le)

newest_pending :
    (lo hi last ts : ℕ) (b : Bool) (m : List (ℕ × Bool))
    → Between lo hi m
    → find ts m ≡ some b
    → ts ≤ newest last m
unfolding find
newest_pending lo hi last ts b [] h e = ground (arith, e)
newest_pending lo hi last ts b ((t, c) ∷ m) h e =
    ground (arith, h, e, newest_pending (suc t) hi t ts b m h.2, newest_least (suc t) hi t m h.2)

completes_first_from :
    (p q : Publications) (ts : ℕ) (m : List (ℕ × Bool))
    → p.commit_publications ≡ m
    → complete p ts ≡ done q
    → timestamps m ≡ ts ∷ timestamps q.commit_publications
unfolding complete has_turn erase_at
completes_first_from p q ts [] e h = ground arith
completes_first_from p q ts ((t, b) ∷ m) e h = ground arith

-- In every state that the threads can reach, the waits for the turn end: if the threads with a pending
-- commit announce and complete one after the other in the order of their timestamps, then none is
-- refused, whatever was announced before, and at the end no commit is pending and each that was is at or
-- below the last published one. No other order is possible: a completion is of the first pending commit.
pub finish_all-drains :
    (p : Publications)
    → Reach init p
    → ((q : Publications) × (finish_all (timestamps p.commit_publications) p ≡ done q)
        × (q.commit_publications ≡ [])
        × ((ts : ℕ) (durable : Bool)
            → find ts p.commit_publications ≡ some durable
            → ts ≤ q.last_commit_ts))
      × ((ts : ℕ) (q : Publications)
          → complete p ts ≡ done q
          → timestamps p.commit_publications ≡ ts ∷ timestamps q.commit_publications)
unfolding init
finish_all-drains p reached =
    let ordered : IsOrdered p = (Reach-IsOrdered reached tt).0 in
    (
      (
        record p {
          commit_publications = [];
          last_commit_ts = newest p.last_commit_ts p.commit_publications;
        },
        finish_all_last p p.commit_publications refl,
        refl,
        λ ts b e.
            newest_pending (suc p.last_commit_ts) p.next_timestamp p.last_commit_ts ts b
              p.commit_publications ordered e,
      ),
      λ ts q h. completes_first_from p q ts p.commit_publications refl h,
    )
