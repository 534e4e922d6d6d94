-- ===== src/Txn/Publication/Order.antt =====
-- Commits of transaction/transaction_manager.cpp become visible in the order of their timestamps.
use database.Prelude.{
  ℕ, suc, ◌+◌, ◌≤◌, ◌<◌, ◌≡◌, refl, ap, List, [], ◌∷◌, none, some, Bool, true, false, arith, inl,
}
use database.Txn.Defs.{done}
use database.Txn.Publication.{
  Publications, init, find, emplace, erase_at, set_durable, next_commit_ts, reserve, cancel,
  announce, has_turn, complete,
}
use database.Txn.Publication.Between.{
  Between, IsOrdered, Between-weaken, find_outside, emplace-Between, erase_at-Between,
  set_durable-Between, emplace-Between_next,
}

-- In an ordered state a reservation is never refused: it takes a timestamp after the last published
-- commit, which no pending commit has, and leaves an ordered state.
pub reserve-IsOrdered :
    (p : Publications)
    → IsOrdered p
    → (ts : ℕ) × (p' : Publications) × (reserve p ≡ done (ts, p'))
      × (p.last_commit_ts < ts)
      × (find ts p.commit_publications ≡ none)
      × (p'.last_commit_ts ≡ p.last_commit_ts)
      × IsOrdered p'
unfolding reserve
reserve-IsOrdered p h =
    let (after_last, after_next, between) =
      emplace-Between_next p.next_timestamp p.last_commit_ts p.commit_publications p refl refl refl
        h in
    let absent : find (next_commit_ts p) p.commit_publications ≡ none =
      find_outside (suc p.last_commit_ts) p.next_timestamp (next_commit_ts p) p.commit_publications
        h (inl after_next) in
    let ordered =
      emplace-Between (suc p.last_commit_ts) (next_commit_ts p) p.commit_publications after_last
        between in
    (
      next_commit_ts p,
      record p {
        next_timestamp = next_commit_ts p + 1;
        commit_publications = emplace (next_commit_ts p) false p.commit_publications;
      },
      rw absent refl,
      after_last,
      absent,
      refl,
      Between-weaken (suc p.last_commit_ts) (suc p.last_commit_ts) (suc (next_commit_ts p))
          (next_commit_ts p + 1) (emplace (next_commit_ts p) false p.commit_publications)
          (omega arith) (omega arith) ordered,
    )

-- A step that some thread takes.
pub data Step (p q : Publications) : Type 0 where
  reserves : (ts : ℕ) → reserve p ≡ done (ts, q) → Step p q
  cancels : (ts : ℕ) → cancel p ts ≡ done q → Step p q
  announces : (ts : ℕ) → announce p ts ≡ done q → Step p q
  completes : (ts : ℕ) → complete p ts ≡ done q → Step p q

cancel-done :
    (p q : Publications) (ts : ℕ)
    → cancel p ts ≡ done q
    → q ≡ record p { commit_publications = erase_at ts p.commit_publications }
unfolding cancel
cancel-done p q ts e = ground arith

announce-done :
    (p q : Publications) (ts : ℕ)
    → announce p ts ≡ done q
    → q ≡ record p { commit_publications = set_durable ts p.commit_publications }
unfolding announce
announce-done p q ts e = ground arith

-- What a completion found and left.
complete-done :
    (p q : Publications) (ts : ℕ)
    → complete p ts ≡ done q
    → (has_turn p ts ≡ true)
      × (find ts p.commit_publications ≡ some true)
      × (q ≡ record p {
        commit_publications = erase_at ts p.commit_publications;
        last_commit_ts = ts;
      })
unfolding complete
complete-done p q ts e = ground arith

turn_first :
    (p : Publications) (ts lo hi : ℕ) (m : List (ℕ × Bool))
    → p.commit_publications ≡ m
    → has_turn p ts ≡ true
    → Between lo hi m
    → (lo ≤ ts) × Between (suc ts) hi (erase_at ts m)
unfolding has_turn erase_at
turn_first p ts lo hi [] e t h = ground arith
turn_first p ts lo hi ((u, b) ∷ m) e t h = ground arith

-- A completed commit was durable and the oldest that was pending; it is later than the last one, it
-- becomes the last one, and every commit that is still pending is later.
pub complete-IsOrdered :
    (p q : Publications) (ts : ℕ)
    → IsOrdered p
    → complete p ts ≡ done q
    → (find ts p.commit_publications ≡ some true)
      × (p.last_commit_ts < ts)
      × (q.last_commit_ts ≡ ts)
      × IsOrdered q
complete-IsOrdered p q ts h e =
    let (turn, durable, same) = complete-done p q ts e in
    let (after_last, rest) =
      turn_first p ts (suc p.last_commit_ts) p.next_timestamp p.commit_publications refl turn h in
    (durable, after_last, ap (λ r. r.last_commit_ts) same, rw same rest)

-- Any step keeps the order, and never takes back a published commit.
Step-IsOrdered :
    {p q : Publications}
    → Step p q
    → IsOrdered p
    → IsOrdered q × (p.last_commit_ts ≤ q.last_commit_ts)
Step-IsOrdered {p} {q} (reserves ts e) h =
    let (ts', p', call, after_last, absent, last, ordered) = reserve-IsOrdered p h in
    let same : p' ≡ q = cc in rw (← same) (ordered, omega (arith, last))
Step-IsOrdered {p} {q} (cancels ts e) h = rw (cancel-done p q ts e) (
  erase_at-Between (suc p.last_commit_ts) p.next_timestamp ts p.commit_publications h,
  omega arith,
)
Step-IsOrdered {p} {q} (announces ts e) h = rw (announce-done p q ts e) (
  set_durable-Between (suc p.last_commit_ts) p.next_timestamp ts p.commit_publications h,
  omega arith,
)
Step-IsOrdered {p} {q} (completes ts e) h =
    let (_, after_last, last, ordered) = complete-IsOrdered p q ts h e in
    (ordered, omega (arith, after_last, last))

pub data Reach (p : Publications) : Publications → Type 0 where
  here : Reach p p
  next : {q r : Publications} → Reach p q → Step q r → Reach p r

pub Reach-IsOrdered :
    {p q : Publications}
    → Reach p q
    → IsOrdered p
    → IsOrdered q × (p.last_commit_ts ≤ q.last_commit_ts)
Reach-IsOrdered here h = (h, omega arith)
Reach-IsOrdered (next r s) h =
    let (ordered, grown) = Reach-IsOrdered r h in
    let (ordered', grown') = Step-IsOrdered s ordered in (ordered', omega (arith, grown, grown'))

pending_after :
    (lo hi ts : ℕ) (b : Bool) (m : List (ℕ × Bool)) → Between lo hi m → find ts m ≡ some b → lo ≤ ts
unfolding find
pending_after lo hi ts b [] h e = ground arith
pending_after lo hi ts b ((t, c) ∷ m) h e = ground (arith, pending_after (suc t) hi ts b m h.2)

-- However the threads interleave, a commit that is pending is later than every published one, so a
-- snapshot at the last published commit misses no earlier commit; and the last published commit
-- never goes back.
pub Reach-pending :
    {p q : Publications} (ts : ℕ) (durable : Bool)
    → Reach init p
    → Reach p q
    → find ts q.commit_publications ≡ some durable
    → (p.last_commit_ts ≤ q.last_commit_ts) × (q.last_commit_ts < ts)
unfolding init
Reach-pending {p} {q} ts b before after e =
    let (ordered, _) = Reach-IsOrdered before tt in
    let (ordered', grown) = Reach-IsOrdered after ordered in
    (
      grown,
      pending_after (suc q.last_commit_ts) q.next_timestamp ts b q.commit_publications ordered' e,
    )
