-- ===== src/Txn/Unique/Ownership/Steps.antt =====
-- Interleaved calls of the registry in transaction/transaction_manager.cpp, each taken as one step: a
-- reservation, a deletion, an abort, and the publication of a commit. The restoration of a failed
-- statement is no step here. The source locks the publication shard by shard; Shards.antt has the
-- steps of that kind.
use database.Prelude.{
  ℕ, zero, suc, ◌+◌, ◌≡◌, ap, refl, sym, ◌∙◌, subst, inl, inr, List, [], ◌∷◌, Option, none, some,
  Bool, true, arith, has_value, nat_eqb, nat_eqb_iff, Bool-cases, lookup, All,
}
use database.Txn.Defs.{Rid, TupleKey, Result, done, throw, ◌>>◌}
use database.Txn.Unique.Keys.{UniqueKeyId, unique_key_eq, unique_shard_index}
use database.Txn.Unique.{
  UniqueKeyEntry, TxnUniqueKeyWriteState, Registry, UniqueTxn, UniqueKeyChange, get_entry,
  get_state, store_entry, set_state, get_unique_key_generation,
}
use database.Txn.Unique.Reserve.{
  adopt, entry_or_new, check_reserve, get_or_create_state, assume_owner, check_mark, grant, mark,
  reserve_unique_key, mark_unique_key_deleted,
}
use database.Txn.Unique.Finish.{
  Write, of_shard, prepare_state, prepare_group, prepare_from, prepare_unique_key_commit,
  cleanup_unique_key_abort, commit_unique_key_entries,
}
use database.Txn.Unique.Ownership.{
  Owns, reserve-Owns, mark-Owns, marked_entry, marked_state, only_reserved,
}
use database.Txn.Unique.Ownership.Commit.{commit_unique_key_entries-freed}
use database.Txn.Unique.Ownership.Worlds.{
  lookup-All, World, update, IsValid, write-IsValid, valid-Owns, cleanup-IsValid, ended-IsValid,
}

done-injective : {A : Type 0} (a b : A) → done a ≡ done b → a ≡ b
done-injective a b h = ground arith

-- A call of some transaction, as one step. A refused call changes neither the registry nor a transaction.
pub data Step (w : World) : World → Type 0 where
  reserves :
      (i : ℕ) (key : UniqueKeyId) (rid : Rid) (seen : Option Rid) (generation : ℕ)
      (changes : Option (List UniqueKeyChange)) (both : Registry × UniqueTxn)
      → (reserve_unique_key w.registry (w.txns i) key rid seen generation changes).1
        ≡ done (true, both)
      → Step w (update w i both)
  deletes :
      (i : ℕ) (key : UniqueKeyId) (rid : Rid) (changes : Option (List UniqueKeyChange))
      (both : Registry × UniqueTxn)
      → (mark_unique_key_deleted w.registry (w.txns i) key rid changes).1 ≡ done both
      → Step w (update w i both)
  commits :
      (i : ℕ) (both : Registry × UniqueTxn)
      → commit_unique_key_entries w.registry (w.txns i) ≡ done both
      → Step w (update w i both)
  aborts : (i : ℕ) → Step w (update w i (cleanup_unique_key_abort w.registry (w.txns i)))

pub data Reach (w : World) : World → Type 0 where
  here : Reach w w
  next : {w' w'' : World} → Reach w w' → Step w' w'' → Reach w w''

-- No transaction holds a key.
pub record IsInitial (w : World) : Type 0 where
  pub ids : (i : ℕ) → (w.txns i).txn_id ≡ i
  pub entries : (key : UniqueKeyId) → get_entry w.registry key ≡ none
  pub states : (i : ℕ) → (w.txns i).unique_key_write_states ≡ []

granted :
    {A : Type 0} (g : Result (Unit {0})) (x y : A)
    → (g >> done x) ≡ done y
    → (g ≡ done tt) × (x ≡ y)
granted (done tt) x y h = (refl, ground (arith, h))
granted (throw e) x y h = ground (arith, h)

reserve-granted :
    (r : Registry) (t : UniqueTxn) (key : UniqueKeyId) (rid : Rid) (seen : Option Rid)
    (generation : ℕ) (changes : Option (List UniqueKeyChange)) (both : Registry × UniqueTxn)
    → (reserve_unique_key r t key rid seen generation changes).1 ≡ done (true, both)
    → let e = adopt (entry_or_new (get_entry r key)) key.fd seen in
      let owner : TupleKey = record { fd = key.fd; rid = rid } in
      (check_reserve e (get_state t key) owner t.txn_id ≡ done tt)
      × (grant r t key e (has_value (get_entry r key)) owner ≡ both)
unfolding reserve_unique_key
reserve-granted r t key rid seen generation changes both h =
    elim (Bool-cases (nat_eqb (get_unique_key_generation r key) generation)) [
      | inl current ↦ let out = granted _ _ _ (rw current at h) in (out.0, ap (λ x. x.1) out.1)
      | inr stale ↦ ground (arith, h)
    ]

grant-IsValid :
    (w : World) (i : ℕ) (key : UniqueKeyId) (seen : Option Rid) (owner : TupleKey)
    → let e = adopt (entry_or_new (get_entry w.registry key)) key.fd seen in
      IsValid w
      → check_reserve e (get_state (w.txns i) key) owner (w.txns i).txn_id ≡ done tt
      → IsValid (
          update w i
            (grant w.registry (w.txns i) key e (has_value (get_entry w.registry key)) owner))
unfolding grant
grant-IsValid w i key seen owner v h =
    let e = adopt (entry_or_new (get_entry w.registry key)) key.fd seen in
    let s =
      record (get_or_create_state (get_state (w.txns i) key) e
        (has_value (get_entry w.registry key))) {
          reserved_by_this_txn = true;
          new_committed_owner = some owner;
        } in
    let owns =
      reserve-Owns i (get_entry w.registry key) (λ j. get_state (w.txns j) key) key.fd seen owner
        (v.keys key)
        (subst (λ x. check_reserve e (get_state (w.txns i) key) owner x ≡ done tt) (v.ids i) h) in
    write-IsValid w i key (record e { reserved_by_txn = some (w.txns i).txn_id }) s v
      (subst (λ x. Owns i (record e { reserved_by_txn = some x }) s) (sym (v.ids i)) owns.0) owns.1

mark-marked :
    (r : Registry) (t : UniqueTxn) (k : UniqueKeyId) (e : UniqueKeyEntry) (had : Bool)
    (owner : TupleKey)
    → mark r t k e had owner ≡ (
      store_entry r k (marked_entry e t.txn_id),
      set_state t k (marked_state e t.txn_id owner (get_or_create_state (get_state t k) e had)),
    )
unfolding mark
mark-marked r t k e had owner = elim (Bool-cases (only_reserved e t.txn_id)) [
  | inl only ↦ rw only refl
  | inr other ↦ rw other refl
]

mark-IsValid :
    (w : World) (i : ℕ) (key : UniqueKeyId) (owner : TupleKey)
    → let e = assume_owner (entry_or_new (get_entry w.registry key)) owner in
      IsValid w
      → check_mark e owner (w.txns i).txn_id ≡ done tt
      → IsValid (
          update w i
            (mark w.registry (w.txns i) key e (has_value (get_entry w.registry key)) owner))
mark-IsValid w i key owner v h =
    let e = assume_owner (entry_or_new (get_entry w.registry key)) owner in
    let s =
      get_or_create_state (get_state (w.txns i) key) e (has_value (get_entry w.registry key)) in
    let owns =
      mark-Owns i (get_entry w.registry key) (λ j. get_state (w.txns j) key) owner (v.keys key)
        (subst (λ x. check_mark e owner x ≡ done tt) (v.ids i) h) in
    rw (mark-marked w.registry (w.txns i) key e (has_value (get_entry w.registry key)) owner) (
      write-IsValid w i key (marked_entry e (w.txns i).txn_id)
        (marked_state e (w.txns i).txn_id owner s) v
        (subst (λ x. Owns i (marked_entry e x) (marked_state e x owner s)) (sym (v.ids i)) owns.0)
        owns.1)

pub registry_step-IsValid : (w w' : World) → IsValid w → Step w w' → IsValid w'
unfolding mark_unique_key_deleted
registry_step-IsValid w w' v (reserves i key rid seen generation changes both h) =
    let out = reserve-granted w.registry (w.txns i) key rid seen generation changes both h in
    subst (λ b. IsValid (update w i b)) out.1 (grant-IsValid w i key seen _ v out.0)
registry_step-IsValid w w' v (deletes i key rid changes both h) =
    let out = granted _ _ _ h in
    subst (λ b. IsValid (update w i b)) out.1 (mark-IsValid w i key _ v out.0)
registry_step-IsValid w w' v (commits i both h) =
    let out = commit_unique_key_entries-freed w i v in
    subst (λ b. IsValid (update w i b)) (done-injective _ _ (sym out.1 ∙ h))
      (ended-IsValid w i out.0 v out.2)
registry_step-IsValid w w' v (aborts i) = cleanup-IsValid w i v

pub initial-IsValid : (w : World) → IsInitial w → IsValid w
unfolding get_state lookup
initial-IsValid w h = record {
  ids = h.ids;
  keys = λ key. inl (record { entry_eq = h.entries key; state_eq = λ i. rw (h.states i) refl });
  once = λ i. rw (h.states i) tt;
}

pub Reach-IsValid : (w w' : World) → IsInitial w → Reach w w' → IsValid w'
Reach-IsValid w w' h here = initial-IsValid w h
Reach-IsValid w w' h (next reach step) = registry_step-IsValid _ w' (Reach-IsValid w _ h reach) step

prepare_state-Owns :
    (r : Registry) (i : ℕ) (k : UniqueKeyId) (s : TxnUniqueKeyWriteState) (e : UniqueKeyEntry)
    → get_entry r k ≡ some e
    → Owns i e s
    → prepare_state r i (k, s) ≡ done tt
unfolding prepare_state
prepare_state-Owns r i k s e h owns =
    rw (h, prepare_state)
      (ground (arith, owns.reserved, owns.pending, owns.active, nat_eqb_iff i i))

All-of_shard : (P : Write → Type 0) (i : ℕ) (ws : List Write) → All P ws → All P (of_shard i ws)
unfolding of_shard
All-of_shard P i [] h = tt
All-of_shard P i (w ∷ ws) h = elim (Bool-cases (nat_eqb (unique_shard_index w.0) i)) [
  | inl a ↦ rw a (h.0, All-of_shard P i ws h.1)
  | inr a ↦ rw a (All-of_shard P i ws h.1)
]

prepare_group-All :
    (r : Registry) (i : ℕ) (ws : List Write)
    → All (λ x. prepare_state r i x ≡ done tt) ws
    → prepare_group r i ws ≡ done tt
unfolding prepare_group
prepare_group-All r i [] h = refl
prepare_group-All r i (w ∷ ws) h = rw h.0 (prepare_group-All r i ws h.1)

prepare_from-All :
    (r : Registry) (i : ℕ) (ws : List Write) (n start : ℕ)
    → All (λ x. prepare_state r i x ≡ done tt) ws
    → prepare_from r i ws n start ≡ done tt
unfolding prepare_from
prepare_from-All r i ws zero start h = refl
prepare_from-All r i ws (suc n) start h =
    rw
      (prepare_group-All r i (of_shard start ws)
        (All-of_shard (λ x. prepare_state r i x ≡ done tt) start ws h))
      (prepare_from-All r i ws n (start + 1) h)

-- Where no transaction holds a key at first, after any interleaving of granted reservations, granted
-- deletions, commits and aborts of any transactions, each taken as one step, the check before the commit
-- of any of them succeeds.
pub prepare-succeeds :
    (w w' : World) (i : ℕ)
    → IsInitial w
    → Reach w w'
    → prepare_unique_key_commit w'.registry (w'.txns i) ≡ done tt
unfolding prepare_unique_key_commit get_state
prepare-succeeds w w' i h reach =
    let v = Reach-IsValid w w' h reach in
    rw (v.ids i) (
      prepare_from-All w'.registry i (w'.txns i).unique_key_write_states 64 0 (
        lookup-All (w'.txns i).unique_key_write_states _ (v.once i) (λ x e.
          let o = valid-Owns w' i x.0 x.1 v e in
          prepare_state-Owns w'.registry i x.0 x.1 o.0 o.1 o.2)))
