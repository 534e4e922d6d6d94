-- ===== src/Txn/Unique/Ownership/Commit.antt =====
-- The end of a committed transaction's unique keys: `CommitUniqueKeyEntries` of
-- transaction/transaction_manager.cpp.
use database.Prelude.{
  ℕ, zero, suc, ◌+◌, ◌≤◌, ◌<◌, ◌≡◌, ap, refl, List, [], ◌∷◌, none, some, ◌&&◌, if◌then◌else◌, arith,
  has_value, nat_eqb, nat_eqb_iff, leb, ltb, lookup, All,
}
use database.Txn.Defs.{done}
use database.Txn.Unique.Keys.{UniqueKeyId, unique_key_eq, unique_key_eqb_iff, unique_shard_index}
use database.Txn.Unique.{UniqueKeyEntry, TxnUniqueKeyWriteState, Registry, get_entry, get_state}
use database.Txn.Unique.Finish.{
  Write, put_entry, bump, of_shard, commit_entry, commit_state, commit_group, commit_shard,
  commit_from, commit_unique_key_entries,
}
use database.Txn.Unique.Entries.{get_entry-put_entry}
use database.Txn.Unique.Ownership.{Owns}
use database.Txn.Unique.Ownership.Worlds.{KeysOnce, World, IsValid, lookup-All, valid-Owns}

-- The transaction owns the entry of every state in the list.
abbrev pub Ready : Registry → ℕ → List Write → Type 0
Ready r i ws = All (λ x. (e : UniqueKeyEntry) × (get_entry r x.0 ≡ some e) × Owns i e x.1) ws

-- The registry without the entries of the keys in the list.
abbrev pub Freed : List Write → Registry → Registry → Type 0
Freed ws r r' =
    (j : UniqueKeyId) → get_entry r' j ≡ (if has_value (lookup j ws) then none else get_entry r j)

commit_state-Owns :
    (r : Registry) (i : ℕ) (k : UniqueKeyId) (s : TxnUniqueKeyWriteState) (e : UniqueKeyEntry)
    → get_entry r k ≡ some e
    → Owns i e s
    → commit_state i r (k, s) ≡ done (put_entry r k none)
unfolding commit_state commit_entry
commit_state-Owns r i k s e h owns =
    rw (h, commit_state) (ground (arith, owns.reserved, owns.pending, owns.active, nat_eqb_iff i i))

Ready-put :
    (r : Registry) (i : ℕ) (k : UniqueKeyId) (ws : List Write)
    → lookup k ws ≡ none
    → Ready r i ws
    → Ready (put_entry r k none) i ws
unfolding lookup
Ready-put r i k [] h ready = tt
Ready-put r i k ((j, s) ∷ ws) h ready = (
  (
    ready.0.0,
    ground (
      arith,
      h,
      ready.0.1,
      get_entry-put_entry r k j none,
      unique_key_eqb_iff k j,
      unique_key_eqb_iff j k,
    ),
    ready.0.2,
  ),
  Ready-put r i k ws (ground (arith, h)) ready.1,
)

commit_group-Freed :
    (r : Registry) (i : ℕ) (ws : List Write)
    → KeysOnce ws
    → Ready r i ws
    → (r' : Registry) × (commit_group i r ws ≡ done r') × Freed ws r r'
unfolding commit_group lookup
commit_group-Freed r i [] once ready = (r, refl, λ j. refl)
commit_group-Freed r i ((k, s) ∷ ws) once ready =
    let rest =
      commit_group-Freed (put_entry r k none) i ws once.1 (Ready-put r i k ws once.0 ready.1) in
    (
      rest.0,
      rw (commit_state-Owns r i k s ready.0.0 ready.0.1 ready.0.2) rest.1,
      λ j. ground (arith, rest.2 j, get_entry-put_entry r k j none),
    )

pub commit_shard-Freed :
    (r : Registry) (i index : ℕ) (ws : List Write)
    → KeysOnce ws
    → Ready r i ws
    → (r' : Registry) × (commit_shard i r index ws ≡ done r') × Freed ws r r'
unfolding commit_shard lookup get_entry
commit_shard-Freed r i index [] once ready = (r, refl, λ j. refl)
commit_shard-Freed r i index (w ∷ ws) once ready =
    commit_group-Freed (bump (nat_eqb index) r) i (w ∷ ws) once ready

pub lookup-of_shard :
    (index : ℕ) (j : UniqueKeyId) (ws : List Write)
    → lookup j (of_shard index ws)
      ≡ (if nat_eqb (unique_shard_index j) index then lookup j ws else none)
unfolding lookup of_shard
lookup-of_shard index j [] = ground arith
lookup-of_shard index j ((k, s) ∷ ws) = ground (
  arith,
  lookup-of_shard index j ws,
  unique_key_eqb_iff k j,
  ap unique_shard_index {x = k} {y = j},
)

pub of_shard-KeysOnce : (index : ℕ) (ws : List Write) → KeysOnce ws → KeysOnce (of_shard index ws)
unfolding of_shard
of_shard-KeysOnce index [] once = tt
of_shard-KeysOnce index ((k, s) ∷ ws) once =
    ground (arith, once, lookup-of_shard index k ws, of_shard-KeysOnce index ws)

-- The transaction owns the entry of every key in the shards from `start` on.
abbrev pub ReadyFrom : Registry → ℕ → List Write → ℕ → Type 0
ReadyFrom r i ws start =
    (x : Write)
    → start ≤ unique_shard_index x.0
    → lookup x.0 ws ≡ some x.1
    → (e : UniqueKeyEntry) × (get_entry r x.0 ≡ some e) × Owns i e x.1

pub shard-Ready :
    (r : Registry) (i start : ℕ) (ws : List Write)
    → KeysOnce ws
    → ReadyFrom r i ws start
    → Ready r i (of_shard start ws)
shard-Ready r i start ws once ready =
    lookup-All (of_shard start ws) _ (of_shard-KeysOnce start ws once) (λ x e.
      ready x (ground (arith, e, lookup-of_shard start x.0 ws))
        (ground (arith, e, lookup-of_shard start x.0 ws)))

rest-ReadyFrom :
    (r r' : Registry) (i start : ℕ) (ws : List Write)
    → ReadyFrom r i ws start
    → Freed (of_shard start ws) r r'
    → ReadyFrom r' i ws (start + 1)
rest-ReadyFrom r r' i start ws ready freed x later e =
    let owned = ready x (omega (arith, later)) e in
    (owned.0, ground (arith, owned.1, freed x.0, lookup-of_shard start x.0 ws, later), owned.2)

commit_from-Freed :
    (n start : ℕ) (r : Registry) (i : ℕ) (ws : List Write)
    → KeysOnce ws
    → ReadyFrom r i ws start
    → (r' : Registry) × (commit_from i r ws n start ≡ done r')
      × ((j : UniqueKeyId)
          → get_entry r' j ≡ (
              if (leb start (unique_shard_index j) && ltb (unique_shard_index j) (start + n))
                && has_value (lookup j ws)
              then none
              else get_entry r j))
unfolding commit_from
commit_from-Freed zero start r i ws once ready = (r, refl, λ j. ground arith)
commit_from-Freed (suc n) start r i ws once ready =
    let first =
      commit_shard-Freed r i start (of_shard start ws) (of_shard-KeysOnce start ws once)
        (shard-Ready r i start ws once ready) in
    let rest =
      commit_from-Freed n (start + 1) first.0 i ws once
        (rest-ReadyFrom r first.0 i start ws ready first.2) in
    (
      rest.0,
      rw first.1 rest.1,
      λ j. ground (arith, rest.2 j, first.2 j, lookup-of_shard start j ws),
    )

pub unique_shard_index-lt : (k : UniqueKeyId) → unique_shard_index k < 64
unfolding unique_shard_index
unique_shard_index-lt k = omega arith

-- Where every key has one owner, the publication of a transaction's unique keys at its commit succeeds,
-- erases the entry of every key that the transaction has a write state for, leaves every other entry,
-- and leaves the transaction without write states.
pub commit_unique_key_entries-freed :
    (w : World) (i : ℕ)
    → IsValid w
    → (r' : Registry) × (commit_unique_key_entries w.registry (w.txns i)
        ≡ done (r', record (w.txns i) { unique_key_write_states = [] }))
      × ((j : UniqueKeyId)
          → get_entry r' j
            ≡ (if has_value (get_state (w.txns i) j) then none else get_entry w.registry j))
unfolding commit_unique_key_entries get_state
commit_unique_key_entries-freed w i v =
    let ws = (w.txns i).unique_key_write_states in
    let out =
      commit_from-Freed 64 0 w.registry i ws (v.once i)
        (λ x later e. let owned = valid-Owns w i x.0 x.1 v e in (owned.0, owned.1, owned.2)) in
    (out.0, rw (v.ids i, out.1) refl, λ j. ground (arith, out.2 j, unique_shard_index-lt j))
