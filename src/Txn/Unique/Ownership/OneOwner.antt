-- ===== src/Txn/Unique/Ownership/OneOwner.antt =====
-- Who holds a unique key while commits of transaction/transaction_manager.cpp publish shard by shard.
use database.Prelude.{
  ℕ, ◌≡◌, ◌↔◌, ap, sym, ◌∙◌, inl, inr, [], none, Bool, true, ◌&&◌, arith, has_value, leb,
}
use database.Txn.Defs.{done}
use database.Txn.Unique.Keys.{UniqueKeyId, unique_key_eq, unique_shard_index}
use database.Txn.Unique.{Registry, get_entry, get_state}
use database.Txn.Unique.Finish.{of_shard, commit_shard}
use database.Txn.Unique.Ownership.Steps.{initial-IsValid}
use database.Txn.Unique.Ownership.Shards.{
  Shards, Interleaved, calls, publishes, ends, InterleavedReach, started, stepped, from_shard,
  remaining, view, IsGood, lookup-from_shard,
}
use database.Txn.Unique.Ownership.Published.{
  calls-IsGood, shard_published, publishes-IsGood, ends-IsGood,
}

step-IsGood : (s t : Shards) → IsGood s → Interleaved s t → IsGood t
step-IsGood s t g (calls i both e call) = calls-IsGood s i both g e call
step-IsGood s t g (publishes i r below h) = publishes-IsGood s i g r h
step-IsGood s t g (ends i all) = ends-IsGood s i g all

-- No transaction holds a key, and none is committing.
pub record IsStart (s : Shards) : Type 0 where
  pub ids : (i : ℕ) → (s.txns i).txn_id ≡ i
  pub entries : (key : UniqueKeyId) → get_entry s.registry key ≡ none
  pub states : (i : ℕ) → (s.txns i).unique_key_write_states ≡ []
  pub idle : (i : ℕ) → s.published i ≡ 0

start-IsGood : (s : Shards) → IsStart s → IsGood s
unfolding from_shard
start-IsGood s h = record {
  valid = initial-IsValid (view s) (record {
    ids = h.ids;
    entries = h.entries;
    states = λ i. ap (from_shard (s.published i)) (h.states i);
  });
  once = λ i. rw (h.states i) tt;
}

reach-IsGood : (s t : Shards) → IsStart s → InterleavedReach s t → IsGood t
reach-IsGood s t h started = start-IsGood s h
reach-IsGood s t h (stepped reach step) = step-IsGood _ t (reach-IsGood s _ h reach) step

-- The transaction has a write state for the key, in a shard that its commit has not published.
abbrev pub holds : Shards → ℕ → UniqueKeyId → Bool
holds s i key = leb (s.published i) (unique_shard_index key) && has_value (get_state (s.txns i) key)

holds-remaining :
    (s : Shards) (i : ℕ) (key : UniqueKeyId)
    → has_value (get_state (remaining s i) key) ≡ holds s i key
unfolding get_state
holds-remaining s i key =
    ground (arith, lookup-from_shard (s.published i) key (s.txns i).unique_key_write_states)

alone_holds :
    (t : Shards)
    → IsGood t
    → (key : UniqueKeyId) (i j : ℕ) → has_value (get_state (remaining t i) key) ≡ true
    → has_value (get_state (remaining t j) key) ≡ true
    → i ≡ j
alone_holds t g key i j a b = elim (g.valid.keys key) [
  | inl free ↦ ground (arith, a, free.state_eq i)
  | inr held ↦ ground (arith, a, b, held.alone i, held.alone j)
]

held_entry :
    (t : Shards)
    → IsGood t
    → (key : UniqueKeyId)
    → (has_value (get_entry t.registry key) ≡ true) ↔ ((i : ℕ) × (holds t i key ≡ true))
held_entry t g key = elim (g.valid.keys key) [
  | inl free ↦ (
    λ a. absurd (ground (arith, a, free.entry_eq)),
    λ (i, a). absurd (ground (arith, holds-remaining t i key, a, free.state_eq i)),
  )
  | inr held ↦ (
    λ a. (held.id, sym (holds-remaining t held.id key) ∙ ground (arith, held.state_eq)),
    λ x. ground (arith, held.entry_eq),
  )
]

-- Where no transaction holds a key at first, after any interleaving of granted reservations, granted
-- deletions and aborts with commits that publish one shard after the other and clear their write states
-- last, and without the restoration of a failed statement: no two transactions hold one key, that is,
-- have a write state for it in a shard that their commit has not published. The registry has an entry
-- for a key exactly when some transaction holds it; and the publication of the next shard of any commit
-- finds its entries and succeeds.
pub InterleavedReach-one_owner :
    (s t : Shards)
    → IsStart s
    → InterleavedReach s t
    → ((key : UniqueKeyId) (i j : ℕ) → holds t i key ≡ true → holds t j key ≡ true → i ≡ j)
      × ((key : UniqueKeyId)
          → (has_value (get_entry t.registry key) ≡ true) ↔ ((i : ℕ) × (holds t i key ≡ true)))
      × ((i : ℕ)
          → (r : Registry) × (commit_shard
                (t.txns i).txn_id
                t.registry
                (t.published i)
                (of_shard (t.published i) (t.txns i).unique_key_write_states)
              ≡ done r))
InterleavedReach-one_owner s t h reach =
    let g = reach-IsGood s t h reach in
    (
      λ key i j a b.
          alone_holds t g key i j (holds-remaining t i key ∙ a) (holds-remaining t j key ∙ b),
      λ key. held_entry t g key,
      λ i. let (r, ran, freed) = shard_published t i g in (r, ran),
    )
