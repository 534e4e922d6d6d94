-- ===== src/Txn/Mvcc/Endings.antt =====
-- The parts of `commit`, `abort`, `ReleaseWriteOwners` and the garbage collection of
-- transaction/transaction_manager.cpp that end the ownership of tuples. Each visits its keys shard
-- by shard, and under a shard's lock in the order in which they were grouped.
pub mod Loops
pub mod Commit
pub mod Abort
use database.Prelude.{
  ℕ, zero, suc, ◌+◌, List, [], ◌∷◌, ◌++◌, Option, none, some, Bool, true, false, not, ◌&&◌,
  if◌then◌else◌, option_eqb, nat_eq, nat_eqb, has_value, Map, map,
}
use database.Txn.Defs.{
  Timestamp, ts_leb, TupleKey, TupleState, Transaction, TxnTupleWriteState, key_eq,
}
use database.Txn.Mvcc.{
  Manager, shard_for, set_shard, get_tuple_state, set_transaction, notify_release,
}
use database.Txn.Mvcc.Shards.{shard_index, tuple_state_shard_count}
use database.Txn.Mvcc.Writes.{publish}
use database.Txn.Mvcc.Records.{restore_state, erase_state}

module _ {A : Type 0} (key_of : A → TupleKey) where
  -- `tuple_state_groups[i]`
  unfoldable pub of_shard : ℕ → List A → List A
  of_shard i [] = []
  of_shard i (a ∷ as') =
      if nat_eqb (shard_index (key_of a)) i then a ∷ of_shard i as' else of_shard i as'

  -- The groups from shard `i` on, over `rounds` shards.
  unfoldable pub groups_from : ℕ → ℕ → List A → List A
  unfolding of_shard
  groups_from zero i as' = []
  groups_from (suc rounds) i as' = of_shard i as' ++ groups_from rounds (i + 1) as'

  unfoldable pub by_shard : List A → List A
  unfolding groups_from
  by_shard as' = groups_from tuple_state_shard_count 0 as'

-- A loop over the entries.
unfoldable pub for_each {ℓ} : {A : Type ℓ} → (Manager → A → Manager) → Manager → List A → Manager
for_each body m [] = m
for_each body m (a ∷ as') = for_each body (body m a) as'

abbrev pub owned_by : ℕ → TupleState → Bool
owned_by txn_id state = option_eqb state.owner (some txn_id)

-- One round of `ReleaseWriteOwners`.
unfoldable pub release_owner : ℕ → Manager → TupleKey → Manager
unfolding publish
release_owner txn_id m key = elim (get_tuple_state m key) [
  | none ↦ m
  | some state ↦
      if owned_by txn_id state
      then set_shard m key (publish (shard_for m key) key (record state { owner = none }))
      else m
]

unfoldable pub release_write_owners : Manager → List TupleKey → Option Transaction → Manager
unfolding for_each release_owner by_shard
release_write_owners m keys none = m
release_write_owners m keys (some txn) =
    notify_release (for_each (release_owner txn.txn_id) m (by_shard (λ k. k) keys))

-- One round of the publication of tuple states in `commit`.
unfoldable pub commit_state : ℕ → ℕ → Manager → TupleKey → Manager
unfolding publish
commit_state txn_id commit_ts m key = elim (get_tuple_state m key) [
  | none ↦ m
  | some state ↦
      if owned_by txn_id state
      then set_shard m key (
          publish (shard_for m key) key (record state { owner = none; commit_ts = some commit_ts }))
      else m
]

abbrev pub snapshot_keys : Transaction → List TupleKey
snapshot_keys txn = map (λ e. e.0) txn.tuple_write_states

-- `ClearTupleWriteStates`
abbrev pub cleared : Transaction → Transaction
cleared txn = record txn { tuple_write_states = [] }

-- The second phase of `commit`, for the tuple states.
unfoldable pub commit_tuple_states : Manager → Transaction → ℕ → Manager
unfolding for_each commit_state by_shard
commit_tuple_states m txn commit_ts =
    set_transaction
      (for_each (commit_state txn.txn_id commit_ts) m (by_shard (λ k. k) (snapshot_keys txn)))
      (cleared txn)

abbrev restore_entry : Manager → TupleKey × TxnTupleWriteState → Manager
restore_entry m e = restore_state m e.0 e.1

-- The restoration of tuple states in `abort`.
unfoldable pub abort_tuple_states : Manager → Transaction → Manager
unfolding for_each restore_state by_shard
abort_tuple_states m txn = notify_release (
    set_transaction (for_each restore_entry m (by_shard (λ e. e.0) txn.tuple_write_states))
      (cleared txn))

-- One round of `GarbageCollectTupleStatesForRetired`.
unfoldable pub collect_state : ℕ → Manager → TupleKey → Manager
unfolding erase_state
collect_state watermark m key = elim (get_tuple_state m key) [
  | none ↦ m
  | some state ↦
      if not (has_value state.owner)
        && (not state.is_deleted && ts_leb state.commit_ts (some watermark))
      then erase_state m key
      else m
]

-- The keys of each retired transaction, which are sorted by shard already.
unfoldable pub garbage_collect_tuple_states : Manager → List (List TupleKey) → ℕ → Manager
unfolding for_each collect_state
garbage_collect_tuple_states m [] watermark = m
garbage_collect_tuple_states m (keys ∷ rest) watermark =
    garbage_collect_tuple_states (for_each (collect_state watermark) m keys) rest watermark
