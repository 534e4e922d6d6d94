-- ===== src/Txn/Mvcc.antt =====
-- The version store of transaction/transaction_manager.cpp: tuple states in shards, undo logs in the
-- transactions. A call that holds its shard's lock throughout is one step.
pub mod Shards
pub mod Reads
pub mod Writes
pub mod Records
pub mod Endings
pub mod States
pub mod Snapshot
pub mod Conflicts
pub mod Tests
pub mod FirstWrites
use database.Prelude.{
  ℕ, ◌+◌, ◌-◌, Option, none, some, Bool, true, false, if◌then◌else◌, Map, lookup, insert, erase,
  get_elem?, nat_eqb, nat_eq,
}
use database.Txn.Defs.{
  TupleKey, TupleState, Transaction, UndoLink, UndoLog, key_eq, fresh_state, Result, done, throw,
  Error,
}
use Shards.{shard_index}

pub record TupleStateShard : Type 0 where
  pub states : Map TupleKey TupleState
  pub approx_size : ℕ
  pub publication_epoch : ℕ

-- `has_mvcc_state` holds the flag of each open file, `release_epoch` the epoch of the global
-- `ConflictWaiter`.
pub record Manager : Type 0 where
  pub tuple_state_shards : ℕ → TupleStateShard
  pub has_mvcc_state : ℕ → Bool
  pub txn_map : Map ℕ Transaction
  pub last_commit_ts : ℕ
  pub release_epoch : ℕ

unfoldable pub shard_for : Manager → TupleKey → TupleStateShard
shard_for m key = m.tuple_state_shards (shard_index key)

-- The manager after a change of one shard.
unfoldable pub set_shard : Manager → TupleKey → TupleStateShard → Manager
set_shard m key s = record m {
  tuple_state_shards = λ i. if nat_eqb (shard_index key) i then s else m.tuple_state_shards i;
}

unfoldable pub get_tuple_state : Manager → TupleKey → Option TupleState
unfolding shard_for
get_tuple_state m key = lookup key (shard_for m key).states

unfoldable pub get_tuple_publication_epoch : Manager → TupleKey → ℕ
unfolding shard_for
get_tuple_publication_epoch m key = (shard_for m key).publication_epoch

abbrev pub has_entry : Option TupleState → Bool
has_entry none = false
has_entry (some s) = true

-- `try_emplace`, which counts a new entry, and then the assignment with its new epoch.
unfoldable pub assign_tuple_state_locked : TupleStateShard → TupleKey → TupleState → TupleStateShard
assign_tuple_state_locked shard key state = record {
  states = insert key state shard.states;
  approx_size =
      if has_entry (lookup key shard.states) then shard.approx_size else shard.approx_size + 1;
  publication_epoch = shard.publication_epoch + 1;
}

unfoldable pub erase_tuple_state_locked : TupleStateShard → TupleKey → TupleStateShard
erase_tuple_state_locked shard key =
    if has_entry (lookup key shard.states)
    then record {
      states = erase key shard.states;
      approx_size = shard.approx_size - 1;
      publication_epoch = shard.publication_epoch + 1;
    }
    else shard

-- `FindTransaction`
unfoldable pub find_transaction : Manager → Option ℕ → Option Transaction
find_transaction m none = none
find_transaction m (some id) = lookup id m.txn_map

unfoldable pub get_undo_log_optional : Manager → UndoLink → Option UndoLog
unfolding find_transaction
get_undo_log_optional m link = elim (find_transaction m link.prev_txn) [
  | none ↦ none
  | some txn ↦ get_elem? txn.undo_logs link.prev_log_idx
]

unfoldable pub get_undo_log : Manager → UndoLink → Result UndoLog
get_undo_log m link = elim (get_undo_log_optional m link) [
  | none ↦ throw Error.internal_error
  | some undo ↦ done undo
]

-- A write to the transaction object that `txn_map` points at.
unfoldable pub set_transaction : Manager → Transaction → Manager
set_transaction m txn = record m { txn_map = insert txn.txn_id txn m.txn_map }

unfoldable pub mark_has_mvcc_state : Manager → ℕ → Manager
mark_has_mvcc_state m fd = record m {
  has_mvcc_state = λ f. if nat_eqb fd f then true else m.has_mvcc_state f;
}

-- `GlobalConflictWaiter().NotifyRelease()`
unfoldable pub notify_release : Manager → Manager
notify_release m = record m { release_epoch = m.release_epoch + 1 }
