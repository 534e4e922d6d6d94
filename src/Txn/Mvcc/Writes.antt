-- ===== src/Txn/Mvcc/Writes.antt =====
-- The writes of transaction/transaction_manager.cpp to one tuple state. A transaction that is not in
-- `txn_map` stands for the null pointer.
use database.Prelude.{
  ℕ, ◌+◌, [], ◌∷◌, ◌++◌, Option, none, some, Bool, true, false, not, ◌&&◌, if◌then◌else◌,
  option_eqb, nat_eq, bool_eqb, has_value, lookup, insert, length,
}
use database.Txn.Defs.{
  ts_leb, RmRecord, TupleKey, UndoLink, UndoLog, TupleState, Transaction, fresh_state, no_link,
  WriteCheckResult, TupleWriteKind, WriteCheckOutcome, Error, Result, done, throw, key_eq, ok,
  conflict_with_active_writer, conflict_with_committed_version, not_visible_or_deleted,
}
use database.Txn.Mvcc.{
  Manager, TupleStateShard, shard_for, set_shard, get_tuple_state, set_transaction,
  mark_has_mvcc_state, has_entry,
}

-- `try_emplace(key, TupleState{})`
unfoldable pub emplace : TupleStateShard → TupleKey → TupleStateShard
emplace shard key = if has_entry (lookup key shard.states) then shard else record shard {
  states = insert key fresh_state shard.states;
  approx_size = shard.approx_size + 1;
}

abbrev pub state_or_fresh : Option TupleState → TupleState
state_or_fresh none = fresh_state
state_or_fresh (some s) = s

-- A write through the iterator into the map, and the new epoch.
unfoldable pub publish : TupleStateShard → TupleKey → TupleState → TupleStateShard
publish shard key state = record shard {
  states = insert key state shard.states;
  publication_epoch = shard.publication_epoch + 1;
}

abbrev pub outcome : WriteCheckResult → Bool → Option ℕ → WriteCheckOutcome
outcome result newly_acquired owner = record {
  result = result;
  newly_acquired = newly_acquired;
  owner = owner;
  newly_recorded_tuple_state = false;
  changed_owned_delete_flag = false;
  previous_owned_delete_flag = false;
}

-- The checks that both entry points make, in their order, on a state that the transaction does not
-- own: the refusal, or `none` where the write may go ahead.
unfoldable pub refusal : TupleState → ℕ → Option WriteCheckOutcome
refusal state start_ts =
    if has_value state.owner
    then some (outcome conflict_with_active_writer false state.owner)
    else if not (ts_leb state.commit_ts (some start_ts))
    then some (outcome conflict_with_committed_version false none)
    else if state.is_deleted && ts_leb state.commit_ts (some start_ts)
    then some (outcome not_visible_or_deleted false none)
    else none

-- The body of `CheckAndAcquireWrite` under the lock.
unfoldable pub check_locked :
    TupleStateShard → TupleKey → TupleState → Transaction → WriteCheckOutcome × TupleStateShard
unfolding refusal publish
check_locked shard key state txn =
    if option_eqb state.owner (some txn.txn_id)
    then (outcome ok false none, shard)
    else elim (refusal state txn.start_ts) [
      | some refused ↦ (refused, shard)
      | none ↦ (outcome ok true none, publish shard key (record state { owner = some txn.txn_id }))
    ]

unfoldable pub check_and_acquire_write :
    Manager → TupleKey → Option Transaction → Result (WriteCheckOutcome × Manager)
unfolding check_locked
check_and_acquire_write m key none = throw Error.internal_error
check_and_acquire_write m key (some txn) =
    let m' = mark_has_mvcc_state m key.fd in
    let state = state_or_fresh (get_tuple_state m' key) in
    let (out, shard) = check_locked (emplace (shard_for m' key) key) key state txn in
    done (out, set_shard m' key shard)

abbrev pub deletes : TupleWriteKind → Bool
deletes TupleWriteKind.update = false
deletes TupleWriteKind.delete = true

abbrev pub link_or_default : Option UndoLink → UndoLink
link_or_default none = no_link
link_or_default (some l) = l

-- The undo log of a first write.
abbrev pub undo_of : TupleState → RmRecord → UndoLog
undo_of state old_record = record {
  is_deleted = state.is_deleted;
  payload = old_record;
  ts = state.commit_ts;
  prev_version = link_or_default state.undo_head;
}

-- `AppendUndoLog` and `SetTupleWriteState`
abbrev pub with_first_write : Transaction → TupleKey → TupleState → RmRecord → Transaction
with_first_write txn key state old_record = record txn {
  undo_logs = txn.undo_logs ++ undo_of state old_record ∷ [];
  tuple_write_states =
      insert key
        (record { inserted_by_txn = false; has_before_state = true; before_first_write = state })
        txn.tuple_write_states;
}

-- The link that `AppendUndoLog` returns.
abbrev pub next_link : Transaction → UndoLink
next_link txn = record { prev_txn = some txn.txn_id; prev_log_idx = length txn.undo_logs }

abbrev pub has_tuple_write_state : Transaction → TupleKey → Bool
has_tuple_write_state txn key = has_value (lookup key txn.tuple_write_states)

-- The end of `AcquireWriteAndRecord`: the first write of the transaction keeps the old version.
unfoldable pub take_ownership :
    Manager → TupleKey → TupleState → RmRecord → Transaction → Bool → WriteCheckOutcome × Manager
unfolding publish
take_ownership m key state old_record txn deleted =
    let shard = emplace (shard_for m key) key in
    if has_tuple_write_state txn key
    then (
      record (outcome ok true none) { newly_recorded_tuple_state = false },
      set_shard m key
          (publish shard key (record state { owner = some txn.txn_id; is_deleted = deleted })),
    )
    else (
      record (outcome ok true none) { newly_recorded_tuple_state = true },
      set_transaction
          (set_shard m key (
            publish shard key (record state {
              owner = some txn.txn_id;
              is_deleted = deleted;
              undo_head = some (next_link txn);
            })))
          (with_first_write txn key state old_record),
    )

-- A write to a tuple that the transaction owns already changes the deletion flag only.
unfoldable pub set_owned_flag : Manager → TupleKey → TupleState → Bool → WriteCheckOutcome × Manager
unfolding publish
set_owned_flag m key state deleted =
    let shard = emplace (shard_for m key) key in
    let changed = not (bool_eqb state.is_deleted deleted) in
    (
      record (outcome ok false none) {
        changed_owned_delete_flag = changed;
        previous_owned_delete_flag = state.is_deleted;
      },
      set_shard m key
          (if changed then publish shard key (record state { is_deleted = deleted }) else shard),
    )

unfoldable pub acquire_write_and_record :
    Manager
    → TupleKey
    → RmRecord
    → Option Transaction
    → TupleWriteKind
    → Result (WriteCheckOutcome × Manager)
unfolding refusal take_ownership set_owned_flag
acquire_write_and_record m key old_record none kind = throw Error.internal_error
acquire_write_and_record m key old_record (some txn) kind =
    let m' = mark_has_mvcc_state m key.fd in
    let state = state_or_fresh (get_tuple_state m' key) in
    if option_eqb state.owner (some txn.txn_id)
    then done (set_owned_flag m' key state (deletes kind))
    else elim (refusal state txn.start_ts) [
      | some refused ↦ done (refused, set_shard m' key (emplace (shard_for m' key) key))
      | none ↦ done (take_ownership m' key state old_record txn (deletes kind))
    ]
