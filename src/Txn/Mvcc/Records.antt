-- ===== src/Txn/Mvcc/Records.antt =====
-- `RecordInsert`, `RecordUpdate`, `RecordDelete`, `RecoverySetTupleState` and the statement-level
-- restores of transaction/transaction_manager.cpp.
use database.Prelude.{
  ℕ, List, [], ◌∷◌, Option, none, some, Bool, true, false, not, ◌&&◌, if◌then◌else◌, option_eqb,
  nat_eq, lookup, insert, erase, reverse,
}
use database.Txn.Defs.{
  Timestamp, RmRecord, TupleKey, TupleState, Transaction, TxnTupleWriteState, fresh_state, key_eq,
}
use database.Txn.Mvcc.{
  Manager, shard_for, set_shard, get_tuple_state, assign_tuple_state_locked,
  erase_tuple_state_locked, set_transaction, mark_has_mvcc_state,
}
use database.Txn.Mvcc.Writes.{
  state_or_fresh, has_tuple_write_state, with_first_write, next_link, publish,
}

-- `AssignTupleStateLocked` in the shard of the key.
unfoldable pub assign_state : Manager → TupleKey → TupleState → Manager
assign_state m key state = set_shard m key (assign_tuple_state_locked (shard_for m key) key state)

unfoldable pub erase_state : Manager → TupleKey → Manager
erase_state m key = set_shard m key (erase_tuple_state_locked (shard_for m key) key)

unfoldable pub record_insert : Manager → TupleKey → Option Transaction → Manager
unfolding assign_state
record_insert m key none = m
record_insert m key (some txn) =
    let m' = assign_state (mark_has_mvcc_state m key.fd) key (record {
      commit_ts = none;
      owner = some txn.txn_id;
      is_deleted = false;
      undo_head = none;
    }) in
    if has_tuple_write_state txn key
    then m'
    else set_transaction m' (record txn {
      tuple_write_states =
          insert key
            (record {
              inserted_by_txn = true;
              has_before_state = false;
              before_first_write = fresh_state;
            })
            txn.tuple_write_states;
    })

-- The state before a first write, without the ownership that `CheckAndAcquireWrite` took.
abbrev pub disowned : TupleState → Transaction → TupleState
disowned before txn =
    if option_eqb before.owner (some txn.txn_id) then record before { owner = none } else before

-- The common body of `RecordUpdate` and `RecordDelete`, which differ in the flag.
unfoldable pub record_version : Manager → TupleKey → RmRecord → Transaction → Bool → Manager
unfolding assign_state
record_version m key old_record txn deleted =
    let m' = mark_has_mvcc_state m key.fd in
    let before = state_or_fresh (get_tuple_state m' key) in
    if has_tuple_write_state txn key
    then assign_state m' key (record before { owner = some txn.txn_id; is_deleted = deleted })
    else set_transaction
        (assign_state m' key (record before {
          owner = some txn.txn_id;
          is_deleted = deleted;
          undo_head = some (next_link txn);
        }))
        (with_first_write txn key (disowned before txn) old_record)

unfoldable pub record_update : Manager → TupleKey → RmRecord → Option Transaction → Manager
unfolding record_version
record_update m key old_record none = m
record_update m key old_record (some txn) = record_version m key old_record txn false

unfoldable pub record_delete : Manager → TupleKey → RmRecord → Option Transaction → Manager
unfolding record_version
record_delete m key old_record none = m
record_delete m key old_record (some txn) = record_version m key old_record txn true

-- The state goes back to what it was before the transaction's first write.
unfoldable pub restore_state : Manager → TupleKey → TxnTupleWriteState → Manager
unfolding assign_state erase_state
restore_state m key w =
    if w.inserted_by_txn && not w.has_before_state
    then erase_state m key
    else if w.has_before_state
    then assign_state m key w.before_first_write
    else erase_state m key

unfoldable pub restore_tuple_state_for_statement : Manager → TupleKey → Option Transaction → Manager
unfolding restore_state
restore_tuple_state_for_statement m key none = m
restore_tuple_state_for_statement m key (some txn) = elim (lookup key txn.tuple_write_states) [
  | none ↦ m
  | some w ↦
      set_transaction (restore_state m key w)
        (record txn { tuple_write_states = erase key txn.tuple_write_states })
]

pub record OwnedTupleFlagChange : Type 0 where
  pub key : TupleKey
  pub previous_is_deleted : Bool

-- One round of `RestoreOwnedTupleFlags`.
unfoldable pub restore_flag : Manager → OwnedTupleFlagChange → ℕ → Manager
unfolding publish
restore_flag m c txn_id = elim (get_tuple_state m c.key) [
  | none ↦ m
  | some state ↦
      if option_eqb state.owner (some txn_id)
      then set_shard m c.key
          (publish (shard_for m c.key) c.key (record state { is_deleted = c.previous_is_deleted }))
      else m
]

unfoldable pub restore_flags : Manager → List OwnedTupleFlagChange → ℕ → Manager
unfolding restore_flag
restore_flags m [] txn_id = m
restore_flags m (c ∷ cs) txn_id = restore_flags (restore_flag m c txn_id) cs txn_id

-- In reverse order of the changes.
unfoldable pub restore_owned_tuple_flags :
    Manager → List OwnedTupleFlagChange → Option Transaction → Manager
unfolding restore_flags
restore_owned_tuple_flags m changes none = m
restore_owned_tuple_flags m changes (some txn) = restore_flags m (reverse changes) txn.txn_id

unfoldable pub recovery_set_tuple_state : Manager → TupleKey → Timestamp → Bool → Manager
unfolding assign_state
recovery_set_tuple_state m key commit_ts is_deleted =
    assign_state (mark_has_mvcc_state m key.fd) key
      (record { commit_ts = commit_ts; owner = none; is_deleted = is_deleted; undo_head = none })
