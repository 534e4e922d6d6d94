-- ===== src/Txn/Mvcc/FirstWrites.antt =====
-- The two ways to a first write in transaction/transaction_manager.cpp: `AcquireWriteAndRecord`, and
-- `CheckAndAcquireWrite` with `RecordUpdate` or `RecordDelete` after it.
use database.Prelude.{
  Map, ℕ, ◌≡◌, refl, ap, ◌∙◌, Option, none, some, true, false, if◌then◌else◌, arith, option_eqb_iff,
  nat_eq, insert,
}
use database.Txn.Defs.{
  RmRecord, TupleKey, TupleState, Transaction, key_eqb, key_eq, ts_leb, TupleWriteKind,
  WriteCheckOutcome, ok, Result, done, ◌>>=◌,
}
use database.Txn.Mvcc.{
  Manager, get_tuple_state, set_transaction, set_shard, shard_for, mark_has_mvcc_state,
}
use database.Txn.Mvcc.Writes.{
  state_or_fresh, acquire_write_and_record, check_and_acquire_write, check_locked, refusal,
  take_ownership, has_tuple_write_state, with_first_write, next_link, emplace, publish, deletes,
  outcome,
}
use database.Txn.Mvcc.Records.{record_version, assign_state, disowned}
use database.Txn.Mvcc.States.{
  get-publish-emplace, get-mark_has_mvcc_state, get-set_transaction, get-assign_state, key_eqb_self,
}

-- The manager after the two calls that the fused one replaces.
unfoldable pub check_then_record :
    Manager
    → TupleKey
    → RmRecord
    → Transaction
    → TupleWriteKind
    → Result (WriteCheckOutcome × Manager)
unfolding record_version
check_then_record m key old txn kind = do
  (out, m₁) ← check_and_acquire_write m key (some txn)
  done (out, record_version m₁ key old txn (deletes kind))

-- What a call leaves: the tuple states and the transactions.
abbrev pub Leaves :
    Result (WriteCheckOutcome × Manager)
    → (TupleKey → Option TupleState)
    → Map ℕ Transaction
    → Type 0
Leaves r states txns =
    (out : WriteCheckOutcome) × (m' : Manager) × (r ≡ done (out, m'))
    × (out.result ≡ ok)
    × (out.newly_acquired ≡ true)
    × ((k : TupleKey) → get_tuple_state m' k ≡ states k)
    × (m'.txn_map ≡ txns)

-- The tuple state, and the transaction, after a granted first write.
abbrev pub first_write_states :
    Manager → TupleKey → TupleState → Transaction → TupleWriteKind → TupleKey → Option TupleState
first_write_states m key s txn kind k =
    if key_eqb key k
    then some (record s {
      owner = some txn.txn_id;
      is_deleted = deletes kind;
      undo_head = some (next_link txn);
    })
    else get_tuple_state m k

module _ (m : Manager) (key : TupleKey) (old : RmRecord) (txn : Transaction) (kind : TupleWriteKind)
    (s : TupleState) (e : state_or_fresh (get_tuple_state m key) ≡ s) (free : s.owner ≡ none)
    (covered : ts_leb s.commit_ts (some txn.start_ts) ≡ true) (live : s.is_deleted ≡ false)
    (first : has_tuple_write_state txn key ≡ false) where
  not_refused : refusal s txn.start_ts ≡ none
  unfolding refusal
  not_refused = ground arith

  fused_manager : Manager
  fused_manager =
      let m₁ = mark_has_mvcc_state m key.fd in
      set_transaction
        (set_shard m₁ key (
          publish (emplace (shard_for m₁ key) key) key (record s {
            owner = some txn.txn_id;
            is_deleted = deletes kind;
            undo_head = some (next_link txn);
          })))
        (with_first_write txn key s old)

  fused_call :
      acquire_write_and_record m key old (some txn) kind
      ≡ done (record (outcome ok true none) { newly_recorded_tuple_state = true }, fused_manager)
  unfolding acquire_write_and_record take_ownership fused_manager
  fused_call = ground (arith, get-mark_has_mvcc_state m key.fd key, not_refused)

  fused-Leaves :
      Leaves
        (acquire_write_and_record m key old (some txn) kind)
        (first_write_states m key s txn kind)
        (insert txn.txn_id (with_first_write txn key s old) m.txn_map)
  unfolding fused_manager set_transaction mark_has_mvcc_state set_shard
  fused-Leaves = (
    record (outcome ok true none) { newly_recorded_tuple_state = true },
    fused_manager,
    fused_call,
    refl,
    refl,
    λ k.
        get-set_transaction _ (with_first_write txn key s old) k
        ∙ get-publish-emplace (mark_has_mvcc_state m key.fd) key k _
        ∙ ground (arith, get-mark_has_mvcc_state m key.fd k),
    refl,
  )

  owned : TupleState
  owned = record s { owner = some txn.txn_id }

  checked : Manager
  checked =
      let m₁ = mark_has_mvcc_state m key.fd in
      set_shard m₁ key
        (publish (emplace (shard_for m₁ key) key) key (record s { owner = some txn.txn_id }))

  checked_call : check_and_acquire_write m key (some txn) ≡ done (outcome ok true none, checked)
  unfolding check_and_acquire_write check_locked checked
  checked_call = ground (arith, get-mark_has_mvcc_state m key.fd key, not_refused)

  get-checked :
      (k : TupleKey)
      → get_tuple_state checked k ≡ (
          if key_eqb key k
          then some (record s { owner = some txn.txn_id })
          else get_tuple_state m k)
  unfolding checked
  get-checked k =
      get-publish-emplace (mark_has_mvcc_state m key.fd) key k _
      ∙ ground (arith, get-mark_has_mvcc_state m key.fd k)

  disowned-owned : disowned owned txn ≡ s
  unfolding owned
  disowned-owned = ground (arith, (option_eqb_iff (some txn.txn_id) (some txn.txn_id)).1 refl)

  recorded :
      record_version checked key old txn (deletes kind)
      ≡ set_transaction
          (assign_state (mark_has_mvcc_state checked key.fd) key (record s {
            owner = some txn.txn_id;
            is_deleted = deletes kind;
            undo_head = some (next_link txn);
          }))
          (with_first_write txn key s old)
  unfolding record_version owned
  recorded = ground (
    arith,
    get-mark_has_mvcc_state checked key.fd key,
    get-checked key,
    key_eqb_self key,
    first,
    disowned-owned,
  )

  recorded_states :
      (k : TupleKey)
      → get_tuple_state (record_version checked key old txn (deletes kind)) k
        ≡ first_write_states m key s txn kind k
  recorded_states k =
      ap (λ n. get_tuple_state n k) recorded
      ∙ get-set_transaction _ (with_first_write txn key s old) k
      ∙ get-assign_state (mark_has_mvcc_state checked key.fd) key k _
      ∙ ground (arith, get-mark_has_mvcc_state checked key.fd k, get-checked k)

  -- A first write through `AcquireWriteAndRecord`, and the same write through
  -- `CheckAndAcquireWrite` with `RecordUpdate` or `RecordDelete` after it, are both granted, and
  -- leave the same tuple states and the same transactions. The tuple has no owner, is not deleted,
  -- and was committed in the snapshot of the transaction, which has no write state of it yet.
  pub acquire_write_and_record-check_then_record :
      Leaves
        (acquire_write_and_record m key old (some txn) kind)
        (first_write_states m key s txn kind)
        (insert txn.txn_id (with_first_write txn key s old) m.txn_map)
      × Leaves
          (check_then_record m key old txn kind)
          (first_write_states m key s txn kind)
          (insert txn.txn_id (with_first_write txn key s old) m.txn_map)
  unfolding check_then_record checked set_transaction mark_has_mvcc_state set_shard assign_state
  acquire_write_and_record-check_then_record = (
    fused-Leaves,
    (
      outcome ok true none,
      record_version checked key old txn (deletes kind),
      rw checked_call refl,
      refl,
      refl,
      recorded_states,
      ap (λ n. n.txn_map) recorded,
    ),
  )
