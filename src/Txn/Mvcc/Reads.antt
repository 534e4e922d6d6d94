-- ===== src/Txn/Mvcc/Reads.antt =====
-- What a snapshot sees of one tuple: `GetVisibleTuple` and `ResolveVisibleTupleImpl` of
-- transaction/transaction_manager.cpp. The walk along the undo links takes fuel; `none` means that
-- it ran out.
use database.Prelude.{
  ℕ, zero, suc, Option, none, some, Bool, true, false, not, ◌&&◌, if◌then◌else◌, option_eqb, nat_eq,
  has_value,
}
use database.Txn.Defs.{
  Timestamp, ts_leb, RmRecord, TupleKey, UndoLink, UndoLog, TupleState, Transaction, is_valid,
}
use database.Txn.Mvcc.{Manager, get_tuple_state, get_undo_log_optional}

-- The loop along the version chain. An inner `none` is the null record.
unfoldable pub walk :
    ℕ → (UndoLink → Option UndoLog) → Timestamp → UndoLink → Option (Option RmRecord)
walk zero log read_ts link = none
walk (suc fuel) log read_ts link = elim (is_valid link) [
  | false ↦ some none
  | true ↦ elim (log link) [
    | none ↦ some none
    | some undo ↦ elim (ts_leb undo.ts read_ts) [
      | true ↦ some (if undo.is_deleted then none else some undo.payload)
      | false ↦ walk fuel log read_ts undo.prev_version
    ]
  ]
]

unfoldable pub walk_head :
    ℕ → (UndoLink → Option UndoLog) → Timestamp → Option UndoLink → Option (Option RmRecord)
unfolding walk
walk_head fuel log read_ts none = some none
walk_head fuel log read_ts (some link) = walk fuel log read_ts link

-- The part of the function that starts with a tuple state at hand.
unfoldable pub resolve_state :
    ℕ
    → (UndoLink → Option UndoLog)
    → TupleState
    → RmRecord
    → Option ℕ
    → Timestamp
    → Option (Option RmRecord)
unfolding walk_head
resolve_state fuel log state latest reader_id read_ts =
    if option_eqb state.owner reader_id
    then some (if state.is_deleted then none else some latest)
    else if has_value state.owner
    then walk_head fuel log read_ts state.undo_head
    else if ts_leb state.commit_ts read_ts
    then some (if state.is_deleted then none else some latest)
    else walk_head fuel log read_ts state.undo_head

abbrev pub reader_id_of : Option Transaction → Option ℕ
reader_id_of none = none
reader_id_of (some txn) = some txn.txn_id

abbrev pub read_ts_of : Manager → Option Transaction → Timestamp
read_ts_of m none = some m.last_commit_ts
read_ts_of m (some txn) = some txn.start_ts

-- `with_file` says that the caller passed a file handle.
unfoldable pub resolve_visible_tuple_impl :
    ℕ → Manager → Bool → TupleKey → RmRecord → Option Transaction → Option (Option RmRecord)
unfolding resolve_state
resolve_visible_tuple_impl fuel m with_file key latest reader =
    if with_file && not (m.has_mvcc_state key.fd)
    then some (some latest)
    else elim (get_tuple_state m key) [
      | none ↦ some (some latest)
      | some state ↦
          resolve_state fuel (get_undo_log_optional m) state latest (reader_id_of reader)
            (read_ts_of m reader)
    ]

unfoldable pub get_visible_tuple :
    ℕ → Manager → TupleKey → RmRecord → Option Transaction → Option (Option RmRecord)
unfolding resolve_visible_tuple_impl
get_visible_tuple fuel m key latest reader =
    resolve_visible_tuple_impl fuel m false key latest reader
