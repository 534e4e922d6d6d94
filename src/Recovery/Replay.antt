-- ===== src/Recovery/Replay.antt =====
-- `RecoveryManager::redo` and `undo` of recovery/log_recovery.cpp, over the heap files of the tables. A
-- table's file stands under the table's name; the tuple's key holds that name, where the source has the
-- descriptor of the table's open file. The records and the committed transactions, which the
-- scan of the log collects, are arguments, and the rebuilding of the indexes that follows is not modelled.
pub mod Images
pub mod Changes
pub mod Passes
pub mod Undone
pub mod Recover
mod Tests
use database.Prelude.{
  ℕ, ◌≡◌, ◌↔◌, List, [], ◌∷◌, reverse, Option, none, some, Bool, true, false, not, ◌&&◌, ◌||◌,
  if◌then◌else◌, ltb, leb, nat_eqb, Map, Eq, lookup, insert as map_insert, has_value, nat_eq, arith,
}
use database.Txn.Defs.{Rid, RmRecord, Result, done, throw}
use database.Txn.Unique.Keys.{bytes_eqb, bytes_eqb_iff}
use database.Record.{RmFileHandle}
use database.Record.Ops.{is_record, insert_record_at, update_record, delete_record_quarantine}
use database.Recovery.{LogBody, LogRecord, begin, abort, commit, checkpoint, insert, delete, update}

instance abbrev pub bytes_eq : Eq (List ℕ)
bytes_eq = record { test = bytes_eqb; test_iff = bytes_eqb_iff }

-- The heap files of the open tables, `fhs_`.
abbrev pub Tables : Type 0
Tables = Map (List ℕ) RmFileHandle

pub record RowKey : Type 0 where
  pub table_name : List ℕ
  pub rid : Rid

abbrev pub row_key_eqb : RowKey → RowKey → Bool
row_key_eqb a b =
    bytes_eqb a.table_name b.table_name
    && (nat_eqb a.rid.page_no b.rid.page_no && nat_eqb a.rid.slot_no b.rid.slot_no)

pub row_key_eqb_iff : (a b : RowKey) → (row_key_eqb a b ≡ true) ↔ (a ≡ b)
row_key_eqb_iff a b = ground (arith, bytes_eqb_iff a.table_name b.table_name)

instance abbrev pub row_key_eq : Eq RowKey
row_key_eq = record { test = row_key_eqb; test_iff = row_key_eqb_iff }

-- `IsDml`, with the tuple that the record is about.
unfoldable pub dml_key : LogBody → Option RowKey
dml_key begin = none
dml_key abort = none
dml_key (commit ts) = none
dml_key (checkpoint a b c d) = none
dml_key (insert v r t) = some (record { table_name = t; rid = r })
dml_key (delete v r t) = some (record { table_name = t; rid = r })
dml_key (update o n r t) = some (record { table_name = t; rid = r })

-- `HeapRidExists`
unfoldable pub heap_rid_exists : RmFileHandle → Rid → Result Bool
heap_rid_exists fh rid =
    if leb fh.file_hdr.num_pages rid.page_no then done false else is_record fh rid

-- The image is written over the record at the rid, or inserted there.
unfoldable pub apply_image : RmFileHandle → Rid → RmRecord → ℕ → Result (Unit {0}) × RmFileHandle
apply_image fh rid value lsn = elim (heap_rid_exists fh rid) [
  | throw e ↦ (throw e, fh)
  | done exists ↦
      if exists
      then update_record fh rid value (some lsn)
      else insert_record_at fh rid value (some lsn)
]

-- A call on the file of a table, which is passed over where the table is not open.
unfoldable pub on_table :
    Tables → List ℕ → (RmFileHandle → Result (Unit {0}) × RmFileHandle) → Result (Unit {0}) × Tables
on_table fhs table_name call = elim (lookup table_name fhs) [
  | none ↦ (done tt, fhs)
  | some fh ↦ let (r, fh') = call fh in (r, map_insert table_name fh' fhs)
]

unfoldable pub redo_body : Tables → ℕ → LogBody → Result (Unit {0}) × Tables
redo_body fhs lsn begin = (done tt, fhs)
redo_body fhs lsn abort = (done tt, fhs)
redo_body fhs lsn (commit ts) = (done tt, fhs)
redo_body fhs lsn (checkpoint a b c d) = (done tt, fhs)
redo_body fhs lsn (insert v r t) = on_table fhs t (λ fh. apply_image fh r v lsn)
redo_body fhs lsn (update o n r t) = on_table fhs t (λ fh. apply_image fh r n lsn)
redo_body fhs lsn (delete v r t) = on_table fhs t (λ fh. delete_record_quarantine fh r (some lsn))

unfoldable pub undo_body : Tables → ℕ → LogBody → Result (Unit {0}) × Tables
undo_body fhs lsn begin = (done tt, fhs)
undo_body fhs lsn abort = (done tt, fhs)
undo_body fhs lsn (commit ts) = (done tt, fhs)
undo_body fhs lsn (checkpoint a b c d) = (done tt, fhs)
undo_body fhs lsn (insert v r t) = on_table fhs t (λ fh. delete_record_quarantine fh r (some lsn))
undo_body fhs lsn (update o n r t) = on_table fhs t (λ fh. apply_image fh r o lsn)
undo_body fhs lsn (delete v r t) = on_table fhs t (λ fh. apply_image fh r v lsn)

-- `committed_txns_.count(log_tid) > 0`
abbrev pub is_committed : Map ℕ ℕ → LogRecord → Bool
is_committed committed r = has_value (lookup r.log_tid committed)

-- `redo`
unfoldable pub redo_record : Map ℕ ℕ → Tables → LogRecord → Result (Unit {0}) × Tables
redo_record committed fhs r =
    if has_value (dml_key r.body) && is_committed committed r
    then redo_body fhs r.lsn r.body
    else (done tt, fhs)

unfoldable pub redo : Map ℕ ℕ → List LogRecord → Tables → Result (Unit {0}) × Tables
redo committed [] fhs = (done tt, fhs)
redo committed (r ∷ logs) fhs =
    let (done_one, fhs') = redo_record committed fhs r in
    elim done_one [ throw e ↦ (throw e, fhs') | done _ ↦ redo committed logs fhs' ]

-- One round of the loop over `records_` that fills `latest_committed_write`.
unfoldable pub note_write : Map ℕ ℕ → Tables → Map RowKey ℕ → LogRecord → Map RowKey ℕ
note_write committed fhs latest r = elim (dml_key r.body) [
  | none ↦ latest
  | some key ↦
      if is_committed committed r && has_value (lookup key.table_name fhs)
      then map_insert key r.lsn latest
      else latest
]

unfoldable pub latest_committed_write :
    Map ℕ ℕ → Tables → List LogRecord → Map RowKey ℕ → Map RowKey ℕ
latest_committed_write committed fhs [] latest = latest
latest_committed_write committed fhs (r ∷ logs) latest =
    latest_committed_write committed fhs logs (note_write committed fhs latest r)

-- A later committed write of the tuple was found.
abbrev pub is_later : Option ℕ → ℕ → Bool
is_later none lsn = false
is_later (some committed_lsn) lsn = ltb lsn committed_lsn

-- One round of `undo`: the records of losers, less those under a later committed write.
unfoldable pub undo_record :
    Map ℕ ℕ → Map RowKey ℕ → Tables → LogRecord → Result (Unit {0}) × Tables
undo_record committed latest fhs r = elim (dml_key r.body) [
  | none ↦ (done tt, fhs)
  | some key ↦
      if is_committed committed r || is_later (lookup key latest) r.lsn
      then (done tt, fhs)
      else undo_body fhs r.lsn r.body
]

unfoldable pub undo_all :
    Map ℕ ℕ → Map RowKey ℕ → List LogRecord → Tables → Result (Unit {0}) × Tables
undo_all committed latest [] fhs = (done tt, fhs)
undo_all committed latest (r ∷ logs) fhs =
    let (done_one, fhs') = undo_record committed latest fhs r in
    elim done_one [ throw e ↦ (throw e, fhs') | done _ ↦ undo_all committed latest logs fhs' ]

-- `undo`: the last record first.
unfoldable pub undo : Map ℕ ℕ → List LogRecord → Tables → Result (Unit {0}) × Tables
undo committed logs fhs =
    undo_all committed (latest_committed_write committed fhs logs []) (reverse logs) fhs

-- The two passes that follow the analysis.
unfoldable pub recover : Map ℕ ℕ → List LogRecord → Tables → Result (Unit {0}) × Tables
recover committed logs fhs =
    let (redone, fhs₁) = redo committed logs fhs in
    elim redone [ throw e ↦ (throw e, fhs₁) | done _ ↦ undo committed logs fhs₁ ]
