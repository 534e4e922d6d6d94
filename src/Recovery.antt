-- ===== src/Recovery.antt =====
-- recovery/log_defs.h and recovery/log_manager.h: the records of the write-ahead log and their bytes.
-- A field of w bytes is its bit pattern, a number below 256 ^ w, so that -1 (INVALID_LSN,
-- INVALID_TXN_ID) is 256 ^ w - 1; integers are little-endian. A table name is its bytes. The pointer
-- that a read is given, with its offset, is the list of the bytes from there on.
pub mod Bytes
pub mod Lengths
pub mod RoundTrip
pub mod Manager
pub mod Durable
pub mod Flush
pub mod Analyze
pub mod Replay
mod Tests
use database.Prelude.{
  ℕ, ◌+◌, ◌<◌, List, [], ◌++◌, Option, none, some, Bool, ◌||◌, if◌then◌else◌, ltb, nat_eqb, length,
  take, drop,
}
use database.Txn.Defs.{Rid, RmRecord}
use Bytes.{bytes_of, number_of, get_field}

-- The offsets of the header's fields.
abbrev pub offset_log_type : ℕ
offset_log_type = 0

abbrev pub offset_lsn : ℕ
offset_lsn = 4

abbrev pub offset_log_tot_len : ℕ
offset_log_tot_len = 8

abbrev pub offset_log_tid : ℕ
offset_log_tid = 12

abbrev pub offset_prev_lsn : ℕ
offset_prev_lsn = 20

abbrev pub offset_log_data : ℕ
offset_log_data = 24

abbrev pub log_header_size : ℕ
log_header_size = offset_log_data

abbrev pub invalid_lsn : ℕ
invalid_lsn = 4294967295

-- What the kinds of record hold besides the header.
pub data LogBody : Type 0 where
  begin abort : LogBody
  commit : (commit_ts : ℕ) → LogBody
  checkpoint : (next_txn_id next_timestamp last_commit_ts durable_lsn : ℕ) → LogBody
  insert delete : (value : RmRecord) (rid : Rid) (table_name : List ℕ) → LogBody
  update : (old_value new_value : RmRecord) (rid : Rid) (table_name : List ℕ) → LogBody

pub record LogRecord : Type 0 where
  pub lsn : ℕ
  pub log_tot_len : ℕ
  pub log_tid : ℕ
  pub prev_lsn : ℕ
  pub body : LogBody

-- `LogType`
unfoldable pub log_type : LogBody → ℕ
log_type (update o n r t) = 0
log_type (insert v r t) = 1
log_type (delete v r t) = 2
log_type begin = 3
log_type (commit ts) = 4
log_type abort = 5
log_type (checkpoint a b c d) = 6

-- The sizes of the parts that a constructor adds to the header's.
abbrev pub record_len : RmRecord → ℕ
record_len value = 4 + length value

abbrev pub rid_len : ℕ
rid_len = 8

abbrev pub string_len : List ℕ → ℕ
string_len s = 4 + length s

abbrev pub begin_len : ℕ
begin_len = log_header_size

abbrev pub abort_len : ℕ
abort_len = log_header_size

abbrev pub commit_len : ℕ
commit_len = log_header_size + 8

abbrev pub checkpoint_len : ℕ
checkpoint_len = log_header_size + (8 + 8 + 8 + 4)

abbrev pub insert_len : RmRecord → List ℕ → ℕ
insert_len value table_name = log_header_size + (record_len value + rid_len + string_len table_name)

abbrev pub delete_len : RmRecord → List ℕ → ℕ
delete_len value table_name = log_header_size + (record_len value + rid_len + string_len table_name)

abbrev pub update_len : RmRecord → RmRecord → List ℕ → ℕ
update_len old_value new_value table_name =
    log_header_size
    + (record_len old_value + record_len new_value + rid_len + string_len table_name)

unfoldable pub tot_len : LogBody → ℕ
tot_len begin = begin_len
tot_len abort = abort_len
tot_len (commit ts) = commit_len
tot_len (checkpoint a b c d) = checkpoint_len
tot_len (insert v r t) = insert_len v t
tot_len (delete v r t) = delete_len v t
tot_len (update o n r t) = update_len o n t

-- The constructors that take a transaction id.
unfoldable pub make_record : ℕ → LogBody → LogRecord
make_record txn_id body = record {
  lsn = invalid_lsn;
  log_tot_len = tot_len body;
  log_tid = txn_id;
  prev_lsn = invalid_lsn;
  body = body;
}

-- `WriteRecord`, `WriteBytes` of a rid, `WriteString`.
unfoldable pub write_record : RmRecord → List ℕ
write_record value = bytes_of 4 (length value) ++ value

unfoldable pub write_rid : Rid → List ℕ
write_rid rid = bytes_of 4 rid.page_no ++ bytes_of 4 rid.slot_no

unfoldable pub write_string : List ℕ → List ℕ
write_string s = bytes_of 4 (length s) ++ s

abbrev pub write_commit : ℕ → List ℕ
write_commit commit_ts = bytes_of 8 commit_ts

abbrev pub write_checkpoint : ℕ → ℕ → ℕ → ℕ → List ℕ
write_checkpoint next_txn_id next_timestamp last_commit_ts durable_lsn =
    bytes_of 8 next_txn_id
    ++ (bytes_of 8 next_timestamp ++ (bytes_of 8 last_commit_ts ++ bytes_of 4 durable_lsn))

abbrev pub write_insert : RmRecord → Rid → List ℕ → List ℕ
write_insert value rid table_name = write_record value ++ (write_rid rid ++ write_string table_name)

abbrev pub write_delete : RmRecord → Rid → List ℕ → List ℕ
write_delete value rid table_name = write_record value ++ (write_rid rid ++ write_string table_name)

abbrev pub write_update : RmRecord → RmRecord → Rid → List ℕ → List ℕ
write_update old_value new_value rid table_name =
    write_record old_value ++ (write_record new_value ++ (write_rid rid ++ write_string table_name))

unfoldable pub write_body : LogBody → List ℕ
write_body begin = []
write_body abort = []
write_body (commit ts) = write_commit ts
write_body (checkpoint a b c d) = write_checkpoint a b c d
write_body (insert v r t) = write_insert v r t
write_body (delete v r t) = write_delete v r t
write_body (update o n r t) = write_update o n r t

-- `LogRecord::serialize`
unfoldable pub write_header : LogRecord → List ℕ
write_header r =
    bytes_of 4 (log_type r.body)
    ++ (bytes_of 4 r.lsn
        ++ (bytes_of 4 r.log_tot_len ++ (bytes_of 8 r.log_tid ++ bytes_of 4 r.prev_lsn)))

unfoldable pub serialize : LogRecord → List ℕ
serialize r = write_header r ++ write_body r.body

-- `ReadBytes` of a number, `ReadRecord`, `ReadString`: what is read, and the bytes after it.
unfoldable pub read_number : ℕ → List ℕ → ℕ × List ℕ
read_number size src = (number_of (take size src), drop size src)

-- `ReadRecord` and `ReadString` read alike: a size in four bytes, and as many bytes.
unfoldable pub read_sized : List ℕ → List ℕ × List ℕ
read_sized src = let (size, rest) = read_number 4 src in (take size rest, drop size rest)

unfoldable pub read_rid : List ℕ → Rid × List ℕ
read_rid src =
    let (page_no, rest) = read_number 4 src in
    let (slot_no, rest₁) = read_number 4 rest in
    (record { page_no = page_no; slot_no = slot_no }, rest₁)

-- `deserialize` of an update record, and of the two kinds that hold one value.
unfoldable pub read_update : List ℕ → LogBody
read_update src =
    let (old_value, rest) = read_sized src in
    let (new_value, rest₁) = read_sized rest in
    let (rid, rest₂) = read_rid rest₁ in update old_value new_value rid (read_sized rest₂).0

unfoldable pub read_value : (RmRecord → Rid → List ℕ → LogBody) → List ℕ → LogBody
read_value kind src =
    let (value, rest) = read_sized src in
    let (rid, rest₁) = read_rid rest in kind value rid (read_sized rest₁).0

abbrev pub read_insert : List ℕ → LogBody
read_insert = read_value insert

abbrev pub read_delete : List ℕ → LogBody
read_delete = read_value delete

abbrev pub read_commit : List ℕ → LogBody
read_commit src = commit (read_number 8 src).0

unfoldable pub read_checkpoint : List ℕ → LogBody
read_checkpoint src =
    let (next_txn_id, rest) = read_number 8 src in
    let (next_timestamp, rest₁) = read_number 8 rest in
    let (last_commit_ts, rest₂) = read_number 8 rest₁ in
    checkpoint next_txn_id next_timestamp last_commit_ts (read_number 4 rest₂).0

-- `deserialize` of the record that the type stands for; `none` is a type that stands for none.
unfoldable pub read_body : ℕ → List ℕ → Option LogBody
read_body type src =
    if nat_eqb type 0
    then some (read_update src)
    else if nat_eqb type 1
    then some (read_insert src)
    else if nat_eqb type 2
    then some (read_delete src)
    else if nat_eqb type 3
    then some begin
    else if nat_eqb type 4
    then some (read_commit src)
    else if nat_eqb type 5
    then some abort
    else if nat_eqb type 6
    then some (read_checkpoint src)
    else none

abbrev pub with_header : List ℕ → Option LogBody → Option LogRecord
with_header src none = none
with_header src (some body) = some (record {
  lsn = get_field offset_lsn 4 src;
  log_tot_len = get_field offset_log_tot_len 4 src;
  log_tid = get_field offset_log_tid 8 src;
  prev_lsn = get_field offset_prev_lsn 4 src;
  body = body;
})

-- `DeserializeLogRecord`
unfoldable pub deserialize_log_record : List ℕ → ℕ → Option LogRecord
deserialize_log_record src size =
    let type = get_field offset_log_type 4 src in
    let total_len = get_field offset_log_tot_len 4 src in
    if ltb size log_header_size
    then none
    else if ltb total_len log_header_size || ltb size total_len
    then none
    else with_header src (read_body type (drop offset_log_data src))
