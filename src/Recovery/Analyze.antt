-- ===== src/Recovery/Analyze.antt =====
-- The scan of the log file in `RecoveryManager::analyze` of recovery/log_recovery.cpp. The offset where
-- it starts is an argument: the source takes it from the restart checkpoint's file, or 0. A transaction's
-- id and a timestamp are their 64-bit patterns, and the lengths of the file stay below 2 ^ 31.
pub mod Noted
pub mod Whole
mod Tests
use database.Prelude.{
  ℕ, zero, suc, ◌+◌, ◌%◌, List, [], ◌∷◌, ◌++◌, Option, none, some, true, false, ◌||◌, if◌then◌else◌,
  ltb, nat_eqb, length, take, drop, Map, lookup, insert as map_insert, nat_eq,
}
use database.Recovery.{
  LogBody, LogRecord, begin, abort, commit, checkpoint, insert, delete, update, log_header_size,
  offset_log_tot_len, deserialize_log_record,
}
use database.Recovery.Bytes.{get_field}

-- What the scan collects.
pub record Analysis : Type 0 where
  pub logs : List LogRecord
  pub logs_by_txn : Map ℕ (List LogRecord)
  pub committed_txns : Map ℕ ℕ
  pub max_txn_id : ℕ
  pub max_commit_ts : ℕ
  pub max_next_timestamp : ℕ

-- `INVALID_TXN_ID`, -1.
abbrev pub invalid_txn_id : ℕ
invalid_txn_id = 18446744073709551615

abbrev pub no_logs : Analysis
no_logs = record {
  logs = [];
  logs_by_txn = [];
  committed_txns = [];
  max_txn_id = invalid_txn_id;
  max_commit_ts = 0;
  max_next_timestamp = 1;
}

-- `std::max` of two signed numbers of 64 bits.
unfoldable pub signed_max : ℕ → ℕ → ℕ
signed_max a b =
    if ltb ((a + 9223372036854775808) % 18446744073709551616)
      ((b + 9223372036854775808) % 18446744073709551616)
    then b
    else a

-- The maxima and the committed transactions, by the kind of record.
unfoldable pub note_body : Analysis → ℕ → LogBody → Analysis
note_body a tid begin = a
note_body a tid abort = a
note_body a tid (insert v r t) = a
note_body a tid (delete v r t) = a
note_body a tid (update o n r t) = a
note_body a tid (checkpoint next_txn_id next_timestamp last_commit_ts durable_lsn) = record a {
  max_txn_id =
      signed_max a.max_txn_id ((next_txn_id + 18446744073709551615) % 18446744073709551616);
  max_commit_ts = signed_max a.max_commit_ts last_commit_ts;
  max_next_timestamp = signed_max a.max_next_timestamp next_timestamp;
}
note_body a tid (commit ts) = record a {
  committed_txns = map_insert tid ts a.committed_txns;
  max_commit_ts = signed_max a.max_commit_ts ts;
  max_next_timestamp = signed_max a.max_next_timestamp ((ts + 1) % 18446744073709551616);
}

abbrev pub logs_or : Option (List LogRecord) → List LogRecord
logs_or none = []
logs_or (some logs) = logs

-- One record that was read.
unfoldable pub note_log : Analysis → LogRecord → Analysis
note_log a r =
    let seen : Analysis = record a { max_txn_id = signed_max a.max_txn_id r.log_tid } in
    let noted = note_body seen r.log_tid r.body in
    let listed : Analysis = if nat_eqb r.log_tid invalid_txn_id then noted else record noted {
      logs_by_txn =
          map_insert r.log_tid (logs_or (lookup r.log_tid noted.logs_by_txn) ++ r ∷ [])
            noted.logs_by_txn;
    } in
    record listed { logs = listed.logs ++ r ∷ [] }

-- The loop, which stops at the first record that is not whole.
unfoldable pub scan_logs : ℕ → List ℕ → ℕ → Analysis → Analysis
scan_logs zero disk offset a = a
scan_logs (suc rounds) disk offset a =
    let total_len = get_field offset_log_tot_len 4 (drop offset disk) in
    if ltb (length disk) (offset + log_header_size)
    then a
    else if ltb total_len log_header_size || ltb (length disk) (offset + total_len)
    then a
    else elim (deserialize_log_record (take total_len (drop offset disk)) total_len) [
      | none ↦ a
      | some r ↦ elim (nat_eqb r.lsn offset) [
        | false ↦ a
        | true ↦ scan_logs rounds disk (offset + total_len) (note_log a r)
      ]
    ]

-- Every record is longer than one byte, so that a round for each byte is enough.
unfoldable pub analyze : List ℕ → ℕ → Analysis
analyze disk start = scan_logs (suc (length disk)) disk start no_logs
