-- ===== src/Recovery/Lengths.antt =====
-- The size that recovery/log_manager.h records for a log record, against the bytes that it writes.
use database.Prelude.{ℕ, ◌+◌, ◌≡◌, List, length, length-append, arith}
use database.Txn.Defs.{Rid, RmRecord}
use database.Recovery.{
  LogBody, LogRecord, begin, abort, commit, checkpoint, insert, delete, update, tot_len,
  write_record, write_rid, write_string, write_body, write_header, serialize,
}
use database.Recovery.Bytes.{length-bytes_of}

length-write_record : (v : RmRecord) → length (write_record v) ≡ 4 + length v
unfolding write_record
length-write_record v = rw (length-append, length-bytes_of) omega arith

length-write_string : (s : List ℕ) → length (write_string s) ≡ 4 + length s
unfolding write_string
length-write_string s = rw (length-append, length-bytes_of) omega arith

length-write_rid : (r : Rid) → length (write_rid r) ≡ 8
unfolding write_rid
length-write_rid r = simp (length-append, length-bytes_of)

ruleset lengths =
    (length-append, length-bytes_of, length-write_record, length-write_string, length-write_rid)

length-write_header : (r : LogRecord) → length (write_header r) ≡ 24
unfolding write_header
length-write_header r = simp (length-append, length-bytes_of)

length-write_body : (body : LogBody) → 24 + length (write_body body) ≡ tot_len body
unfolding write_body tot_len
length-write_body begin = omega arith
length-write_body abort = omega arith
length-write_body (commit ts) = omega (arith, length-bytes_of 8 ts)
length-write_body (checkpoint a b c d) = simp lengths
length-write_body (insert v r t) = simp lengths (omega arith)
length-write_body (delete v r t) = simp lengths (omega arith)
length-write_body (update o n r t) = simp lengths (omega arith)

-- A record writes exactly as many bytes as its constructor counted in `log_tot_len_`, so that an
-- append of that many bytes to the log buffer holds the whole record and nothing else.
pub length-serialize : (r : LogRecord) → length (serialize r) ≡ tot_len r.body
unfolding serialize
length-serialize r =
    rw length-append (omega (arith, length-write_header r, length-write_body r.body))
