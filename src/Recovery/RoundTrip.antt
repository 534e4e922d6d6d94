-- ===== src/Recovery/RoundTrip.antt =====
-- What `deserialize` of recovery/log_manager.h reads from the bytes that `serialize` wrote.
use database.Prelude.{
  ℕ, zero, suc, ◌/◌, ◌%◌, ◌^◌, ◌≤◌, ◌<◌, ◌≡◌, refl, ap, List, ◌∷◌, ◌++◌, none, some, inl, inr, true,
  false, ◌||◌, length, take, drop, arith, Bool-cases, ltb,
}
use mathlib.Core.List.{append_assoc}
use database.Txn.Defs.{Rid, RmRecord}
use database.Recovery.{
  LogBody, LogRecord, begin, abort, commit, checkpoint, insert, delete, update, tot_len, log_type,
  write_record, write_rid, write_string, write_body, write_header, serialize, read_number,
  read_sized, read_rid, read_value, read_update, read_checkpoint, read_body, deserialize_log_record,
}
use database.Recovery.Bytes.{bytes_of, get_field, number_of-bytes_of, take-append, drop-append}

take-bytes_of : (w n : ℕ) (rest : List ℕ) → take w (bytes_of w n ++ rest) ≡ bytes_of w n
unfolding bytes_of
take-bytes_of zero n rest = refl
take-bytes_of (suc w) n rest = ap (λ bs. n % 256 ∷ bs) (take-bytes_of w (n / 256) rest)

drop-bytes_of : (w n : ℕ) (rest : List ℕ) → drop w (bytes_of w n ++ rest) ≡ rest
unfolding bytes_of
drop-bytes_of zero n rest = refl
drop-bytes_of (suc w) n rest = drop-bytes_of w (n / 256) rest

read_number-bytes_of :
    (w n : ℕ) (rest : List ℕ) → n < 256 ^ w → read_number w (bytes_of w n ++ rest) ≡ (n, rest)
unfolding read_number
read_number-bytes_of w n rest h =
    rw (take-bytes_of w n rest, drop-bytes_of w n rest, number_of-bytes_of w n h) refl

read_sized-write_record :
    (v : RmRecord) (rest : List ℕ)
    → length v < 256 ^ 4
    → read_sized (write_record v ++ rest) ≡ (v, rest)
unfolding read_sized write_record
read_sized-write_record v rest h =
    rw
      (append_assoc (bytes_of 4 (length v)) v rest, read_number-bytes_of 4 (length v) (v ++ rest) h)
      (rw (take-append v rest, drop-append v rest) refl)

read_rid-write_rid :
    (r : Rid) (rest : List ℕ)
    → r.page_no < 256 ^ 4
    → r.slot_no < 256 ^ 4
    → read_rid (write_rid r ++ rest) ≡ (r, rest)
unfolding read_rid write_rid
read_rid-write_rid r rest hp hs =
    rw
      (
        append_assoc (bytes_of 4 r.page_no) (bytes_of 4 r.slot_no) rest,
        read_number-bytes_of 4 r.page_no (bytes_of 4 r.slot_no ++ rest) hp,
        read_number-bytes_of 4 r.slot_no rest hs,
      )
      refl

-- The fields of a rid fit in their four bytes.
abbrev pub RidFits : Rid → Type 0
RidFits r = (r.page_no < 256 ^ 4) × (r.slot_no < 256 ^ 4)

-- The fields of a record fit in their bytes.
abbrev pub BodyFits : LogBody → Type 0
BodyFits begin = Unit
BodyFits abort = Unit
BodyFits (commit ts) = ts < 256 ^ 8
BodyFits (checkpoint a b c d) = (a < 256 ^ 8) × (b < 256 ^ 8) × (c < 256 ^ 8) × (d < 256 ^ 4)
BodyFits (insert v r t) = (length v < 256 ^ 4) × RidFits r × (length t < 256 ^ 4)
BodyFits (delete v r t) = (length v < 256 ^ 4) × RidFits r × (length t < 256 ^ 4)
BodyFits (update o n r t) =
    (length o < 256 ^ 4) × (length n < 256 ^ 4) × RidFits r × (length t < 256 ^ 4)

pub record Fits (r : LogRecord) : Type 0 where
  pub lsn : r.lsn < 256 ^ 4
  pub log_tid : r.log_tid < 256 ^ 8
  pub prev_lsn : r.prev_lsn < 256 ^ 4
  pub log_tot_len : (r.log_tot_len ≡ tot_len r.body) × (r.log_tot_len < 256 ^ 4)
  pub body : BodyFits r.body

read_string-write_string :
    (t : List ℕ) (rest : List ℕ)
    → length t < 256 ^ 4
    → read_sized (write_string t ++ rest) ≡ (t, rest)
unfolding write_string write_record
read_string-write_string t rest h = read_sized-write_record t rest h

read_value-write :
    (kind : RmRecord → Rid → List ℕ → LogBody) (v : RmRecord) (r : Rid) (t rest : List ℕ)
    → length v < 256 ^ 4
    → RidFits r
    → length t < 256 ^ 4
    → read_value kind ((write_record v ++ (write_rid r ++ write_string t)) ++ rest) ≡ kind v r t
unfolding read_value
read_value-write kind v r t rest hv hr ht =
    rw
      (
        append_assoc (write_record v) (write_rid r ++ write_string t) rest,
        append_assoc (write_rid r) (write_string t) rest,
        read_sized-write_record v (write_rid r ++ (write_string t ++ rest)) hv,
        read_rid-write_rid r (write_string t ++ rest) hr.0 hr.1,
        read_string-write_string t rest ht,
      )
      refl

read_update-write :
    (o n : RmRecord) (r : Rid) (t rest : List ℕ)
    → BodyFits (update o n r t)
    → read_update (write_body (update o n r t) ++ rest) ≡ update o n r t
unfolding read_update write_body
read_update-write o n r t rest h =
    rw
      (
        append_assoc (write_record o) (write_record n ++ (write_rid r ++ write_string t)) rest,
        append_assoc (write_record n) (write_rid r ++ write_string t) rest,
        append_assoc (write_rid r) (write_string t) rest,
        read_sized-write_record o (write_record n ++ (write_rid r ++ (write_string t ++ rest))) h.0,
        read_sized-write_record n (write_rid r ++ (write_string t ++ rest)) h.1,
        read_rid-write_rid r (write_string t ++ rest) h.2.0 h.2.1,
        read_string-write_string t rest h.3,
      )
      refl

read_checkpoint-write :
    (a b c d : ℕ) (rest : List ℕ)
    → BodyFits (checkpoint a b c d)
    → read_checkpoint (write_body (checkpoint a b c d) ++ rest) ≡ checkpoint a b c d
unfolding read_checkpoint write_body
read_checkpoint-write a b c d rest h =
    rw
      (
        append_assoc (bytes_of 8 a) (bytes_of 8 b ++ (bytes_of 8 c ++ bytes_of 4 d)) rest,
        append_assoc (bytes_of 8 b) (bytes_of 8 c ++ bytes_of 4 d) rest,
        append_assoc (bytes_of 8 c) (bytes_of 4 d) rest,
        read_number-bytes_of 8 a (bytes_of 8 b ++ (bytes_of 8 c ++ (bytes_of 4 d ++ rest))) h.0,
        read_number-bytes_of 8 b (bytes_of 8 c ++ (bytes_of 4 d ++ rest)) h.1,
        read_number-bytes_of 8 c (bytes_of 4 d ++ rest) h.2,
        read_number-bytes_of 4 d rest h.3,
      )
      refl

read_body-write_body :
    (body : LogBody) (rest : List ℕ)
    → BodyFits body
    → read_body (log_type body) (write_body body ++ rest) ≡ some body
unfolding read_body log_type write_body
read_body-write_body begin rest h = refl
read_body-write_body abort rest h = refl
read_body-write_body (commit ts) rest h = rw (read_number-bytes_of 8 ts rest h) refl
read_body-write_body (checkpoint a b c d) rest h = ap some (read_checkpoint-write a b c d rest h)
read_body-write_body (insert v r t) rest h =
    ap some (read_value-write insert v r t rest h.0 h.1 h.2)
read_body-write_body (delete v r t) rest h =
    ap some (read_value-write delete v r t rest h.0 h.1 h.2)
read_body-write_body (update o n r t) rest h = ap some (read_update-write o n r t rest h)

log_type_small : (body : LogBody) → log_type body < 256 ^ 4
unfolding log_type
log_type_small begin = omega arith
log_type_small abort = omega arith
log_type_small (commit ts) = omega arith
log_type_small (checkpoint a b c d) = omega arith
log_type_small (insert v i t) = omega arith
log_type_small (delete v i t) = omega arith
log_type_small (update o n i t) = omega arith

pub header_counted : (body : LogBody) → 24 ≤ tot_len body
unfolding tot_len
header_counted begin = omega arith
header_counted abort = omega arith
header_counted (commit ts) = omega arith
header_counted (checkpoint a b c d) = omega arith
header_counted (insert v i t) = omega arith
header_counted (delete v i t) = omega arith
header_counted (update o n i t) = omega arith

-- The header's fields are read at their offsets, and the body starts after them.
module _ (r : LogRecord) (rest : List ℕ) (h : Fits r) where
  pub header :
      (get_field 0 4 (serialize r ++ rest) ≡ log_type r.body)
      × (get_field 4 4 (serialize r ++ rest) ≡ r.lsn)
      × (get_field 8 4 (serialize r ++ rest) ≡ r.log_tot_len)
      × (get_field 12 8 (serialize r ++ rest) ≡ r.log_tid)
      × (get_field 20 4 (serialize r ++ rest) ≡ r.prev_lsn)
      × (drop 24 (serialize r ++ rest) ≡ write_body r.body ++ rest)
  unfolding get_field serialize write_header bytes_of
  header = (
    number_of-bytes_of 4 (log_type r.body) (log_type_small r.body),
    number_of-bytes_of 4 r.lsn h.lsn,
    number_of-bytes_of 4 r.log_tot_len h.log_tot_len.1,
    number_of-bytes_of 8 r.log_tid h.log_tid,
    number_of-bytes_of 4 r.prev_lsn h.prev_lsn,
    refl,
  )

-- A record whose fields fit in their bytes and whose `log_tot_len_` is its constructor's, serialized
-- with anything after it and read back with at least its length available, is the same record.
pub deserialize_log_record-serialize :
    (r : LogRecord) (rest : List ℕ) (size : ℕ)
    → Fits r
    → tot_len r.body ≤ size
    → deserialize_log_record (serialize r ++ rest) size ≡ some r
unfolding deserialize_log_record
deserialize_log_record-serialize r rest size h enough =
    let (type, lsn, len, tid, prev, tail) = header r rest h in
    let least = header_counted r.body in
    let long : ltb size 24 ≡ false = ground (arith, h.log_tot_len) in
    let whole : (ltb r.log_tot_len 24 || ltb size r.log_tot_len) ≡ false =
      ground (arith, h.log_tot_len) in
    rw (long, len, whole, type, tail, read_body-write_body r.body rest h.body, lsn, len, tid, prev)
      refl

-- Where the bytes available are fewer than the record's, it is not read.
pub deserialize_log_record_short :
    (r : LogRecord) (rest : List ℕ) (size : ℕ)
    → Fits r
    → size < tot_len r.body
    → deserialize_log_record (serialize r ++ rest) size ≡ none
unfolding deserialize_log_record
deserialize_log_record_short r rest size h short =
    let (type, lsn, len, tid, prev, tail) = header r rest h in
    elim (Bool-cases (ltb size 24)) [
      | inl e ↦ rw e refl
      | inr e ↦
          let cut : (ltb r.log_tot_len 24 || ltb size r.log_tot_len) ≡ true =
            ground (arith, h.log_tot_len) in
          rw (e, len, cut) refl
    ]
