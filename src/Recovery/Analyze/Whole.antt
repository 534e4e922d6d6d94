-- ===== src/Recovery/Analyze/Whole.antt =====
-- The scan of recovery/log_recovery.cpp over a log file whose last record was cut off.
use database.Prelude.{
  ℕ, zero, suc, ◌+◌, ◌-◌, ◌≤◌, ◌<◌, ◌≡◌, refl, sym, ap, ◌∙◌, inl, inr, List, [], ◌∷◌, ◌++◌, ◌||◌,
  none, some, lookup, nat_eq, true, false, ltb, nat_eqb, length, length-append, length-drop,
  length-take, drop-drop, take-append-drop, take, drop, arith, Bool-cases,
}
use database.Recovery.{LogRecord, tot_len, serialize, deserialize_log_record}
use database.Recovery.Bytes.{number_of, get_field, take-append, drop-append}
use database.Recovery.Lengths.{length-serialize}
use database.Recovery.RoundTrip.{Fits, header, header_counted, deserialize_log_record-serialize}
use database.Recovery.Analyze.Noted.{
  noted, append_nil, append_assoc, noted_logs, committed_at, noted_committed,
}
use database.Recovery.Analyze.{Analysis, no_logs, note_log, scan_logs, analyze}

-- The bytes of records, one after the other.
abbrev pub written : List LogRecord → List ℕ
written [] = []
written (r ∷ rs) = serialize r ++ written rs

-- Each record's LSN is the offset where it stands.
abbrev pub Placed : ℕ → List LogRecord → Type 0
Placed offset [] = Unit
Placed offset (r ∷ rs) = (r.lsn ≡ offset) × Fits r × Placed (offset + tot_len r.body) rs

take_within : (n : ℕ) (xs ys : List ℕ) → n ≤ length xs → take n (xs ++ ys) ≡ take n xs
take_within zero xs ys h = refl
take_within (suc n) [] ys h = absurd (omega (arith, h))
take_within (suc n) (x ∷ xs) ys h = ap (λ zs. x ∷ zs) (take_within n xs ys (omega (arith, h)))

drop_within : (n : ℕ) (xs ys : List ℕ) → n ≤ length xs → drop n (xs ++ ys) ≡ drop n xs ++ ys
drop_within zero xs ys h = refl
drop_within (suc n) [] ys h = absurd (omega (arith, h))
drop_within (suc n) (x ∷ xs) ys h = drop_within n xs ys (omega (arith, h))

-- The length of a record is read from its header, however much of the rest there is.
field_within : (xs ys : List ℕ) → 24 ≤ length xs → get_field 8 4 (xs ++ ys) ≡ get_field 8 4 xs
unfolding get_field
field_within xs ys h =
    ap (λ zs. number_of (take 4 zs)) (drop_within 8 xs ys (omega (arith, h)))
    ∙ ap number_of (take_within 4 (drop 8 xs) ys (omega (arith, h, length-drop 8 xs)))

-- What is left after some whole records: nothing, or the first bytes of one more.
pub record Torn (tail : List ℕ) : Type 0 where
  pub last : LogRecord
  pub fits : Fits last
  pub cut : ℕ
  pub short : cut < tot_len last.body
  pub bytes : tail ≡ take cut (serialize last)

-- The length that the header of a record gives, where the header is whole.
read_length :
    (r : LogRecord) (cut : ℕ)
    → Fits r
    → 24 ≤ cut
    → get_field 8 4 (take cut (serialize r)) ≡ tot_len r.body
read_length r cut h whole =
    sym (
      field_within (take cut (serialize r)) (drop cut (serialize r)) (
        omega
          (arith, whole, length-take cut (serialize r), length-serialize r, header_counted r.body)))
    ∙ ap (get_field 8 4) (take-append-drop cut (serialize r) ∙ sym (append_nil (serialize r)))
    ∙ (header r [] h).2
    ∙ h.log_tot_len.0

Torn-stops :
    (rounds : ℕ) (disk : List ℕ) (offset : ℕ) (a : Analysis) (tail : List ℕ)
    → drop offset disk ≡ tail
    → Torn tail
    → scan_logs (suc rounds) disk offset a ≡ a
unfolding scan_logs
Torn-stops rounds disk offset a tail at torn =
    let left : length disk - offset ≡ length tail = sym (length-drop offset disk) ∙ ap length at in
    let kept : length tail ≤ torn.cut =
      ground (arith, torn.bytes, length-take torn.cut (serialize torn.last)) in
    elim (Bool-cases (ltb (length disk) (offset + 24))) [
      | inl e ↦ rw e refl
      | inr e ↦
          let long : 24 ≤ torn.cut = ground (arith, left, kept) in
          let len : get_field 8 4 (drop offset disk) ≡ tot_len torn.last.body =
            ap (get_field 8 4) (at ∙ torn.bytes) ∙ read_length torn.last torn.cut torn.fits long in
          let over : (ltb (tot_len torn.last.body) 24
                || ltb (length disk) (offset + tot_len torn.last.body))
              ≡ true =
            ground (arith, left, kept, torn.short) in
          rw (e, len, over) refl
    ]

-- One round over a whole record.
whole_noted :
    (rounds : ℕ) (disk : List ℕ) (offset : ℕ) (a : Analysis) (r : LogRecord) (rest : List ℕ)
    → drop offset disk ≡ serialize r ++ rest
    → r.lsn ≡ offset
    → Fits r
    → scan_logs (suc rounds) disk offset a
      ≡ scan_logs rounds disk (offset + tot_len r.body) (note_log a r)
unfolding scan_logs
whole_noted rounds disk offset a r rest at placed h =
    let left : length disk - offset ≡ tot_len r.body + length rest =
      sym (length-drop offset disk)
      ∙ ap length at
      ∙ length-append (serialize r) rest
      ∙ ap (λ n. n + length rest) (length-serialize r) in
    let least = header_counted r.body in
    let len : get_field 8 4 (drop offset disk) ≡ tot_len r.body =
      ap (get_field 8 4) at ∙ (header r rest h).2 ∙ h.log_tot_len.0 in
    let raw : take (tot_len r.body) (drop offset disk) ≡ serialize r =
      ap (take (tot_len r.body)) at
      ∙ ap (λ n. take n (serialize r ++ rest)) (sym (length-serialize r))
      ∙ take-append (serialize r) rest in
    let long : ltb (length disk) (offset + 24) ≡ false = ground (arith, left, least) in
    let inside : (ltb (tot_len r.body) 24 || ltb (length disk) (offset + tot_len r.body)) ≡ false =
      ground (arith, left, least) in
    let read : deserialize_log_record (serialize r) (tot_len r.body) ≡ some r =
      ap (λ bs. deserialize_log_record bs (tot_len r.body)) (sym (append_nil (serialize r)))
      ∙ deserialize_log_record-serialize r [] (tot_len r.body) h (omega arith) in
    let same : nat_eqb r.lsn offset ≡ true = ground (arith, placed) in
    rw (long, len, inside, raw, read, same)
      (ap (λ n. scan_logs rounds disk (offset + n) (note_log a r)) len)

scan_whole :
    (rounds : ℕ) (disk : List ℕ) (offset : ℕ) (a : Analysis) (logs : List LogRecord) (tail : List ℕ)
    → drop offset disk ≡ written logs ++ tail
    → Placed offset logs
    → Torn tail
    → length logs < rounds
    → scan_logs rounds disk offset a ≡ noted a logs
scan_whole zero disk offset a logs tail at placed torn h = absurd (omega (arith, h))
scan_whole (suc rounds) disk offset a [] tail at placed torn h =
    Torn-stops rounds disk offset a tail at torn
scan_whole (suc rounds) disk offset a (r ∷ logs) tail at placed torn h =
    let after : drop offset disk ≡ serialize r ++ (written logs ++ tail) =
      at ∙ append_assoc (serialize r) (written logs) tail in
    let next : drop (offset + tot_len r.body) disk ≡ written logs ++ tail =
      drop-drop offset (tot_len r.body) disk
      ∙ ap (drop (tot_len r.body)) after
      ∙ ap (λ n. drop n (serialize r ++ (written logs ++ tail))) (sym (length-serialize r))
      ∙ drop-append (serialize r) (written logs ++ tail) in
    whole_noted rounds disk offset a r (written logs ++ tail) after placed.0 placed.1
    ∙ scan_whole rounds disk (offset + tot_len r.body) (note_log a r) logs tail next placed.2 torn
        (omega (arith, h))

logs_fit :
    (offset : ℕ) (logs : List LogRecord) → Placed offset logs → length logs ≤ length (written logs)
logs_fit offset [] placed = omega arith
logs_fit offset (r ∷ logs) placed = ground (
  arith,
  logs_fit (offset + tot_len r.body) logs placed.2,
  length-append (serialize r) (written logs),
  length-serialize r,
  header_counted r.body,
)

-- The log file holds some bytes, then whole records that stand where their LSNs say, then the first bytes
-- of one more record, at which the writing was cut off. The scan from behind the first bytes collects
-- exactly the whole records, in their order, and the transactions that have a commit record among them,
-- each with the timestamp of the last one.
pub analyze-noted :
    (before : List ℕ) (logs : List LogRecord) (tail : List ℕ)
    → Placed (length before) logs
    → Torn tail
    → ((analyze (before ++ (written logs ++ tail)) (length before)).logs ≡ logs)
      × ((tid : ℕ)
          → lookup tid (analyze (before ++ (written logs ++ tail)) (length before)).committed_txns
            ≡ committed_at tid logs none)
unfolding analyze lookup
analyze-noted before logs tail placed torn =
    let scanned : analyze (before ++ (written logs ++ tail)) (length before) ≡ noted no_logs logs =
      scan_whole _ _ (length before) no_logs logs tail (drop-append before (written logs ++ tail))
        placed torn
        (ground (
          arith,
          length-append before (written logs ++ tail),
          length-append (written logs) tail,
          logs_fit (length before) logs placed,
        )) in
    (
      ap (λ (a : Analysis). a.logs) scanned ∙ noted_logs no_logs logs,
      λ tid.
          ap (λ (a : Analysis). lookup tid a.committed_txns) scanned
          ∙ noted_committed no_logs logs tid,
    )
