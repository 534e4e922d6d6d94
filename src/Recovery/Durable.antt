-- ===== src/Recovery/Durable.antt =====
-- The bytes of the write-ahead log on their way from the buffers of recovery/log_manager.cpp to the file.
use database.Prelude.{
  ℕ, zero, suc, ◌+◌, ◌≤◌, ◌<◌, ◌≡◌, refl, sym, ap, ◌∙◌, subst, inl, inr, List, [], ◌∷◌, ◌++◌,
  Option, none, some, nat_eqb, length, take, drop, lookup, insert, lookup-insert,
  lookup-insert_self, nat_eq, arith, length-append, length-take, Bool-cases, Option-cases,
}
use mathlib.Core.List.{append_assoc}
use database.Txn.Defs.{done}
use database.Recovery.{LogRecord, tot_len, serialize}
use database.Recovery.Lengths.{length-serialize}
use database.Recovery.Bytes.{take-append}
use database.Recovery.RoundTrip.{header_counted}
use database.Recovery.Manager.{
  LogManager, LogBuffer, log_buffer_size, end_offset, write_log, append,
}

-- The bytes that the flush thread took.
abbrev pub batch_bytes : Option LogBuffer → List ℕ
batch_bytes none = []
batch_bytes (some b) = b.bytes

-- The buffers follow the file without a gap.
abbrev pub Joined : ℕ → Option LogBuffer → ℕ → Type 0
Joined persist none base = persist ≡ base
Joined persist (some b) base = (b.base_offset ≡ persist) × (end_offset b ≡ base)

-- `log` is the bytes of every record that was appended.
pub record Holds (m : LogManager) (log : List ℕ) : Type 0 where
  pub counted : (m.global_lsn ≡ length log) × (end_offset m.active ≡ m.global_lsn)
  pub joined : Joined m.persist_lsn m.batch m.active.base_offset
  pub on_file : m.persist_lsn ≤ length m.disk
  pub stored : take m.persist_lsn m.disk ++ (batch_bytes m.batch ++ m.active.bytes) ≡ log
  pub room : length m.active.bytes ≤ log_buffer_size
  pub ends :
      (lsn end : ℕ)
      → lookup lsn m.record_end_offsets ≡ some end
      → (lsn < end) × (end ≤ length log) × (m.durable_prefix_lsn ≤ lsn)
  pub prefix : m.durable_prefix_lsn ≤ m.persist_lsn

length-take_within : {A : Type 0} (n : ℕ) (xs : List A) → n ≤ length xs → length (take n xs) ≡ n
length-take_within n xs h = ground (arith, length-take n xs)

take-take_append :
    {A : Type 0} (n : ℕ) (xs ys : List A) → n ≤ length xs → take n (take n xs ++ ys) ≡ take n xs
take-take_append zero xs ys h = refl
take-take_append (suc n) [] ys h = absurd (omega arith)
take-take_append (suc n) (x ∷ xs) ys h = ap (λ zs. x ∷ zs) (take-take_append n xs ys (omega arith))

-- What is on file up to the persisted LSN is the log up to there.
pub durable :
    (m : LogManager) (log : List ℕ)
    → Holds m log
    → take m.persist_lsn m.disk ≡ take m.persist_lsn log
durable m log h = rw (← h.stored) (sym (take-take_append m.persist_lsn m.disk _ h.on_file))

-- The file after a batch was written behind the persisted bytes.
pub write_log-take :
    (disk bytes : List ℕ) (offset : ℕ)
    → offset ≤ length disk
    → (take (offset + length bytes) (write_log disk bytes offset) ≡ take offset disk ++ bytes)
      × (offset + length bytes ≤ length (write_log disk bytes offset))
unfolding write_log
write_log-take disk bytes offset h =
    let head = take offset disk ++ bytes in
    let size : length head ≡ offset + length bytes =
      length-append (take offset disk) bytes ∙ omega (arith, length-take_within offset disk h) in
    let regroup = append_assoc (take offset disk) bytes (drop (offset + length bytes) disk) in
    (
      subst (λ n. take n (take offset disk ++ (bytes ++ drop (offset + length bytes) disk)) ≡ head)
          size (rw (← regroup) (take-append head (drop (offset + length bytes) disk))),
      rw (← regroup, length-append head) (omega (arith, size)),
    )

pub Joined-le :
    (persist : ℕ) (batch : Option LogBuffer) (base : ℕ) → Joined persist batch base → persist ≤ base
Joined-le persist none base j = omega (arith, j)
Joined-le persist (some b) base j = omega (arith, j)

pub persist-le : (m : LogManager) (log : List ℕ) → Holds m log → m.persist_lsn ≤ m.global_lsn
persist-le m log h = omega (arith, Joined-le _ m.batch _ h.joined, h.counted.1)

-- No record starts where the log ends, so that the start LSN of an append is new.
new_lsn :
    (m : LogManager) (log : List ℕ) → Holds m log → lookup m.global_lsn m.record_end_offsets ≡ none
new_lsn m log h = elim (Option-cases (lookup m.global_lsn m.record_end_offsets)) [
  | inl e ↦ e
  | inr (end, e) ↦
      let (low, high, _) = h.ends m.global_lsn end e in
      absurd (omega (arith, low, high, h.counted.0))
]

abbrev pub stamped : LogManager → LogRecord → LogRecord
stamped m r = record r { lsn = m.global_lsn }

-- The manager after an append.
abbrev pub after_append : LogManager → LogRecord → LogManager
after_append m r = record m {
  record_end_offsets = insert m.global_lsn (m.global_lsn + r.log_tot_len) m.record_end_offsets;
  active = record m.active { bytes = m.active.bytes ++ serialize (stamped m r) };
  global_lsn = m.global_lsn + r.log_tot_len;
}

module _ (m : LogManager) (log : List ℕ) (r : LogRecord) (h : Holds m log)
    (counted : r.log_tot_len ≡ tot_len r.body) where
  added : length (serialize (stamped m r)) ≡ r.log_tot_len
  added = length-serialize (stamped m r) ∙ sym counted

  total : length (log ++ serialize (stamped m r)) ≡ m.global_lsn + r.log_tot_len
  total = length-append log (serialize (stamped m r)) ∙ omega (arith, added, h.counted.0)

  after_append-ends :
      (lsn end : ℕ)
      → lookup lsn (after_append m r).record_end_offsets ≡ some end
      → (lsn < end) × (end ≤ length (log ++ serialize (stamped m r))) × (m.durable_prefix_lsn ≤ lsn)
  after_append-ends lsn end e = elim (Bool-cases (nat_eqb m.global_lsn lsn)) [
    | inl same ↦ ground (
      arith,
      lookup-insert m.global_lsn lsn (m.global_lsn + r.log_tot_len) m.record_end_offsets,
      total,
      persist-le m log h,
      h.prefix,
      counted,
      header_counted r.body,
    )
    | inr off ↦ ground (
      arith,
      lookup-insert m.global_lsn lsn (m.global_lsn + r.log_tot_len) m.record_end_offsets,
      h.ends lsn end,
      total,
      h.counted.0,
    )
  ]

  after_append-Holds :
      length m.active.bytes + r.log_tot_len ≤ log_buffer_size
      → Holds (after_append m r) (log ++ serialize (stamped m r))
  after_append-Holds fits = record {
    counted = (
      sym total,
      rw (length-append m.active.bytes (serialize (stamped m r)))
          (omega (arith, added, h.counted.1)),
    );
    joined = h.joined;
    on_file = h.on_file;
    stored =
        rw
          (
            ← append_assoc (batch_bytes m.batch) m.active.bytes (serialize (stamped m r)),
            ← append_assoc (take m.persist_lsn m.disk) (batch_bytes m.batch ++ m.active.bytes)
                (serialize (stamped m r)),
            h.stored,
          )
          refl;
    room = rw (length-append m.active.bytes (serialize (stamped m r))) (omega (arith, added));
    ends = after_append-ends;
    prefix = h.prefix;
  }

-- Where the buffer has room for it, a record is appended without an error: its LSN is where the log
-- ended, and its bytes, with that LSN in them, are the next of the log.
pub append-Holds :
    (m : LogManager) (log : List ℕ) (r : LogRecord)
    → Holds m log
    → r.log_tot_len ≡ tot_len r.body
    → length m.active.bytes + r.log_tot_len ≤ log_buffer_size
    → (append m r ≡ done (m.global_lsn, after_append m r))
      × Holds (after_append m r) (log ++ serialize (stamped m r))
      × (lookup m.global_lsn (after_append m r).record_end_offsets
          ≡ some (m.global_lsn + r.log_tot_len))
unfolding append
append-Holds m log r h counted fits = (
  rw (new_lsn m log h) refl,
  after_append-Holds m log r h counted fits,
  lookup-insert_self m.global_lsn (m.global_lsn + r.log_tot_len) m.record_end_offsets,
)
