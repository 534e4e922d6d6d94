-- ===== src/Recovery/Flush.antt =====
-- The flushes of recovery/log_manager.cpp: what is on file when a flush returns.
use database.Prelude.{
  ℕ, zero, suc, ◌+◌, ◌≤◌, ◌<◌, ◌≡◌, refl, sym, ap, ◌∙◌, subst, inl, inr, List, [], ◌∷◌, ◌++◌,
  Option, none, some, true, false, ltb, leb, if◌then◌else◌, length, take, lookup, arith, Bool-cases,
  nat_eq,
}
use mathlib.Core.List.{append_assoc, append-nil}
use database.Txn.Defs.{done, ◌>>=◌}
use database.Recovery.{LogRecord, tot_len, serialize}
use database.Recovery.Manager.{
  LogManager, LogBuffer, log_buffer_size, end_offset, write_active, reset, is_full, flush_to,
  make_room, append, add_log_to_buffer, swap_buffers, write_batch, publish_batch, request_flush,
  flush_up_to, get_record_end_offset,
}
use database.Recovery.Durable.{
  durable, Holds, Joined, batch_bytes, write_log-take, append-Holds, stamped, after_append,
}

-- What the flush thread leaves after it took the bytes of the active buffer.
abbrev swapped : LogManager → LogManager
swapped m = record m { batch = some m.active; active = reset (end_offset m.active) }

module _ (m : LogManager) (log : List ℕ) (h : Holds m log) (batch : Option LogBuffer)
    (e : m.batch ≡ batch) where
  batch-Joined : Joined m.persist_lsn batch m.active.base_offset
  batch-Joined = subst (λ b. Joined m.persist_lsn b m.active.base_offset) e h.joined

  batch_stored : take m.persist_lsn m.disk ++ (batch_bytes batch ++ m.active.bytes) ≡ log
  batch_stored =
      subst (λ b. take m.persist_lsn m.disk ++ (batch_bytes b ++ m.active.bytes) ≡ log) e h.stored

-- Where there are bytes and no batch is under way, the flush thread's swap succeeds and keeps the log:
-- its bytes only move to the batch, and the next record starts in an empty buffer.
pub swap_buffers-Holds :
    (m : LogManager) (log : List ℕ)
    → Holds m log
    → m.batch ≡ none
    → 0 < length m.active.bytes
    → (swap_buffers m ≡ some (swapped m)) × Holds (swapped m) log
unfolding swap_buffers reset
swap_buffers-Holds m log h idle some_bytes =
    let full : ltb 0 (length m.active.bytes) ≡ true = ground arith in
    let joined = batch-Joined m log h none idle in
    (
      rw (full, idle) refl,
      record {
        counted = (h.counted.0, omega (arith, h.counted.1));
        joined = (sym joined, refl);
        on_file = h.on_file;
        stored = rw (append-nil m.active.bytes) (batch_stored m log h none idle);
        room = omega arith;
        ends = h.ends;
        prefix = h.prefix;
      },
    )

-- Where the flush thread has taken a batch, its write and publication keep the log. No batch is under
-- way then, the persisted LSN is further by the length of the batch, and the file holds the log up to it.
pub publish_batch-Holds :
    (m : LogManager) (log : List ℕ) (b : LogBuffer)
    → Holds m log
    → m.batch ≡ some b
    → let m' = publish_batch (write_batch m b) b in
      Holds m' log
      × (m'.batch ≡ none)
      × (m'.persist_lsn ≡ m.persist_lsn + length b.bytes)
      × (take m'.persist_lsn m'.disk ≡ take m'.persist_lsn log)
unfolding publish_batch write_batch
publish_batch-Holds m log b h taken =
    let (start, next) = batch-Joined m log h (some b) taken in
    let (kept, reached) =
      write_log-take m.disk b.bytes b.base_offset (omega (arith, start, h.on_file)) in
    let held : Holds (publish_batch (write_batch m b) b) log = record {
      counted = h.counted;
      joined = next;
      on_file = reached;
      stored =
          ap (λ front. front ++ m.active.bytes) kept
          ∙ append_assoc (take b.base_offset m.disk) b.bytes m.active.bytes
          ∙ rw start (batch_stored m log h (some b) taken);
      room = h.room;
      ends = h.ends;
      prefix = omega (arith, h.prefix, start);
    } in
    (held, refl, omega (arith, start), durable (publish_batch (write_batch m b) b) log held)

write_active-Holds :
    (m : LogManager) (log : List ℕ) → Holds m log → m.batch ≡ none → Holds (write_active m) log
unfolding reset
write_active-Holds m log h idle =
    let joined = batch-Joined m log h none idle in
    let (kept, reached) =
      write_log-take m.disk m.active.bytes m.active.base_offset
        (omega (arith, joined, h.on_file)) in
    record {
      counted = (h.counted.0, omega (arith, h.counted.1));
      joined = rw idle (omega arith);
      on_file = reached;
      stored = rw (idle, append-nil, kept) (rw (← joined) (batch_stored m log h none idle));
      room = omega arith;
      ends = h.ends;
      prefix = omega (arith, h.prefix, joined);
    }

-- A flush that has something to write writes the whole buffer.
flush_to_writes :
    (m : LogManager) (log : List ℕ) (target : ℕ)
    → Holds m log
    → m.batch ≡ none
    → leb target m.persist_lsn ≡ false
    → target ≤ length log
    → flush_to m target ≡ done (write_active m)
unfolding flush_to
flush_to_writes m log target h idle ahead within =
    let joined = batch-Joined m log h none idle in
    let known : ltb m.global_lsn target ≡ false = ground (arith, h.counted.0) in
    let full : ltb 0 (length m.active.bytes) ≡ true = ground (arith, h.counted, joined, known) in
    rw (ahead, known, full) refl

take-le :
    {A : Type 0} (n m : ℕ) (xs ys : List A) → n ≤ m → take m xs ≡ take m ys → take n xs ≡ take n ys
take-le n m xs ys h e = take_less n m xs h ∙ ap (take n) e ∙ sym (take_less n m ys h)
  where
    take_less : {A : Type 0} (n m : ℕ) (xs : List A) → n ≤ m → take n xs ≡ take n (take m xs)
    take_less zero m xs h = refl
    take_less (suc n) zero xs h = absurd (omega arith)
    take_less (suc n) (suc m) [] h = refl
    take_less (suc n) (suc m) (x ∷ xs) h = ap (λ ys. x ∷ ys) (take_less n m xs (omega arith))

-- Without the flush thread, `FlushUpTo` a record that is in the log returns without an error, and then
-- the file holds the log up to that record's end, whatever else is still in the buffer.
pub flush_up_to-durable :
    (m : LogManager) (log : List ℕ) (lsn end : ℕ)
    → Holds m log
    → m.batch ≡ none
    → lookup lsn m.record_end_offsets ≡ some end
    → (m' : LogManager) × (flush_up_to m (some lsn) ≡ done m')
      × Holds m' log
      × (end ≤ m'.persist_lsn)
      × (take end m'.disk ≡ take end log)
unfolding flush_up_to get_record_end_offset request_flush
flush_up_to-durable m log lsn end h idle found =
    let (_, within, kept) = h.ends lsn end found in
    let indexed : ltb lsn m.durable_prefix_lsn ≡ false = ground arith in
    elim (Bool-cases (leb end m.persist_lsn)) [
      | inl e ↦
          let reached : end ≤ m.persist_lsn = ground arith in
          (
            m,
            rw (indexed, get_record_end_offset, found, e) refl,
            h,
            reached,
            take-le end _ m.disk log reached (durable m log h),
          )
      | inr e ↦
          let held = write_active-Holds m log h idle in
          let reached : end ≤ end_offset m.active = omega (arith, h.counted, within) in
          (
            write_active m,
            rw (indexed, get_record_end_offset, found, e)
                (flush_to_writes m log end h idle e within),
            held,
            reached,
            take-le end _ (write_active m).disk log reached (durable (write_active m) log held),
          )
    ]

alone_adds :
    (m m₁ : LogManager) (r : LogRecord)
    → ltb log_buffer_size r.log_tot_len ≡ false
    → m.flush_thread_started ≡ false
    → make_room m r.log_tot_len ≡ done m₁
    → add_log_to_buffer m r ≡ append m₁ r
unfolding add_log_to_buffer
alone_adds m m₁ r small alone room =
    let waited = make_room m r.log_tot_len >>= λ m₁. append m₁ r in
    rw small (
      ap (λ b. if b then append m r else waited) alone
      ∙ ap (λ result. result >>= λ m₁. append m₁ r) room)

-- Without the flush thread, a record no larger than the buffer is appended without an error: its LSN
-- is where the log ended, its bytes are the next of the log, the index holds its end, and the buffer
-- does not overflow.
pub add_log_to_buffer-Holds :
    (m : LogManager) (log : List ℕ) (r : LogRecord)
    → Holds m log
    → m.batch ≡ none
    → m.flush_thread_started ≡ false
    → r.log_tot_len ≡ tot_len r.body
    → r.log_tot_len ≤ log_buffer_size
    → (m' : LogManager) × (add_log_to_buffer m r ≡ done (m.global_lsn, m'))
      × Holds m' (log ++ serialize (stamped m r))
      × (get_record_end_offset m' m.global_lsn ≡ done (m.global_lsn + r.log_tot_len))
unfolding get_record_end_offset make_room is_full reset
add_log_to_buffer-Holds m log r h idle alone counted fits =
    let small : ltb log_buffer_size r.log_tot_len ≡ false = ground arith in
    elim (Bool-cases (ltb log_buffer_size (length m.active.bytes + r.log_tot_len))) [
      | inl e ↦
          let joined = batch-Joined m log h none idle in
          let ahead : leb m.global_lsn m.persist_lsn ≡ false =
            ground (arith, h.counted.1, joined) in
          let writes =
            flush_to_writes m log m.global_lsn h idle ahead (omega (arith, h.counted.0)) in
          let held = write_active-Holds m log h idle in
          let (ran, holds, ends) = append-Holds (write_active m) log r held counted (omega arith) in
          (
            after_append (write_active m) r,
            alone_adds m (write_active m) r small alone (rw (make_room, is_full, e) writes) ∙ ran,
            holds,
            rw (get_record_end_offset, ends) refl,
          )
      | inr e ↦
          let (ran, holds, ends) = append-Holds m log r h counted (ground arith) in
          (
            after_append m r,
            alone_adds m m r small alone (rw (make_room, is_full, e) refl) ∙ ran,
            holds,
            rw (get_record_end_offset, ends) refl,
          )
    ]
