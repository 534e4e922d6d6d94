-- ===== src/Recovery/Manager.antt =====
-- `LogBuffer` and `LogManager` of recovery/log_manager.h and recovery/log_manager.cpp. The calls are
-- those of a holder of `latch_`; the flush thread is its two critical sections, `swap_buffers` and
-- `publish_batch`, with the write of the file in between. An LSN is a number that does not wrap, `none`
-- is INVALID_LSN; `disk` is the bytes of the log file, and a write that falls short, which throws, is
-- not modelled.
use database.Prelude.{
  ℕ, zero, suc, ◌+◌, List, [], ◌∷◌, ◌++◌, Option, none, some, Bool, true, false, not, ◌&&◌,
  if◌then◌else◌, ltb, leb, length, take, drop, Map, lookup, insert, nat_eq, has_value, max,
}
use database.Txn.Defs.{Result, done, throw, internal_error, ◌>>=◌}
use database.Recovery.{
  LogRecord, make_record, checkpoint, serialize, log_header_size, offset_log_tot_len,
}
use database.Recovery.Bytes.{get_field}

abbrev pub log_buffer_size : ℕ
log_buffer_size = 4194304

-- `offset_` is the number of bytes in the buffer.
pub record LogBuffer : Type 0 where
  pub bytes : List ℕ
  pub base_offset : ℕ

-- `batch` is what the flush thread took and has not yet published.
pub record LogManager : Type 0 where
  pub global_lsn : ℕ
  pub persist_lsn : ℕ
  pub active : LogBuffer
  pub batch : Option LogBuffer
  pub record_end_offsets : Map ℕ ℕ
  pub durable_prefix_lsn : ℕ
  pub flush_thread_started : Bool
  pub disk : List ℕ

abbrev pub end_offset : LogBuffer → ℕ
end_offset b = b.base_offset + length b.bytes

-- `LogBuffer::reset`
unfoldable pub reset : ℕ → LogBuffer
reset base_offset = record { bytes = []; base_offset = base_offset }

unfoldable pub is_full : LogBuffer → ℕ → Bool
is_full b append_size = ltb log_buffer_size (length b.bytes + append_size)

-- `DiskManager::write_log` at an offset that the file reaches.
unfoldable pub write_log : List ℕ → List ℕ → ℕ → List ℕ
write_log disk bytes offset = take offset disk ++ (bytes ++ drop (offset + length bytes) disk)

-- `FlushTo` on a buffer with bytes: they are written behind those on file.
abbrev pub write_active : LogManager → LogManager
write_active m =
    let batch_end = end_offset m.active in
    record m {
      disk = write_log m.disk m.active.bytes m.active.base_offset;
      active = reset batch_end;
      persist_lsn = batch_end;
    }

-- `FlushTo`
unfoldable pub flush_to : LogManager → ℕ → Result LogManager
flush_to m exclusive_end_offset =
    if leb exclusive_end_offset m.persist_lsn
    then done m
    else if ltb m.global_lsn exclusive_end_offset
    then throw internal_error
    else if ltb 0 (length m.active.bytes)
    then done (write_active m)
    else done m

-- The wait for room, without the flush thread: one round is enough, since it empties the buffer.
unfoldable pub make_room : LogManager → ℕ → Result LogManager
make_room m append_size = if is_full m.active append_size then flush_to m m.global_lsn else done m

-- The append, once there is room.
unfoldable pub append : LogManager → LogRecord → Result (ℕ × LogManager)
append m r =
    let start_lsn = m.global_lsn in
    let stamped = record r { lsn = start_lsn } in
    if has_value (lookup start_lsn m.record_end_offsets)
    then throw internal_error
    else done (
      start_lsn,
      record m {
        record_end_offsets = insert start_lsn (start_lsn + r.log_tot_len) m.record_end_offsets;
        active = record m.active { bytes = m.active.bytes ++ serialize stamped };
        global_lsn = start_lsn + r.log_tot_len;
      },
    )

-- `add_log_to_buffer`; with the flush thread the caller has waited until there is room.
unfoldable pub add_log_to_buffer : LogManager → LogRecord → Result (ℕ × LogManager)
add_log_to_buffer m r =
    if ltb log_buffer_size r.log_tot_len
    then throw internal_error
    else if m.flush_thread_started
    then append m r
    else make_room m r.log_tot_len >>= λ m₁. append m₁ r

-- The flush thread takes the active buffer, where it has bytes and no batch is under way.
unfoldable pub swap_buffers : LogManager → Option LogManager
swap_buffers m =
    if ltb 0 (length m.active.bytes) && not (has_value m.batch)
    then some (record m { batch = some m.active; active = reset (end_offset m.active) })
    else none

-- It writes the batch, and then publishes its end.
unfoldable pub write_batch : LogManager → LogBuffer → LogManager
write_batch m b = record m { disk = write_log m.disk b.bytes b.base_offset }

unfoldable pub publish_batch : LogManager → LogBuffer → LogManager
publish_batch m b = record m { batch = none; persist_lsn = end_offset b }

-- `RequestFlushAndWait` without the flush thread, `flush_log_to_disk` and `get_record_end_offset`.
unfoldable pub request_flush : LogManager → ℕ → Result LogManager
request_flush m exclusive_end_offset =
    if leb exclusive_end_offset m.persist_lsn then done m else flush_to m exclusive_end_offset

unfoldable pub flush_log_to_disk : LogManager → Result LogManager
flush_log_to_disk m = request_flush m m.global_lsn

unfoldable pub get_record_end_offset : LogManager → ℕ → Result ℕ
get_record_end_offset m record_lsn = elim (lookup record_lsn m.record_end_offsets) [
  | none ↦ throw internal_error
  | some end ↦ done end
]

unfoldable pub has_record_lsn : LogManager → Option ℕ → Bool
has_record_lsn m none = false
has_record_lsn m (some record_lsn) =
    if ltb record_lsn m.durable_prefix_lsn
    then true
    else has_value (lookup record_lsn m.record_end_offsets)

-- `FlushUpTo`
unfoldable pub flush_up_to : LogManager → Option ℕ → Result LogManager
flush_up_to m none = done m
flush_up_to m (some record_lsn) =
    if ltb record_lsn m.durable_prefix_lsn
    then done m
    else get_record_end_offset m record_lsn >>= λ target_lsn. request_flush m target_lsn

-- The greatest end of the records that a batch of pages waits for.
unfoldable pub target_end : LogManager → List (Option ℕ) → ℕ → Result ℕ
target_end m [] target = done target
target_end m (none ∷ lsns) target = target_end m lsns target
target_end m (some record_lsn ∷ lsns) target =
    if ltb record_lsn m.durable_prefix_lsn
    then target_end m lsns target
    else elim (lookup record_lsn m.record_end_offsets) [
      | none ↦ throw internal_error
      | some end ↦ target_end m lsns (max target end)
    ]

-- `FlushPageLsns`
unfoldable pub flush_page_lsns : LogManager → List (Option ℕ) → Result LogManager
flush_page_lsns m record_lsns =
    target_end m record_lsns 0 >>= λ target. if ltb 0 target then request_flush m target else done m

-- `AppendCheckpointRecord`
unfoldable pub append_checkpoint_record :
    LogManager → ℕ → ℕ → ℕ → Option ℕ → Result (ℕ × LogManager)
append_checkpoint_record m next_txn_id next_timestamp last_commit_ts redo_start_lsn =
    let start : ℕ = elim redo_start_lsn [ none ↦ m.global_lsn | some lsn ↦ lsn ] in
    let log_record =
      make_record 18446744073709551615
        (checkpoint next_txn_id next_timestamp last_commit_ts start) in
    add_log_to_buffer m log_record >>= λ (checkpoint_lsn, m₁).
    flush_up_to m₁ (some checkpoint_lsn) >>= λ m₂. done (checkpoint_lsn, m₂)

abbrev pub keep_from : ℕ → Map ℕ ℕ → Map ℕ ℕ
keep_from low [] = []
keep_from low ((lsn, end) ∷ entries) =
    if ltb lsn low then keep_from low entries else (lsn, end) ∷ keep_from low entries

-- `MarkDurablePrefix`
unfoldable pub mark_durable_prefix : LogManager → Option ℕ → LogManager
mark_durable_prefix m none = m
mark_durable_prefix m (some checkpoint_lsn) =
    if ltb m.durable_prefix_lsn checkpoint_lsn
    then record m {
      durable_prefix_lsn = checkpoint_lsn;
      record_end_offsets = keep_from checkpoint_lsn m.record_end_offsets;
    }
    else m

-- The loop of `init_from_disk` over the file's records: where they end, and the end of the last.
unfoldable pub scan_records : ℕ → List ℕ → ℕ → Map ℕ ℕ → ℕ × Map ℕ ℕ
scan_records zero disk offset ends = (offset, ends)
scan_records (suc rounds) disk offset ends =
    let total_len = get_field offset_log_tot_len 4 (drop offset disk) in
    let rest =
      scan_records rounds disk (offset + total_len) (insert offset (offset + total_len) ends) in
    if ltb (length disk) (offset + log_header_size)
    then (offset, ends)
    else if ltb total_len log_header_size
    then (offset, ends)
    else if ltb (length disk) (offset + total_len)
    then (offset, ends)
    else rest
