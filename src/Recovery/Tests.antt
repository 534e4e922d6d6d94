-- ===== src/Recovery/Tests.antt =====
-- Runs of recovery/log_manager.h and recovery/log_manager.cpp on small records.
use database.Prelude.{
  ◌+◌, ◌≤◌, ◌≡◌, refl, [], ◌∷◌, ◌++◌, none, some, false, arith, length, take, lookup, nat_eq,
}
use database.Txn.Defs.{done}
use database.Recovery.{
  LogRecord, make_record, commit, delete, tot_len, serialize, deserialize_log_record, write_header,
  write_body, log_type, write_record, write_rid, write_string,
}
use database.Recovery.Bytes.{bytes_of}
use database.Recovery.Lengths.{length-serialize}
use database.Recovery.RoundTrip.{Fits, deserialize_log_record-serialize}
use database.Recovery.Manager.{
  LogManager, LogBuffer, add_log_to_buffer, flush_up_to, get_record_end_offset, publish_batch,
  write_batch,
}
use database.Recovery.Durable.{Holds, stamped}
use database.Recovery.Flush.{flush_up_to-durable, add_log_to_buffer-Holds, publish_batch-Holds}

-- Transaction 3 deletes a record of two bytes from the table "t".
abbrev deletion : LogRecord
deletion = record {
  lsn = 0;
  log_tot_len = 43;
  log_tid = 3;
  prev_lsn = 4294967295;
  body = delete (7 ∷ 8 ∷ []) (record { page_no = 1; slot_no = 0 }) (116 ∷ []);
}

deletion-Fits : Fits deletion
unfolding tot_len
deletion-Fits = record {
  lsn = omega arith;
  log_tid = omega arith;
  prev_lsn = omega arith;
  log_tot_len = (refl, omega arith);
  body = (omega arith, (omega arith, omega arith), omega arith);
}

deserialize_example : deserialize_log_record (serialize deletion ++ 9 ∷ []) 44 ≡ some deletion
unfolding tot_len
deserialize_example =
    deserialize_log_record-serialize deletion (9 ∷ []) 44 deletion-Fits (omega arith)

length-serialize_example : length (serialize deletion) ≡ tot_len deletion.body
length-serialize_example = length-serialize deletion

-- The buffer holds one record, and nothing is on file.
abbrev buffered : LogManager
buffered = record {
  global_lsn = 43;
  persist_lsn = 0;
  active = record { bytes = serialize deletion; base_offset = 0 };
  batch = none;
  record_end_offsets = (0, 43) ∷ [];
  durable_prefix_lsn = 0;
  flush_thread_started = false;
  disk = [];
}

buffered-Holds : Holds buffered (serialize deletion)
unfolding serialize write_header write_body log_type bytes_of write_record write_rid write_string
    lookup
buffered-Holds = record {
  counted = (refl, refl);
  joined = refl;
  on_file = omega arith;
  stored = refl;
  room = omega arith;
  ends = λ lsn end e. ground arith;
  prefix = omega arith;
}

add_log_example :
    (m' : LogManager) × (add_log_to_buffer buffered (make_record 3 (commit 5)) ≡ done (43, m'))
    × Holds m' (serialize deletion ++ serialize (stamped buffered (make_record 3 (commit 5))))
    × (get_record_end_offset m' 43 ≡ done (43 + 32))
unfolding make_record tot_len
add_log_example =
    add_log_to_buffer-Holds buffered (serialize deletion) (make_record 3 (commit 5)) buffered-Holds
      refl refl refl (omega arith)

flush_up_to_example :
    (m' : LogManager) × (flush_up_to buffered (some 0) ≡ done m')
    × Holds m' (serialize deletion)
    × (43 ≤ m'.persist_lsn)
    × (take 43 m'.disk ≡ take 43 (serialize deletion))
unfolding lookup
flush_up_to_example =
    flush_up_to-durable buffered (serialize deletion) 0 43 buffered-Holds refl refl

-- The flush thread has taken the record.
abbrev taken_batch : LogBuffer
taken_batch = record { bytes = serialize deletion; base_offset = 0 }

abbrev taken : LogManager
taken = record buffered {
  batch = some taken_batch;
  active = record { bytes = []; base_offset = 43 };
}

taken-Holds : Holds taken (serialize deletion)
unfolding serialize write_header write_body log_type bytes_of write_record write_rid write_string
    lookup
taken-Holds = record {
  counted = (refl, refl);
  joined = (refl, refl);
  on_file = omega arith;
  stored = refl;
  room = omega arith;
  ends = λ lsn end e. ground arith;
  prefix = omega arith;
}

publish_example :
    let m' = publish_batch (write_batch taken taken_batch) taken_batch in
    Holds m' (serialize deletion)
    × (m'.batch ≡ none)
    × (m'.persist_lsn ≡ 0 + length (serialize deletion))
    × (take m'.persist_lsn m'.disk ≡ take m'.persist_lsn (serialize deletion))
publish_example = publish_batch-Holds taken (serialize deletion) taken_batch taken-Holds refl
