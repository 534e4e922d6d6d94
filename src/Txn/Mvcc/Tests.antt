-- ===== src/Txn/Mvcc/Tests.antt =====
-- Runs of the version store of transaction/transaction_manager.cpp: one tuple, a writer, a reader.
use database.Prelude.{
  ℕ, ◌≤◌, ◌<◌, ◌≡◌, ◌≢◌, refl, List, [], ◌∷◌, none, some, true, false, arith, lookup, insert,
  nat_eq,
}
use database.Txn.Defs.{
  TupleKey, UndoLog, TupleState, Transaction, TxnTupleWriteState, key_eq, done, no_link,
  conflict_with_active_writer, conflict_with_committed_version, update,
}
use database.Txn.Mvcc.{
  Manager, get_tuple_state, shard_for, set_shard, mark_has_mvcc_state, get_undo_log_optional,
  find_transaction,
}
use database.Txn.Mvcc.Shards.{shard_index, tuple_state_shard_hash}
use database.Txn.Mvcc.Reads.{resolve_visible_tuple_impl, reader_id_of, read_ts_of}
use database.Txn.Mvcc.Writes.{
  acquire_write_and_record, refusal, take_ownership, deletes, with_first_write,
}
use database.Txn.Mvcc.Endings.{commit_tuple_states, abort_tuple_states, collect_state}
use database.Txn.Mvcc.Endings.Commit.{commit_tuple_states-published}
use database.Txn.Mvcc.Endings.Abort.{
  restored, abort_tuple_states-restored, view_or_latest, collect_state-view,
}
use database.Txn.Mvcc.Snapshot.{
  Version, version_of, HeadChain, snapshot_view, resolve_visible_tuple_impl-snapshot_view,
}
use database.Txn.Mvcc.Snapshot.Writers.{History, SameViews, acquire_write_and_record-Granted}
use database.Txn.Mvcc.Conflicts.{Refused, first_committer_wins}
use database.Txn.Mvcc.FirstWrites.{
  acquire_write_and_record-check_then_record, Leaves, first_write_states, check_then_record,
}

abbrev tuple : TupleKey
tuple = record { fd = 3; rid = record { page_no = 1; slot_no = 0 } }

abbrev committed_state : TupleState
committed_state = record { commit_ts = some 4; owner = none; is_deleted = false; undo_head = none }

abbrev writer : Transaction
writer = record { txn_id = 2; start_ts = 5; undo_logs = []; tuple_write_states = [] }

abbrev reader : Transaction
reader = record { txn_id = 3; start_ts = 5; undo_logs = []; tuple_write_states = [] }

abbrev empty_manager : Manager
empty_manager = record {
  tuple_state_shards = λ i. record { states = []; approx_size = 0; publication_epoch = 0 };
  has_mvcc_state = λ fd. true;
  txn_map = (2, writer) ∷ (3, reader) ∷ [];
  last_commit_ts = 5;
  release_epoch = 0;
}

abbrev manager_with : TupleState → Transaction → Manager
manager_with s txn =
    record (set_shard empty_manager tuple
      (record { states = (tuple, s) ∷ []; approx_size = 1; publication_epoch = 1 })) {
        txn_map = (2, txn) ∷ (3, reader) ∷ [];
      }

manager_with-state :
    (s : TupleState) (txn : Transaction) → get_tuple_state (manager_with s txn) tuple ≡ some s
unfolding get_tuple_state shard_for set_shard lookup shard_index tuple_state_shard_hash
manager_with-state s txn = refl

-- Committed at 4 and written by nobody since.
abbrev quiet : Manager
quiet = manager_with committed_state writer

-- The version that the writer has covered.
abbrev covered : UndoLog
covered = record { is_deleted = false; payload = 7 ∷ []; ts = some 4; prev_version = no_link }

abbrev owned_state : TupleState
owned_state = record {
  commit_ts = some 4;
  owner = some 2;
  is_deleted = false;
  undo_head = some (record { prev_txn = some 2; prev_log_idx = 0 });
}

abbrev busy_writer : Transaction
busy_writer = record {
  txn_id = 2;
  start_ts = 5;
  undo_logs = covered ∷ [];
  tuple_write_states =
      (
        tuple,
        record {
          inserted_by_txn = false;
          has_before_state = true;
          before_first_write = committed_state;
        },
      )
      ∷ [];
}

-- The writer owns the tuple.
abbrev written : Manager
written = manager_with owned_state busy_writer

abbrev versions : List Version
versions = version_of covered ∷ []

written-chain : HeadChain (get_undo_log_optional written) owned_state.undo_head versions
unfolding get_undo_log_optional find_transaction lookup set_shard
written-chain = (refl, (covered, refl, refl, refl))

resolve_example :
    resolve_visible_tuple_impl 2 written false tuple (8 ∷ []) (some reader)
    ≡ some (
        snapshot_view owned_state
          (8 ∷ [])
          versions
          (reader_id_of (some reader))
          (read_ts_of written (some reader)))
unfolding set_shard
resolve_example =
    resolve_visible_tuple_impl-snapshot_view 2 written false tuple (8 ∷ []) (some reader)
      owned_state versions refl (manager_with-state owned_state busy_writer) written-chain
      (omega arith)

collect_example :
    view_or_latest (get_tuple_state (collect_state 5 quiet tuple) tuple) (7 ∷ []) [] 3 5
    ≡ view_or_latest (get_tuple_state quiet tuple) (7 ∷ []) [] 3 5
collect_example = collect_state-view quiet 5 tuple tuple (7 ∷ []) [] 3 5 (omega arith)

abort_example :
    ((k : TupleKey) (w : TxnTupleWriteState)
      → lookup k busy_writer.tuple_write_states ≡ some w
      → get_tuple_state (abort_tuple_states written busy_writer) k ≡ restored w)
    × ((k : TupleKey)
        → lookup k busy_writer.tuple_write_states ≡ none
        → get_tuple_state (abort_tuple_states written busy_writer) k ≡ get_tuple_state written k)
unfolding lookup
abort_example = abort_tuple_states-restored written busy_writer (refl, tt)

commit_example :
    let m' = commit_tuple_states written busy_writer 6 in
    let s' : TupleState = record owned_state { owner = none; commit_ts = some 6 } in
    (get_tuple_state m' tuple ≡ some s')
    × HeadChain (get_undo_log_optional m') s'.undo_head versions
    × ((r read_ts : ℕ)
        → r ≢ 2
        → read_ts < 6
        → snapshot_view s' (8 ∷ []) versions (some r) (some read_ts)
          ≡ snapshot_view owned_state (8 ∷ []) versions (some r) (some read_ts))
    × ((r read_ts : ℕ)
        → 6 ≤ read_ts
        → snapshot_view s' (8 ∷ []) versions (some r) (some read_ts)
          ≡ snapshot_view owned_state (8 ∷ []) versions (some 2) (some read_ts))
unfolding lookup set_shard
commit_example =
    commit_tuple_states-published written busy_writer 6 tuple (8 ∷ []) owned_state versions
      (manager_with-state owned_state busy_writer) written-chain refl refl refl

first_committer_example :
    Refused written tuple (8 ∷ []) reader update conflict_with_active_writer (some 2)
    × Refused
        (commit_tuple_states written busy_writer 6)
        tuple
        (8 ∷ [])
        reader
        update
        conflict_with_committed_version
        none
first_committer_example =
    first_committer_wins written tuple (8 ∷ []) busy_writer reader update 6 owned_state
      (manager_with-state owned_state busy_writer) refl (λ e. ground (arith, e)) refl (omega arith)

quiet-History : History quiet tuple committed_state []
unfolding get_tuple_state shard_for set_shard lookup shard_index tuple_state_shard_hash
quiet-History = record { state = refl; chain = refl }

-- The outcome of the writer's write.
abbrev granted : Manager
granted =
    (take_ownership (mark_has_mvcc_state quiet 3) tuple committed_state (7 ∷ []) writer false).1

granted_call :
    acquire_write_and_record quiet tuple (7 ∷ []) (some writer) update
    ≡ done (
      (take_ownership (mark_has_mvcc_state quiet 3) tuple committed_state (7 ∷ []) writer false).0,
      granted,
    )
unfolding acquire_write_and_record refusal mark_has_mvcc_state get_tuple_state shard_for set_shard
    lookup shard_index tuple_state_shard_hash
granted_call = refl

granted_example :
    (s' : TupleState) × (older' : List Version) × History granted tuple s' older'
    × (s'.owner ≡ some 2)
    × (s'.is_deleted ≡ deletes update)
    × SameViews 2 s' older' committed_state (7 ∷ []) []
unfolding take_ownership lookup set_shard
granted_example =
    acquire_write_and_record-Granted quiet granted tuple (7 ∷ []) writer update
      (take_ownership (mark_has_mvcc_state quiet 3) tuple committed_state (7 ∷ []) writer false).0
      committed_state [] quiet-History refl (λ e. ground (arith, e)) granted_call refl

check_then_record_example :
    Leaves
      (acquire_write_and_record quiet tuple (7 ∷ []) (some writer) update)
      (first_write_states quiet tuple committed_state writer update)
      (insert 2 (with_first_write writer tuple committed_state (7 ∷ [])) quiet.txn_map)
    × Leaves
        (check_then_record quiet tuple (7 ∷ []) writer update)
        (first_write_states quiet tuple committed_state writer update)
        (insert 2 (with_first_write writer tuple committed_state (7 ∷ [])) quiet.txn_map)
unfolding lookup
check_then_record_example =
    acquire_write_and_record-check_then_record quiet tuple (7 ∷ []) writer update committed_state
      quiet-History.state refl refl refl refl
