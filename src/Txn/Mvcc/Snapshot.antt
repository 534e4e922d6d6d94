-- ===== src/Txn/Mvcc/Snapshot.antt =====
-- Snapshot isolation of one tuple, over the version store of transaction/transaction_manager.cpp.
pub mod Logs
pub mod Writers
use database.Prelude.{
  ℕ, zero, suc, ◌+◌, ◌≤◌, ◌<◌, ◌≡◌, ◌≢◌, refl, ap, sym, ◌∙◌, ◌⊎◌, inl, inr, List, [], ◌∷◌, ◌++◌,
  Option, none, some, Bool, true, false, not, if◌then◌else◌, arith, length, has_value, option_eqb,
  get_elem?, lookup, insert, lookup-insert, nat_eq, nat_eqb, Bool-cases, Option-cases,
}
use database.Txn.Defs.{
  Timestamp, ts_leb, RmRecord, TupleKey, UndoLink, UndoLog, TupleState, Transaction, is_valid,
  key_eq,
}
use database.Txn.Mvcc.{
  Manager, get_tuple_state, get_undo_log_optional, find_transaction, set_transaction,
}
use database.Txn.Mvcc.Reads.{
  walk, walk_head, resolve_state, resolve_visible_tuple_impl, reader_id_of, read_ts_of,
}

-- A version of a tuple: when it was committed, and what it holds.
pub record Version : Type 0 where
  pub ts : Timestamp
  pub is_deleted : Bool
  pub payload : RmRecord

abbrev pub version_of : UndoLog → Version
version_of u = record { ts = u.ts; is_deleted = u.is_deleted; payload = u.payload }

-- The link leads along undo logs that hold these versions, newest first, and ends.
abbrev pub Chain : (UndoLink → Option UndoLog) → UndoLink → List Version → Type 0
Chain log l [] = is_valid l ≡ false
Chain log l (v ∷ vs) =
    (is_valid l ≡ true)
    × ((u : UndoLog) × (log l ≡ some u) × (version_of u ≡ v) × Chain log u.prev_version vs)

abbrev pub HeadChain : (UndoLink → Option UndoLog) → Option UndoLink → List Version → Type 0
HeadChain log none vs = vs ≡ []
HeadChain log (some l) vs = Chain log l vs

-- The newest version that the snapshot may see, unless that is a deletion.
unfoldable pub newest_at : Timestamp → List Version → Option RmRecord
newest_at read_ts [] = none
newest_at read_ts (v ∷ vs) =
    if ts_leb v.ts read_ts
    then (if v.is_deleted then none else some v.payload)
    else newest_at read_ts vs

walk-newest_at :
    (fuel : ℕ) (log : UndoLink → Option UndoLog) (read_ts : Timestamp) (l : UndoLink)
    (vs : List Version)
    → Chain log l vs
    → length vs < fuel
    → walk fuel log read_ts l ≡ some (newest_at read_ts vs)
unfolding walk newest_at
walk-newest_at zero log ts l vs c h = absurd (omega arith)
walk-newest_at (suc f) log ts l [] c h = rw (c, walk)
walk-newest_at (suc f) log ts l (v ∷ vs) (valid, (u, e, same, rest)) h =
    ground (arith, walk-newest_at f log ts u.prev_version vs rest)

walk_head-newest_at :
    (fuel : ℕ) (log : UndoLink → Option UndoLog) (read_ts : Timestamp) (h : Option UndoLink)
    (vs : List Version)
    → HeadChain log h vs
    → length vs < fuel
    → walk_head fuel log read_ts h ≡ some (newest_at read_ts vs)
unfolding walk_head newest_at
walk_head-newest_at fuel log ts none vs c h = ground arith
walk_head-newest_at fuel log ts (some l) vs c h = walk-newest_at fuel log ts l vs c h

-- What a transaction should see of a tuple: its own write, or the newest committed version that its
-- snapshot covers. The version in the heap is committed unless the tuple has an owner.
unfoldable pub snapshot_view :
    TupleState → RmRecord → List Version → Option ℕ → Timestamp → Option RmRecord
snapshot_view s latest older reader_id read_ts =
    if option_eqb s.owner reader_id
    then (if s.is_deleted then none else some latest)
    else if has_value s.owner
    then newest_at read_ts older
    else newest_at read_ts
        (record { ts = s.commit_ts; is_deleted = s.is_deleted; payload = latest } ∷ older)

pub resolve_state-snapshot_view :
    (fuel : ℕ) (log : UndoLink → Option UndoLog) (s : TupleState) (latest : RmRecord)
    (older : List Version) (reader_id : Option ℕ) (read_ts : Timestamp)
    → HeadChain log s.undo_head older
    → length older < fuel
    → resolve_state fuel log s latest reader_id read_ts
      ≡ some (snapshot_view s latest older reader_id read_ts)
unfolding resolve_state snapshot_view newest_at
resolve_state-snapshot_view fuel log s latest older reader_id read_ts c h =
    ground (arith, walk_head-newest_at fuel log read_ts s.undo_head older c h)

-- Wherever a tuple of a file marked as versioned has a state, and the links from it lead along the versions `older`, the read ends
-- within one round more than there are versions, and gives the snapshot's view.
pub resolve_visible_tuple_impl-snapshot_view :
    (fuel : ℕ) (m : Manager) (with_file : Bool) (key : TupleKey) (latest : RmRecord)
    (reader : Option Transaction) (s : TupleState) (older : List Version)
    → m.has_mvcc_state key.fd ≡ true
    → get_tuple_state m key ≡ some s
    → HeadChain (get_undo_log_optional m) s.undo_head older
    → length older < fuel
    → resolve_visible_tuple_impl fuel m with_file key latest reader
      ≡ some (snapshot_view s latest older (reader_id_of reader) (read_ts_of m reader))
unfolding resolve_visible_tuple_impl
resolve_visible_tuple_impl-snapshot_view fuel m with_file key latest reader s older flag e c h =
    ground (
      arith,
      resolve_state-snapshot_view fuel (get_undo_log_optional m) s latest older
          (reader_id_of reader) (read_ts_of m reader) c h,
    )

-- A log that keeps what it has keeps every chain.
abbrev pub Extends : (UndoLink → Option UndoLog) → (UndoLink → Option UndoLog) → Type 0
Extends log log' = (l : UndoLink) (u : UndoLog) → log l ≡ some u → log' l ≡ some u

pub Chain-Extends :
    (log log' : UndoLink → Option UndoLog) (l : UndoLink) (vs : List Version)
    → Extends log log'
    → Chain log l vs
    → Chain log' l vs
Chain-Extends log log' l [] x c = c
Chain-Extends log log' l (v ∷ vs) x (valid, (u, e, same, rest)) =
    (valid, (u, x l u e, same, Chain-Extends log log' u.prev_version vs x rest))

pub HeadChain-Extends :
    (log log' : UndoLink → Option UndoLog) (h : Option UndoLink) (vs : List Version)
    → Extends log log'
    → HeadChain log h vs
    → HeadChain log' h vs
HeadChain-Extends log log' none vs x c = c
HeadChain-Extends log log' (some l) vs x c = Chain-Extends log log' l vs x c
