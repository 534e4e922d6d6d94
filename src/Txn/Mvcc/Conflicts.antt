-- ===== src/Txn/Mvcc/Conflicts.antt =====
-- Write conflicts in transaction/transaction_manager.cpp: who is refused, and what a refused call
-- leaves.
use database.Prelude.{
  ℕ, ◌<◌, ◌≡◌, ◌≢◌, refl, ◌∙◌, Option, none, some, true, false, arith, option_eqb, option_eqb_iff,
  nat_eq,
}
use database.Txn.Defs.{
  RmRecord, TupleKey, TupleState, Transaction, key_eqb_iff, key_eq, TupleWriteKind,
  WriteCheckOutcome, WriteCheckResult, conflict_with_active_writer, conflict_with_committed_version,
  done,
}
use database.Txn.Mvcc.{Manager, get_tuple_state, set_shard, shard_for, mark_has_mvcc_state}
use database.Txn.Mvcc.Writes.{state_or_fresh, acquire_write_and_record, refusal, emplace, outcome}
use database.Txn.Mvcc.States.{get-emplace, get-mark_has_mvcc_state}
use database.Txn.Mvcc.Endings.{commit_tuple_states, snapshot_keys}
use database.Txn.Mvcc.Endings.Loops.{visits}
use database.Txn.Mvcc.Endings.Commit.{get-commit_tuple_states}

-- A refused call changes no tuple state: an entry that it creates is the one that every reader
-- assumes where there is none.
abbrev pub Refused :
    Manager
    → TupleKey
    → RmRecord
    → Transaction
    → TupleWriteKind
    → WriteCheckResult
    → Option ℕ
    → Type 0
Refused m key old txn kind result owner =
    (out : WriteCheckOutcome) × (m' : Manager) × (acquire_write_and_record m key old (some txn) kind
      ≡ done (out, m'))
    × (out.result ≡ result)
    × (out.owner ≡ owner)
    × ((k : TupleKey)
        → state_or_fresh (get_tuple_state m' k) ≡ state_or_fresh (get_tuple_state m k))

-- The manager that a refusal leaves.
after_refusal : Manager → TupleKey → Manager
after_refusal m key =
    let m₁ = mark_has_mvcc_state m key.fd in set_shard m₁ key (emplace (shard_for m₁ key) key)

get-after_refusal :
    (m : Manager) (key k : TupleKey)
    → state_or_fresh (get_tuple_state (after_refusal m key) k)
      ≡ state_or_fresh (get_tuple_state m k)
unfolding after_refusal
get-after_refusal m key k = ground (
  arith,
  get-emplace (mark_has_mvcc_state m key.fd) key k,
  get-mark_has_mvcc_state m key.fd k,
  get-mark_has_mvcc_state m key.fd key,
  key_eqb_iff key k,
)

Refused-by :
    (m : Manager) (key : TupleKey) (old : RmRecord) (txn : Transaction) (kind : TupleWriteKind)
    (out : WriteCheckOutcome)
    → option_eqb (state_or_fresh (get_tuple_state m key)).owner (some txn.txn_id) ≡ false
    → refusal (state_or_fresh (get_tuple_state m key)) txn.start_ts ≡ some out
    → Refused m key old txn kind out.result out.owner
unfolding acquire_write_and_record after_refusal
Refused-by m key old txn kind out other e = (
  out,
  after_refusal m key,
  ground (arith, get-mark_has_mvcc_state m key.fd key),
  refl,
  refl,
  λ k. get-after_refusal m key k,
)

owned_refusal :
    (s : TupleState) (start_ts u : ℕ)
    → s.owner ≡ some u
    → refusal s start_ts ≡ some (outcome conflict_with_active_writer false (some u))
unfolding refusal
owned_refusal s start_ts u e = ground arith

late_refusal :
    (s : TupleState) (start_ts c : ℕ)
    → s.owner ≡ none
    → s.commit_ts ≡ some c
    → start_ts < c
    → refusal s start_ts ≡ some (outcome conflict_with_committed_version false none)
unfolding refusal
late_refusal s start_ts c e f h = ground arith

-- While one transaction owns a tuple and has a write state of it, a write by another is refused with the owner's id. After the
-- owner has committed, a write by a transaction that started before that commit is refused as well.
-- Neither refusal changes a tuple state.
pub first_committer_wins :
    (m : Manager) (key : TupleKey) (old : RmRecord) (first second : Transaction)
    (kind : TupleWriteKind) (commit_ts : ℕ) (s : TupleState)
    → get_tuple_state m key ≡ some s
    → s.owner ≡ some first.txn_id
    → second.txn_id ≢ first.txn_id
    → visits (λ (a : TupleKey). a) key (snapshot_keys first) ≡ true
    → second.start_ts < commit_ts
    → Refused m key old second kind conflict_with_active_writer (some first.txn_id)
      × Refused
          (commit_tuple_states m first commit_ts)
          key
          old
          second
          kind
          conflict_with_committed_version
          none
first_committer_wins m key old first second kind c s e own ne visited late =
    let s' : TupleState = record s { owner = none; commit_ts = some c } in
    let e' : get_tuple_state (commit_tuple_states m first c) key ≡ some s' =
      get-commit_tuple_states m first c key
      ∙ rw (visited, e, (option_eqb_iff s.owner (some first.txn_id)).1 own) refl in
    (
      Refused-by m key old second kind
          (outcome conflict_with_active_writer false (some first.txn_id)) (rw e (ground arith))
          (rw e (owned_refusal s second.start_ts first.txn_id own)),
      Refused-by (commit_tuple_states m first c) key old second kind
          (outcome conflict_with_committed_version false none) (rw e' refl)
          (rw e' (late_refusal s' second.start_ts c refl refl late)),
    )
