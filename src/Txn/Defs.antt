-- ===== src/Txn/Defs.antt =====
-- transaction/txn_defs.h and transaction/transaction.h: the data that the transaction manager keeps.
-- Transaction ids are numbers, `none` is INVALID_TXN_ID. A timestamp is a number, or `none` for
-- INVALID_TS, which is -1 in the source and so below every number. The counters do not wrap.
use database.Prelude.{
  ℕ, ◌≡◌, ◌↔◌, List, Option, none, some, Bool, true, false, ◌&&◌, arith, leb, nat_eqb, Map, Eq,
  has_value,
}

abbrev pub Timestamp : Type 0
Timestamp = Option ℕ

abbrev pub ts_leb : Timestamp → Timestamp → Bool
ts_leb none b = true
ts_leb (some a) none = false
ts_leb (some a) (some b) = leb a b

-- The payload of a record, as its bytes.
abbrev pub RmRecord : Type 0
RmRecord = List ℕ

pub record Rid : Type 0 where
  pub page_no : ℕ
  pub slot_no : ℕ

pub record TupleKey : Type 0 where
  pub fd : ℕ
  pub rid : Rid

abbrev pub key_eqb : TupleKey → TupleKey → Bool
key_eqb a b =
    nat_eqb a.fd b.fd
    && (nat_eqb a.rid.page_no b.rid.page_no && nat_eqb a.rid.slot_no b.rid.slot_no)

pub key_eqb_iff : (a b : TupleKey) → (key_eqb a b ≡ true) ↔ (a ≡ b)
key_eqb_iff a b = ground arith

instance abbrev pub key_eq : Eq TupleKey
key_eq = record { test = key_eqb; test_iff = key_eqb_iff }

pub record UndoLink : Type 0 where
  pub prev_txn : Option ℕ
  pub prev_log_idx : ℕ

abbrev pub no_link : UndoLink
no_link = record { prev_txn = none; prev_log_idx = 0 }

abbrev pub is_valid : UndoLink → Bool
is_valid l = has_value l.prev_txn

pub record UndoLog : Type 0 where
  pub is_deleted : Bool
  pub payload : RmRecord
  pub ts : Timestamp
  pub prev_version : UndoLink

pub record TupleState : Type 0 where
  pub commit_ts : Timestamp
  pub owner : Option ℕ
  pub is_deleted : Bool
  pub undo_head : Option UndoLink

-- `TupleState{}`
abbrev pub fresh_state : TupleState
fresh_state = record { commit_ts = some 0; owner = none; is_deleted = false; undo_head = none }

pub record TxnTupleWriteState : Type 0 where
  pub inserted_by_txn : Bool
  pub has_before_state : Bool
  pub before_first_write : TupleState

-- The fields of a transaction that the version store reads and writes.
pub record Transaction : Type 0 where
  pub txn_id : ℕ
  pub start_ts : ℕ
  pub undo_logs : List UndoLog
  pub tuple_write_states : Map TupleKey TxnTupleWriteState

pub data WriteCheckResult : Type 0 where
  ok conflict_with_active_writer conflict_with_committed_version not_visible_or_deleted :
      WriteCheckResult

pub data TupleWriteKind : Type 0 where
  update delete : TupleWriteKind

pub record WriteCheckOutcome : Type 0 where
  pub result : WriteCheckResult
  pub newly_acquired : Bool
  pub owner : Option ℕ
  pub newly_recorded_tuple_state : Bool
  pub changed_owned_delete_flag : Bool
  pub previous_owned_delete_flag : Bool

-- `out_of_rounds` is no error of the source: a loop that ran for more rounds than the model allows.
pub data Error : Type 0 where
  internal_error duplicate_key out_of_rounds : Error
  statement_conflict_retry transaction_abort : ℕ → Error
  page_not_exist : Option ℕ → Error
  record_not_found : Rid → Error

pub data Result {ℓ} (A : Type ℓ) : Type ℓ where
  done : A → Result A
  throw : Error → Result A

infixl 5 ◌>>=◌ ◌>>◌
abbrev pub ◌>>=◌ {ℓ κ} : {A : Type ℓ} {B : Type κ} → Result A → (A → Result B) → Result B
done a >>= f = f a
throw e >>= f = throw e

abbrev pub ◌>>◌ {ℓ} : {B : Type ℓ} → Result (Unit {0}) → Result B → Result B
m >> k = m >>= λ _. k

-- A thrown error where the test holds.
abbrev pub throw_if : Bool → Error → Result (Unit {0})
throw_if true e = throw e
throw_if false e = done tt
