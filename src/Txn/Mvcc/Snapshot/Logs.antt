-- ===== src/Txn/Mvcc/Snapshot/Logs.antt =====
-- The undo logs of transaction/transaction.h across a first write.
use database.Prelude.{
  ℕ, zero, suc, ◌≡◌, refl, List, [], ◌∷◌, ◌++◌, Option, none, some, if◌then◌else◌, arith, length,
  get_elem?, lookup, lookup-insert, nat_eq, nat_eqb_iff, insert, option_eqb,
}
use database.Txn.Defs.{TupleKey, RmRecord, UndoLink, UndoLog, TupleState, Transaction}
use database.Txn.Mvcc.{Manager, find_transaction, get_undo_log_optional, set_transaction}
use database.Txn.Mvcc.Writes.{undo_of, with_first_write, next_link}
use database.Txn.Mvcc.Snapshot.{Extends}

module _ {ℓ} {A : Type ℓ} where
  get_elem?-append :
      (xs ys : List A) (i : ℕ) (a : A) → get_elem? xs i ≡ some a → get_elem? (xs ++ ys) i ≡ some a
  get_elem?-append [] ys i a e = absurd (cc)
  get_elem?-append (x ∷ xs) ys zero a e = e
  get_elem?-append (x ∷ xs) ys (suc i) a e = get_elem?-append xs ys i a e

  get_elem?-append_length : (xs : List A) (a : A) → get_elem? (xs ++ a ∷ []) (length xs) ≡ some a
  get_elem?-append_length [] a = refl
  get_elem?-append_length (x ∷ xs) a = get_elem?-append_length xs a

-- The undo logs depend on the transactions only.
pub log_of_txn_map :
    (m m' : Manager) (l : UndoLink)
    → m'.txn_map ≡ m.txn_map
    → get_undo_log_optional m' l ≡ get_undo_log_optional m l
unfolding get_undo_log_optional find_transaction
log_of_txn_map m m' l e = ground arith

-- A transaction object that is replaced by one with more undo logs keeps what links lead to.
pub set_transaction-Extends :
    (m : Manager) (txn txn' : Transaction) (more : List UndoLog)
    → lookup txn.txn_id m.txn_map ≡ some txn
    → txn'.txn_id ≡ txn.txn_id
    → txn'.undo_logs ≡ txn.undo_logs ++ more
    → Extends (get_undo_log_optional m) (get_undo_log_optional (set_transaction m txn'))
unfolding get_undo_log_optional find_transaction set_transaction
set_transaction-Extends m txn txn' more here same logs l u e =
    ground (arith, lookup_link l.prev_txn, get_elem?-append txn.undo_logs more l.prev_log_idx u)
  where
    lookup_link :
        (id : Option ℕ)
        → find_transaction (record m { txn_map = insert txn'.txn_id txn' m.txn_map }) id
          ≡ (if option_eqb id (some txn'.txn_id) then some txn' else find_transaction m id)
    lookup_link none = refl
    lookup_link (some i) = ground (arith, lookup-insert txn'.txn_id i txn' m.txn_map)

-- The link that a first write returns leads to the undo log that it appended.
pub log-next_link :
    (m : Manager) (txn : Transaction) (key : TupleKey) (s : TupleState) (old : RmRecord)
    → get_undo_log_optional (set_transaction m (with_first_write txn key s old)) (next_link txn)
      ≡ some (undo_of s old)
unfolding get_undo_log_optional find_transaction set_transaction
log-next_link m txn key s old = ground (
  arith,
  lookup-insert txn.txn_id txn.txn_id (with_first_write txn key s old) m.txn_map,
  nat_eqb_iff txn.txn_id txn.txn_id,
  get_elem?-append_length txn.undo_logs (undo_of s old),
)
