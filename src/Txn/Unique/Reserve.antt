-- ===== src/Txn/Unique/Reserve.antt =====
-- `ReserveUniqueKey`, `CheckPendingKeyDeleteConflict` and `MarkUniqueKeyDeleted` of
-- transaction/transaction_manager.cpp. The statement's list of changes is kept also where the call
-- throws, so it is returned beside the result.
use database.Prelude.{
  ℕ, List, [], ◌∷◌, ◌++◌, Option, none, some, Bool, true, false, not, ◌&&◌, if◌then◌else◌,
  has_value, option_eqb, nat_eq, nat_eqb,
}
use database.Txn.Defs.{
  TupleKey, Rid, Result, done, ◌>>◌, throw_if, duplicate_key, statement_conflict_retry, key_eqb,
  key_eq,
}
use database.Txn.Unique.Keys.{UniqueKeyId, unique_key_eq}
use database.Txn.Unique.{
  UniqueKeyEntry, TxnUniqueKeyWriteState, UniqueKeyChange, Registry, UniqueTxn, no_entry, get_entry,
  get_unique_key_generation, store_entry, set_state, get_state, holds_change,
}

-- `SameTupleKey`
abbrev pub same_tuple_key : Option TupleKey → TupleKey → Bool
same_tuple_key none rhs = false
same_tuple_key (some lhs) rhs = key_eqb lhs rhs

-- `CaptureUniqueKeyStatementChangeLocked`; `none` is the null pointer.
unfoldable pub capture :
    Registry
    → UniqueTxn
    → UniqueKeyId
    → Option (List UniqueKeyChange)
    → Option (List UniqueKeyChange)
capture r txn key none = none
capture r txn key (some changes) =
    if holds_change key changes
    then some changes
    else some (
        changes
        ++ record {
          key = key;
          before_entry = get_entry r key;
          before_txn_state = get_state txn key;
        }
          ∷ [])

abbrev pub entry_or_new : Option UniqueKeyEntry → UniqueKeyEntry
entry_or_new none = no_entry
entry_or_new (some e) = e

-- `GetOrCreateTxnUniqueStateLocked`
unfoldable pub get_or_create_state :
    Option TxnUniqueKeyWriteState → UniqueKeyEntry → Bool → TxnUniqueKeyWriteState
get_or_create_state (some state) entry had_entry = state
get_or_create_state none entry had_entry = record {
  had_before_entry = had_entry;
  before_entry = if had_entry then entry else no_entry;
  new_committed_owner = none;
  deleted_committed_owner = none;
  reserved_by_this_txn = false;
  pending_delete_by_this_txn = false;
}

-- The id is there and belongs to another transaction.
abbrev pub by_other : Option ℕ → ℕ → Bool
by_other none txn_id = false
by_other (some other) txn_id = not (nat_eqb other txn_id)

abbrev pub other_or : Option ℕ → ℕ
other_or none = 0
other_or (some other) = other

-- The tree's owner is taken over where the entry has none.
abbrev pub adopt : UniqueKeyEntry → ℕ → Option Rid → UniqueKeyEntry
adopt entry fd none = entry
adopt entry fd (some rid) =
    if has_value entry.committed_owner_tuple
    then entry
    else record entry { committed_owner_tuple = some (record { fd = fd; rid = rid }) }

abbrev pub reserved_elsewhere : Option TxnUniqueKeyWriteState → TupleKey → Bool
reserved_elsewhere none new_owner = true
reserved_elsewhere (some state) new_owner = not (same_tuple_key state.new_committed_owner new_owner)

-- The four refusals of a reservation, in their order.
unfoldable pub check_reserve :
    UniqueKeyEntry → Option TxnUniqueKeyWriteState → TupleKey → ℕ → Result (Unit {0})
check_reserve entry state new_owner txn_id = do
  throw_if (by_other entry.reserved_by_txn txn_id) duplicate_key
  throw_if (by_other entry.pending_delete_by_txn txn_id)
      (statement_conflict_retry (other_or entry.pending_delete_by_txn))
  throw_if
      (option_eqb entry.reserved_by_txn (some txn_id)
        && (not (same_tuple_key entry.committed_owner_tuple new_owner)
            && (not (has_value entry.pending_delete_by_txn) && reserved_elsewhere state new_owner)))
      duplicate_key
  throw_if
      (has_value entry.committed_owner_tuple
        && (not (same_tuple_key entry.committed_owner_tuple new_owner)
            && not (option_eqb entry.pending_delete_by_txn (some txn_id))))
      duplicate_key

-- The registry and the transaction after the calls that change both.
abbrev pub Both : Type 0
Both = Registry × UniqueTxn

-- The end of a reservation.
unfoldable pub grant : Registry → UniqueTxn → UniqueKeyId → UniqueKeyEntry → Bool → TupleKey → Both
unfolding get_or_create_state
grant r txn key entry had_entry new_owner = (
  store_entry r key (record entry { reserved_by_txn = some txn.txn_id }),
  set_state txn key (record (get_or_create_state (get_state txn key) entry had_entry) {
    reserved_by_this_txn = true;
    new_committed_owner = some new_owner;
  }),
)

-- The result says whether the observation of the tree was current.
unfoldable pub reserve_unique_key :
    Registry
    → UniqueTxn
    → UniqueKeyId
    → Rid
    → Option Rid
    → ℕ
    → Option (List UniqueKeyChange)
    → Option (List UniqueKeyChange) × Result (Bool × Both)
unfolding capture check_reserve grant
reserve_unique_key r txn key rid current_owner observed_generation changes =
    if not (nat_eqb (get_unique_key_generation r key) observed_generation)
    then (changes, done (false, (r, txn)))
    else let entry = adopt (entry_or_new (get_entry r key)) key.fd current_owner in
      let new_owner : TupleKey = record { fd = key.fd; rid = rid } in
      (
        capture r txn key changes,
        (check_reserve entry (get_state txn key) new_owner txn.txn_id
            >> done (true, grant r txn key entry (has_value (get_entry r key)) new_owner)),
      )

unfoldable pub check_pending_key_delete_conflict :
    Registry → UniqueTxn → UniqueKeyId → Result (Unit {0})
check_pending_key_delete_conflict r txn key = elim (get_entry r key) [
  | none ↦ done tt
  | some entry ↦
      throw_if (by_other entry.pending_delete_by_txn txn.txn_id)
        (statement_conflict_retry (other_or entry.pending_delete_by_txn))
]

-- The owner that a deletion assumes where the entry names none.
abbrev pub assume_owner : UniqueKeyEntry → TupleKey → UniqueKeyEntry
assume_owner entry old_owner =
    if not (has_value entry.committed_owner_tuple) && not (has_value entry.reserved_by_txn)
    then record entry { committed_owner_tuple = some old_owner }
    else entry

-- The three refusals of a deletion, in their order.
unfoldable pub check_mark : UniqueKeyEntry → TupleKey → ℕ → Result (Unit {0})
check_mark entry old_owner txn_id = do
  throw_if (by_other entry.reserved_by_txn txn_id) duplicate_key
  throw_if (by_other entry.pending_delete_by_txn txn_id) duplicate_key
  throw_if
      (has_value entry.committed_owner_tuple
        && (not (same_tuple_key entry.committed_owner_tuple old_owner)
            && not (option_eqb entry.pending_delete_by_txn (some txn_id))))
      duplicate_key

abbrev pub owner_or : Option TupleKey → TupleKey → TupleKey
owner_or none other = other
owner_or (some owner) other = owner

-- The end of a deletion: a key that this transaction has only reserved loses its new owner, any other
-- is marked.
unfoldable pub mark : Registry → UniqueTxn → UniqueKeyId → UniqueKeyEntry → Bool → TupleKey → Both
unfolding get_or_create_state
mark r txn key entry had_entry old_owner =
    let state = get_or_create_state (get_state txn key) entry had_entry in
    if option_eqb entry.reserved_by_txn (some txn.txn_id)
      && not (has_value entry.committed_owner_tuple)
    then (store_entry r key entry, set_state txn key (record state { new_committed_owner = none }))
    else (
      store_entry r key (record entry { pending_delete_by_txn = some txn.txn_id }),
      set_state txn key (record state {
        pending_delete_by_this_txn = true;
        deleted_committed_owner = some (owner_or entry.committed_owner_tuple old_owner);
      }),
    )

unfoldable pub mark_unique_key_deleted :
    Registry
    → UniqueTxn
    → UniqueKeyId
    → Rid
    → Option (List UniqueKeyChange)
    → Option (List UniqueKeyChange) × Result Both
unfolding capture check_mark mark
mark_unique_key_deleted r txn key rid changes =
    let old_owner : TupleKey = record { fd = key.fd; rid = rid } in
    let entry = assume_owner (entry_or_new (get_entry r key)) old_owner in
    (
      capture r txn key changes,
      (check_mark entry old_owner txn.txn_id
          >> done (mark r txn key entry (has_value (get_entry r key)) old_owner)),
    )
