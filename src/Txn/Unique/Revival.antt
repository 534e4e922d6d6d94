-- ===== src/Txn/Unique/Revival.antt =====
-- The restore of a refused reservation in transaction/transaction_manager.cpp. `ReserveUniqueKey`
-- captures the entry of another transaction before it throws, and execution/executor_insert.h then
-- restores it, under a later lock.
use database.Prelude.{
  ℕ, ◌≡◌, ◌≢◌, ap, refl, List, [], ◌∷◌, Option, none, some, true, arith, nat_eqb, nat_eqb_iff,
}
use database.Txn.Defs.{Rid, TupleKey, throw, duplicate_key}
use database.Txn.Unique.Keys.{UniqueKeyId, unique_key_eqb_iff}
use database.Txn.Unique.{
  UniqueKeyEntry, TxnUniqueKeyWriteState, Registry, UniqueTxn, UniqueKeyChange, get_entry,
  get_state, get_unique_key_generation,
}
use database.Txn.Unique.Reserve.{adopt, check_reserve, reserve_unique_key, capture}
use database.Txn.Unique.Finish.{
  undo, bump, needed, restore_unique_key_changes, cleanup_unique_key_abort,
}
use database.Txn.Unique.Views.{changes_or}
use database.Txn.Unique.Entries.{get_entry-put_entry}

check_reserve-by_other :
    (e : UniqueKeyEntry) (fd : ℕ) (seen : Option Rid) (st : Option TxnUniqueKeyWriteState)
    (owner : TupleKey) (i id : ℕ)
    → e.reserved_by_txn ≡ some id
    → i ≢ id
    → check_reserve (adopt e fd seen) st owner i ≡ throw duplicate_key
unfolding check_reserve
check_reserve-by_other e fd seen st owner i id h ne = ground (arith, nat_eqb_iff id i)

-- A key that another transaction has reserved is refused.
pub reserve-by_other :
    (r : Registry) (t : UniqueTxn) (key : UniqueKeyId) (rid : Rid) (seen : Option Rid)
    (changes : Option (List UniqueKeyChange)) (e : UniqueKeyEntry) (id : ℕ)
    → get_entry r key ≡ some e
    → e.reserved_by_txn ≡ some id
    → t.txn_id ≢ id
    → reserve_unique_key r t key rid seen (get_unique_key_generation r key) changes
      ≡ (capture r t key changes, throw duplicate_key)
unfolding reserve_unique_key
reserve-by_other r t key rid seen changes e id h reserved ne =
    let current : nat_eqb (get_unique_key_generation r key) (get_unique_key_generation r key)
        ≡ true =
      ground
        (arith, nat_eqb_iff (get_unique_key_generation r key) (get_unique_key_generation r key)) in
    rw (current, h)
      (rw
        (check_reserve-by_other e key.fd seen (get_state t key) (record { fd = key.fd; rid = rid })
          t.txn_id id reserved ne)
        refl)

-- Where transaction `a` has reserved a key and `b` is refused it, and `a` then aborts before `b`
-- restores its changes, the entry of `a` stands in the registry again, and every reservation of the
-- key by a transaction other than `a` fails with a duplicate key.
pub refused_reservation_revives :
    (r : Registry) (a b c : UniqueTxn) (key : UniqueKeyId) (rid rid' : Rid)
    (seen seen' : Option Rid) (e : UniqueKeyEntry)
    → get_entry r key ≡ some e
    → e.reserved_by_txn ≡ some a.txn_id
    → b.txn_id ≢ a.txn_id
    → c.txn_id ≢ a.txn_id
    → let tried = reserve_unique_key r b key rid seen (get_unique_key_generation r key) (some []) in
      let aborted = cleanup_unique_key_abort r a in
      let restored = restore_unique_key_changes (changes_or tried.0) (aborted.0, b) in
      (tried.1 ≡ throw duplicate_key)
      × (get_entry restored.0 key ≡ some e)
      × ((reserve_unique_key restored.0 c key rid' seen'
            (get_unique_key_generation restored.0 key)
            none).1
          ≡ throw duplicate_key)
unfolding capture restore_unique_key_changes undo
refused_reservation_revives r a b c key rid rid' seen seen' e h reserved ne_b ne_c =
    let refused = reserve-by_other r b key rid seen (some []) e a.txn_id h reserved ne_b in
    let change : UniqueKeyChange = record {
      key = key;
      before_entry = some e;
      before_txn_state = get_state b key;
    } in
    let captured : capture r b key (some []) ≡ some (change ∷ []) = rw h refl in
    let revived : (both : Registry × UniqueTxn)
        → get_entry (restore_unique_key_changes (change ∷ []) both).0 key ≡ some e =
      λ both. ground (
        arith,
        get_entry-put_entry (bump (needed (λ d. d.key) (change ∷ [])) both.0) key key (some e),
        unique_key_eqb_iff key key,
      ) in
    let aborted = cleanup_unique_key_abort r a in
    rw refused (
      rw h (
        refl,
        revived (aborted.0, b),
        ap (λ x. x.1)
            (reserve-by_other _ c key rid' seen' none e a.txn_id (revived (aborted.0, b)) reserved
              ne_c),
      ))
