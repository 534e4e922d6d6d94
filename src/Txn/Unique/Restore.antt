-- ===== src/Txn/Unique/Restore.antt =====
-- A failed statement takes back what it did to the unique keys: `CaptureUniqueKeyStatementChangeLocked`
-- and `RestoreUniqueKeyChanges` of transaction/transaction_manager.cpp, as the insert, update and
-- delete executors use them.
use database.Prelude.{
  ◌≡◌, ap, refl, ◌∙◌, List, [], ◌∷◌, none, some, Bool, true, false, arith, Bool-cases, inl, inr,
  nat_eqb, has_value,
}
use database.Txn.Defs.{TupleKey, Result, done, throw, ◌>>◌}
use database.Txn.Unique.Keys.{UniqueKeyId, unique_key_eqb, unique_key_eqb_iff}
use database.Txn.Unique.{
  UniqueKeyEntry, UniqueKeyChange, Registry, UniqueTxn, get_entry, get_state, holds_change,
  get_unique_key_generation,
}
use database.Txn.Unique.Reserve.{
  capture, Both, grant, mark, get_or_create_state, owner_or, adopt, entry_or_new, assume_owner,
  check_mark, check_reserve, reserve_unique_key, mark_unique_key_deleted,
}
use database.Txn.Unique.Finish.{needed, restore_unique_key_changes}
use database.Txn.Unique.Entries.{get_entry-store_entry, get_entry-bump, get_state-set_state}
use database.Txn.Unique.Views.{
  Call, after_reserve, after_delete, call, changes_or, statement, entry_view, state_view,
  get_entry-undo, get_state-undo, entry_view-append, state_view-append, entry_view-held,
  state_view-held, reserve, delete,
}

-- What the two states of registry and transaction agree on outside one key.
record SameElsewhere (k : UniqueKeyId) (a b : Both) : Type 0 where
  entry_eq :
      (key : UniqueKeyId) → unique_key_eqb k key ≡ false → get_entry b.0 key ≡ get_entry a.0 key
  state_eq :
      (key : UniqueKeyId) → unique_key_eqb k key ≡ false → get_state b.1 key ≡ get_state a.1 key

record SameViews (cs cs' : List UniqueKeyChange) (a b : Both) : Type 0 where
  entry_eq : (key : UniqueKeyId) → entry_view key cs' b.0 ≡ entry_view key cs a.0
  state_eq : (key : UniqueKeyId) → state_view key cs' b.1 ≡ state_view key cs a.1

same : (k : UniqueKeyId) (a : Both) → SameElsewhere k a a
same k a = record { entry_eq = λ key h. refl; state_eq = λ key h. refl }

holds_change-eq :
    (k key : UniqueKeyId) (cs : List UniqueKeyChange)
    → holds_change k cs ≡ true
    → holds_change key cs ≡ false
    → unique_key_eqb k key ≡ false
holds_change-eq k key cs h g =
    ground (arith, unique_key_eqb_iff k key, ap (λ x. holds_change x cs) {x = k} {y = key})

capture-SameViews :
    (k : UniqueKeyId) (cs : List UniqueKeyChange) (a b : Both)
    → SameElsewhere k a b
    → SameViews cs (changes_or (capture a.0 a.1 k (some cs))) a b
unfolding capture
capture-SameViews k cs a b h = elim (Bool-cases (holds_change k cs)) [
  | inl held ↦ rw held (record {
    entry_eq = λ key.
        entry_view-held key cs a.0 b.0 (λ g. h.entry_eq key (holds_change-eq k key cs held g));
    state_eq = λ key.
        state_view-held key cs a.1 b.1 (λ g. h.state_eq key (holds_change-eq k key cs held g));
  })
  | inr new ↦ rw new (record {
    entry_eq = λ key. entry_view-append key cs _ a.0 b.0 (λ g.
        ground
          (arith, h.entry_eq key, unique_key_eqb_iff k key, ap (get_entry a.0) {x = k} {y = key}));
    state_eq = λ key. state_view-append key cs _ a.1 b.1 (λ g.
        ground
          (arith, h.state_eq key, unique_key_eqb_iff k key, ap (get_state a.1) {x = k} {y = key}));
  })
]

grant-SameElsewhere :
    (r : Registry) (t : UniqueTxn) (k : UniqueKeyId) (e : UniqueKeyEntry) (had : Bool)
    (owner : TupleKey)
    → SameElsewhere k (r, t) (grant r t k e had owner)
unfolding grant
grant-SameElsewhere r t k e had owner = record {
  entry_eq = λ key h.
      ground (arith, get_entry-store_entry r k key (record e { reserved_by_txn = some t.txn_id }));
  state_eq = λ key h. ground (
    arith,
    get_state-set_state t k key (record (get_or_create_state (get_state t k) e had) {
      reserved_by_this_txn = true;
      new_committed_owner = some owner;
    }),
  );
}

mark-SameElsewhere :
    (r : Registry) (t : UniqueTxn) (k : UniqueKeyId) (e : UniqueKeyEntry) (had : Bool)
    (owner : TupleKey)
    → SameElsewhere k (r, t) (mark r t k e had owner)
unfolding mark
mark-SameElsewhere r t k e had owner = record {
  entry_eq = λ key h. ground (
    arith,
    get_entry-store_entry r k key e,
    get_entry-store_entry r k key (record e { pending_delete_by_txn = some t.txn_id }),
  );
  state_eq = λ key h. ground (
    arith,
    get_state-set_state t k key
        (record (get_or_create_state (get_state t k) e had) { new_committed_owner = none }),
    get_state-set_state t k key (record (get_or_create_state (get_state t k) e had) {
      pending_delete_by_this_txn = true;
      deleted_committed_owner = some (owner_or e.committed_owner_tuple owner);
    }),
  );
}

reserve-SameElsewhere :
    (r : Registry) (t : UniqueTxn) (k : UniqueKeyId) (g : Result (Unit {0})) (e : UniqueKeyEntry)
    (had : Bool) (owner : TupleKey)
    → SameElsewhere k (r, t) (after_reserve (r, t) (g >> done (true, grant r t k e had owner)))
reserve-SameElsewhere r t k (done u) e had owner = grant-SameElsewhere r t k e had owner
reserve-SameElsewhere r t k (throw x) e had owner = same k (r, t)

delete-SameElsewhere :
    (r : Registry) (t : UniqueTxn) (k : UniqueKeyId) (g : Result (Unit {0})) (e : UniqueKeyEntry)
    (had : Bool) (owner : TupleKey)
    → SameElsewhere k (r, t) (after_delete (r, t) (g >> done (mark r t k e had owner)))
delete-SameElsewhere r t k (done u) e had owner = mark-SameElsewhere r t k e had owner
delete-SameElsewhere r t k (throw x) e had owner = same k (r, t)

call-SameViews :
    (cs : List UniqueKeyChange) (a : Both) (c : Call)
    → SameViews cs (changes_or (call (cs, a) c).0) a (call (cs, a) c).1
unfolding call reserve_unique_key mark_unique_key_deleted
call-SameViews cs a (reserve key rid owner generation) =
    elim (Bool-cases (nat_eqb (get_unique_key_generation a.0 key) generation)) [
      | inl current ↦
          let new_owner : TupleKey = record { fd = key.fd; rid = rid } in
          let e = adopt (entry_or_new (get_entry a.0 key)) key.fd owner in
          rw current (
            capture-SameViews key cs a _ (
              reserve-SameElsewhere a.0 a.1 key
                (check_reserve e (get_state a.1 key) new_owner a.1.txn_id) e
                (has_value (get_entry a.0 key)) new_owner))
      | inr stale ↦ rw stale (record { entry_eq = λ j. refl; state_eq = λ j. refl })
    ]
call-SameViews cs a (delete key rid) =
    let owner : TupleKey = record { fd = key.fd; rid = rid } in
    let e = assume_owner (entry_or_new (get_entry a.0 key)) owner in
    capture-SameViews key cs a _ (
      delete-SameElsewhere a.0 a.1 key (check_mark e owner a.1.txn_id) e
        (has_value (get_entry a.0 key)) owner)

statement-SameViews :
    (cs : List UniqueKeyChange) (a : Both) (calls : List Call)
    → SameViews cs (statement (cs, a) calls).0 a (statement (cs, a) calls).1
unfolding statement
statement-SameViews cs a [] = record { entry_eq = λ j. refl; state_eq = λ j. refl }
statement-SameViews cs a (c ∷ calls) =
    let out = call (cs, a) c in
    let first = call-SameViews cs a c in
    let rest = statement-SameViews (changes_or out.0) out.1 calls in
    record {
      entry_eq = λ j. rest.entry_eq j ∙ first.entry_eq j;
      state_eq = λ j. rest.state_eq j ∙ first.state_eq j;
    }

restore-views :
    (cs : List UniqueKeyChange) (both : Both) (key : UniqueKeyId)
    → (get_entry (restore_unique_key_changes cs both).0 key ≡ entry_view key cs both.0)
      × (get_state (restore_unique_key_changes cs both).1 key ≡ state_view key cs both.1)
unfolding restore_unique_key_changes
restore-views [] both key = (refl, refl)
restore-views (c ∷ cs) both key = (
  get_entry-undo key (c ∷ cs) _
      ∙ entry_view-held key (c ∷ cs) both.0 _
          (λ h. get_entry-bump (needed (λ d. d.key) (c ∷ cs)) both.0 key),
  get_state-undo key (c ∷ cs) _,
)

-- A statement that starts with no recorded change and runs any calls, failed ones among them, and is
-- then restored leaves at every key the entry and the transaction's write state that were there
-- before.
pub statement-restored :
    (r : Registry) (t : UniqueTxn) (calls : List Call) (key : UniqueKeyId)
    → let out = statement ([], (r, t)) calls in
      let after = restore_unique_key_changes out.0 out.1 in
      (get_entry after.0 key ≡ get_entry r key) × (get_state after.1 key ≡ get_state t key)
statement-restored r t calls key =
    let out = statement ([], (r, t)) calls in
    let restored = restore-views out.0 out.1 key in
    let views = statement-SameViews [] (r, t) calls in
    (restored.0 ∙ views.entry_eq key, restored.1 ∙ views.state_eq key)
