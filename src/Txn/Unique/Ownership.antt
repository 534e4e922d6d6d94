-- ===== src/Txn/Unique/Ownership.antt =====
-- Who owns a unique key: the entries of the registry in transaction/transaction_manager.cpp against
-- the write states of all transactions, through any interleaving of their calls.
pub mod Steps
pub mod Worlds
pub mod Commit
pub mod Shards
pub mod Published
pub mod OneOwner
use database.Prelude.{
  ℕ, ◌≡◌, ◌≢◌, ap, refl, sym, subst, ◌∙◌, ◌⊎◌, inl, inr, Option, none, some, Bool, true, false, not,
  ◌&&◌, ◌||◌, if◌then◌else◌, arith, has_value, nat_eqb, nat_eqb_iff, option_eqb, nat_eq, Bool-cases,
}
use database.Txn.Defs.{Rid, TupleKey, Result, done, throw, key_eqb_iff}
use database.Txn.Unique.{UniqueKeyEntry, TxnUniqueKeyWriteState, no_entry}
use database.Txn.Unique.Reserve.{
  adopt, entry_or_new, check_reserve, get_or_create_state, assume_owner, check_mark, owner_or,
  by_other,
}

-- Transaction `id` alone holds the entry, as its write state says, and found no entry before.
pub record Owns (id : ℕ) (e : UniqueKeyEntry) (s : TxnUniqueKeyWriteState) : Type 0 where
  pub reserved : e.reserved_by_txn ≡ (if s.reserved_by_this_txn then some id else none)
  pub pending : e.pending_delete_by_txn ≡ (if s.pending_delete_by_this_txn then some id else none)
  pub active : (s.reserved_by_this_txn || s.pending_delete_by_this_txn) ≡ true
  pub new_key : s.had_before_entry ≡ false

-- One key, in the registry and in the write states of all transactions.
pub record Held (o : Option UniqueKeyEntry) (states : ℕ → Option TxnUniqueKeyWriteState)
    : Type 0 where
  pub id : ℕ
  pub entry : UniqueKeyEntry
  pub state : TxnUniqueKeyWriteState
  pub entry_eq : o ≡ some entry
  pub state_eq : states id ≡ some state
  pub owns : Owns id entry state
  pub alone : (i : ℕ) → i ≢ id → states i ≡ none

pub record Free (o : Option UniqueKeyEntry) (states : ℕ → Option TxnUniqueKeyWriteState)
    : Type 0 where
  pub entry_eq : o ≡ none
  pub state_eq : (i : ℕ) → states i ≡ none

abbrev pub IsValidKey : Option UniqueKeyEntry → (ℕ → Option TxnUniqueKeyWriteState) → Type 0
IsValidKey o states = Free o states ⊎ Held o states

adopt-reserved :
    (e : UniqueKeyEntry) (fd : ℕ) (owner : Option Rid)
    → ((adopt e fd owner).reserved_by_txn ≡ e.reserved_by_txn)
      × ((adopt e fd owner).pending_delete_by_txn ≡ e.pending_delete_by_txn)
adopt-reserved e fd none = (refl, refl)
adopt-reserved e fd (some rid) = ground arith

check_reserve-not_other :
    (e : UniqueKeyEntry) (st : Option TxnUniqueKeyWriteState) (owner : TupleKey) (i : ℕ)
    → check_reserve e st owner i ≡ done tt
    → (by_other e.reserved_by_txn i ≡ false) × (by_other e.pending_delete_by_txn i ≡ false)
unfolding check_reserve
check_reserve-not_other e st owner i h = ground arith

Owns-id :
    (id i : ℕ) (e : UniqueKeyEntry) (s : TxnUniqueKeyWriteState)
    → Owns id e s
    → by_other e.reserved_by_txn i ≡ false
    → by_other e.pending_delete_by_txn i ≡ false
    → i ≡ id
Owns-id id i e s owns a b =
    ground (arith, owns.reserved, owns.pending, owns.active, nat_eqb_iff id i)

reserve-Owns_again :
    (i : ℕ) (e : UniqueKeyEntry) (s : TxnUniqueKeyWriteState) (fd : ℕ) (seen : Option Rid)
    (owner : TupleKey)
    → Owns i e s
    → Owns i
        (record (adopt e fd seen) { reserved_by_txn = some i })
        (record s { reserved_by_this_txn = true; new_committed_owner = some owner })
reserve-Owns_again i e s fd seen owner owns = record {
  reserved = refl;
  pending = (adopt-reserved e fd seen).1 ∙ owns.pending;
  active = refl;
  new_key = owns.new_key;
}

-- A granted reservation: the entry and state written are owned by the caller.
pub reserve-Owns :
    (i : ℕ) (o : Option UniqueKeyEntry) (states : ℕ → Option TxnUniqueKeyWriteState) (fd : ℕ)
    (seen : Option Rid) (owner : TupleKey)
    → IsValidKey o states
    → check_reserve (adopt (entry_or_new o) fd seen) (states i) owner i ≡ done tt
    → let e = adopt (entry_or_new o) fd seen in
      Owns i
        (record e { reserved_by_txn = some i })
        (record (get_or_create_state (states i) e (has_value o)) {
          reserved_by_this_txn = true;
          new_committed_owner = some owner;
        })
      × ((j : ℕ) → j ≢ i → states j ≡ none)
unfolding check_reserve get_or_create_state
reserve-Owns i o states fd seen owner (inl free) h =
    rw (free.entry_eq, free.state_eq i)
      (
        record {
          reserved = refl;
          pending = (adopt-reserved no_entry fd seen).1;
          active = refl;
          new_key = refl;
        },
        λ j ne. free.state_eq j,
      )
reserve-Owns i o states fd seen owner (inr held) h =
    let e = adopt held.entry fd seen in
    let checked =
      subst (λ o'. check_reserve (adopt (entry_or_new o') fd seen) (states i) owner i ≡ done tt)
        held.entry_eq h in
    let not_other = check_reserve-not_other e (states i) owner i checked in
    let kept = adopt-reserved held.entry fd seen in
    let mine : i ≡ held.id =
      Owns-id held.id i held.entry held.state held.owns
        (ap (λ x. by_other x i) (sym kept.0) ∙ not_other.0)
        (ap (λ x. by_other x i) (sym kept.1) ∙ not_other.1) in
    rw (held.entry_eq, ap states mine ∙ held.state_eq)
      (
        reserve-Owns_again i held.entry held.state fd seen owner
            (subst (λ x. Owns x held.entry held.state) (sym mine) held.owns),
        λ j ne. held.alone j (λ e. ne (e ∙ sym mine)),
      )

check_mark-not_other :
    (e : UniqueKeyEntry) (owner : TupleKey) (i : ℕ)
    → check_mark e owner i ≡ done tt
    → (by_other e.reserved_by_txn i ≡ false) × (by_other e.pending_delete_by_txn i ≡ false)
unfolding check_mark
check_mark-not_other e owner i h = ground arith

assume_owner-marks :
    (e : UniqueKeyEntry) (owner : TupleKey)
    → ((assume_owner e owner).reserved_by_txn ≡ e.reserved_by_txn)
      × ((assume_owner e owner).pending_delete_by_txn ≡ e.pending_delete_by_txn)
assume_owner-marks e owner = ground arith

-- Whether a deletion only takes back this transaction's own reservation.
abbrev pub only_reserved : UniqueKeyEntry → ℕ → Bool
only_reserved e i = option_eqb e.reserved_by_txn (some i) && not (has_value e.committed_owner_tuple)

abbrev pub marked_entry : UniqueKeyEntry → ℕ → UniqueKeyEntry
marked_entry e i = if only_reserved e i then e else record e { pending_delete_by_txn = some i }

abbrev pub marked_state :
    UniqueKeyEntry → ℕ → TupleKey → TxnUniqueKeyWriteState → TxnUniqueKeyWriteState
marked_state e i old_owner s =
    if only_reserved e i then record s { new_committed_owner = none } else record s {
      pending_delete_by_this_txn = true;
      deleted_committed_owner = some (owner_or e.committed_owner_tuple old_owner);
    }

marked-Owns :
    (i : ℕ) (e : UniqueKeyEntry) (s : TxnUniqueKeyWriteState) (owner : TupleKey)
    → Owns i e s
    → let a = assume_owner e owner in Owns i (marked_entry a i) (marked_state a i owner s)
marked-Owns i e s owner owns = record {
  reserved = ground (arith, owns.reserved);
  pending = ground (arith, owns.pending);
  active = ground (arith, owns.active);
  new_key = ground (arith, owns.new_key);
}

-- A deletion that is not refused: the entry and state written are owned by the caller.
pub mark-Owns :
    (i : ℕ) (o : Option UniqueKeyEntry) (states : ℕ → Option TxnUniqueKeyWriteState)
    (owner : TupleKey)
    → IsValidKey o states
    → check_mark (assume_owner (entry_or_new o) owner) owner i ≡ done tt
    → let e = assume_owner (entry_or_new o) owner in
      Owns i
        (marked_entry e i)
        (marked_state e i owner (get_or_create_state (states i) e (has_value o)))
      × ((j : ℕ) → j ≢ i → states j ≡ none)
unfolding get_or_create_state
mark-Owns i o states owner (inl free) h =
    rw (free.entry_eq, free.state_eq i)
      (
        record { reserved = refl; pending = refl; active = refl; new_key = refl },
        λ j ne. free.state_eq j,
      )
mark-Owns i o states owner (inr held) h =
    let checked =
      subst (λ o'. check_mark (assume_owner (entry_or_new o') owner) owner i ≡ done tt)
        held.entry_eq h in
    let not_other = check_mark-not_other (assume_owner held.entry owner) owner i checked in
    let kept = assume_owner-marks held.entry owner in
    let mine : i ≡ held.id =
      Owns-id held.id i held.entry held.state held.owns
        (ap (λ x. by_other x i) (sym kept.0) ∙ not_other.0)
        (ap (λ x. by_other x i) (sym kept.1) ∙ not_other.1) in
    rw (held.entry_eq, ap states mine ∙ held.state_eq)
      (
        marked-Owns i held.entry held.state owner
            (subst (λ x. Owns x held.entry held.state) (sym mine) held.owns),
        λ j ne. held.alone j (λ e. ne (e ∙ sym mine)),
      )
