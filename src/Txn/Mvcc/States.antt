-- ===== src/Txn/Mvcc/States.antt =====
-- The tuple states of transaction/transaction_manager.cpp as one map: what each write leaves there.
use database.Prelude.{
  ℕ, ◌≡◌, refl, ap, inl, inr, Option, none, some, true, if◌then◌else◌, arith, lookup, lookup-insert,
  lookup-erase, nat_eqb, Bool-cases,
}
use database.Txn.Defs.{TupleKey, TupleState, Transaction, fresh_state, key_eq, key_eqb, key_eqb_iff}
use database.Txn.Mvcc.{
  Manager, TupleStateShard, shard_for, set_shard, get_tuple_state, assign_tuple_state_locked,
  erase_tuple_state_locked, set_transaction, mark_has_mvcc_state, notify_release,
}
use database.Txn.Mvcc.Shards.{shard_index}
use database.Txn.Mvcc.Writes.{emplace, publish, state_or_fresh}
use database.Txn.Mvcc.Records.{assign_state, erase_state}

-- A shard written back changes what its own lookups give.
get-set_shard :
    (m : Manager) (k j : TupleKey) (s : TupleStateShard) (f : Option TupleState)
    → ((i : TupleKey)
        → lookup i s.states ≡ (if key_eqb k i then f else lookup i (shard_for m k).states))
    → get_tuple_state (set_shard m k s) j ≡ (if key_eqb k j then f else get_tuple_state m j)
unfolding get_tuple_state set_shard shard_for
get-set_shard m k j s f h = elim (Bool-cases (nat_eqb (shard_index k) (shard_index j))) [
  | inl e ↦
      let same : shard_index k ≡ shard_index j = ground arith in
      rw (e, if◌then◌else◌) (rw (same, shard_for) at (h j))
  | inr e ↦ ground (arith, key_eqb_iff k j, ap shard_index {x = k} {y = j})
]

-- Assigning a state changes that key only.
pub get-assign_state :
    (m : Manager) (k j : TupleKey) (s : TupleState)
    → get_tuple_state (assign_state m k s) j ≡ (if key_eqb k j then some s else get_tuple_state m j)
unfolding assign_state assign_tuple_state_locked
get-assign_state m k j s =
    get-set_shard m k j _ (some s) λ i. lookup-insert k i s (shard_for m k).states

lookup-erase_locked :
    (k i : TupleKey) (shard : TupleStateShard)
    → lookup i (erase_tuple_state_locked shard k).states
      ≡ (if key_eqb k i then none else lookup i shard.states)
unfolding erase_tuple_state_locked
lookup-erase_locked k i shard = ground (arith, lookup-erase k i shard.states, key_eqb_iff k i)

-- Erasing a state changes that key only.
pub get-erase_state :
    (m : Manager) (k j : TupleKey)
    → get_tuple_state (erase_state m k) j ≡ (if key_eqb k j then none else get_tuple_state m j)
unfolding erase_state
get-erase_state m k j = get-set_shard m k j _ none λ i. lookup-erase_locked k i (shard_for m k)

-- Writing through the iterator changes that key only.
pub get-publish :
    (m : Manager) (k j : TupleKey) (s : TupleState)
    → get_tuple_state (set_shard m k (publish (shard_for m k) k s)) j
      ≡ (if key_eqb k j then some s else get_tuple_state m j)
unfolding publish
get-publish m k j s = get-set_shard m k j _ (some s) λ i. lookup-insert k i s (shard_for m k).states

lookup-emplace :
    (k i : TupleKey) (shard : TupleStateShard)
    → lookup i (emplace shard k).states ≡ (
        if key_eqb k i
        then some (state_or_fresh (lookup k shard.states))
        else lookup i shard.states)
unfolding emplace
lookup-emplace k i shard =
    ground (arith, lookup-insert k i fresh_state shard.states, key_eqb_iff k i)

-- `try_emplace` gives the key a state, if it had none, and changes no other key.
pub get-emplace :
    (m : Manager) (k j : TupleKey)
    → get_tuple_state (set_shard m k (emplace (shard_for m k) k)) j
      ≡ (if key_eqb k j then some (state_or_fresh (get_tuple_state m k)) else get_tuple_state m j)
unfolding get_tuple_state
get-emplace m k j =
    get-set_shard m k j _ (some (state_or_fresh (get_tuple_state m k)))
      λ i. lookup-emplace k i (shard_for m k)

lookup-publish-emplace :
    (k i : TupleKey) (s : TupleState) (shard : TupleStateShard)
    → lookup i (publish (emplace shard k) k s).states
      ≡ (if key_eqb k i then some s else lookup i shard.states)
unfolding publish
lookup-publish-emplace k i s shard =
    ground (arith, lookup-insert k i s (emplace shard k).states, lookup-emplace k i shard)

-- `try_emplace` with a write through the iterator after it.
pub get-publish-emplace :
    (m : Manager) (k j : TupleKey) (s : TupleState)
    → get_tuple_state (set_shard m k (publish (emplace (shard_for m k) k) k s)) j
      ≡ (if key_eqb k j then some s else get_tuple_state m j)
get-publish-emplace m k j s =
    get-set_shard m k j _ (some s) λ i. lookup-publish-emplace k i s (shard_for m k)

-- What a manager leaves of the tuple states when its transactions or its flags change.
pub get-set_transaction :
    (m : Manager) (txn : Transaction) (j : TupleKey)
    → get_tuple_state (set_transaction m txn) j ≡ get_tuple_state m j
unfolding get_tuple_state shard_for set_transaction
get-set_transaction m txn j = refl

pub get-mark_has_mvcc_state :
    (m : Manager) (fd : ℕ) (j : TupleKey)
    → get_tuple_state (mark_has_mvcc_state m fd) j ≡ get_tuple_state m j
unfolding get_tuple_state shard_for mark_has_mvcc_state
get-mark_has_mvcc_state m fd j = refl

pub get-notify_release :
    (m : Manager) (j : TupleKey) → get_tuple_state (notify_release m) j ≡ get_tuple_state m j
unfolding get_tuple_state shard_for notify_release
get-notify_release m j = refl

-- The transactions, and so the undo logs, when the shards change.
pub txn_map-set_shard :
    (m : Manager) (k : TupleKey) (s : TupleStateShard) → (set_shard m k s).txn_map ≡ m.txn_map
unfolding set_shard
txn_map-set_shard m k s = refl

pub key_eqb_self : (k : TupleKey) → key_eqb k k ≡ true
key_eqb_self k = (key_eqb_iff k k).1 refl

-- The same at the key that was written.
module _ (m : Manager) (k : TupleKey) where
  pub get-publish-emplace_self :
      (s : TupleState)
      → get_tuple_state (set_shard m k (publish (emplace (shard_for m k) k) k s)) k ≡ some s
  get-publish-emplace_self s = rw (get-publish-emplace m k k s, key_eqb_self k)

  pub get-emplace_self :
      get_tuple_state (set_shard m k (emplace (shard_for m k) k)) k
      ≡ some (state_or_fresh (get_tuple_state m k))
  get-emplace_self = rw (get-emplace m k k, key_eqb_self k)

  pub get-publish_self :
      (s : TupleState) → get_tuple_state (set_shard m k (publish (shard_for m k) k s)) k ≡ some s
  get-publish_self s = rw (get-publish m k k s, key_eqb_self k)

  pub get-assign_state_self : (s : TupleState) → get_tuple_state (assign_state m k s) k ≡ some s
  get-assign_state_self s = rw (get-assign_state m k k s, key_eqb_self k)

  pub get-erase_state_self : get_tuple_state (erase_state m k) k ≡ none
  get-erase_state_self = rw (get-erase_state m k k, key_eqb_self k)
