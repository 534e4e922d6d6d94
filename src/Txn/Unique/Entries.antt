-- ===== src/Txn/Unique/Entries.antt =====
-- What the writes to the registry of transaction/transaction_manager.cpp leave at each key.
use database.Prelude.{
  ℕ, ◌≡◌, ap, refl, Option, none, some, Bool, if◌then◌else◌, arith, lookup-insert, lookup-erase,
}
use database.Txn.Unique.Keys.{
  UniqueKeyId, unique_key_eq, unique_key_eqb, unique_key_eqb_iff, unique_shard_index,
}
use database.Txn.Unique.{
  UniqueKeyEntry, TxnUniqueKeyWriteState, Registry, UniqueTxn, shard_for, set_shard, get_entry,
  store_entry, set_state, get_state,
}
use database.Txn.Unique.Finish.{bump, put_entry, put_state}

pub get_entry-store_entry :
    (r : Registry) (k j : UniqueKeyId) (e : UniqueKeyEntry)
    → get_entry (store_entry r k e) j ≡ (if unique_key_eqb k j then some e else get_entry r j)
unfolding get_entry store_entry shard_for set_shard
get_entry-store_entry r k j e = ground (
  arith,
  lookup-insert k j e (r.unique_key_shards (unique_shard_index k)).entries,
  unique_key_eqb_iff k j,
  ap unique_shard_index {x = k} {y = j},
  ap (λ i. (r.unique_key_shards i).entries) {x = unique_shard_index k} {y = unique_shard_index j},
)

pub get_entry-put_entry :
    (r : Registry) (k j : UniqueKeyId) (o : Option UniqueKeyEntry)
    → get_entry (put_entry r k o) j ≡ (if unique_key_eqb k j then o else get_entry r j)
unfolding get_entry put_entry shard_for set_shard
get_entry-put_entry r k j none = ground (
  arith,
  lookup-erase k j (r.unique_key_shards (unique_shard_index k)).entries,
  unique_key_eqb_iff k j,
  ap unique_shard_index {x = k} {y = j},
  ap (λ i. (r.unique_key_shards i).entries) {x = unique_shard_index k} {y = unique_shard_index j},
)
get_entry-put_entry r k j (some e) = ground (
  arith,
  lookup-insert k j e (r.unique_key_shards (unique_shard_index k)).entries,
  unique_key_eqb_iff k j,
  ap unique_shard_index {x = k} {y = j},
  ap (λ i. (r.unique_key_shards i).entries) {x = unique_shard_index k} {y = unique_shard_index j},
)

pub get_entry-bump :
    (chosen : ℕ → Bool) (r : Registry) (k : UniqueKeyId)
    → get_entry (bump chosen r) k ≡ get_entry r k
unfolding get_entry bump shard_for
get_entry-bump chosen r k = refl

pub get_state-set_state :
    (t : UniqueTxn) (k j : UniqueKeyId) (s : TxnUniqueKeyWriteState)
    → get_state (set_state t k s) j ≡ (if unique_key_eqb k j then some s else get_state t j)
unfolding get_state set_state
get_state-set_state t k j s = lookup-insert k j s t.unique_key_write_states

pub get_state-put_state :
    (t : UniqueTxn) (k j : UniqueKeyId) (o : Option TxnUniqueKeyWriteState)
    → get_state (put_state t k o) j ≡ (if unique_key_eqb k j then o else get_state t j)
unfolding get_state put_state set_state
get_state-put_state t k j none = lookup-erase k j t.unique_key_write_states
get_state-put_state t k j (some s) = lookup-insert k j s t.unique_key_write_states
