-- ===== src/Txn/Unique.antt =====
-- The registry of unique keys in transaction/transaction_manager.cpp: which transaction has reserved
-- a key, and which is deleting it. A call that holds its shard's lock throughout is one step. The
-- index tree is outside: what its lookup gave, `current_owner`, is an argument.
pub mod Keys
pub mod Reserve
pub mod Finish
pub mod Entries
pub mod Restore
pub mod Ownership
pub mod Revival
pub mod Tests
pub mod Views
use database.Prelude.{
  ℕ, ◌+◌, ◌∷◌, List, [], Option, none, some, Bool, true, false, ◌||◌, if◌then◌else◌, Map, lookup,
  insert, erase, length, nat_eqb, has_value,
}
use database.Txn.Defs.{TupleKey}
use Keys.{UniqueKeyId, unique_key_eq, unique_shard_index}

pub record UniqueKeyEntry : Type 0 where
  pub committed_owner_tuple : Option TupleKey
  pub reserved_by_txn : Option ℕ
  pub pending_delete_by_txn : Option ℕ

-- `UniqueKeyEntry{}`
abbrev pub no_entry : UniqueKeyEntry
no_entry = record {
  committed_owner_tuple = none;
  reserved_by_txn = none;
  pending_delete_by_txn = none;
}

-- The key of a write state is the key of the map that holds it.
pub record TxnUniqueKeyWriteState : Type 0 where
  pub had_before_entry : Bool
  pub before_entry : UniqueKeyEntry
  pub new_committed_owner : Option TupleKey
  pub deleted_committed_owner : Option TupleKey
  pub reserved_by_this_txn : Bool
  pub pending_delete_by_this_txn : Bool

-- What a statement found at a key before its first change there. `none` stands for a cleared
-- `had_before_entry` or `had_before_txn_state`.
pub record UniqueKeyChange : Type 0 where
  pub key : UniqueKeyId
  pub before_entry : Option UniqueKeyEntry
  pub before_txn_state : Option TxnUniqueKeyWriteState

pub record UniqueKeyShard : Type 0 where
  pub entries : Map UniqueKeyId UniqueKeyEntry
  pub generation : ℕ

pub record Registry : Type 0 where
  pub unique_key_shards : ℕ → UniqueKeyShard
  pub compaction_needed : Bool

-- The part of a transaction that the registry reads and writes.
pub record UniqueTxn : Type 0 where
  pub txn_id : ℕ
  pub unique_key_write_states : Map UniqueKeyId TxnUniqueKeyWriteState

abbrev pub compact_threshold : ℕ
compact_threshold = 8192

unfoldable pub shard_for : Registry → UniqueKeyId → UniqueKeyShard
shard_for r key = r.unique_key_shards (unique_shard_index key)

unfoldable pub set_shard : Registry → UniqueKeyId → UniqueKeyShard → Registry
set_shard r key s = record r {
  unique_key_shards = λ i. if nat_eqb (unique_shard_index key) i then s else r.unique_key_shards i;
}

unfoldable pub get_entry : Registry → UniqueKeyId → Option UniqueKeyEntry
unfolding shard_for
get_entry r key = lookup key (shard_for r key).entries

unfoldable pub get_unique_key_generation : Registry → UniqueKeyId → ℕ
unfolding shard_for
get_unique_key_generation r key = (shard_for r key).generation

-- `shard.entries[key] = entry`, with the note that a shard has grown large.
unfoldable pub store_entry : Registry → UniqueKeyId → UniqueKeyEntry → Registry
unfolding shard_for set_shard
store_entry r key entry =
    let entries = insert key entry (shard_for r key).entries in
    record (set_shard r key (record (shard_for r key) { entries = entries })) {
      compaction_needed = r.compaction_needed || nat_eqb (length entries) compact_threshold;
    }

unfoldable pub set_state : UniqueTxn → UniqueKeyId → TxnUniqueKeyWriteState → UniqueTxn
set_state txn key state = record txn {
  unique_key_write_states = insert key state txn.unique_key_write_states;
}

unfoldable pub get_state : UniqueTxn → UniqueKeyId → Option TxnUniqueKeyWriteState
get_state txn key = lookup key txn.unique_key_write_states

abbrev pub holds_change : UniqueKeyId → List UniqueKeyChange → Bool
holds_change key [] = false
holds_change key (c ∷ cs) = if Keys.unique_key_eqb c.key key then true else holds_change key cs
