-- ===== src/Txn/Unique/Tests.antt =====
-- Runs of the unique-key registry of transaction/transaction_manager.cpp.
use database.Prelude.{
  ℕ, ◌≡◌, refl, List, [], ◌∷◌, none, some, true, false, arith, ◌↔◌, lookup, insert, has_value,
  if◌then◌else◌,
}
use database.Txn.Defs.{Rid, done, throw, duplicate_key}
use database.Txn.Unique.Keys.{UniqueKeyId, mix_bytes, unique_shard_index}
use database.Txn.Unique.{
  Registry, UniqueTxn, UniqueKeyEntry, get_entry, get_state, get_unique_key_generation, no_entry,
  shard_for, set_shard, store_entry, set_state,
}
use database.Txn.Unique.Reserve.{reserve_unique_key, check_reserve, grant}
use database.Txn.Unique.Finish.{
  prepare_unique_key_commit, restore_unique_key_changes, cleanup_unique_key_abort,
  commit_unique_key_entries, commit_shard, of_shard,
}
use database.Txn.Unique.Restore.{statement-restored}
use database.Txn.Unique.Views.{Call, reserve, delete, statement, changes_or}
use database.Txn.Unique.Ownership.Steps.{
  IsInitial, reserves, Reach, here, next, prepare-succeeds, Reach-IsValid,
}
use database.Txn.Unique.Ownership.Shards.{
  Shards, call_reserve, calls, publishes, InterleavedReach, started, stepped, moved,
}
use database.Txn.Unique.Ownership.OneOwner.{IsStart, holds, InterleavedReach-one_owner}
use database.Txn.Unique.Ownership.Worlds.{World, update}
use database.Txn.Unique.Ownership.Worlds.{IsValid}
use database.Txn.Unique.Ownership.Commit.{commit_unique_key_entries-freed}
use database.Txn.Unique.Revival.{refused_reservation_revives}

abbrev empty_registry : Registry
empty_registry = record {
  unique_key_shards = λ i. record { entries = []; generation = 0 };
  compaction_needed = false;
}

abbrev fresh_txn : ℕ → UniqueTxn
fresh_txn i = record { txn_id = i; unique_key_write_states = [] }

abbrev seven : UniqueKeyId
seven = record { fd = 3; index_no = 0; encoded_key = 7 ∷ [] }

abbrev first_rid : Rid
first_rid = record { page_no = 1; slot_no = 0 }

abbrev second_rid : Rid
second_rid = record { page_no = 1; slot_no = 1 }

-- The second reservation is of a key that the statement itself has reserved for another tuple.
abbrev two_calls : List Call
two_calls =
    reserve seven first_rid none 0 ∷ reserve seven second_rid none 0 ∷ delete seven first_rid ∷ []

statement_example :
    let out = statement ([], (empty_registry, fresh_txn 1)) two_calls in
    let after = restore_unique_key_changes out.0 out.1 in
    (get_entry after.0 seven ≡ get_entry empty_registry seven)
    × (get_state after.1 seven ≡ get_state (fresh_txn 1) seven)
statement_example = statement-restored empty_registry (fresh_txn 1) two_calls seven

abbrev start : World
start = record { registry = empty_registry; txns = fresh_txn }

start-IsInitial : IsInitial start
unfolding get_entry shard_for lookup
start-IsInitial = record { ids = λ i. refl; entries = λ key. refl; states = λ i. refl }

-- What the reservation of `seven` by transaction 1 leaves.
abbrev reserved : Registry × UniqueTxn
reserved =
    grant empty_registry (fresh_txn 1) seven no_entry false (record { fd = 3; rid = first_rid })

reserved_eq :
    (reserve_unique_key empty_registry (fresh_txn 1) seven first_rid none 0 none).1
    ≡ done (true, reserved)
unfolding reserve_unique_key get_entry get_unique_key_generation shard_for lookup check_reserve
    get_state
reserved_eq = refl

reserved-Reach : Reach start (update start 1 reserved)
reserved-Reach = next here (reserves 1 seven first_rid none 0 none reserved reserved_eq)

prepare_example : prepare_unique_key_commit reserved.0 reserved.1 ≡ done tt
prepare_example = prepare-succeeds start (update start 1 reserved) 1 start-IsInitial reserved-Reach

-- Transaction 1 has reserved `seven` and none is committing.
abbrev idle_start : Shards
idle_start = record { registry = empty_registry; txns = fresh_txn; published = λ i. 0 }

idle_start-IsStart : IsStart idle_start
unfolding get_entry shard_for lookup
idle_start-IsStart = record {
  ids = λ i. refl;
  entries = λ key. refl;
  states = λ i. refl;
  idle = λ i. refl;
}

abbrev seven_reserved : Shards
seven_reserved = moved idle_start 1 reserved 0

seven_reserved-InterleavedReach : InterleavedReach idle_start seven_reserved
seven_reserved-InterleavedReach =
    stepped started
      (calls 1 reserved refl (call_reserve seven first_rid none 0 none reserved reserved_eq))

-- Transaction 1 has begun its commit and published the first shard, where it has no key.
abbrev one_published : Shards
one_published = moved seven_reserved 1 reserved 1

one_published-InterleavedReach : InterleavedReach idle_start one_published
unfolding grant set_state insert of_shard commit_shard unique_shard_index mix_bytes
one_published-InterleavedReach =
    stepped seven_reserved-InterleavedReach (publishes 1 reserved.0 (omega arith) refl)

one_owner_example :
    ((key : UniqueKeyId) (i j : ℕ)
      → holds one_published i key ≡ true
      → holds one_published j key ≡ true
      → i ≡ j)
    × ((key : UniqueKeyId)
        → (has_value (get_entry one_published.registry key) ≡ true)
          ↔ ((i : ℕ) × (holds one_published i key ≡ true)))
    × ((i : ℕ)
        → (r : Registry) × (commit_shard
              (one_published.txns i).txn_id
              one_published.registry
              (one_published.published i)
              (of_shard (one_published.published i) (one_published.txns i).unique_key_write_states)
            ≡ done r))
one_owner_example =
    InterleavedReach-one_owner idle_start one_published idle_start-IsStart
      one_published-InterleavedReach

abbrev reserved_entry : UniqueKeyEntry
reserved_entry = record {
  committed_owner_tuple = none;
  reserved_by_txn = some 1;
  pending_delete_by_txn = none;
}

reserved-entry : get_entry reserved.0 seven ≡ some reserved_entry
unfolding get_entry shard_for grant store_entry set_shard lookup insert unique_shard_index mix_bytes
reserved-entry = refl

-- A key reserved by 1 and refused to 2 stays refused to 3 after 1 has aborted.
revival_example :
    let tried =
      reserve_unique_key reserved.0
        (fresh_txn 2)
        seven
        second_rid
        none
        (get_unique_key_generation reserved.0 seven)
        (some []) in
    let aborted = cleanup_unique_key_abort reserved.0 reserved.1 in
    let restored = restore_unique_key_changes (changes_or tried.0) (aborted.0, fresh_txn 2) in
    (tried.1 ≡ throw duplicate_key)
    × (get_entry restored.0 seven ≡ some reserved_entry)
    × ((reserve_unique_key restored.0
          (fresh_txn 3)
          seven
          first_rid
          none
          (get_unique_key_generation restored.0 seven)
          none).1
        ≡ throw duplicate_key)
unfolding grant set_state
revival_example =
    refused_reservation_revives reserved.0 reserved.1 (fresh_txn 2) (fresh_txn 3) seven second_rid
      first_rid none none reserved_entry reserved-entry refl (λ e. ground (arith, e))
      (λ e. ground (arith, e))

start-IsValid : IsValid (update start 1 reserved)
start-IsValid = Reach-IsValid start (update start 1 reserved) start-IsInitial reserved-Reach

commit_keys_example :
    (r' : Registry) × (commit_unique_key_entries reserved.0 reserved.1 ≡ done (r', fresh_txn 1))
    × ((j : UniqueKeyId)
        → get_entry r' j
          ≡ (if has_value (get_state reserved.1 j) then none else get_entry reserved.0 j))
unfolding grant set_state
commit_keys_example = commit_unique_key_entries-freed (update start 1 reserved) 1 start-IsValid
