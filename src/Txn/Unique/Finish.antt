-- ===== src/Txn/Unique/Finish.antt =====
-- `RestoreUniqueKeyChanges`, `PrepareUniqueKeyCommit`, `CommitUniqueKeyEntries`,
-- `CleanupUniqueKeyAbort` and `MaybeCompactUniqueKeyRegistry` of transaction/transaction_manager.cpp.
-- The first and the fourth hold every lock they need throughout. The second and the third lock one shard
-- after the other, in the order of their loops, so other threads may come between two shards.
use database.Prelude.{
  ℕ, zero, suc, ◌+◌, List, [], ◌∷◌, Option, none, some, Bool, true, false, not, ◌&&◌, ◌||◌,
  if◌then◌else◌, insert, erase, has_value, option_eqb, nat_eq, nat_eqb,
}
use database.Txn.Defs.{Result, done, throw, ◌>>=◌, ◌>>◌, throw_if, internal_error}
use database.Txn.Unique.Keys.{
  UniqueKeyId, unique_key_eq, unique_shard_index, unique_key_shard_count,
}
use database.Txn.Unique.{
  UniqueKeyEntry, TxnUniqueKeyWriteState, UniqueKeyChange, Registry, UniqueTxn, shard_for,
  set_shard, get_entry, set_state,
}

-- A transaction's write states with their keys.
abbrev pub Write : Type 0
Write = UniqueKeyId × TxnUniqueKeyWriteState

-- `needed[i]`
abbrev pub needed : {A : Type 0} → (A → UniqueKeyId) → List A → ℕ → Bool
needed key_of [] i = false
needed key_of (a ∷ as') i =
    if nat_eqb (unique_shard_index (key_of a)) i then true else needed key_of as' i

-- `generation.fetch_add(1)` in the chosen shards.
unfoldable pub bump : (ℕ → Bool) → Registry → Registry
bump chosen r = record r {
  unique_key_shards = λ i. record (r.unique_key_shards i) {
    generation =
        if chosen i
        then (r.unique_key_shards i).generation + 1
        else (r.unique_key_shards i).generation;
  };
}

-- The entry of a key is put back, or erased where there was none.
unfoldable pub put_entry : Registry → UniqueKeyId → Option UniqueKeyEntry → Registry
unfolding shard_for set_shard
put_entry r key none =
    set_shard r key (record (shard_for r key) { entries = erase key (shard_for r key).entries })
put_entry r key (some e) =
    set_shard r key (record (shard_for r key) { entries = insert key e (shard_for r key).entries })

unfoldable pub put_state : UniqueTxn → UniqueKeyId → Option TxnUniqueKeyWriteState → UniqueTxn
put_state txn key none = record txn {
  unique_key_write_states = erase key txn.unique_key_write_states;
}
put_state txn key (some s) = set_state txn key s

-- The loop over the changes, the last change first.
unfoldable pub undo : List UniqueKeyChange → Registry × UniqueTxn → Registry × UniqueTxn
unfolding put_entry put_state
undo [] both = both
undo (c ∷ cs) both =
    let later = undo cs both in
    (put_entry later.0 c.key c.before_entry, put_state later.1 c.key c.before_txn_state)

unfoldable pub restore_unique_key_changes :
    List UniqueKeyChange → Registry × UniqueTxn → Registry × UniqueTxn
unfolding undo bump
restore_unique_key_changes [] both = both
restore_unique_key_changes (c ∷ cs) both =
    undo (c ∷ cs) (bump (needed (λ d. d.key) (c ∷ cs)) both.0, both.1)

-- Whether the entry is as the transaction left it.
abbrev pub owns_expected_state : TxnUniqueKeyWriteState → UniqueKeyEntry → ℕ → Bool
owns_expected_state state entry txn_id =
    not (
      state.pending_delete_by_this_txn
      && not (option_eqb entry.pending_delete_by_txn (some txn_id)))
    && not (state.reserved_by_this_txn && not (option_eqb entry.reserved_by_txn (some txn_id)))

unfoldable pub prepare_state : Registry → ℕ → Write → Result (Unit {0})
prepare_state r txn_id (key, state) = elim (get_entry r key) [
  | none ↦ throw internal_error
  | some entry ↦
      throw_if
        (not (owns_expected_state state entry txn_id)
          || (not state.pending_delete_by_this_txn && not state.reserved_by_this_txn))
        internal_error
]

-- `groups[i]`
unfoldable pub of_shard : ℕ → List Write → List Write
of_shard i [] = []
of_shard i (w ∷ ws) =
    if nat_eqb (unique_shard_index w.0) i then w ∷ of_shard i ws else of_shard i ws

unfoldable pub prepare_group : Registry → ℕ → List Write → Result (Unit {0})
unfolding prepare_state
prepare_group r txn_id [] = done tt
prepare_group r txn_id (w ∷ ws) = prepare_state r txn_id w >> prepare_group r txn_id ws

-- The shards from `i` on, over `rounds` shards.
unfoldable pub prepare_from : Registry → ℕ → List Write → ℕ → ℕ → Result (Unit {0})
unfolding prepare_group of_shard
prepare_from r txn_id states zero i = done tt
prepare_from r txn_id states (suc rounds) i =
    prepare_group r txn_id (of_shard i states) >> prepare_from r txn_id states rounds (i + 1)

unfoldable pub prepare_unique_key_commit : Registry → UniqueTxn → Result (Unit {0})
unfolding prepare_from
prepare_unique_key_commit r txn =
    prepare_from r txn.txn_id txn.unique_key_write_states unique_key_shard_count 0

-- What the commit makes of an entry.
unfoldable pub commit_entry : TxnUniqueKeyWriteState → ℕ → UniqueKeyEntry → UniqueKeyEntry
commit_entry state txn_id entry =
    let deleted =
      if state.pending_delete_by_this_txn && option_eqb entry.pending_delete_by_txn (some txn_id)
      then record entry { committed_owner_tuple = none; pending_delete_by_txn = none }
      else entry in
    if state.reserved_by_this_txn && option_eqb deleted.reserved_by_txn (some txn_id)
    then record deleted {
      reserved_by_txn = none;
      committed_owner_tuple = state.new_committed_owner;
    }
    else deleted

-- An entry that nobody reserves or deletes is erased.
unfoldable pub commit_state : ℕ → Registry → Write → Result Registry
unfolding commit_entry put_entry
commit_state txn_id r (key, state) = elim (get_entry r key) [
  | none ↦ throw internal_error
  | some entry ↦
      let after = commit_entry state txn_id entry in
      if not (has_value after.reserved_by_txn) && not (has_value after.pending_delete_by_txn)
      then done (put_entry r key none)
      else done (put_entry r key (some after))
]

unfoldable pub commit_group : ℕ → Registry → List Write → Result Registry
unfolding commit_state
commit_group txn_id r [] = done r
commit_group txn_id r (w ∷ ws) = commit_state txn_id r w >>= λ r'. commit_group txn_id r' ws

unfoldable pub commit_shard : ℕ → Registry → ℕ → List Write → Result Registry
unfolding commit_group bump
commit_shard txn_id r i [] = done r
commit_shard txn_id r i (w ∷ ws) = commit_group txn_id (bump (nat_eqb i) r) (w ∷ ws)

unfoldable pub commit_from : ℕ → Registry → List Write → ℕ → ℕ → Result Registry
unfolding commit_shard of_shard
commit_from txn_id r states zero i = done r
commit_from txn_id r states (suc rounds) i = commit_shard txn_id r i (of_shard i states) >>= λ r'.
    commit_from txn_id r' states rounds (i + 1)

unfoldable pub commit_unique_key_entries : Registry → UniqueTxn → Result (Registry × UniqueTxn)
unfolding commit_from
commit_unique_key_entries r txn =
    commit_from txn.txn_id r txn.unique_key_write_states unique_key_shard_count 0 >>= λ r'.
    done (r', record txn { unique_key_write_states = [] })

abbrev pub before : TxnUniqueKeyWriteState → Option UniqueKeyEntry
before state = if state.had_before_entry then some state.before_entry else none

unfoldable pub put_back : Registry → List Write → Registry
unfolding put_entry
put_back r [] = r
put_back r ((key, state) ∷ ws) = put_back (put_entry r key (before state)) ws

unfoldable pub cleanup_unique_key_abort : Registry → UniqueTxn → Registry × UniqueTxn
unfolding put_back bump
cleanup_unique_key_abort r txn = (
  put_back (bump (needed (λ w. w.0) txn.unique_key_write_states) r) txn.unique_key_write_states,
  record txn { unique_key_write_states = [] },
)

-- Whether some of the shards below `n` has an entry.
abbrev pub some_entries : Registry → ℕ → Bool
some_entries r zero = false
some_entries r (suc n) = elim (r.unique_key_shards n).entries [
  | [] ↦ some_entries r n
  | e ∷ es ↦ true
]

-- `rehash_fails` is whether the library's `rehash` throws for some shard.
unfoldable pub maybe_compact_unique_key_registry : Bool → Registry → Registry
maybe_compact_unique_key_registry rehash_fails r =
    if r.compaction_needed
    then record r { compaction_needed = some_entries r unique_key_shard_count || rehash_fails }
    else r
