-- ===== src/Txn/Mvcc/Endings/Abort.antt =====
-- What is taken back: the restorations in `abort` and `RestoreTupleStateForStatement` of
-- transaction/transaction_manager.cpp, and the collection of states that no snapshot can tell apart.
use database.Prelude.{
  ℕ, ◌≤◌, ◌≡◌, refl, ap, sym, ◌∙◌, List, [], ◌∷◌, Option, none, some, true, false, if◌then◌else◌,
  arith, All, nat_eq, lookup, Bool-cases, inl, inr, has_value, Map,
}
use database.Txn.Defs.{
  RmRecord, TupleKey, TupleState, Transaction, TxnTupleWriteState, key_eqb, key_eqb_iff, key_eq,
  fresh_state,
}
use database.Txn.Mvcc.{Manager, get_tuple_state}
use database.Txn.Mvcc.Records.{restore_state}
use database.Txn.Mvcc.States.{
  get-assign_state, get-erase_state, get-set_transaction, get-notify_release,
}
use database.Txn.Mvcc.Endings.{
  for_each, by_shard, abort_tuple_states, restore_entry, collect_state, cleared,
}
use database.Txn.Mvcc.Endings.Loops.{visits, visits-by_shard, All-by_shard, Round, get-for_each}
use database.Txn.Mvcc.Snapshot.{Version, snapshot_view, newest_at}

-- What a restoration leaves at the key.
abbrev pub restored : TxnTupleWriteState → Option TupleState
restored w = if w.has_before_state then some w.before_first_write else none

get-restore_state :
    (m : Manager) (key k : TupleKey) (w : TxnTupleWriteState)
    → get_tuple_state (restore_state m key w) k
      ≡ (if key_eqb key k then restored w else get_tuple_state m k)
unfolding restore_state
get-restore_state m key k w =
    ground (arith, get-assign_state m key k w.before_first_write, get-erase_state m key k)

abbrev Entry : Type 0
Entry = TupleKey × TxnTupleWriteState

-- A map holds a key once.
abbrev pub KeysOnce : Map TupleKey TxnTupleWriteState → Type 0
KeysOnce [] = Unit {0}
KeysOnce (e ∷ es) = (lookup e.0 es ≡ none) × KeysOnce es

visits-lookup :
    (k : TupleKey) (es : List Entry) → visits (λ (e : Entry). e.0) k es ≡ has_value (lookup k es)
unfolding lookup
visits-lookup k [] = refl
visits-lookup k ((j, w) ∷ es) = ground (arith, visits-lookup k es)

-- Every entry at the key holds `w`.
abbrev AtKey : TupleKey → TxnTupleWriteState → Entry → Type 0
AtKey k w e = key_eqb e.0 k ≡ true → e.1 ≡ w

AtKey-none :
    (k : TupleKey) (w : TxnTupleWriteState) (es : List Entry)
    → lookup k es ≡ none
    → All (AtKey k w) es
unfolding lookup
AtKey-none k w [] h = tt
AtKey-none k w ((j, v) ∷ es) h = (λ e. absurd (ground arith), AtKey-none k w es (ground arith))

AtKey-lookup :
    (k : TupleKey) (w : TxnTupleWriteState) (es : List Entry)
    → KeysOnce es
    → lookup k es ≡ some w
    → All (AtKey k w) es
unfolding lookup
AtKey-lookup k w [] once h = absurd (ground arith)
AtKey-lookup k w ((j, v) ∷ es) once h = elim (Bool-cases (key_eqb j k)) [
  | inl e ↦
      let same : j ≡ k = (key_eqb_iff j k).0 e in
      (λ _. ground arith, AtKey-none k w es (ap (λ i. lookup i es) (sym same) ∙ once.0))
  | inr e ↦ (λ f. absurd (ground arith), AtKey-lookup k w es once.1 (ground arith))
]

restore_entry-Round :
    (k : TupleKey) (w : TxnTupleWriteState) (e : Entry)
    → AtKey k w e
    → Round (λ (e : Entry). e.0) restore_entry (λ o. restored w) k e
restore_entry-Round k w e h m = ground (arith, get-restore_state m e.0 k e.1)

rounds :
    (k : TupleKey) (w : TxnTupleWriteState) (es : List Entry)
    → All (AtKey k w) es
    → All (Round (λ (e : Entry). e.0) restore_entry (λ o. restored w) k) es
rounds k w [] h = tt
rounds k w (e ∷ es) h = (restore_entry-Round k w e h.0, rounds k w es h.1)

-- An abort puts every tuple that the transaction has a write state of back to what it was before the
-- first write, or takes its state away where there was none, and leaves every other tuple alone.
-- The map of write states holds a key once.
pub abort_tuple_states-restored :
    (m : Manager) (txn : Transaction)
    → KeysOnce txn.tuple_write_states
    → ((k : TupleKey) (w : TxnTupleWriteState)
        → lookup k txn.tuple_write_states ≡ some w
        → get_tuple_state (abort_tuple_states m txn) k ≡ restored w)
      × ((k : TupleKey)
          → lookup k txn.tuple_write_states ≡ none
          → get_tuple_state (abort_tuple_states m txn) k ≡ get_tuple_state m k)
unfolding abort_tuple_states
abort_tuple_states-restored m txn once = (
  λ k w e.
      get-notify_release _ k
      ∙ get-set_transaction _ (cleared txn) k
      ∙ loop k w (AtKey-lookup k w txn.tuple_write_states once e)
      ∙ rw (visits-lookup k txn.tuple_write_states, e) refl,
  λ k e.
      get-notify_release _ k
      ∙ get-set_transaction _ (cleared txn) k
      ∙ loop k no_write (AtKey-none k no_write txn.tuple_write_states e)
      ∙ rw (visits-lookup k txn.tuple_write_states, e) refl,
)
  where
    no_write : TxnTupleWriteState
    no_write = record {
      inserted_by_txn = false;
      has_before_state = false;
      before_first_write = fresh_state;
    }

    loop :
        (k : TupleKey) (w : TxnTupleWriteState)
        → All (AtKey k w) txn.tuple_write_states
        → get_tuple_state
            (for_each restore_entry m (by_shard (λ (e : Entry). e.0) txn.tuple_write_states))
            k
          ≡ (if visits (λ (e : Entry). e.0) k txn.tuple_write_states
              then restored w
              else get_tuple_state m k)
    loop k w h =
        get-for_each (λ (e : Entry). e.0) restore_entry (λ o. restored w) k m
          (by_shard (λ (e : Entry). e.0) txn.tuple_write_states) (λ o. refl)
          (rounds k w _ (All-by_shard (λ (e : Entry). e.0) (AtKey k w) txn.tuple_write_states h))
        ∙ rw (visits-by_shard (λ (e : Entry). e.0) k txn.tuple_write_states) refl

-- The view of a tuple that may have no state.
abbrev pub view_or_latest : Option TupleState → RmRecord → List Version → ℕ → ℕ → Option RmRecord
view_or_latest none latest older r read_ts = some latest
view_or_latest (some s) latest older r read_ts =
    snapshot_view s latest older (some r) (some read_ts)

-- Collecting a tuple state changes no view of any snapshot at or above the watermark.
pub collect_state-view :
    (m : Manager) (watermark : ℕ) (key k : TupleKey) (latest : RmRecord) (older : List Version)
    (r read_ts : ℕ)
    → watermark ≤ read_ts
    → view_or_latest (get_tuple_state (collect_state watermark m key) k) latest older r read_ts
      ≡ view_or_latest (get_tuple_state m k) latest older r read_ts
unfolding collect_state snapshot_view newest_at
collect_state-view m watermark key k latest older r read_ts h =
    ground (arith, get-erase_state m key k, key_eqb_iff key k)
