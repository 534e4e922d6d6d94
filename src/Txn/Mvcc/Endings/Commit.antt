-- ===== src/Txn/Mvcc/Endings/Commit.antt =====
-- The publication of tuple states in `commit` of transaction/transaction_manager.cpp.
use database.Prelude.{
  ℕ, ◌≤◌, ◌<◌, ◌≡◌, ◌≢◌, refl, ap, sym, ◌∙◌, List, [], ◌∷◌, Option, none, some, true, if◌then◌else◌,
  arith, All, option_eqb_iff, nat_eq, lookup,
}
use database.Txn.Defs.{
  RmRecord, TupleKey, TupleState, Transaction, UndoLink, key_eqb, key_eqb_iff, key_eq,
}
use database.Txn.Mvcc.{Manager, get_tuple_state, get_undo_log_optional, shard_for, set_shard}
use database.Txn.Mvcc.Writes.{state_or_fresh, publish}
use database.Txn.Mvcc.States.{get-publish, get-set_transaction, txn_map-set_shard}
use database.Txn.Mvcc.Endings.{
  for_each, by_shard, commit_state, commit_tuple_states, owned_by, snapshot_keys, cleared,
}
use database.Txn.Mvcc.Endings.Loops.{visits, visits-by_shard, Round, get-for_each, txn_map-for_each}
use database.Txn.Mvcc.Snapshot.{Version, HeadChain, HeadChain-Extends, snapshot_view, newest_at}
use database.Txn.Mvcc.Snapshot.Logs.{log_of_txn_map, set_transaction-Extends}
use mathlib.Core.List.{append-nil}

-- What a commit makes of a state.
abbrev pub committed : ℕ → ℕ → Option TupleState → Option TupleState
committed txn_id commit_ts none = none
committed txn_id commit_ts (some s) =
    some (if owned_by txn_id s then record s { owner = none; commit_ts = some commit_ts } else s)

committed-committed :
    (t c : ℕ) (o : Option TupleState) → committed t c (committed t c o) ≡ committed t c o
committed-committed t c none = refl
committed-committed t c (some s) = ground arith

abbrev published : ℕ → ℕ → TupleState → TupleState
published t c s = record s { owner = none; commit_ts = some c }

commit_state-Round :
    (t c : ℕ) (k key : TupleKey)
    → Round (λ (a : TupleKey). a) (commit_state t c) (committed t c) k key
unfolding commit_state
commit_state-Round t c k key m =
    ground (arith, key_eqb_iff key k, get-publish_at (get_tuple_state m key))
  where
    get-publish_at :
        (o : Option TupleState)
        → get_tuple_state
            (set_shard m key (publish (shard_for m key) key (published t c (state_or_fresh o))))
            k
          ≡ (if key_eqb key k then some (published t c (state_or_fresh o)) else get_tuple_state m k)
    get-publish_at o = get-publish m key k (published t c (state_or_fresh o))

all_rounds :
    (t c : ℕ) (k : TupleKey) (keys : List TupleKey)
    → All (Round (λ (a : TupleKey). a) (commit_state t c) (committed t c) k) keys
all_rounds t c k [] = tt
all_rounds t c k (key ∷ keys) = (commit_state-Round t c k key, all_rounds t c k keys)

txn_map-commit_state :
    (t c : ℕ) (m : Manager) (key : TupleKey) → (commit_state t c m key).txn_map ≡ m.txn_map
unfolding commit_state
txn_map-commit_state t c m key = ground (
  arith,
  txn_map-set_shard m key
      (publish (shard_for m key) key (published t c (state_or_fresh (get_tuple_state m key)))),
)

pub get-commit_tuple_states :
    (m : Manager) (txn : Transaction) (c : ℕ) (k : TupleKey)
    → get_tuple_state (commit_tuple_states m txn c) k ≡ (
        if visits (λ (a : TupleKey). a) k (snapshot_keys txn)
        then committed txn.txn_id c (get_tuple_state m k)
        else get_tuple_state m k)
unfolding commit_tuple_states
get-commit_tuple_states m txn c k =
    get-set_transaction _ (cleared txn) k
    ∙ get-for_each (λ (a : TupleKey). a) (commit_state txn.txn_id c) (committed txn.txn_id c) k m
        (by_shard (λ a. a) (snapshot_keys txn)) (committed-committed txn.txn_id c)
        (all_rounds txn.txn_id c k _)
    ∙ rw (visits-by_shard (λ (a : TupleKey). a) k (snapshot_keys txn)) refl

commit-chain :
    (m : Manager) (txn : Transaction) (c : ℕ) (h : Option UndoLink) (older : List Version)
    → lookup txn.txn_id m.txn_map ≡ some txn
    → HeadChain (get_undo_log_optional m) h older
    → HeadChain (get_undo_log_optional (commit_tuple_states m txn c)) h older
unfolding commit_tuple_states
commit-chain m txn c h older here chain =
    let m₁ = for_each (commit_state txn.txn_id c) m (by_shard (λ a. a) (snapshot_keys txn)) in
    let same : m₁.txn_map ≡ m.txn_map =
      txn_map-for_each (commit_state txn.txn_id c) m (by_shard (λ a. a) (snapshot_keys txn))
        (txn_map-commit_state txn.txn_id c) in
    HeadChain-Extends (get_undo_log_optional m) _ h older
      (λ l u e.
        set_transaction-Extends m₁ txn (cleared txn) [] (ap (lookup txn.txn_id) same ∙ here) refl
          (sym (append-nil txn.undo_logs)) l u (log_of_txn_map m m₁ l same ∙ e))
      chain

-- A transaction of the transaction table that owns a tuple and has a write state of it gives it up at
-- its commit, stamped with the commit timestamp, with its chain of older versions kept. A snapshot of
-- another transaction taken before the commit sees what it saw, and one taken at the commit or later
-- sees what the writer wrote.
pub commit_tuple_states-published :
    (m : Manager) (txn : Transaction) (commit_ts : ℕ) (key : TupleKey) (latest : RmRecord)
    (s : TupleState) (older : List Version)
    → get_tuple_state m key ≡ some s
    → HeadChain (get_undo_log_optional m) s.undo_head older
    → lookup txn.txn_id m.txn_map ≡ some txn
    → visits (λ (a : TupleKey). a) key (snapshot_keys txn) ≡ true
    → s.owner ≡ some txn.txn_id
    → let m' = commit_tuple_states m txn commit_ts in
      let s' : TupleState = record s { owner = none; commit_ts = some commit_ts } in
      (get_tuple_state m' key ≡ some s')
      × HeadChain (get_undo_log_optional m') s'.undo_head older
      × ((r read_ts : ℕ)
          → r ≢ txn.txn_id
          → read_ts < commit_ts
          → snapshot_view s' latest older (some r) (some read_ts)
            ≡ snapshot_view s latest older (some r) (some read_ts))
      × ((r read_ts : ℕ)
          → commit_ts ≤ read_ts
          → snapshot_view s' latest older (some r) (some read_ts)
            ≡ snapshot_view s latest older (some txn.txn_id) (some read_ts))
commit_tuple_states-published m txn c key latest s older e chain here visited own = (
  get-commit_tuple_states m txn c key
      ∙ rw (visited, e, (option_eqb_iff s.owner (some txn.txn_id)).1 own) refl,
  commit-chain m txn c s.undo_head older here chain,
  λ r read_ts ne before. unfold snapshot_view newest_at in ground arith,
  λ r read_ts after. unfold snapshot_view newest_at in ground arith,
)
