-- ===== src/Txn/Mvcc/Snapshot/Writers.antt =====
-- What `AcquireWriteAndRecord` of transaction/transaction_manager.cpp does to the tuple, to the
-- writer's own view, and to every other snapshot.
use database.Prelude.{
  ℕ, ◌≡◌, ◌≢◌, refl, ap, ◌∙◌, ◌⊎◌, inl, inr, List, [], ◌∷◌, Option, none, some, Bool, true, not,
  if◌then◌else◌, arith, option_eqb_iff, nat_eq, lookup, Bool-cases, bool_eqb, bool_eqb_sound,
}
use database.Txn.Defs.{
  Timestamp, RmRecord, TupleKey, UndoLink, UndoLog, TupleState, Transaction, TupleWriteKind,
  WriteCheckOutcome, ok, done, key_eq,
}
use database.Txn.Mvcc.{
  Manager, get_tuple_state, get_undo_log_optional, set_transaction, set_shard, mark_has_mvcc_state,
  shard_for,
}
use database.Txn.Mvcc.Writes.{
  acquire_write_and_record, refusal, take_ownership, set_owned_flag, state_or_fresh, deletes,
  has_tuple_write_state, with_first_write, next_link, undo_of, emplace, publish, link_or_default,
}
use database.Txn.Mvcc.States.{
  get-publish-emplace_self, get-emplace_self, get-set_transaction, get-mark_has_mvcc_state,
  txn_map-set_shard,
}
use database.Txn.Mvcc.Snapshot.{
  Version, version_of, Chain, HeadChain, newest_at, snapshot_view, HeadChain-Extends,
}
use database.Txn.Mvcc.Snapshot.Logs.{log_of_txn_map, set_transaction-Extends, log-next_link}

-- A tuple with its state and the older versions that links lead to. A tuple without a state has been
-- committed before every snapshot.
pub record History (m : Manager) (key : TupleKey) (s : TupleState) (older : List Version)
    : Type 0 where
  pub state : state_or_fresh (get_tuple_state m key) ≡ s
  pub chain : HeadChain (get_undo_log_optional m) s.undo_head older

-- No other transaction sees a difference, whatever the heap holds now.
abbrev pub SameViews : ℕ → TupleState → List Version → TupleState → RmRecord → List Version → Type 0
SameViews writer s' older' s latest older =
    (heap : RmRecord) (r : ℕ) (read_ts : Timestamp)
    → r ≢ writer
    → snapshot_view s' heap older' (some r) read_ts ≡ snapshot_view s latest older (some r) read_ts

first_write-SameViews :
    (t : ℕ) (s : TupleState) (latest : RmRecord) (older : List Version) (l : UndoLink) (d : Bool)
    → s.owner ≡ none
    → SameViews t
        (record s { owner = some t; is_deleted = d; undo_head = some l })
        (version_of (undo_of s latest) ∷ older)
        s
        latest
        older
unfolding snapshot_view newest_at
first_write-SameViews t s latest older l d e heap r read_ts ne = ground arith

flag-SameViews :
    (t : ℕ) (s : TupleState) (latest : RmRecord) (older : List Version) (d : Bool)
    → s.owner ≡ some t
    → SameViews t (record s { is_deleted = d }) older s latest older
unfolding snapshot_view
flag-SameViews t s latest older d e heap r read_ts ne = ground arith

-- The manager after a first write.
abbrev after_first_write : Manager → TupleKey → TupleState → RmRecord → Transaction → Bool → Manager
after_first_write m key s old txn d =
    set_transaction
      (set_shard m key (
        publish (emplace (shard_for m key) key) key
          (record s { owner = some txn.txn_id; is_deleted = d; undo_head = some (next_link txn) })))
      (with_first_write txn key s old)

prev_version-Chain :
    (log : UndoLink → Option UndoLog) (h : Option UndoLink) (vs : List Version)
    → HeadChain log h vs
    → Chain log (link_or_default h) vs
prev_version-Chain log none vs c = rw c refl
prev_version-Chain log (some l) vs c = c

first_write-chain :
    (m m₁ : Manager) (key : TupleKey) (s : TupleState) (old : RmRecord) (txn : Transaction)
    (older : List Version)
    → m₁.txn_map ≡ m.txn_map
    → lookup txn.txn_id m.txn_map ≡ some txn
    → HeadChain (get_undo_log_optional m) s.undo_head older
    → HeadChain
        (get_undo_log_optional (set_transaction m₁ (with_first_write txn key s old)))
        (some (next_link txn))
        (version_of (undo_of s old) ∷ older)
first_write-chain m m₁ key s old txn older same here c = (
  refl,
  (
    undo_of s old,
    log-next_link m₁ txn key s old,
    refl,
    prev_version-Chain _ s.undo_head older (
        HeadChain-Extends (get_undo_log_optional m) _ s.undo_head older
          (λ l u e.
            set_transaction-Extends m₁ txn (with_first_write txn key s old) (undo_of s old ∷ [])
              (ap (lookup txn.txn_id) same ∙ here) refl refl l u (log_of_txn_map m m₁ l same ∙ e))
          c),
  ),
)

-- Where the write is granted, the transaction owned the tuple before, or this is its first write.
granted_cases :
    (m m' : Manager) (key : TupleKey) (old : RmRecord) (txn : Transaction) (kind : TupleWriteKind)
    (out : WriteCheckOutcome) (s : TupleState)
    → state_or_fresh (get_tuple_state m key) ≡ s
    → (has_tuple_write_state txn key ≡ true → s.owner ≡ some txn.txn_id)
    → acquire_write_and_record m key old (some txn) kind ≡ done (out, m')
    → out.result ≡ ok
    → ((s.owner ≡ some txn.txn_id)
        × (m' ≡ (set_owned_flag (mark_has_mvcc_state m key.fd) key s (deletes kind)).1))
      ⊎ ((s.owner ≡ none)
          × (m' ≡ after_first_write (mark_has_mvcc_state m key.fd) key s old txn (deletes kind)))
unfolding acquire_write_and_record refusal take_ownership
granted_cases m m' key old txn kind out s e own call granted =
    ground (arith, get-mark_has_mvcc_state m key.fd key, option_eqb_iff s.owner (some txn.txn_id))

txn_map-mark : (m : Manager) (fd : ℕ) → (mark_has_mvcc_state m fd).txn_map ≡ m.txn_map
unfolding mark_has_mvcc_state
txn_map-mark m fd = refl

-- What a granted write leaves at the tuple: the state, and the versions that its links lead to.
abbrev Granted :
    Manager
    → Manager
    → TupleKey
    → RmRecord
    → Transaction
    → TupleWriteKind
    → TupleState
    → List Version
    → Type 0
Granted m m' key latest txn kind s older =
    (s' : TupleState) × (older' : List Version) × History m' key s' older'
    × (s'.owner ≡ some txn.txn_id)
    × (s'.is_deleted ≡ deletes kind)
    × SameViews txn.txn_id s' older' s latest older

first_write-Granted :
    (m : Manager) (key : TupleKey) (latest : RmRecord) (txn : Transaction) (kind : TupleWriteKind)
    (s : TupleState) (older : List Version)
    → lookup txn.txn_id m.txn_map ≡ some txn
    → HeadChain (get_undo_log_optional m) s.undo_head older
    → s.owner ≡ none
    → Granted m
        (after_first_write (mark_has_mvcc_state m key.fd) key s latest txn (deletes kind))
        key
        latest
        txn
        kind
        s
        older
first_write-Granted m key latest txn kind s older here c free =
    let m₁ = mark_has_mvcc_state m key.fd in
    let s' : TupleState = record s {
      owner = some txn.txn_id;
      is_deleted = deletes kind;
      undo_head = some (next_link txn);
    } in
    let m₂ = set_shard m₁ key (publish (emplace (shard_for m₁ key) key) key s') in
    (
      s',
      version_of (undo_of s latest) ∷ older,
      record {
        state = ap state_or_fresh (
            get-set_transaction m₂ (with_first_write txn key s latest) key
            ∙ get-publish-emplace_self m₁ key s');
        chain =
            first_write-chain m m₂ key s latest txn older
              (txn_map-set_shard m₁ key _ ∙ txn_map-mark m key.fd) here c;
      },
      refl,
      refl,
      first_write-SameViews txn.txn_id s latest older (next_link txn) (deletes kind) free,
    )

flag-state :
    (m : Manager) (key : TupleKey) (s : TupleState) (d : Bool)
    → state_or_fresh (get_tuple_state m key) ≡ s
    → (state_or_fresh (get_tuple_state (set_owned_flag m key s d).1 key)
        ≡ record s { is_deleted = d })
      × ((set_owned_flag m key s d).1.txn_map ≡ m.txn_map)
unfolding set_owned_flag
flag-state m key s d e = elim (Bool-cases (bool_eqb s.is_deleted d)) [
  | inl same ↦
      let h : s.is_deleted ≡ d = bool_eqb_sound s.is_deleted d same in
      rw (same, not, if◌then◌else◌)
        (ap state_or_fresh (get-emplace_self m key) ∙ e ∙ ground arith, txn_map-set_shard m key _)
  | inr diff ↦
      rw (diff, not, if◌then◌else◌)
        (ap state_or_fresh (get-publish-emplace_self m key _), txn_map-set_shard m key _)
]

flag-Granted :
    (m : Manager) (key : TupleKey) (latest : RmRecord) (txn : Transaction) (kind : TupleWriteKind)
    (s : TupleState) (older : List Version)
    → state_or_fresh (get_tuple_state m key) ≡ s
    → HeadChain (get_undo_log_optional m) s.undo_head older
    → s.owner ≡ some txn.txn_id
    → Granted m
        (set_owned_flag (mark_has_mvcc_state m key.fd) key s (deletes kind)).1
        key
        latest
        txn
        kind
        s
        older
flag-Granted m key latest txn kind s older e c own =
    let m₁ = mark_has_mvcc_state m key.fd in
    let (state, logs) =
      flag-state m₁ key s (deletes kind)
        (ap state_or_fresh (get-mark_has_mvcc_state m key.fd key) ∙ e) in
    (
      record s { is_deleted = deletes kind },
      older,
      record {
        state = state;
        chain =
            HeadChain-Extends (get_undo_log_optional m) _ s.undo_head older
              (λ l u f. log_of_txn_map m _ l (logs ∙ txn_map-mark m key.fd) ∙ f) c;
      },
      own,
      refl,
      flag-SameViews txn.txn_id s latest older (deletes kind) own,
    )

-- A granted write gives the tuple to the writer with the deletion flag that the write asks for, keeps
-- a chain to the version that it covers, and changes no other transaction's view of the tuple, at
-- any snapshot and whatever the heap holds afterwards. The writer is in the transaction table, and
-- holds a write state of the tuple only while it owns it.
pub acquire_write_and_record-Granted :
    (m m' : Manager) (key : TupleKey) (latest : RmRecord) (txn : Transaction)
    (kind : TupleWriteKind) (out : WriteCheckOutcome) (s : TupleState) (older : List Version)
    → History m key s older
    → lookup txn.txn_id m.txn_map ≡ some txn
    → (has_tuple_write_state txn key ≡ true → s.owner ≡ some txn.txn_id)
    → acquire_write_and_record m key latest (some txn) kind ≡ done (out, m')
    → out.result ≡ ok
    → (s' : TupleState) × (older' : List Version) × History m' key s' older'
      × (s'.owner ≡ some txn.txn_id)
      × (s'.is_deleted ≡ deletes kind)
      × SameViews txn.txn_id s' older' s latest older
acquire_write_and_record-Granted m m' key latest txn kind out s older h here own call granted =
    elim (granted_cases m m' key latest txn kind out s h.state own call granted) [
      | inl (mine, e) ↦ rw e (flag-Granted m key latest txn kind s older h.state h.chain mine)
      | inr (free, e) ↦ rw e (first_write-Granted m key latest txn kind s older here h.chain free)
    ]
