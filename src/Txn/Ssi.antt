-- ===== src/Txn/Ssi.antt =====
-- The rw-conflict graph of serializable transactions in transaction/transaction_manager.cpp: their
-- intervals, the edges with the two indexes over them, and the checks for a dangerous structure.
-- Every function runs under the graph's lock. INVALID_TXN_ID has no edge here, as no id is invalid.
pub mod Edges
pub mod Danger
pub mod Tests
use database.Prelude.{
  ℕ, List, [], ◌∷◌, Option, none, some, Bool, true, false, not, ◌&&◌, ◌||◌, if◌then◌else◌, Map,
  lookup, insert, erase, nat_eq, nat_eqb, ltb, has_value,
}
use database.Txn.Defs.{Timestamp, Result, done, throw, throw_if, transaction_abort, internal_error}

pub record SerializableTxnInterval : Type 0 where
  pub start_ts : ℕ
  pub finish_ts : Timestamp
  pub committed : Bool

pub record Graph : Type 0 where
  pub intervals : Map ℕ SerializableTxnInterval
  pub rw_edges : List (ℕ × ℕ)
  pub rw_out_edges : Map ℕ (List ℕ)
  pub rw_in_edges : Map ℕ (List ℕ)

-- `lhs < SerializableIntervalEnd(rhs)`, where no finish is the largest timestamp.
abbrev pub before_end : ℕ → Timestamp → Bool
before_end lhs none = true
before_end lhs (some finish) = ltb lhs finish

unfoldable pub serializable_intervals_overlap : ℕ → Timestamp → ℕ → Timestamp → Bool
serializable_intervals_overlap lhs_start lhs_finish rhs_start rhs_finish =
    before_end lhs_start rhs_finish && before_end rhs_start lhs_finish

abbrev pub is_committed : SerializableTxnInterval → Bool
is_committed i = i.committed && has_value i.finish_ts

-- The finish that counts for Tout: the assumed one, where the commit is being prepared.
abbrev pub finish_of : Timestamp → SerializableTxnInterval → Timestamp
finish_of none tout = tout.finish_ts
finish_of (some assumed) tout = some assumed

-- `tout_finish < tin.finish_ts`, of two finishes that are there.
abbrev pub finishes_before : Timestamp → Timestamp → Bool
finishes_before none b = has_value b
finishes_before (some a) none = false
finishes_before (some a) (some b) = ltb a b

unfoldable pub dangerous_intervals :
    Bool
    → SerializableTxnInterval
    → SerializableTxnInterval
    → SerializableTxnInterval
    → Timestamp
    → Bool
unfolding serializable_intervals_overlap
dangerous_intervals same tin tpivot tout assumed =
    if not
        (serializable_intervals_overlap tin.start_ts tin.finish_ts tpivot.start_ts tpivot.finish_ts)
      || not (
          serializable_intervals_overlap tpivot.start_ts tpivot.finish_ts tout.start_ts
            (finish_of assumed tout))
    then false
    else if same
    then true
    else (has_value assumed || is_committed tout)
      && (not (is_committed tin) || finishes_before (finish_of assumed tout) tin.finish_ts)

-- `SerializableDangerousStructureLocked`; `none` for `assumed` is its default.
unfoldable pub dangerous_structure : Graph → ℕ → ℕ → ℕ → Timestamp → Bool
unfolding dangerous_intervals
dangerous_structure g tin tpivot tout assumed = elim (lookup tin g.intervals) [
  | none ↦ false
  | some i ↦ elim (lookup tpivot g.intervals) [
    | none ↦ false
    | some p ↦ elim (lookup tout g.intervals) [
      | none ↦ false
      | some o ↦ dangerous_intervals (nat_eqb tin tout) i p o assumed
    ]
  ]
]

abbrev pub member : ℕ → List ℕ → Bool
member x [] = false
member x (y ∷ ys) = if nat_eqb y x then true else member x ys

abbrev pub has_edge : ℕ → ℕ → List (ℕ × ℕ) → Bool
has_edge a b [] = false
has_edge a b (e ∷ es) = if nat_eqb e.0 a && nat_eqb e.1 b then true else has_edge a b es

-- The set under a key, empty where the key is absent.
abbrev pub neighbours : Map ℕ (List ℕ) → ℕ → List ℕ
neighbours m k = elim (lookup k m) [ none ↦ [] | some ns ↦ ns ]

abbrev pub set_insert : ℕ → List ℕ → List ℕ
set_insert x xs = if member x xs then xs else x ∷ xs

abbrev pub remove : ℕ → List ℕ → List ℕ
remove x [] = []
remove x (y ∷ ys) = let rest = remove x ys in if nat_eqb y x then rest else y ∷ rest

unfoldable pub index_insert : ℕ → ℕ → Map ℕ (List ℕ) → Map ℕ (List ℕ)
index_insert k x m = insert k (set_insert x (neighbours m k)) m

abbrev pub is_empty : List ℕ → Bool
is_empty [] = true
is_empty (x ∷ xs) = false

unfoldable pub index_remove : ℕ → ℕ → Map ℕ (List ℕ) → Map ℕ (List ℕ)
index_remove k x m = elim (lookup k m) [
  | none ↦ m
  | some ns ↦ let left = remove x ns in if is_empty left then erase k m else insert k left m
]

unfoldable pub add_edge : Graph → ℕ → ℕ → Graph
unfolding index_insert
add_edge g from_reader to_writer = record g {
  rw_edges = (from_reader, to_writer) ∷ g.rw_edges;
  rw_out_edges = index_insert from_reader to_writer g.rw_out_edges;
  rw_in_edges = index_insert to_writer from_reader g.rw_in_edges;
}

-- The loop over `serializable_rw_in_edges_[pivot]`.
abbrev pub some_tin : Graph → ℕ → ℕ → Timestamp → List ℕ → Bool
some_tin g pivot tout assumed [] = false
some_tin g pivot tout assumed (tin ∷ tins) =
    if dangerous_structure g tin pivot tout assumed
    then true
    else some_tin g pivot tout assumed tins

-- The loop over `serializable_rw_out_edges_[pivot]`.
abbrev pub some_tout : Graph → ℕ → ℕ → List ℕ → Bool
some_tout g tin pivot [] = false
some_tout g tin pivot (tout ∷ touts) =
    if dangerous_structure g tin pivot tout none then true else some_tout g tin pivot touts

unfoldable pub add_serializable_rw_edge_and_check : Graph → ℕ → ℕ → Graph × Bool
unfolding add_edge
add_serializable_rw_edge_and_check g from_reader to_writer =
    if nat_eqb from_reader to_writer || has_edge from_reader to_writer g.rw_edges
    then (g, false)
    else let added = add_edge g from_reader to_writer in
      (
        added,
        some_tin added from_reader to_writer none (neighbours added.rw_in_edges from_reader)
            || some_tout added from_reader to_writer (neighbours added.rw_out_edges to_writer),
      )

-- The loop over the edges, from those that are left.
unfoldable pub remove_edges : ℕ → List (ℕ × ℕ) → Graph → Graph
unfolding index_remove
remove_edges txn_id [] g = record g { rw_edges = [] }
remove_edges txn_id (e ∷ es) g =
    let rest = remove_edges txn_id es g in
    if nat_eqb e.0 txn_id || nat_eqb e.1 txn_id
    then record rest {
      rw_out_edges = index_remove e.0 e.1 rest.rw_out_edges;
      rw_in_edges = index_remove e.1 e.0 rest.rw_in_edges;
    }
    else record rest { rw_edges = e ∷ rest.rw_edges }

unfoldable pub remove_serializable_edges_for_txn : ℕ → Graph → Graph
unfolding remove_edges
remove_serializable_edges_for_txn txn_id g = remove_edges txn_id g.rw_edges g

unfoldable pub register_serializable_begin : Graph → ℕ → ℕ → Graph
register_serializable_begin g txn_id start_ts = record g {
  intervals =
      insert txn_id (record { start_ts = start_ts; finish_ts = none; committed = false })
        g.intervals;
}

-- The loop over the pivots of `PrepareSerializableCommit`.
abbrev pub some_pivot : Graph → ℕ → Timestamp → List ℕ → Bool
some_pivot g tout commit_ts [] = false
some_pivot g tout commit_ts (pivot ∷ pivots) =
    if some_tin g pivot tout commit_ts (neighbours g.rw_in_edges pivot)
    then true
    else some_pivot g tout commit_ts pivots

unfoldable pub prepare_serializable_commit : Graph → ℕ → ℕ → Result (Unit {0})
prepare_serializable_commit g txn_id commit_ts =
    if has_value (lookup txn_id g.intervals)
    then throw_if (some_pivot g txn_id (some commit_ts) (neighbours g.rw_in_edges txn_id))
        (transaction_abort txn_id)
    else throw internal_error
