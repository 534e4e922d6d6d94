-- ===== src/Txn/Ssi/Edges.antt =====
-- The two edge indexes of the rw-conflict graph in transaction/transaction_manager.cpp against the
-- set of edges.
use database.Prelude.{
  ℕ, ◌≡◌, refl, ap, List, [], ◌∷◌, Bool, true, false, ◌&&◌, ◌||◌, if◌then◌else◌, arith, Map, lookup,
  nat_eq, nat_eqb, nat_eqb_iff, lookup-insert, lookup-erase, inl, inr, Bool-cases,
}
use database.Txn.Ssi.{
  Graph, member, has_edge, neighbours, set_insert, remove, is_empty, index_insert, index_remove,
  add_edge, add_serializable_rw_edge_and_check, remove_edges, remove_serializable_edges_for_txn,
}

pub member-set_insert :
    (x y : ℕ) (xs : List ℕ)
    → member y (set_insert x xs) ≡ (if nat_eqb x y then true else member y xs)
member-set_insert x y xs = elim (Bool-cases (member x xs)) [
  | inl a ↦ elim (Bool-cases (nat_eqb x y)) [
    | inl e ↦ rw (a, e) (ground (arith, a, e))
    | inr e ↦ rw (a, e) refl
  ]
  | inr a ↦ rw a refl
]

pub member-remove :
    (x y : ℕ) (xs : List ℕ) → member y (remove x xs) ≡ (if nat_eqb x y then false else member y xs)
member-remove x y [] = ground arith
member-remove x y (z ∷ zs) = ground (arith, member-remove x y zs)

member-empty : (y : ℕ) (xs : List ℕ) → is_empty xs ≡ true → member y xs ≡ false
member-empty y [] h = refl
member-empty y (x ∷ xs) h = ground (arith, h)

-- An edge as an index has it.
abbrev pub indexed : Map ℕ (List ℕ) → ℕ → ℕ → Bool
indexed m k x = member x (neighbours m k)

indexed-index_insert :
    (k x j y : ℕ) (m : Map ℕ (List ℕ))
    → indexed (index_insert k x m) j y
      ≡ (if nat_eqb k j && nat_eqb x y then true else indexed m j y)
unfolding index_insert
indexed-index_insert k x j y m = ground (
  arith,
  lookup-insert k j (set_insert x (neighbours m k)) m,
  member-set_insert x y (neighbours m k),
  nat_eqb_iff k j,
  ap (λ z. neighbours m z) {x = k} {y = j},
)

indexed-index_remove :
    (k x j y : ℕ) (m : Map ℕ (List ℕ))
    → indexed (index_remove k x m) j y
      ≡ (if nat_eqb k j && nat_eqb x y then false else indexed m j y)
unfolding index_remove
indexed-index_remove k x j y m = ground (
  arith,
  lookup-insert k j (remove x (neighbours m k)) m,
  lookup-erase k j m,
  member-remove x y (neighbours m k),
  member-empty y (remove x (neighbours m k)),
  nat_eqb_iff k j,
  ap (λ z. lookup z m) {x = k} {y = j},
)

-- Both indexes have exactly the edges.
pub record IsIndexed (g : Graph) : Type 0 where
  pub out_edges : (a b : ℕ) → indexed g.rw_out_edges a b ≡ has_edge a b g.rw_edges
  pub in_edges : (a b : ℕ) → indexed g.rw_in_edges b a ≡ has_edge a b g.rw_edges

pub add_edge-IsIndexed : (g : Graph) (from to : ℕ) → IsIndexed g → IsIndexed (add_edge g from to)
unfolding add_edge
add_edge-IsIndexed g from to h = record {
  out_edges =
      λ a b. ground (arith, indexed-index_insert from to a b g.rw_out_edges, h.out_edges a b);
  in_edges = λ a b. ground (arith, indexed-index_insert to from b a g.rw_in_edges, h.in_edges a b);
}

-- Recording an edge keeps both indexes in step with the set of edges, also where the edge is refused
-- or was there.
pub add_serializable_rw_edge-IsIndexed :
    (g : Graph) (from to : ℕ)
    → IsIndexed g
    → IsIndexed (add_serializable_rw_edge_and_check g from to).0
unfolding add_serializable_rw_edge_and_check
add_serializable_rw_edge-IsIndexed g from to h =
    elim (Bool-cases (nat_eqb from to || has_edge from to g.rw_edges)) [
      | inl skip ↦ rw skip h
      | inr new ↦ rw new (add_edge-IsIndexed g from to h)
    ]

has_edge-remove_edges :
    (t a b : ℕ) (es : List (ℕ × ℕ)) (g : Graph)
    → has_edge a b (remove_edges t es g).rw_edges
      ≡ (if nat_eqb a t || nat_eqb b t then false else has_edge a b es)
unfolding remove_edges
has_edge-remove_edges t a b [] g = ground arith
has_edge-remove_edges t a b (e ∷ es) g = ground (arith, has_edge-remove_edges t a b es g)

out-remove_edges :
    (t a b : ℕ) (es : List (ℕ × ℕ)) (g : Graph)
    → indexed (remove_edges t es g).rw_out_edges a b ≡ (
        if (nat_eqb a t || nat_eqb b t) && has_edge a b es
        then false
        else indexed g.rw_out_edges a b)
unfolding remove_edges
out-remove_edges t a b [] g = ground arith
out-remove_edges t a b (e ∷ es) g = ground (
  arith,
  out-remove_edges t a b es g,
  indexed-index_remove e.0 e.1 a b (remove_edges t es g).rw_out_edges,
)

in-remove_edges :
    (t a b : ℕ) (es : List (ℕ × ℕ)) (g : Graph)
    → indexed (remove_edges t es g).rw_in_edges b a ≡ (
        if (nat_eqb a t || nat_eqb b t) && has_edge a b es
        then false
        else indexed g.rw_in_edges b a)
unfolding remove_edges
in-remove_edges t a b [] g = ground arith
in-remove_edges t a b (e ∷ es) g = ground (
  arith,
  in-remove_edges t a b es g,
  indexed-index_remove e.1 e.0 b a (remove_edges t es g).rw_in_edges,
)

-- Removing a transaction's edges keeps both indexes in step, leaves no edge from or to it, and keeps
-- every other edge.
pub remove_serializable_edges-IsIndexed :
    (g : Graph) (t : ℕ)
    → IsIndexed g
    → let after = remove_serializable_edges_for_txn t g in
      IsIndexed after
      × ((a b : ℕ)
          → has_edge a b after.rw_edges
            ≡ (if nat_eqb a t || nat_eqb b t then false else has_edge a b g.rw_edges))
unfolding remove_serializable_edges_for_txn
remove_serializable_edges-IsIndexed g t h = (
  record {
    out_edges = λ a b. ground (
      arith,
      out-remove_edges t a b g.rw_edges g,
      has_edge-remove_edges t a b g.rw_edges g,
      h.out_edges a b,
    );
    in_edges = λ a b. ground (
      arith,
      in-remove_edges t a b g.rw_edges g,
      has_edge-remove_edges t a b g.rw_edges g,
      h.in_edges a b,
    );
  },
  λ a b. has_edge-remove_edges t a b g.rw_edges g,
)
