-- ===== src/Txn/Ssi/Danger.antt =====
-- The checks for a dangerous structure in transaction/transaction_manager.cpp against all chains of
-- two rw edges.
use database.Prelude.{
  ℕ, ◌≡◌, refl, ap, sym, ◌∙◌, List, [], ◌∷◌, none, some, true, false, ◌||◌, arith, lookup, nat_eq,
  nat_eqb, nat_eqb_iff, has_value, ◌↔◌, Bool-cases, inl, inr,
}
use database.Txn.Defs.{Timestamp, throw, transaction_abort}
use database.Txn.Ssi.{
  Graph, member, has_edge, neighbours, add_edge, add_serializable_rw_edge_and_check,
  dangerous_structure, some_tin, some_tout, some_pivot, prepare_serializable_commit,
}
use database.Txn.Ssi.Edges.{IsIndexed, add_edge-IsIndexed}

some_tin-false :
    (g : Graph) (pivot tout : ℕ) (assumed : Timestamp) (tins : List ℕ) (tin : ℕ)
    → some_tin g pivot tout assumed tins ≡ false
    → member tin tins ≡ true
    → dangerous_structure g tin pivot tout assumed ≡ false
some_tin-false g pivot tout assumed [] tin h m = ground (arith, m)
some_tin-false g pivot tout assumed (x ∷ xs) tin h m = ground (
  arith,
  h,
  m,
  nat_eqb_iff x tin,
  ap (λ z. dangerous_structure g z pivot tout assumed) {x = x} {y = tin},
  some_tin-false g pivot tout assumed xs tin,
)

some_tout-false :
    (g : Graph) (tin pivot : ℕ) (touts : List ℕ) (tout : ℕ)
    → some_tout g tin pivot touts ≡ false
    → member tout touts ≡ true
    → dangerous_structure g tin pivot tout none ≡ false
some_tout-false g tin pivot [] tout h m = ground (arith, m)
some_tout-false g tin pivot (x ∷ xs) tout h m = ground (
  arith,
  h,
  m,
  nat_eqb_iff x tout,
  ap (λ z. dangerous_structure g tin pivot z none) {x = x} {y = tout},
  some_tout-false g tin pivot xs tout,
)

some_pivot-false :
    (g : Graph) (tout : ℕ) (assumed : Timestamp) (pivots : List ℕ) (pivot : ℕ)
    → some_pivot g tout assumed pivots ≡ false
    → member pivot pivots ≡ true
    → some_tin g pivot tout assumed (neighbours g.rw_in_edges pivot) ≡ false
some_pivot-false g tout assumed [] pivot h m = ground (arith, m)
some_pivot-false g tout assumed (x ∷ xs) pivot h m = ground (
  arith,
  h,
  m,
  nat_eqb_iff x pivot,
  ap (λ z. some_tin g z tout assumed (neighbours g.rw_in_edges z)) {x = x} {y = pivot},
  some_pivot-false g tout assumed xs pivot,
)

-- No chain of two edges is a dangerous structure now.
unfoldable pub IsSafe : Graph → Type 0
IsSafe g =
    (tin pivot tout : ℕ)
    → has_edge tin pivot g.rw_edges ≡ true
    → has_edge pivot tout g.rw_edges ≡ true
    → dangerous_structure g tin pivot tout none ≡ false

intervals-add_edge :
    (g : Graph) (from to tin pivot tout : ℕ) (assumed : Timestamp)
    → dangerous_structure (add_edge g from to) tin pivot tout assumed
      ≡ dangerous_structure g tin pivot tout assumed
unfolding dangerous_structure add_edge
intervals-add_edge g from to tin pivot tout assumed = refl

accepted-IsSafe :
    (g : Graph) (from to : ℕ)
    → let after = add_edge g from to in
      IsIndexed after
      → IsSafe g
      → (some_tin after from to none (neighbours after.rw_in_edges from)
          || some_tout after from to (neighbours after.rw_out_edges to))
        ≡ false
      → IsSafe after
unfolding IsSafe add_edge
accepted-IsSafe g from to indexes safe h tin pivot tout a b =
    let after = add_edge g from to in
    ground (
      arith,
      h,
      a,
      b,
      safe tin pivot tout,
      intervals-add_edge g from to tin pivot tout none,
      indexes.in_edges tin from,
      indexes.out_edges to tout,
      some_tin-false after from to none (neighbours after.rw_in_edges from) tin,
      some_tout-false after from to (neighbours after.rw_out_edges to) tout,
      nat_eqb_iff from tin,
      nat_eqb_iff from pivot,
      nat_eqb_iff to pivot,
      nat_eqb_iff to tout,
    )

-- A graph with indexes in step and no dangerous chain of two edges has none after a recorded edge
-- whose check reports none, though the check looks only at the chains through that edge.
pub accepted_edge-IsSafe :
    (g : Graph) (from to : ℕ)
    → IsIndexed g
    → IsSafe g
    → (add_serializable_rw_edge_and_check g from to).1 ≡ false
    → IsSafe (add_serializable_rw_edge_and_check g from to).0
unfolding add_serializable_rw_edge_and_check
accepted_edge-IsSafe g from to indexes safe h =
    elim (Bool-cases (nat_eqb from to || has_edge from to g.rw_edges)) [
      | inl skip ↦ rw skip safe
      | inr new ↦
          rw new
            (accepted-IsSafe g from to (add_edge-IsIndexed g from to indexes) safe (rw new at h))
    ]

some_tin-true :
    (g : Graph) (pivot tout : ℕ) (assumed : Timestamp) (tins : List ℕ)
    → some_tin g pivot tout assumed tins ≡ true
    → (tin : ℕ) × (member tin tins ≡ true) × (dangerous_structure g tin pivot tout assumed ≡ true)
some_tin-true g pivot tout assumed [] h = ground (arith, h)
some_tin-true g pivot tout assumed (x ∷ xs) h =
    elim (Bool-cases (dangerous_structure g x pivot tout assumed)) [
      | inl a ↦ (x, ground (arith, nat_eqb_iff x x), a)
      | inr a ↦
          let rest = some_tin-true g pivot tout assumed xs (ground (arith, h, a)) in
          (rest.0, ground (arith, rest.1), rest.2)
    ]

some_pivot-true :
    (g : Graph) (tout : ℕ) (assumed : Timestamp) (pivots : List ℕ)
    → some_pivot g tout assumed pivots ≡ true
    → (pivot : ℕ) × (member pivot pivots ≡ true)
      × (some_tin g pivot tout assumed (neighbours g.rw_in_edges pivot) ≡ true)
some_pivot-true g tout assumed [] h = ground (arith, h)
some_pivot-true g tout assumed (x ∷ xs) h =
    elim (Bool-cases (some_tin g x tout assumed (neighbours g.rw_in_edges x))) [
      | inl a ↦ (x, ground (arith, nat_eqb_iff x x), a)
      | inr a ↦
          let rest = some_pivot-true g tout assumed xs (ground (arith, h, a)) in
          (rest.0, ground (arith, rest.1), rest.2)
    ]

-- A chain of two edges into `tout` that is dangerous once `tout` finishes at `commit_ts`.
pub record Danger (g : Graph) (tout commit_ts : ℕ) : Type 0 where
  pub tin : ℕ
  pub pivot : ℕ
  pub first : has_edge tin pivot g.rw_edges ≡ true
  pub second : has_edge pivot tout g.rw_edges ≡ true
  pub danger : dangerous_structure g tin pivot tout (some commit_ts) ≡ true

some_pivot-Danger :
    (g : Graph) (tout commit_ts : ℕ)
    → IsIndexed g
    → (some_pivot g tout (some commit_ts) (neighbours g.rw_in_edges tout) ≡ true)
      ↔ Danger g tout commit_ts
some_pivot-Danger g tout commit_ts indexes = (
  λ h.
      let p = some_pivot-true g tout (some commit_ts) (neighbours g.rw_in_edges tout) h in
      let t = some_tin-true g p.0 tout (some commit_ts) (neighbours g.rw_in_edges p.0) p.2 in
      record {
        tin = t.0;
        pivot = p.0;
        first = sym (indexes.in_edges t.0 p.0) ∙ t.1;
        second = sym (indexes.in_edges p.0 tout) ∙ p.1;
        danger = t.2;
      },
  λ d. ground (
    arith,
    some_pivot-false g tout (some commit_ts) (neighbours g.rw_in_edges tout) d.pivot,
    some_tin-false g d.pivot tout (some commit_ts) (neighbours g.rw_in_edges d.pivot) d.tin,
    indexes.in_edges d.tin d.pivot,
    indexes.in_edges d.pivot tout,
    d.first,
    d.second,
    d.danger,
  ),
)

-- With indexes in step, the check before the commit of a registered transaction aborts it exactly
-- where two edges lead into it that are a dangerous structure once it has finished at `commit_ts`.
pub prepare_serializable_commit-Danger :
    (g : Graph) (tout commit_ts : ℕ)
    → IsIndexed g
    → has_value (lookup tout g.intervals) ≡ true
    → (prepare_serializable_commit g tout commit_ts ≡ throw (transaction_abort tout))
      ↔ Danger g tout commit_ts
unfolding prepare_serializable_commit
prepare_serializable_commit-Danger g tout commit_ts indexes h =
    ground (arith, h, some_pivot-Danger g tout commit_ts indexes)
