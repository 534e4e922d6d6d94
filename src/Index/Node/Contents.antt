-- ===== src/Index/Node/Contents.antt =====
-- What a leaf of index/ix_index_handle.cpp holds after an insertion and a removal.
use database.Prelude.{
  ℕ, suc, ◌+◌, ◌≡◌, ◌⊎◌, refl, ap, subst, sym, ◌∙◌, List, [], ◌∷◌, ◌++◌, Option, none, some, true,
  arith, if◌then◌else◌, get_elem?, take, drop, All, has_value, Bool-cases, inl, inr,
}
use database.Txn.Defs.{Rid, done, throw, duplicate_key}
use database.Index.Compare.{Key, Sign, less, same, greater, IsOrder}
use database.Index.Node.{
  Node, is_less, is_same, tested, value_if_same, leaf_lookup, insert, insert_pairs, erase_pair,
  remove,
}
use database.Index.Node.Search.{IsSorted, passed, bounds-passed, all_above}

-- The rid of a key, by a scan of the whole node.
abbrev pub find : (Key → Key → Sign) → Key → Node → Option Rid
find cmp key [] = none
find cmp key (e ∷ es) = if is_same (cmp e.0 key) then some e.1 else find cmp key es

find_above :
    (cmp : Key → Key → Sign) (key : Key) (es : Node)
    → All (λ d. cmp d.0 key ≡ greater) es
    → find cmp key es ≡ none
find_above cmp key [] h = refl
find_above cmp key (e ∷ es) h = ground (arith, h.0, find_above cmp key es h.1)

Sign-cases : (s : Sign) → (s ≡ less) ⊎ ((s ≡ same) ⊎ (s ≡ greater))
Sign-cases less = inl refl
Sign-cases same = inr (inl refl)
Sign-cases greater = inr (inr refl)

drop-suc : {A : Type 0} (n : ℕ) (x : A) (xs : List A) → drop (suc n + 1) (x ∷ xs) ≡ drop (n + 1) xs
drop-suc n x xs =
    let same : suc (n + 1) ≡ suc n + 1 = omega arith in
    subst (λ k. drop k (x ∷ xs) ≡ drop (n + 1) xs) same refl

done-injective : {A : Type 0} (a b : A) → done a ≡ done b → a ≡ b
done-injective a b h = ground arith

module _ (cmp : Key → Key → Sign) (o : IsOrder cmp) where
  found_at_passed :
      (key : Key) (es : Node)
      → IsSorted cmp es
      → value_if_same cmp key (get_elem? es (passed is_less cmp key es)) ≡ find cmp key es
  found_at_passed key [] h = refl
  found_at_passed key (e ∷ es) h = elim (Sign-cases (cmp e.0 key)) [
    | inl eq ↦ rw eq (found_at_passed key es h.1)
    | inr (inl eq) ↦ ground (arith, eq)
    | inr (inr eq) ↦ ground (arith, eq, find_above cmp key es (all_above cmp key e.0 es o h.0 eq))
  ]

  -- On a node whose keys rise strictly, the lookup by binary search finds what a scan of the whole
  -- node finds.
  pub leaf_lookup-find :
      (key : Key) (es : Node) → IsSorted cmp es → leaf_lookup cmp es key ≡ find cmp key es
  unfolding leaf_lookup
  leaf_lookup-find key es h = rw ((bounds-passed cmp es key o h).0) (found_at_passed key es h)

  -- The pair at its place.
  abbrev placed : Key → Rid → Node → Node
  placed key value es =
      let pos = passed is_less cmp key es in take pos es ++ ((key, value) ∷ drop pos es)

  All-placed :
      (k : Key) (key : Key) (value : Rid) (es : Node)
      → cmp k key ≡ less
      → All (λ d. cmp k d.0 ≡ less) es
      → All (λ d. cmp k d.0 ≡ less) (placed key value es)
  All-placed k key value [] l h = (l, tt)
  All-placed k key value (e ∷ es) l h = elim (Bool-cases (is_less (cmp e.0 key))) [
    | inl a ↦ rw a (h.0, All-placed k key value es l h.1)
    | inr a ↦ rw a (l, h)
  ]

  All_after :
      (k : Key) (e : Key) (es : Node)
      → cmp k e ≡ less
      → All (λ d. cmp e d.0 ≡ less) es
      → All (λ d. cmp k d.0 ≡ less) es
  All_after k e [] l h = tt
  All_after k e (d ∷ es) l h = (o.less-trans k e d.0 l h.0, All_after k e es l h.1)

  placed-IsSorted :
      (key : Key) (value : Rid) (es : Node)
      → IsSorted cmp es
      → find cmp key es ≡ none
      → IsSorted cmp (placed key value es)
  placed-IsSorted key value [] h f = (tt, tt)
  placed-IsSorted key value (e ∷ es) h f = elim (Sign-cases (cmp e.0 key)) [
    | inl eq ↦
        rw eq (All-placed e.0 key value es eq h.0, placed-IsSorted key value es h.1 (rw eq at f))
    | inr (inl eq) ↦ ground (arith, f, eq)
    | inr (inr eq) ↦
        let below : cmp key e.0 ≡ less = ground (arith, eq, o.flip e.0 key) in
        rw eq ((below, All_after key e.0 es below h.0), h)
  ]

  find-placed :
      (key j : Key) (value : Rid) (es : Node)
      → IsSorted cmp es
      → find cmp key es ≡ none
      → find cmp j (placed key value es)
        ≡ (if is_same (cmp key j) then some value else find cmp j es)
  find-placed key j value [] h f = refl
  find-placed key j value (e ∷ es) h f = elim (Sign-cases (cmp e.0 key)) [
    | inl eq ↦ rw eq (
        ground (
          arith,
          eq,
          find-placed key j value es h.1 (rw eq at f),
          o.same-left key j e.0,
          o.flip e.0 key,
          o.flip e.0 j,
        ))
    | inr (inl eq) ↦ ground (arith, f, eq)
    | inr (inr eq) ↦ rw eq refl
  ]

  same_at_passed :
      (key : Key) (es : Node)
      → IsSorted cmp es
      → tested is_same cmp key (get_elem? es (passed is_less cmp key es))
        ≡ has_value (find cmp key es)
  same_at_passed key es h =
      go (get_elem? es (passed is_less cmp key es)) ∙ ap has_value (found_at_passed key es h)
    where
      go : (x : Option (Key × Rid)) → tested is_same cmp key x ≡ has_value (value_if_same cmp key x)
      go none = refl
      go (some e) = ground arith

  -- On a node whose keys rise strictly, an insertion of a key that is there is refused as a duplicate.
  -- Any other insertion gives a node whose keys rise strictly, in which the lookup of the new key
  -- gives the new rid, and the lookup of every other key gives what it gave.
  pub insert-find :
      (es : Node) (key : Key) (value : Rid)
      → IsSorted cmp es
      → (has_value (leaf_lookup cmp es key) ≡ true → insert cmp es key value ≡ throw duplicate_key)
        × (leaf_lookup cmp es key ≡ none
            → (node : Node) × (insert cmp es key value ≡ done node)
              × IsSorted cmp node
              × ((j : Key)
                  → leaf_lookup cmp node j
                    ≡ (if is_same (cmp key j) then some value else leaf_lookup cmp es j)))
  unfolding insert insert_pairs
  insert-find es key value h =
      let bound = (bounds-passed cmp es key o h).0 in
      let at = same_at_passed key es h in
      (
        λ there. rw (bound, at, ← leaf_lookup-find key es h, there) refl,
        λ absent.
            let missing : find cmp key es ≡ none = sym (leaf_lookup-find key es h) ∙ absent in
            let sorted = placed-IsSorted key value es h missing in
            (
              placed key value es,
              rw (bound, at, missing) refl,
              sorted,
              λ j.
                  leaf_lookup-find j (placed key value es) sorted
                  ∙ rw (leaf_lookup-find j es h) (find-placed key j value es h missing),
            ),
      )

  abbrev erased : Key → Node → Node
  erased key es = let pos = passed is_less cmp key es in take pos es ++ drop (pos + 1) es

  placed_less :
      (key : Key) (value : Rid) (e : Key × Rid) (es : Node)
      → cmp e.0 key ≡ less
      → placed key value (e ∷ es) ≡ e ∷ placed key value es
  placed_less key value e es eq = rw eq refl

  erased_less :
      (key : Key) (e : Key × Rid) (es : Node)
      → cmp e.0 key ≡ less
      → erased key (e ∷ es) ≡ e ∷ erased key es
  erased_less key e es eq = rw eq (
      ap (λ xs. e ∷ take (passed is_less cmp key es) es ++ xs)
        (drop-suc (passed is_less cmp key es) e es))

  erased-placed : (key : Key) (value : Rid) (es : Node) → erased key (placed key value es) ≡ es
  erased-placed key value [] = ground (arith, o.flip key key)
  erased-placed key value (e ∷ es) = elim (Sign-cases (cmp e.0 key)) [
    | inl eq ↦
        ap (erased key) (placed_less key value e es eq)
        ∙ erased_less key e (placed key value es) eq
        ∙ ap (◌∷◌ e) (erased-placed key value es)
    | inr (inl eq) ↦ ground (arith, eq, o.flip key key)
    | inr (inr eq) ↦ ground (arith, eq, o.flip key key)
  ]

  -- On a node whose keys rise strictly and do not include the key, a removal after an insertion gives
  -- the node back.
  pub remove-insert :
      (es : Node) (key : Key) (value : Rid) (node : Node)
      → IsSorted cmp es
      → leaf_lookup cmp es key ≡ none
      → insert cmp es key value ≡ done node
      → remove cmp node key ≡ es
  unfolding insert insert_pairs remove erase_pair
  remove-insert es key value node h absent inserted =
      let bound = (bounds-passed cmp es key o h).0 in
      let missing : find cmp key es ≡ none = sym (leaf_lookup-find key es h) ∙ absent in
      let at = same_at_passed key es h in
      let sorted = placed-IsSorted key value es h missing in
      let is_placed : placed key value es ≡ node =
        done-injective _ _ (rw (bound, at, missing) at inserted) in
      let there = same_at_passed key (placed key value es) sorted in
      let found = find-placed key key value es h missing in
      let self : cmp key key ≡ same = ground (arith, o.flip key key) in
      rw (← is_placed, (bounds-passed cmp (placed key value es) key o sorted).0, there, found, self)
        (erased-placed key value es)
