-- ===== src/Index/Node/Tests.antt =====
-- A leaf of index/ix_index_handle.cpp over one integer column, with three keys.
use database.Prelude.{ℕ, ◌≡◌, refl, List, [], ◌∷◌, none, some, true, if◌then◌else◌, has_value}
use database.Txn.Defs.{Rid, done, throw, duplicate_key}
use database.Index.Compare.{
  Key, Sign, compare_column, ColType, type_int, type_float, type_string, less, same, ix_compare,
  IsOrder, ix_compare-IsOrder,
}
use database.Index.Node.{
  Node, is_less, is_same, not_greater, lower_bound, upper_bound, search, leaf_lookup, insert,
  insert_pairs, remove,
}
use database.Index.Node.Search.{IsSorted, passed, bounds-passed}
use database.Index.Node.Contents.{insert-find, remove-insert}

abbrev columns : List (ColType × ℕ)
columns = (type_int, 4) ∷ []

abbrev compare_keys : Key → Key → Sign
compare_keys = ix_compare columns

compare_keys-IsOrder : IsOrder compare_keys
compare_keys-IsOrder = ix_compare-IsOrder columns tt

abbrev key_of : ℕ → Key
key_of n = n ∷ 0 ∷ 0 ∷ 0 ∷ []

abbrev rid_of : ℕ → Rid
rid_of n = record { page_no = n; slot_no = 0 }

-- -1, 3 and 7
abbrev leaf : Node
leaf = (255 ∷ 255 ∷ 255 ∷ 255 ∷ [], rid_of 9) ∷ (key_of 3, rid_of 1) ∷ (key_of 7, rid_of 2) ∷ []

leaf-IsSorted : IsSorted compare_keys leaf
unfolding ix_compare compare_column
leaf-IsSorted = ((refl, (refl, tt)), ((refl, tt), (tt, tt)))

bounds_example :
    (lower_bound compare_keys leaf (key_of 5) ≡ passed is_less compare_keys (key_of 5) leaf)
    × (upper_bound compare_keys leaf (key_of 5) ≡ passed not_greater compare_keys (key_of 5) leaf)
bounds_example = bounds-passed compare_keys leaf (key_of 5) compare_keys-IsOrder leaf-IsSorted

insert_example :
    (has_value (leaf_lookup compare_keys leaf (key_of 5)) ≡ true
      → insert compare_keys leaf (key_of 5) (rid_of 4) ≡ throw duplicate_key)
    × (leaf_lookup compare_keys leaf (key_of 5) ≡ none
        → (node : Node) × (insert compare_keys leaf (key_of 5) (rid_of 4) ≡ done node)
          × IsSorted compare_keys node
          × ((j : Key)
              → leaf_lookup compare_keys node j ≡ (
                  if is_same (compare_keys (key_of 5) j)
                  then some (rid_of 4)
                  else leaf_lookup compare_keys leaf j)))
insert_example =
    insert-find compare_keys compare_keys-IsOrder leaf (key_of 5) (rid_of 4) leaf-IsSorted

abbrev larger_leaf : Node
larger_leaf =
    (255 ∷ 255 ∷ 255 ∷ 255 ∷ [], rid_of 9)
    ∷ (key_of 3, rid_of 1)
    ∷ (key_of 5, rid_of 4)
    ∷ (key_of 7, rid_of 2)
    ∷ []

leaf_without_five : leaf_lookup compare_keys leaf (key_of 5) ≡ none
unfolding leaf_lookup lower_bound search ix_compare compare_column
leaf_without_five = refl

leaf_with_five : insert compare_keys leaf (key_of 5) (rid_of 4) ≡ done larger_leaf
unfolding insert insert_pairs lower_bound search ix_compare compare_column
leaf_with_five = refl

remove_example : remove compare_keys larger_leaf (key_of 5) ≡ leaf
remove_example =
    remove-insert compare_keys compare_keys-IsOrder leaf (key_of 5) (rid_of 4) larger_leaf
      leaf-IsSorted leaf_without_five leaf_with_five

-- A float and then a string of two bytes; the two zeros are the same float.
abbrev mixed : List (ColType × ℕ)
mixed = (type_float, 4) ∷ (type_string, 2) ∷ []

zeros_then_bytes :
    ix_compare mixed (0 ∷ 0 ∷ 0 ∷ 128 ∷ 97 ∷ 98 ∷ []) (0 ∷ 0 ∷ 0 ∷ 0 ∷ 97 ∷ 99 ∷ []) ≡ less
unfolding ix_compare compare_column
zeros_then_bytes = refl

-- A NaN is neither below nor above 0.
nan_same : ix_compare ((type_float, 4) ∷ []) (0 ∷ 0 ∷ 192 ∷ 127 ∷ []) (0 ∷ 0 ∷ 0 ∷ 0 ∷ []) ≡ same
unfolding ix_compare compare_column
nan_same = refl

-- The upper bound of a target below every key is 0.
upper_bound_below : upper_bound compare_keys leaf (254 ∷ 255 ∷ 255 ∷ 255 ∷ []) ≡ 0
unfolding upper_bound search ix_compare compare_column
upper_bound_below = refl
