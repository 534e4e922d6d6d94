-- ===== src/Index/Node.antt =====
-- `IxNodeHandle` of index/ix_index_handle.cpp. A node is its first `num_key` keys with their rids, as
-- one list of pairs. `cmp` is the comparison of keys over the index's columns.
pub mod Search
pub mod Contents
pub mod Tests
use database.Prelude.{
  ℕ, zero, suc, ◌+◌, ◌/◌, ◌-◌, List, [], ◌∷◌, ◌++◌, Option, none, some, Bool, true, false,
  if◌then◌else◌, ltb, nat_eqb, take, drop, get_elem?, length, map,
}
use database.Txn.Defs.{Rid, Result, done, throw, duplicate_key}
use database.Index.Compare.{Key, Sign, less, same, greater}

abbrev pub Node : Type 0
Node = List (Key × Rid)

abbrev pub is_less : Sign → Bool
is_less less = true
is_less same = false
is_less greater = false

abbrev pub is_same : Sign → Bool
is_same less = false
is_same same = true
is_same greater = false

abbrev pub not_greater : Sign → Bool
not_greater less = true
not_greater same = true
not_greater greater = false

abbrev pub tested : (Sign → Bool) → (Key → Key → Sign) → Key → Option (Key × Rid) → Bool
tested test cmp target none = false
tested test cmp target (some e) = test (cmp e.0 target)

-- The loop of both searches: `goes_right` says that the key at `mid` is passed. Each round brings
-- `lo` and `hi` closer, so `hi - lo` rounds are enough.
unfoldable pub search : ℕ → (ℕ → Bool) → ℕ → ℕ → ℕ
search zero goes_right lo hi = lo
search (suc fuel) goes_right lo hi =
    let mid = (lo + hi) / 2 in
    let right = goes_right mid in
    let result =
      search fuel goes_right (if right then mid + 1 else lo) (if right then hi else mid) in
    if ltb lo hi then result else lo

unfoldable pub lower_bound : (Key → Key → Sign) → Node → Key → ℕ
unfolding search
lower_bound cmp node target =
    search (length node) (λ mid. tested is_less cmp target (get_elem? node mid)) 0 (length node)

-- It is 0 where the target is below every key; the source's doc comment starts its range at 1.
unfoldable pub upper_bound : (Key → Key → Sign) → Node → Key → ℕ
unfolding search
upper_bound cmp node target =
    search (length node) (λ mid. tested not_greater cmp target (get_elem? node mid)) 0 (length node)

abbrev pub value_if_same : (Key → Key → Sign) → Key → Option (Key × Rid) → Option Rid
value_if_same cmp key none = none
value_if_same cmp key (some e) = if is_same (cmp e.0 key) then some e.1 else none

unfoldable pub leaf_lookup : (Key → Key → Sign) → Node → Key → Option Rid
unfolding lower_bound
leaf_lookup cmp node key = value_if_same cmp key (get_elem? node (lower_bound cmp node key))

-- The child's page; a node without children has none.
unfoldable pub internal_lookup : (Key → Key → Sign) → Node → Key → Option ℕ
unfolding upper_bound
internal_lookup cmp node key =
    let pos = upper_bound cmp node key in
    elim (get_elem? node ((if nat_eqb pos 0 then 1 else pos) - 1)) [
      | none ↦ none
      | some e ↦ some e.1.page_no
    ]

unfoldable pub insert_pairs : ℕ → List (Key × Rid) → Node → Node
insert_pairs pos pairs node = take pos node ++ (pairs ++ drop pos node)

-- The node with the new pair; its length is the count that the source returns.
unfoldable pub insert : (Key → Key → Sign) → Node → Key → Rid → Result Node
unfolding lower_bound insert_pairs
insert cmp node key value =
    let pos = lower_bound cmp node key in
    if tested is_same cmp key (get_elem? node pos)
    then throw duplicate_key
    else done (insert_pairs pos ((key, value) ∷ []) node)

unfoldable pub erase_pair : ℕ → Node → Node
erase_pair pos node = take pos node ++ drop (pos + 1) node

unfoldable pub remove : (Key → Key → Sign) → Node → Key → Node
unfolding lower_bound erase_pair
remove cmp node key =
    let pos = lower_bound cmp node key in
    if tested is_same cmp key (get_elem? node pos) then erase_pair pos node else node
