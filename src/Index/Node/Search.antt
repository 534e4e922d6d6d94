-- ===== src/Index/Node/Search.antt =====
-- The binary searches of index/ix_index_handle.cpp against a scan from the left.
use database.Prelude.{
  ℕ, zero, suc, ◌+◌, ◌/◌, ◌≤◌, ◌<◌, ◌≡◌, refl, ap, ◌∙◌, [], ◌∷◌, Bool, true, false, arith, ltb,
  if◌then◌else◌, length, get_elem?, All, Bool-cases, inl, inr,
}
use database.Index.Compare.{Key, Sign, less, same, greater, IsOrder}
use database.Index.Node.{Node, is_less, not_greater, tested, search, lower_bound, upper_bound}

-- The keys rise strictly.
abbrev pub IsSorted : (Key → Key → Sign) → Node → Type 0
IsSorted cmp [] = Unit {0}
IsSorted cmp (e ∷ es) = All (λ d. cmp e.0 d.0 ≡ less) es × IsSorted cmp es

-- The number of entries before the first that fails the test.
abbrev pub passed : (Sign → Bool) → (Key → Key → Sign) → Key → Node → ℕ
passed test cmp target [] = 0
passed test cmp target (e ∷ es) =
    let rest = passed test cmp target es in if test (cmp e.0 target) then suc rest else 0

search-boundary :
    (fuel n lo hi : ℕ) (goes_right : ℕ → Bool)
    → lo ≤ n
    → n ≤ hi
    → hi ≤ lo + fuel
    → ((i : ℕ) → lo ≤ i → i < hi → goes_right i ≡ ltb i n)
    → search fuel goes_right lo hi ≡ n
unfolding search
search-boundary zero n lo hi g a b c h = omega arith
search-boundary (suc fuel) n lo hi g a b c h = elim (Bool-cases (ltb lo hi)) [
  | inr done ↦ rw done (ground arith)
  | inl more ↦
      let here : g ((lo + hi) / 2) ≡ ltb ((lo + hi) / 2) n =
        h ((lo + hi) / 2) (ground arith) (ground arith) in
      elim (Bool-cases (ltb ((lo + hi) / 2) n)) [
        | inl right ↦
            rw (more, here, right)
              (search-boundary fuel n ((lo + hi) / 2 + 1) hi g (ground arith) b (ground arith)
                (λ i p q. h i (omega arith) q))
        | inr left ↦
            rw (more, here, left)
              (search-boundary fuel n lo ((lo + hi) / 2) g a (ground arith) (ground arith)
                (λ i p q. h i p (ground arith)))
      ]
]

passed-length :
    (test : Sign → Bool) (cmp : Key → Key → Sign) (target : Key) (es : Node)
    → passed test cmp target es ≤ length es
passed-length test cmp target [] = omega arith
passed-length test cmp target (e ∷ es) = ground (arith, passed-length test cmp target es)

-- An entry that fails the test is followed by failing ones only.
abbrev Partitioned : (Sign → Bool) → (Key → Key → Sign) → Key → Node → Type 0
Partitioned test cmp target [] = Unit {0}
Partitioned test cmp target (e ∷ es) =
    (test (cmp e.0 target) ≡ false → All (λ d. test (cmp d.0 target) ≡ false) es)
    × Partitioned test cmp target es

all_fail :
    (test : Sign → Bool) (cmp : Key → Key → Sign) (target : Key) (es : Node) (i : ℕ)
    → All (λ d. test (cmp d.0 target) ≡ false) es
    → tested test cmp target (get_elem? es i) ≡ false
all_fail test cmp target [] i h = refl
all_fail test cmp target (e ∷ es) zero h = h.0
all_fail test cmp target (e ∷ es) (suc i) h = all_fail test cmp target es i h.1

tested-passed :
    (test : Sign → Bool) (cmp : Key → Key → Sign) (target : Key) (es : Node) (i : ℕ)
    → Partitioned test cmp target es
    → tested test cmp target (get_elem? es i) ≡ ltb i (passed test cmp target es)
tested-passed test cmp target [] i h = ground arith
tested-passed test cmp target (e ∷ es) zero h = ground arith
tested-passed test cmp target (e ∷ es) (suc i) h =
    ground (arith, h.0, tested-passed test cmp target es i h.1, all_fail test cmp target es i)

search-passed :
    (test : Sign → Bool) (cmp : Key → Key → Sign) (target : Key) (es : Node)
    → Partitioned test cmp target es
    → search (length es) (λ mid. tested test cmp target (get_elem? es mid)) 0 (length es)
      ≡ passed test cmp target es
search-passed test cmp target es h =
    search-boundary (length es) (passed test cmp target es) 0 (length es) _ (omega arith)
      (passed-length test cmp target es) (omega arith)
      (λ i p q. tested-passed test cmp target es i h)

pub all_above :
    (cmp : Key → Key → Sign) (target : Key) (k : Key) (es : Node)
    → IsOrder cmp
    → All (λ d. cmp k d.0 ≡ less) es
    → cmp k target ≡ greater
    → All (λ d. cmp d.0 target ≡ greater) es
all_above cmp target k [] o h g = tt
all_above cmp target k (e ∷ es) o h g = (
  ground (arith, o.flip k target, o.flip e.0 target, o.less-trans target k e.0, h.0, g),
  all_above cmp target k es o h.1 g,
)

pub all_above_same :
    (cmp : Key → Key → Sign) (target : Key) (k : Key) (es : Node)
    → IsOrder cmp
    → All (λ d. cmp k d.0 ≡ less) es
    → cmp k target ≡ same
    → All (λ d. cmp d.0 target ≡ greater) es
all_above_same cmp target k [] o h g = tt
all_above_same cmp target k (e ∷ es) o h g = (
  ground (arith, o.flip target e.0, o.same-left k target e.0 g, h.0),
  all_above_same cmp target k es o h.1 g,
)

All-weaken :
    (test : Sign → Bool) (cmp : Key → Key → Sign) (target : Key) (es : Node)
    → test greater ≡ false
    → All (λ d. cmp d.0 target ≡ greater) es
    → All (λ d. test (cmp d.0 target) ≡ false) es
All-weaken test cmp target [] t h = tt
All-weaken test cmp target (e ∷ es) t h = (ap test h.0 ∙ t, All-weaken test cmp target es t h.1)

sorted-Partitioned :
    (test : Sign → Bool) (cmp : Key → Key → Sign) (target : Key) (es : Node)
    → test less ≡ true
    → test greater ≡ false
    → IsOrder cmp
    → IsSorted cmp es
    → Partitioned test cmp target es
sorted-Partitioned test cmp target [] l g o h = tt
sorted-Partitioned test cmp target (e ∷ es) l g o h =
    (λ fails. first (cmp e.0 target) refl fails, sorted-Partitioned test cmp target es l g o h.1)
  where
    first :
        (s : Sign)
        → cmp e.0 target ≡ s
        → test (cmp e.0 target) ≡ false
        → All (λ d. test (cmp d.0 target) ≡ false) es
    first less eq fails = ground (arith, eq, fails, l)
    first same eq fails =
        All-weaken test cmp target es g (all_above_same cmp target e.0 es o h.0 eq)
    first greater eq fails = All-weaken test cmp target es g (all_above cmp target e.0 es o h.0 eq)

-- On a node whose keys rise strictly, the two binary searches end with what a scan from the left
-- gives: the number of keys below the target, and the number of keys not above it.
pub bounds-passed :
    (cmp : Key → Key → Sign) (es : Node) (target : Key)
    → IsOrder cmp
    → IsSorted cmp es
    → (lower_bound cmp es target ≡ passed is_less cmp target es)
      × (upper_bound cmp es target ≡ passed not_greater cmp target es)
unfolding lower_bound upper_bound
bounds-passed cmp es target o h = (
  search-passed is_less cmp target es (sorted-Partitioned is_less cmp target es refl refl o h),
  search-passed not_greater cmp target es
      (sorted-Partitioned not_greater cmp target es refl refl o h),
)
