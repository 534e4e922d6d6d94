-- ===== src/Index/Compare/Columns.antt =====
-- What the verdict of `ix_compare` of index/ix_index_handle.h says of the columns of two keys.
use database.Prelude.{
  ℕ, zero, suc, ◌+◌, ◌%◌, ◌≤◌, ◌<◌, ◌≡◌, ◌⊎◌, List, [], ◌∷◌, length, some, false, drop, get_or,
  get_elem?,
}
use database.Index.Compare.{
  Key, Sign, less, same, greater, ColType, type_int, type_float, type_string, bits_of, float_less,
}

-- `<` of two integers in two's complement: a negative one is below the others.
abbrev pub SignedLess : ℕ → ℕ → Type 0
SignedLess x y =
    ((2147483648 ≤ x) × (y < 2147483648))
    ⊎ ((x < y) × (((x < 2147483648) × (y < 2147483648)) ⊎ ((2147483648 ≤ x) × (2147483648 ≤ y))))

abbrev pub IsNumber : ℕ → Type 0
IsNumber x = x % 2147483648 ≤ 2139095040

-- `<` of two floats by sign and magnitude: neither is a NaN, and the first is negative and the other not,
-- less they are the two zeros; or none is negative and the magnitudes rise; or both are and they fall.
abbrev pub FloatLess : ℕ → ℕ → Type 0
FloatLess x y =
    IsNumber x
    × IsNumber y
    × (((2147483648 ≤ x) × (y < 2147483648) × ((2147483648 < x) ⊎ (0 < y)))
        ⊎ ((x < 2147483648) × (y < 2147483648) × (x < y))
        ⊎ ((2147483648 ≤ x) × (2147483648 ≤ y) × (y < x)))

-- The first byte that differs within `n` bytes is smaller.
abbrev pub BytesLess : ℕ → Key → Key → Type 0
BytesLess n a b =
    (i : ℕ) × (i < n)
    × ((j : ℕ) → j < i → get_or a j 0 ≡ get_or b j 0)
    × (get_or a i 0 < get_or b i 0)

abbrev pub ColumnLess : ColType → ℕ → Key → Key → Type 0
ColumnLess type_int n a b = SignedLess (bits_of a) (bits_of b)
ColumnLess type_float n a b = FloatLess (bits_of a) (bits_of b)
ColumnLess type_string n a b = BytesLess n a b

-- Equal integers; floats of which none is less; equal bytes.
abbrev pub ColumnSame : ColType → ℕ → Key → Key → Type 0
ColumnSame type_int n a b = bits_of a ≡ bits_of b
ColumnSame type_float n a b =
    (float_less (bits_of a) (bits_of b) ≡ false) × (float_less (bits_of b) (bits_of a) ≡ false)
ColumnSame type_string n a b = (j : ℕ) → j < n → get_or a j 0 ≡ get_or b j 0

abbrev ColumnDecides : ColType → ℕ → Key → Key → Sign → Type 0
ColumnDecides type n a b less = ColumnLess type n a b
ColumnDecides type n a b same = ColumnSame type n a b
ColumnDecides type n a b greater = ColumnLess type n b a

-- Where a column starts: behind the lengths of the columns before it.
abbrev pub start : List (ColType × ℕ) → ℕ → ℕ
start cols zero = 0
start [] (suc i) = 0
start ((type, n) ∷ cols) (suc i) = n + start cols i

-- The keys have the same value in each of the first `count` columns.
abbrev pub SameBefore : List (ColType × ℕ) → Key → Key → ℕ → Type 0
SameBefore cols a b count =
    (j : ℕ) (type : ColType) (n : ℕ)
    → j < count
    → get_elem? cols j ≡ some (type, n)
    → ColumnSame type n (drop (start cols j) a) (drop (start cols j) b)

-- In the first column where the keys differ, the first one is smaller.
abbrev pub FirstLess : List (ColType × ℕ) → Key → Key → Type 0
FirstLess cols a b =
    (i : ℕ) × (type : ColType) × (n : ℕ) × (get_elem? cols i ≡ some (type, n))
    × SameBefore cols a b i
    × ColumnLess type n (drop (start cols i) a) (drop (start cols i) b)

abbrev pub Decides : List (ColType × ℕ) → Key → Key → Sign → Type 0
Decides cols a b less = FirstLess cols a b
Decides cols a b same = SameBefore cols a b (length cols)
Decides cols a b greater = FirstLess cols b a
