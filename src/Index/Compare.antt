-- ===== src/Index/Compare.antt =====
-- `ix_compare` of index/ix_index_handle.h. A key is its bytes; an int is in two's complement and a float
-- in the binary format of 32 bits of IEEE 754, both with the lowest byte first. `<` of a NaN is false.
pub mod Columns
use database.Prelude.{
  ℕ, zero, suc, ◌+◌, ◌-◌, ◌*◌, Bool, true, false, not, ◌&&◌, ◌%◌, ◌^◌, ◌≡◌, refl, List, [], ◌∷◌,
  arith, ltb, if◌then◌else◌, drop, get_or,
}

-- The sign of a comparison.
pub data Sign : Type 0 where
  less same greater : Sign

abbrev pub opposite : Sign → Sign
opposite less = greater
opposite same = same
opposite greater = less

abbrev pub compare_nat : ℕ → ℕ → Sign
compare_nat a b = if ltb a b then less else if ltb b a then greater else same

pub data ColType : Type 0 where
  type_int type_float type_string : ColType

-- Four bytes of a little-endian machine as a number.
abbrev pub bits_of : List ℕ → ℕ
bits_of a =
    (get_or a 0 0 + 256 * get_or a 1 0 + 65536 * get_or a 2 0 + 16777216 * get_or a 3 0) % 2 ^ 32

-- `*(int *)a`, moved up by 2^31 so that it is a number.
abbrev pub int_of : List ℕ → ℕ
int_of a = (bits_of a + 2147483648) % 2 ^ 32

-- The exponent is all ones and the fraction is not 0.
abbrev pub is_nan : ℕ → Bool
is_nan x = ltb 2139095040 (x % 2147483648)

-- The place of a float among the floats; both zeros have the same.
abbrev pub float_rank : ℕ → ℕ
float_rank x = if ltb x 2147483648 then 2147483648 + x else 4294967296 - x

-- `*(float *)a < *(float *)b`, on their bits.
abbrev pub float_less : ℕ → ℕ → Bool
float_less x y = not (is_nan x) && not (is_nan y) && ltb (float_rank x) (float_rank y)

-- The first sign that tells two keys apart.
abbrev pub or_else : Sign → Sign → Sign
or_else less s = less
or_else same s = s
or_else greater s = greater

-- `memcmp` over `n` bytes.
abbrev pub memcmp : ℕ → List ℕ → List ℕ → Sign
memcmp zero a b = same
memcmp (suc n) a b =
    or_else (compare_nat (get_or a 0 0) (get_or b 0 0)) (memcmp n (drop 1 a) (drop 1 b))

abbrev pub Key : Type 0
Key = List ℕ

unfoldable pub compare_column : ColType → ℕ → Key → Key → Sign
compare_column type_int col_len a b = compare_nat (int_of a) (int_of b)
compare_column type_float col_len a b =
    if float_less (bits_of a) (bits_of b)
    then less
    else if float_less (bits_of b) (bits_of a)
    then greater
    else same
compare_column type_string col_len a b = memcmp col_len a b

-- The columns with their types and lengths; each starts where the one before it ends.
unfoldable pub ix_compare : List (ColType × ℕ) → Key → Key → Sign
unfolding compare_column
ix_compare [] a b = same
ix_compare ((type, col_len) ∷ cols) a b =
    or_else (compare_column type col_len a b) (ix_compare cols (drop col_len a) (drop col_len b))

-- The laws of a comparison that a sorted node relies on.
pub record IsOrder (cmp : Key → Key → Sign) : Type 0 where
  pub flip : (a b : Key) → cmp b a ≡ opposite (cmp a b)
  pub less-trans : (a b c : Key) → cmp a b ≡ less → cmp b c ≡ less → cmp a c ≡ less
  pub same-left : (a b c : Key) → cmp a b ≡ same → cmp a c ≡ cmp b c

pub nat-IsOrder : (f : Key → ℕ) → IsOrder (λ a b. compare_nat (f a) (f b))
nat-IsOrder f = record {
  flip = λ a b. ground arith;
  less-trans = λ a b c h k. ground arith;
  same-left = λ a b c h. ground arith;
}

or_else-IsOrder :
    (c d : Key → Key → Sign) → IsOrder c → IsOrder d → IsOrder (λ a b. or_else (c a b) (d a b))
or_else-IsOrder c d p q = record {
  flip = λ a b. ground (arith, p.flip a b, q.flip a b);
  less-trans = λ x y z h k. ground (
    arith,
    h,
    k,
    p.less-trans x y z,
    q.less-trans x y z,
    p.same-left x y z,
    p.same-left z y x,
    p.flip x y,
    p.flip y z,
    p.flip x z,
  );
  same-left = λ x y z h. ground (arith, h, p.same-left x y z, q.same-left x y z);
}

moved-IsOrder : (f : Key → Key) (c : Key → Key → Sign) → IsOrder c → IsOrder (λ a b. c (f a) (f b))
moved-IsOrder f c p = record {
  flip = λ a b. p.flip (f a) (f b);
  less-trans = λ x y z. p.less-trans (f x) (f y) (f z);
  same-left = λ x y z. p.same-left (f x) (f y) (f z);
}

same-IsOrder : IsOrder (λ a b. same)
same-IsOrder = record {
  flip = λ a b. refl;
  less-trans = λ a b c h k. h;
  same-left = λ a b c h. refl;
}

memcmp-IsOrder : (n : ℕ) → IsOrder (memcmp n)
memcmp-IsOrder zero = same-IsOrder
memcmp-IsOrder (suc n) =
    or_else-IsOrder (λ a b. compare_nat (get_or a 0 0) (get_or b 0 0)) _
      (nat-IsOrder (λ a. get_or a 0 0)) (moved-IsOrder (drop 1) (memcmp n) (memcmp-IsOrder n))

-- No column of floats, which may hold a NaN.
abbrev pub NoFloat : List (ColType × ℕ) → Type 0
NoFloat [] = Unit
NoFloat ((type_float, n) ∷ cols) = false ≡ true
NoFloat ((type_int, n) ∷ cols) = NoFloat cols
NoFloat ((type_string, n) ∷ cols) = NoFloat cols

-- Over columns of integers and strings the comparison of keys has the laws of an order.
pub ix_compare-IsOrder : (cols : List (ColType × ℕ)) → NoFloat cols → IsOrder (ix_compare cols)
unfolding ix_compare compare_column
ix_compare-IsOrder [] h = same-IsOrder
ix_compare-IsOrder ((type_float, n) ∷ cols) h = absurd (ground (arith, h))
ix_compare-IsOrder ((type_int, n) ∷ cols) h =
    or_else-IsOrder (λ a b. compare_nat (int_of a) (int_of b)) _ (nat-IsOrder int_of)
      (moved-IsOrder (drop n) (ix_compare cols) (ix_compare-IsOrder cols h))
ix_compare-IsOrder ((type_string, n) ∷ cols) h =
    or_else-IsOrder (memcmp n) _ (memcmp-IsOrder n)
      (moved-IsOrder (drop n) (ix_compare cols) (ix_compare-IsOrder cols h))
