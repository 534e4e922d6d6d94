-- ===== src/Recovery/Bytes.antt =====
-- The bytes of an unsigned number, lowest first, as `memcpy` of an integer writes and reads them.
use database.Prelude.{
  ℕ, zero, suc, ◌+◌, ◌*◌, ◌/◌, ◌%◌, ◌^◌, ◌<◌, ◌≡◌, refl, ap, List, [], ◌∷◌, ◌++◌, length, take,
  drop, arith,
}

unfoldable pub bytes_of : ℕ → ℕ → List ℕ
bytes_of zero n = []
bytes_of (suc w) n = n % 256 ∷ bytes_of w (n / 256)

unfoldable pub number_of : List ℕ → ℕ
number_of [] = 0
number_of (b ∷ bs) = b + 256 * number_of bs

-- The number in `width` bytes at an offset.
unfoldable pub get_field : ℕ → ℕ → List ℕ → ℕ
get_field offset width src = number_of (take width (drop offset src))

pub length-bytes_of : (w n : ℕ) → length (bytes_of w n) ≡ w
unfolding bytes_of
length-bytes_of zero n = refl
length-bytes_of (suc w) n = ap suc (length-bytes_of w (n / 256))

pub number_of-bytes_of : (w n : ℕ) → n < 256 ^ w → number_of (bytes_of w n) ≡ n
unfolding bytes_of number_of
number_of-bytes_of zero n h = omega arith
number_of-bytes_of (suc w) n h =
    let bound : n < 256 * 256 ^ w = omega (arith, h) in
    omega (arith, number_of-bytes_of w (n / 256) (omega (arith, bound)))

module _ {ℓ} {A : Type ℓ} where
  pub take-append : (xs ys : List A) → take (length xs) (xs ++ ys) ≡ xs
  take-append [] ys = refl
  take-append (x ∷ xs) ys = ap (λ zs. x ∷ zs) (take-append xs ys)

  pub drop-append : (xs ys : List A) → drop (length xs) (xs ++ ys) ≡ ys
  drop-append [] ys = refl
  drop-append (x ∷ xs) ys = drop-append xs ys
