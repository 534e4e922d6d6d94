-- ===== src/Bitmap/Byte.antt =====
-- The bits of one byte in record/bitmap.h, checked over all 256 bytes.
use Prim.Native.Nat.{bit_and, bit_or}
use database.Prelude.{
  ℕ, zero, suc, ◌-◌, ◌/◌, ◌%◌, ◌^◌, ◌<◌, ◌≡◌, refl, Bool, true, false, not, ◌&&◌, arith, nat_eqb,
  ltb, ltb→lt, if◌then◌else◌, bool_eqb, bool_eqb_sound,
}

abbrev pub bitmap_width : ℕ
bitmap_width = 8

abbrev pub bitmap_highest_bit : ℕ
bitmap_highest_bit = 0x80

-- `BITMAP_HIGHEST_BIT >> (pos % BITMAP_WIDTH)`
unfoldable pub get_bit : ℕ → ℕ
get_bit pos = bitmap_highest_bit / 2 ^ (pos % bitmap_width)

-- Whether a test passes at every number below the bound.
holds_below : ℕ → (ℕ → Bool) → Bool
holds_below zero law = true
holds_below (suc n) law = let rest = holds_below n law in if law n then rest else false

holds_below-at :
    (bound : ℕ) (law : ℕ → Bool) (i : ℕ) → i < bound → holds_below bound law ≡ true → law i ≡ true
unfolding holds_below
holds_below-at zero law i below all = absurd (omega arith)
holds_below-at (suc bound) law i below all = ground (arith, holds_below-at bound law i)

abbrev bit : ℕ → ℕ
bit r = 128 / 2 ^ r

abbrev pub test_bit : ℕ → ℕ → Bool
test_bit b r = not (nat_eqb (bit_and b (128 / 2 ^ r)) 0)

abbrev or_law : ℕ → ℕ → ℕ → Bool
or_law b p q =
    bool_eqb (test_bit (bit_or b (bit p)) q) (if nat_eqb p q then true else test_bit b q)
    && ltb (bit_or b (bit p)) 256

abbrev and_law : ℕ → ℕ → ℕ → Bool
and_law b p q =
    bool_eqb (test_bit (bit_and b (255 - bit p)) q) (if nat_eqb p q then false else test_bit b q)
    && ltb (bit_and b (255 - bit p)) 256

abbrev law : ℕ → ℕ → ℕ → Bool
law b p q = or_law b p q && and_law b p q

law_table : holds_below 256 (λ b. holds_below 8 (λ p. holds_below 8 (λ q. law b p q))) ≡ true
unfolding holds_below
law_table = refl

law_holds : (b p q : ℕ) → b < 256 → p < 8 → q < 8 → law b p q ≡ true
law_holds b p q hb hp hq =
    let for_byte =
      holds_below-at 256 (λ b. holds_below 8 (λ p. holds_below 8 (law b p))) b hb law_table in
    let for_bit = holds_below-at 8 (λ p. holds_below 8 (law b p)) p hp for_byte in
    holds_below-at 8 (law b p) q hq for_bit

and-true : (b c : Bool) → (b && c) ≡ true → (b ≡ true) × (c ≡ true)
and-true b c h = ground arith

parts :
    (b p q : ℕ)
    → law b p q ≡ true
    → (bit_or b (bit p) < 256)
      × (bit_and b (255 - bit p) < 256)
      × ((test_bit (bit_or b (bit p)) q ≡ (if nat_eqb p q then true else test_bit b q))
          × (test_bit (bit_and b (255 - bit p)) q ≡ (if nat_eqb p q then false else test_bit b q)))
parts b p q h =
    let (h₀, h₁) = and-true (or_law b p q) (and_law b p q) h in
    let (h₂, h₃) = and-true _ _ h₀ in
    let (h₄, h₅) = and-true _ _ h₁ in
    (ltb→lt _ _ h₃, ltb→lt _ _ h₅, (bool_eqb_sound _ _ h₂, bool_eqb_sound _ _ h₄))

-- Setting or clearing a bit of a byte changes that bit only.
pub byte_laws :
    (b p : ℕ)
    → b < 256
    → p < 8
    → (bit_or b (128 / 2 ^ p) < 256)
      × (bit_and b (255 - 128 / 2 ^ p) < 256)
      × ((q : ℕ)
          → q < 8
          → (test_bit (bit_or b (128 / 2 ^ p)) q ≡ (if nat_eqb p q then true else test_bit b q))
            × (test_bit (bit_and b (255 - 128 / 2 ^ p)) q
                ≡ (if nat_eqb p q then false else test_bit b q)))
byte_laws b p hb hp = (
  (parts b p 0 (law_holds b p 0 hb hp (omega arith))).0,
  (parts b p 0 (law_holds b p 0 hb hp (omega arith))).1,
  λ q hq. (parts b p q (law_holds b p q hb hp hq)).2,
)

-- No bit of the byte 0 is set.
pub test_bit_zero : (r : ℕ) → r < 8 → test_bit 0 r ≡ false
unfolding holds_below
test_bit_zero r h =
    let table = holds_below-at 8 (λ r. not (test_bit 0 r)) r h refl in not_true (test_bit 0 r) table
  where
    not_true : (b : Bool) → not b ≡ true → b ≡ false
    not_true b e = ground arith
