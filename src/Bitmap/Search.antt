-- ===== src/Bitmap/Search.antt =====
-- `next_bit` and `first_bit` of record/bitmap.h.
use database.Prelude.{
  ℕ, zero, suc, ◌+◌, ◌-◌, ◌≤◌, ◌<◌, ◌≡◌, ◌⊎◌, inl, inr, refl, List, Bool, false, not, arith, ltb,
  Bool-cases, bool_eqb, bool_eqb_sound,
}
use database.Bitmap.{is_set, search_bit, next_bit}

-- `r` is the first slot from `start` on, below `max_n`, whose bit is `bit`, or `max_n` if there is none.
pub record IsFirst (bit : Bool) (bm : List ℕ) (max_n start r : ℕ) : Type 0 where
  pub bounds : (r ≤ max_n) × (start ≤ r ⊎ (r ≡ max_n))
  pub found : r < max_n → is_set bm r ≡ bit
  pub passed : (j : ℕ) → start ≤ j → j < r → is_set bm j ≡ not bit

search_bit-IsFirst :
    (rounds : ℕ) (bit : Bool) (bm : List ℕ) (i : ℕ)
    → IsFirst bit bm (i + rounds) i (search_bit rounds bit bm i)
unfolding search_bit
search_bit-IsFirst zero bit bm i = record {
  bounds = (omega arith, inl (omega arith));
  found = λ h. absurd (omega arith);
  passed = λ j h k. absurd (omega arith);
}
search_bit-IsFirst (suc rounds) bit bm i = elim (Bool-cases (bool_eqb (is_set bm i) bit)) [
  | inl e ↦ rw e (record {
    bounds = (omega arith, inl (omega arith));
    found = λ h. bool_eqb_sound _ _ e;
    passed = λ j h k. absurd (omega arith);
  })
  | inr e ↦
      let ih = search_bit-IsFirst rounds bit bm (i + 1) in
      rw e (record {
        bounds = (omega (arith, ih.bounds.0), ground (arith, ih.bounds));
        found = λ h. ih.found (omega arith);
        passed = λ j h k. passed_next j ih h k e;
      })
]
  where
    passed_next :
        (j : ℕ)
        → IsFirst bit bm (i + 1 + rounds) (i + 1) (search_bit rounds bit bm (i + 1))
        → i ≤ j
        → j < search_bit rounds bit bm (i + 1)
        → bool_eqb (is_set bm i) bit ≡ false
        → is_set bm j ≡ not bit
    passed_next j ih h k e = elim (Bool-cases (ltb i j)) [
      | inl later ↦ ih.passed j (ground arith) k
      | inr same ↦ let s : j ≡ i = ground arith in rw s (ground arith)
    ]

-- The search finds the first slot at or after the start, below the limit, whose bit is the wanted one,
-- and returns the limit exactly where there is none.
pub next_bit-IsFirst :
    (bit : Bool) (bm : List ℕ) (max_n start : ℕ)
    → IsFirst bit bm max_n start (next_bit bit bm max_n start)
unfolding next_bit
next_bit-IsFirst bit bm max_n start = elim (Bool-cases (ltb start max_n)) [
  | inl e ↦
      let h : start + (max_n - start) ≡ max_n = ground arith in
      rw e (rw h at (search_bit-IsFirst (max_n - start) bit bm start))
  | inr e ↦ rw e (record {
    bounds = (omega arith, inr refl);
    found = λ h. absurd (omega arith);
    passed = λ j h k. absurd (ground arith);
  })
]
