-- ===== src/Record/Distinct.antt =====
-- A list of different numbers below a bound is no longer than the bound, so that a walk along the free
-- pages of record/rm_file_handle.cpp ends within as many rounds as the file has pages.
use database.Prelude.{
  ℕ, zero, suc, ◌≤◌, ◌<◌, ◌≡◌, inl, inr, List, [], ◌∷◌, Option, false, arith, nat_eqb, length,
  Bool-cases,
}
use database.Record.{RmFileHandle, contains, without}
use database.Record.Chain.{Chain, contains-without, without_absent}

abbrev DistinctBelow : ℕ → List ℕ → Type 0
DistinctBelow n [] = Unit
DistinctBelow n (x ∷ xs) = (x < n) × (contains x xs ≡ false) × DistinctBelow n xs

DistinctBelow-without :
    (n : ℕ) (xs : List ℕ) → DistinctBelow (suc n) xs → DistinctBelow n (without n xs)
DistinctBelow-without n [] d = tt
DistinctBelow-without n (x ∷ xs) (low, out, d) = elim (Bool-cases (nat_eqb n x)) [
  | inl e ↦ rw e (DistinctBelow-without n xs d)
  | inr e ↦ rw e (ground arith, contains-without x n xs out, DistinctBelow-without n xs d)
]

length-without :
    (n m : ℕ) (xs : List ℕ) → DistinctBelow m xs → length xs ≤ suc (length (without n xs))
length-without n m [] d = omega arith
length-without n m (x ∷ xs) (low, out, d) = elim (Bool-cases (nat_eqb n x)) [
  | inl e ↦ let same : n ≡ x = ground arith in ground (arith, without_absent x xs out, same, e)
  | inr e ↦ ground (arith, e, length-without n m xs d)
]

length-Distinct : (n : ℕ) (xs : List ℕ) → DistinctBelow n xs → length xs ≤ n
length-Distinct zero [] d = omega arith
length-Distinct zero (x ∷ xs) d = absurd (omega (arith, d.0))
length-Distinct (suc n) xs d = omega (
  arith,
  length-without n (suc n) xs d,
  length-Distinct n (without n xs) (DistinctBelow-without n xs d),
)

Chain-Distinct :
    (h : RmFileHandle) (head : Option ℕ) (ps : List ℕ)
    → Chain h head ps
    → DistinctBelow h.file_hdr.num_pages ps
Chain-Distinct h head [] c = tt
Chain-Distinct h head (p ∷ ps) c = (c.2, c.3, Chain-Distinct h _ ps c.4)

-- The pages of a chain are no more than those of the file.
pub length-Chain :
    (h : RmFileHandle) (head : Option ℕ) (ps : List ℕ)
    → Chain h head ps
    → length ps ≤ h.file_hdr.num_pages
length-Chain h head ps c = length-Distinct h.file_hdr.num_pages ps (Chain-Distinct h head ps c)
