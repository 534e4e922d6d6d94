-- ===== src/Record/ScanOrder.antt =====
-- What the scan of record/rm_scan.cpp finds: the records of the data pages in the order of their rids.
use database.Prelude.{
  ℕ, zero, suc, ◌+◌, ◌≤◌, ◌<◌, ◌≡◌, ◌⊎◌, refl, inl, inr, Option, none, some, true, false, arith,
  nat_eqb, ltb, Bool-cases,
}
use database.Bitmap.{is_set, next_bit}
use database.Bitmap.Search.{next_bit-IsFirst}
use database.Txn.Defs.{Rid, done}
use database.Record.{RmFileHandle, page_at}
use database.Record.Scan.{next_from}
use database.Record.Valid.{IsValid, fetch_page_handle_valid}

-- The slot lies in page `p` from `start` on, or in a later page below `last`.
abbrev pub From : RmFileHandle → ℕ → ℕ → ℕ → ℕ → ℕ → Type 0
From h last p start q s =
    (s < h.file_hdr.num_records_per_page) × (q < last) × (((q ≡ p) × (start ≤ s)) ⊎ (p < q))

abbrev pub Empty : RmFileHandle → ℕ → ℕ → Type 0
Empty h q s = is_set (page_at h q).bitmap s ≡ false

-- The first record from a position on in the pages below `last`, or none where no record follows.
pub data Next (h : RmFileHandle) (last p start : ℕ) : Option Rid → Type 0 where
  ended : ((q s : ℕ) → From h last p start q s → Empty h q s) → Next h last p start none
  met :
      (rid : Rid)
      → From h last p start rid.page_no rid.slot_no
      → is_set (page_at h rid.page_no).bitmap rid.slot_no ≡ true
      → ((q s : ℕ)
          → From h last p start q s
          → ((q < rid.page_no) ⊎ ((q ≡ rid.page_no) × (s < rid.slot_no)))
          → Empty h q s)
      → Next h last p start (some rid)

-- In a well formed file that has at least the pages that the scan's snapshot counts, the search of the
-- scan from a page up to that count ends without an error. It finds the first record from its position
-- on in the pages of the snapshot, and none where there is none; pages appended later are skipped.
pub next_from-Next :
    (rounds : ℕ) (h : RmFileHandle) (last p start : ℕ)
    → IsValid h
    → p + rounds ≡ last
    → last ≤ h.file_hdr.num_pages
    → (found : Option Rid) × (next_from rounds h p start ≡ done found) × Next h last p start found
unfolding next_from
next_from-Next zero h last p start v all within =
    (none, refl, ended λ q s f. absurd (ground (arith, f)))
next_from-Next (suc rounds) h last p start v all within =
    let n = h.file_hdr.num_records_per_page in
    let slot = next_bit true (page_at h p).bitmap n start in
    let first = next_bit-IsFirst true (page_at h p).bitmap n start in
    let fetched = fetch_page_handle_valid h p v (omega arith) in
    elim (Bool-cases (ltb slot n)) [
      | inl e ↦ (
        some (record { page_no = p; slot_no = slot }),
        rw (next_from, fetched, e) refl,
        met _ (ground arith, omega arith, inl (refl, ground (arith, first.bounds)))
            (first.found (ground arith)) (λ q s f b. before_slot q s f b),
      )
      | inr e ↦ later e (next_from-Next rounds h last (p + 1) 0 v (omega arith) within)
    ]
  where
    full : Type 0
    full =
        ltb (next_bit true (page_at h p).bitmap h.file_hdr.num_records_per_page start)
          h.file_hdr.num_records_per_page
        ≡ false

    before_slot :
        (q s : ℕ)
        → From h last p start q s
        → ((q < p)
            ⊎ ((q ≡ p)
                × (s < next_bit true (page_at h p).bitmap h.file_hdr.num_records_per_page start)))
        → Empty h q s
    before_slot q s f (inl b) = absurd (ground (arith, f))
    before_slot q s (low, high, inr after) (inr (same, b)) = absurd (omega arith)
    before_slot q s (low, high, inl (same, from)) (inr (_, b)) = rw same (
        (next_bit-IsFirst true (page_at h p).bitmap h.file_hdr.num_records_per_page start).passed s
          from b)

    over : full → (q s : ℕ) → From h last p start q s → Empty h q s ⊎ From h last (p + 1) 0 q s
    over e q s (low, high, inl (same, from)) =
        let first =
          next_bit-IsFirst true (page_at h p).bitmap h.file_hdr.num_records_per_page start in
        inl (rw same (first.passed s from (ground arith)))
    over e q s (low, high, inr after) = elim (Bool-cases (nat_eqb q (p + 1))) [
      | inl e₁ ↦ inr (low, high, inl (ground arith, omega arith))
      | inr e₁ ↦ inr (low, high, inr (ground arith))
    ]

    after :
        {found : Option Rid}
        → full
        → next_from rounds h (p + 1) 0 ≡ done found
        → next_from (suc rounds) h p start ≡ done found
    after e ran = rw (next_from, fetch_page_handle_valid h p v (omega arith), e) ran

    later :
        full
        → ((found : Option Rid) × (next_from rounds h (p + 1) 0 ≡ done found)
            × Next h last (p + 1) 0 found)
        → (found : Option Rid) × (next_from (suc rounds) h p start ≡ done found)
          × Next h last p start found
    later e (none, ran, ended empty) = (
      none,
      after e ran,
      ended (λ q s f. elim (over e q s f) [ inl x ↦ x | inr f₁ ↦ empty q s f₁ ]),
    )
    later e (some rid, ran, met _ here isset before) = (
      some rid,
      after e ran,
      met rid (here.0, here.1, inr (ground (arith, here))) isset
          (λ q s f b. elim (over e q s f) [ inl x ↦ x | inr f₁ ↦ before q s f₁ b ]),
    )
