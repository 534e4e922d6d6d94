-- ===== src/Record/FirstFree.antt =====
-- What the search for a slot in record/rm_file_handle.cpp finds.
use database.Prelude.{
  ℕ, zero, suc, ◌+◌, ◌≤◌, ◌<◌, ◌≡◌, inl, inr, true, false, arith, ltb, Bool-cases,
}
use native.Mathlib.Nat.{zero-add}
use database.Record.{RmFileHandle, RmPage}
use database.Record.Slots.{taken, search_slot, first_available_slot}

-- `r` is the first slot below `n` that is not taken, or `n` where all are.
pub record IsFirstFree (h : RmFileHandle) (page_no : ℕ) (page : RmPage) (n from r : ℕ)
    : Type 0 where
  pub bounds : (from ≤ r) × (r ≤ n)
  pub free : r < n → taken h page_no page r ≡ false
  pub passed : (j : ℕ) → from ≤ j → j < r → taken h page_no page j ≡ true

search_slot-IsFirstFree :
    (rounds : ℕ) (h : RmFileHandle) (page_no : ℕ) (page : RmPage) (slot : ℕ)
    → IsFirstFree h page_no page (slot + rounds) slot (search_slot rounds h page_no page slot)
unfolding search_slot
search_slot-IsFirstFree zero h page_no page slot = record {
  bounds = (omega arith, omega arith);
  free = λ r. absurd (omega arith);
  passed = λ j a b. absurd (omega arith);
}
search_slot-IsFirstFree (suc rounds) h page_no page slot =
    elim (Bool-cases (taken h page_no page slot)) [
      | inl e ↦
          let ih = search_slot-IsFirstFree rounds h page_no page (slot + 1) in
          rw e (record {
            bounds = (omega (arith, ih.bounds), omega (arith, ih.bounds));
            free = λ r. ih.free (omega arith);
            passed = λ j a b. elim (Bool-cases (ltb slot j)) [
              | inl later ↦ ih.passed j (ground arith) b
              | inr now ↦ let same : j ≡ slot = ground arith in rw same e
            ];
          })
      | inr e ↦ rw e (record {
        bounds = (omega arith, omega arith);
        free = λ r. e;
        passed = λ j a b. absurd (omega arith);
      })
    ]

-- `first_available_slot` returns the first slot that neither holds a record nor is quarantined or
-- reserved, and the number of slots exactly where there is none.
pub first_available_slot-IsFirstFree :
    (h : RmFileHandle) (page_no : ℕ) (page : RmPage)
    → IsFirstFree h page_no page h.file_hdr.num_records_per_page 0
        (first_available_slot h page_no page)
unfolding first_available_slot
first_available_slot-IsFirstFree h page_no page =
    rw zero-add at (search_slot-IsFirstFree h.file_hdr.num_records_per_page h page_no page 0)

-- A page whose first slot is not taken has an available slot.
pub first_available_slot_room :
    (h : RmFileHandle) (page_no : ℕ) (page : RmPage)
    → 1 ≤ h.file_hdr.num_records_per_page
    → taken h page_no page 0 ≡ false
    → first_available_slot h page_no page < h.file_hdr.num_records_per_page
first_available_slot_room h page_no page some_slot unused =
    let r = first_available_slot-IsFirstFree h page_no page in
    elim (Bool-cases (ltb 0 (first_available_slot h page_no page))) [
      | inl e ↦ absurd (ground (arith, r.passed 0 (omega arith) (ground arith), unused))
      | inr e ↦ ground arith
    ]
