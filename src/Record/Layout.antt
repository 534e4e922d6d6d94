-- ===== src/Record/Layout.antt =====
-- `RmManager::create_file` of record/rm_manager.h: how the records of a page are laid out.
use database.Prelude.{
  ℕ, zero, suc, ◌+◌, ◌-◌, ◌*◌, ◌/◌, ◌≤◌, ◌<◌, ◌≡◌, Option, none, some, false, ◌||◌, ltb,
  if◌then◌else◌, arith, ap, subst, Bool-cases, inl, inr,
}
use native.Mathlib.Nat.{div-add-mod, mod-lt}
use database.Record.{RmFileHdr}

abbrev pub page_size : ℕ
page_size = 4096

abbrev pub rm_max_record_size : ℕ
rm_max_record_size = 512

-- The four bytes kept at the start, and the two fields of the page header.
abbrev pub header_end : ℕ
header_end = 12

abbrev pub laid_out : ℕ → RmFileHdr
laid_out record_size =
    let n = (8 * (page_size - header_end - 1) + 1) / (1 + record_size * 8) in
    record {
      record_size = record_size;
      num_pages = 1;
      num_records_per_page = n;
      first_free_page_no = none;
      bitmap_size = (n + 8 - 1) / 8;
    }

-- `none` is InvalidRecordSizeError.
unfoldable pub create_file_hdr : ℕ → Option RmFileHdr
create_file_hdr record_size =
    if ltb record_size 1 || ltb rm_max_record_size record_size
    then none
    else some (laid_out record_size)

abbrev value_or : RmFileHdr → Option RmFileHdr → RmFileHdr
value_or hdr none = hdr
value_or hdr (some found) = found

layout_fits :
    (size n : ℕ)
    → 1 ≤ size
    → size ≤ rm_max_record_size
    → n * (1 + size * 8) ≤ 32665
    → 32665 < (n + 1) * (1 + size * 8)
    → (1 ≤ n) × (n ≤ 8 * ((n + 8 - 1) / 8)) × (header_end + (n + 8 - 1) / 8 + n * size ≤ page_size)
layout_fits zero n h high below above = absurd (omega arith)
layout_fits size zero low high below above = absurd (omega arith)
layout_fits (suc size) (suc n) low high below above = (omega arith, omega arith, ground arith)

allowed :
    (size : ℕ)
    → (ltb size 1 || ltb rm_max_record_size size) ≡ false
    → (1 ≤ size) × (size ≤ rm_max_record_size)
allowed size e = ground arith

-- What the layout promises of a file header.
abbrev pub Fits : RmFileHdr → Type 0
Fits hdr =
    (1 ≤ hdr.num_records_per_page)
    × (hdr.num_records_per_page ≤ 8 * hdr.bitmap_size)
    × (header_end + hdr.bitmap_size + hdr.num_records_per_page * hdr.record_size ≤ page_size)

-- The page of a file whose records have a size that is allowed holds at least one record, its bitmap
-- has a bit for each, and header, bitmap and records fit in the page.
pub create_file_hdr-Fits :
    (record_size : ℕ) (hdr : RmFileHdr) → create_file_hdr record_size ≡ some hdr → Fits hdr
unfolding create_file_hdr
create_file_hdr-Fits record_size hdr h =
    elim (Bool-cases (ltb record_size 1 || ltb rm_max_record_size record_size)) [
      | inl e ↦ absurd (ground (arith, rw e at h))
      | inr e ↦
          let (low, high) = allowed record_size e in
          let exact = div-add-mod 32665 (1 + record_size * 8) in
          let below = mod-lt 32665 {m = 1 + record_size * 8} (omega arith) in
          let same : laid_out record_size ≡ hdr =
            ap (value_or (laid_out record_size)) (rw e at h) in
          subst Fits same (
            layout_fits record_size _ low high (omega (arith, exact)) (omega (arith, exact, below)))
    ]
