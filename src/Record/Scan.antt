-- ===== src/Record/Scan.antt =====
-- record/rm_scan.cpp: the scan of a heap file. A position is `none` at the end; a search starts in a
-- page at a slot, which is the source's `slot_no + 1`.
use database.Prelude.{
  ℕ, zero, suc, ◌+◌, ◌-◌, Option, none, some, Bool, true, false, if◌then◌else◌, ltb,
}
use database.Txn.Defs.{Rid, Result, done, throw, page_not_exist}
use database.Bitmap.{next_bit}
use database.Record.{RmFileHandle, fetch_page_handle}

pub record RmScan : Type 0 where
  pub num_pages_snapshot : ℕ
  pub rid : Option Rid

-- The loop of `next` over the pages from `page_no` on; the later pages start at slot 0.
unfoldable pub next_from : ℕ → RmFileHandle → ℕ → ℕ → Result (Option Rid)
next_from zero h page_no start = done none
next_from (suc rounds) h page_no start =
    let later = next_from rounds h (page_no + 1) 0 in
    elim (fetch_page_handle h page_no) [
      | throw e ↦ throw e
      | done page ↦
          let slot = next_bit true page.bitmap h.file_hdr.num_records_per_page start in
          if ltb slot h.file_hdr.num_records_per_page
          then done (some (record { page_no = page_no; slot_no = slot }))
          else later
    ]

abbrev pub move : RmScan → Result (Option Rid) → Result RmScan
move s (throw e) = throw e
move s (done rid) = done (record s { rid = rid })

-- `next`; at the end it asks for the page RM_NO_PAGE, which is none.
unfoldable pub next : RmFileHandle → RmScan → Result RmScan
next h s = elim s.rid [
  | none ↦ throw (page_not_exist none)
  | some rid ↦
      move s (next_from (s.num_pages_snapshot - rid.page_no) h rid.page_no (rid.slot_no + 1))
]

-- The constructor, which moves from before page 1's first slot to the first record.
unfoldable pub begin_scan : RmFileHandle → Result RmScan
begin_scan h =
    move (record { num_pages_snapshot = h.num_pages_snapshot; rid = none })
      (next_from (h.num_pages_snapshot - 1) h 1 0)

unfoldable pub is_end : RmScan → Bool
is_end s = elim s.rid [ none ↦ true | some rid ↦ false ]
