-- ===== src/Record/Slots.antt =====
-- `first_available_slot` and `page_has_available_slot` of record/rm_file_handle.cpp.
use database.Prelude.{ℕ, zero, suc, ◌+◌, Bool, ◌||◌, if◌then◌else◌, ltb}
use database.Bitmap.{is_set}
use database.Record.{RmFileHandle, RmPage, slots_of, contains}

-- A slot that holds a record, that is quarantined, or that is reserved.
abbrev pub taken : RmFileHandle → ℕ → RmPage → ℕ → Bool
taken h page_no page slot =
    is_set page.bitmap slot
    || (contains slot (slots_of h.quarantined_slots page_no)
        || contains slot (slots_of h.reserved_slots page_no))

-- The loop over the slots from `slot` on.
unfoldable pub search_slot : ℕ → RmFileHandle → ℕ → RmPage → ℕ → ℕ
search_slot zero h page_no page slot = slot
search_slot (suc rounds) h page_no page slot =
    let later = search_slot rounds h page_no page (slot + 1) in
    if taken h page_no page slot then later else slot

unfoldable pub first_available_slot : RmFileHandle → ℕ → RmPage → ℕ
first_available_slot h page_no page = search_slot h.file_hdr.num_records_per_page h page_no page 0

unfoldable pub page_has_available_slot : RmFileHandle → ℕ → RmPage → Bool
page_has_available_slot h page_no page =
    ltb (first_available_slot h page_no page) h.file_hdr.num_records_per_page
