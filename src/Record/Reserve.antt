-- ===== src/Record/Reserve.antt =====
-- The slot reservations of record/rm_file_handle.cpp: a writer is given a free slot before it logs
-- and fills it. An `InsertSlotReservation` that is valid and belongs to this file is its rid; one that
-- is not is `none`.
use database.Prelude.{
  ℕ, zero, suc, ◌+◌, ◌-◌, ◌%◌, List, [], ◌∷◌, Option, none, some, Bool, not, ◌||◌, if◌then◌else◌,
  leb, nat_eqb, get_or, set, take, length, insert, erase, nat_eq, min, max,
}
use database.Txn.Defs.{Rid, Result, done, throw, out_of_rounds, internal_error}
use database.Bitmap.{is_set, mark}
use database.Record.{
  RmFileHandle, mark_page_wal_state, set_page_lsn, page_at, put_page, fetch_page_handle, slots_of,
  contains, without, with_number,
}
use database.Record.Slots.{first_available_slot, page_has_available_slot}
use database.Record.FreePages.{create_new_page_handle_unlocked, unlink_free_page_if_needed}

abbrev pub max_active_insert_pages : ℕ
max_active_insert_pages = 16

unfoldable pub add_active_insert_page : RmFileHandle → ℕ → RmFileHandle
add_active_insert_page h page_no = record h {
  active_insert_pages = with_number h.active_insert_pages page_no;
}

unfoldable pub remove_active_insert_page : RmFileHandle → ℕ → RmFileHandle
remove_active_insert_page h page_no =
    let left = without page_no h.active_insert_pages in
    record h {
      active_insert_pages = left;
      active_insert_cursor =
          if nat_eqb (length left) 0 then 0 else h.active_insert_cursor % length left;
    }

-- The walk along the free pages, which stops at a page met before.
unfoldable pub gather_active :
    ℕ → RmFileHandle → Option ℕ → List ℕ → ℕ → Result (Unit {0}) × RmFileHandle
gather_active rounds h none visited desired = (done tt, h)
gather_active zero h (some page_no) visited desired = (throw out_of_rounds, h)
gather_active (suc rounds) h (some page_no) visited desired =
    let has_slot = page_has_available_slot h page_no (page_at h page_no) in
    let h₁ = if has_slot then add_active_insert_page h page_no else h in
    let next = (page_at h page_no).next_free_page_no in
    let rest = gather_active rounds h₁ next (page_no ∷ visited) desired in
    if leb desired (length h.active_insert_pages) || contains page_no visited
    then (done tt, h)
    else elim (fetch_page_handle h page_no) [ throw e ↦ (throw e, h) | done page ↦ rest ]

-- The new pages that make up the number.
unfoldable pub fill_active : ℕ → RmFileHandle → RmFileHandle
fill_active zero h = h
fill_active (suc rounds) h =
    let (page_no, h₁) = create_new_page_handle_unlocked h in
    fill_active rounds (add_active_insert_page h₁ page_no)

unfoldable pub ensure_active_insert_pages : RmFileHandle → ℕ → Result (Unit {0}) × RmFileHandle
ensure_active_insert_pages h desired_pages =
    let desired = max 1 (min desired_pages max_active_insert_pages) in
    let rounds = h.file_hdr.num_pages + 1 in
    let (r, h₁) = gather_active rounds h h.file_hdr.first_free_page_no [] desired in
    elim r [
      | throw e ↦ (throw e, h₁)
      | done _ ↦ (done tt, fill_active (desired - length h₁.active_insert_pages) h₁)
    ]

-- `reserved_slots_[page_no].insert(slot_no)`
abbrev pub hold : RmFileHandle → Rid → RmFileHandle
hold h rid = record h {
  reserved_slots =
      insert rid.page_no (with_number (slots_of h.reserved_slots rid.page_no) rid.slot_no)
        h.reserved_slots;
  reserved_slot_count = h.reserved_slot_count + 1;
}

-- The attempts over the active pages, from the cursor on; `none` when no page has a slot.
unfoldable pub attempt_pages : ℕ → RmFileHandle → ℕ → Result (Option Rid) × RmFileHandle
attempt_pages zero h attempt = (done none, h)
attempt_pages (suc rounds) h attempt =
    let page_count = length h.active_insert_pages in
    let index = (h.active_insert_cursor + attempt) % page_count in
    let page_no = get_or h.active_insert_pages index 0 in
    let rest = attempt_pages rounds h (attempt + 1) in
    elim (fetch_page_handle h page_no) [
      | throw e ↦ (throw e, h)
      | done page ↦
          let slot_no = first_available_slot h page_no page in
          let rid : Rid = record { page_no = page_no; slot_no = slot_no } in
          if leb h.file_hdr.num_records_per_page slot_no then rest else (
            done (some rid),
            record (hold h rid) { active_insert_cursor = (index + 1) % page_count },
          )
    ]

-- `for (;;)`: a new active page after each round without a slot.
unfoldable pub reserve_rounds : ℕ → RmFileHandle → Result Rid × RmFileHandle
reserve_rounds zero h = (throw out_of_rounds, h)
reserve_rounds (suc rounds) h =
    let (r, h₁) = attempt_pages (length h.active_insert_pages) h 0 in
    let (page_no, h₂) = create_new_page_handle_unlocked h₁ in
    let rest = reserve_rounds rounds (add_active_insert_page h₂ page_no) in
    elim r [ throw e ↦ (throw e, h₁) | done none ↦ rest | done (some rid) ↦ (done rid, h₁) ]

-- Two rounds are enough, since a new page has every slot free.
unfoldable pub reserve_insert_slot : RmFileHandle → Result Rid × RmFileHandle
reserve_insert_slot h =
    let (r, h₁) = ensure_active_insert_pages h max_active_insert_pages in
    elim r [ throw e ↦ (throw e, h₁) | done _ ↦ reserve_rounds 2 h₁ ]

-- `page_it->second.erase(slot_no)`, and the page's entry goes with its last slot.
unfoldable pub drop_reserved : RmFileHandle → Rid → RmFileHandle
drop_reserved h rid =
    let left = without rid.slot_no (slots_of h.reserved_slots rid.page_no) in
    record h {
      reserved_slots =
          if nat_eqb (length left) 0
          then erase rid.page_no h.reserved_slots
          else insert rid.page_no left h.reserved_slots;
    }

abbrev pub is_reserved : RmFileHandle → Rid → Bool
is_reserved h rid = contains rid.slot_no (slots_of h.reserved_slots rid.page_no)

unfoldable pub cancel_insert_reservation : RmFileHandle → Option Rid → RmFileHandle
cancel_insert_reservation h none = h
cancel_insert_reservation h (some rid) =
    add_active_insert_page
      (if is_reserved h rid
        then record (drop_reserved h rid) { reserved_slot_count = h.reserved_slot_count - 1 }
        else drop_reserved h rid)
      rid.page_no

-- What `complete_insert_reservation` does with a page that its last slot filled.
unfoldable pub retire_page : RmFileHandle → ℕ → Option ℕ → Result (Unit {0}) × RmFileHandle
retire_page h page_no lsn = elim (fetch_page_handle h page_no) [
  | throw e ↦ (throw e, h)
  | done page ↦
      let marked = put_page h page_no (mark_page_wal_state page lsn) in
      let (r, h₁) = unlink_free_page_if_needed marked page_no lsn in
      elim r [ throw e ↦ (throw e, h₁) | done _ ↦ (done tt, remove_active_insert_page h₁ page_no) ]
]

unfoldable pub complete_insert_reservation :
    RmFileHandle → Option Rid → Bool → Option ℕ → Result (Unit {0}) × RmFileHandle
complete_insert_reservation h none page_became_full lsn = (throw internal_error, h)
complete_insert_reservation h (some rid) page_became_full lsn =
    let h₁ = record (drop_reserved h rid) { reserved_slot_count = h.reserved_slot_count - 1 } in
    if not (is_reserved h rid)
    then (throw internal_error, h)
    else if page_became_full
    then retire_page h₁ rid.page_no lsn
    else (done tt, h₁)

-- `insert_record(reservation, buf, …)`, after its log record got the LSN.
unfoldable pub insert_record_reserved :
    RmFileHandle → Option Rid → List ℕ → ℕ → Result ℕ × RmFileHandle
insert_record_reserved h none buf lsn = (throw internal_error, h)
insert_record_reserved h (some rid) buf lsn = elim (fetch_page_handle h rid.page_no) [
  | throw e ↦ (throw e, h)
  | done page ↦
      let value = take h.file_hdr.record_size buf in
      let page₁ =
        set_page_lsn
          (record page {
            slots = set page.slots rid.slot_no value;
            bitmap = mark page.bitmap rid.slot_no;
            num_records = page.num_records + 1;
          })
          lsn in
      let became_full = nat_eqb page₁.num_records h.file_hdr.num_records_per_page in
      let (r, h₁) =
        complete_insert_reservation (put_page h rid.page_no page₁) (some rid) became_full
          (some lsn) in
      if is_set page.bitmap rid.slot_no
      then (throw internal_error, h)
      else elim r [ throw e ↦ (throw e, h₁) | done _ ↦ (done lsn, h₁) ]
]
