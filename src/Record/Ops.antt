-- ===== src/Record/Ops.antt =====
-- The reads and writes of one record in record/rm_file_handle.cpp. A write takes the LSN that
-- `append_heap_log` gave its log record, `none` without a transaction or a table name.
use database.Prelude.{
  ℕ, zero, suc, ◌+◌, ◌-◌, List, [], Option, Bool, if◌then◌else◌, leb, nat_eqb, get_or, set, take,
  insert, nat_eq,
}
use database.Txn.Defs.{Rid, RmRecord, Result, done, throw, record_not_found, internal_error}
use database.Bitmap.{is_set, mark, reset}
use database.Record.{
  RmFileHandle, RmPage, mark_page_wal_state, page_at, put_page, fetch_page_handle, slots_of,
  without, with_number,
}
use database.Record.Slots.{first_available_slot, page_has_available_slot}
use database.Record.FreePages.{
  create_new_page_handle_unlocked, release_page_handle, unlink_free_page_if_needed,
  create_page_handle,
}

-- `is_record`
unfoldable pub is_record : RmFileHandle → Rid → Result Bool
is_record h rid = elim (fetch_page_handle h rid.page_no) [
  | throw e ↦ throw e
  | done page ↦ done (is_set page.bitmap rid.slot_no)
]

unfoldable pub get_record : RmFileHandle → Rid → Result RmRecord
get_record h rid = elim (fetch_page_handle h rid.page_no) [
  | throw e ↦ throw e
  | done page ↦
      if is_set page.bitmap rid.slot_no
      then done (get_or page.slots rid.slot_no [])
      else throw (record_not_found rid)
]

-- The record is copied into its slot, and the page knows of it.
abbrev pub filled : RmPage → ℕ → RmRecord → Option ℕ → RmPage
filled page slot_no value lsn =
    mark_page_wal_state
      (record page {
        slots = set page.slots slot_no value;
        bitmap = mark page.bitmap slot_no;
        num_records = page.num_records + 1;
      })
      lsn

abbrev pub emptied : RmPage → ℕ → Option ℕ → RmPage
emptied page slot_no lsn =
    mark_page_wal_state
      (record page { bitmap = reset page.bitmap slot_no; num_records = page.num_records - 1 }) lsn

-- The end of an insertion: a page without room leaves the list.
unfoldable pub finish_insert :
    {A : Type 0} → RmFileHandle → ℕ → Option ℕ → A → Result A × RmFileHandle
finish_insert h page_no lsn answer =
    if page_has_available_slot h page_no (page_at h page_no)
    then (done answer, h)
    else let (r, h') = unlink_free_page_if_needed h page_no lsn in
      elim r [ throw e ↦ (throw e, h') | done _ ↦ (done answer, h') ]

-- The record goes into the first available slot of the page; `buf` holds at least its bytes.
unfoldable pub insert_into_page : RmFileHandle → ℕ → List ℕ → Option ℕ → Result Rid × RmFileHandle
insert_into_page h page_no buf lsn =
    let page = page_at h page_no in
    let slot_no = first_available_slot h page_no page in
    let value = take h.file_hdr.record_size buf in
    finish_insert (put_page h page_no (filled page slot_no value lsn)) page_no lsn
      (record { page_no = page_no; slot_no = slot_no })

-- `insert_record(buf)`
unfoldable pub insert_record : RmFileHandle → List ℕ → Option ℕ → Result Rid × RmFileHandle
insert_record h buf lsn =
    let (r, h₁) = create_page_handle h in
    elim r [ throw e ↦ (throw e, h₁) | done page_no ↦ insert_into_page h₁ page_no buf lsn ]

-- `while (rid.page_no >= num_pages)`: one page a round, each marked.
unfoldable pub extend_to : ℕ → RmFileHandle → Option ℕ → RmFileHandle
extend_to zero h lsn = h
extend_to (suc rounds) h lsn =
    let (page_no, h₁) = create_new_page_handle_unlocked h in
    extend_to rounds (put_page h₁ page_no (mark_page_wal_state (page_at h₁ page_no) lsn)) lsn

-- `quarantined_slots_[page_no].erase(slot_no)`
abbrev pub release_quarantine : RmFileHandle → Rid → RmFileHandle
release_quarantine h rid = record h {
  quarantined_slots =
      insert rid.page_no (without rid.slot_no (slots_of h.quarantined_slots rid.page_no))
        h.quarantined_slots;
}

-- `insert_record(rid, buf, page_lsn)`
unfoldable pub insert_record_at :
    RmFileHandle → Rid → List ℕ → Option ℕ → Result (Unit {0}) × RmFileHandle
insert_record_at h rid buf lsn =
    let h₁ = extend_to (rid.page_no + 1 - h.file_hdr.num_pages) h lsn in
    elim (fetch_page_handle h₁ rid.page_no) [
      | throw e ↦ (throw e, h₁)
      | done page ↦
          if is_set page.bitmap rid.slot_no
          then (throw internal_error, h₁)
          else let value = take h₁.file_hdr.record_size buf in
            let h₂ = put_page h₁ rid.page_no (filled page rid.slot_no value lsn) in
            finish_insert (release_quarantine h₂ rid) rid.page_no lsn tt
    ]

unfoldable pub delete_record : RmFileHandle → Rid → Option ℕ → Result (Unit {0}) × RmFileHandle
delete_record h rid lsn = elim (fetch_page_handle h rid.page_no) [
  | throw e ↦ (throw e, h)
  | done page ↦
      let h₁ = put_page h rid.page_no (emptied page rid.slot_no lsn) in
      let was_full = nat_eqb page.num_records h.file_hdr.num_records_per_page in
      if is_set page.bitmap rid.slot_no
      then (done tt, if was_full then release_page_handle h₁ rid.page_no else h₁)
      else (throw (record_not_found rid), h)
]

-- `quarantined_slots_[page_no].insert(slot_no)`
abbrev pub quarantine : RmFileHandle → Rid → RmFileHandle
quarantine h rid = record h {
  quarantined_slots =
      insert rid.page_no (with_number (slots_of h.quarantined_slots rid.page_no) rid.slot_no)
        h.quarantined_slots;
}

unfoldable pub delete_record_quarantine :
    RmFileHandle → Rid → Option ℕ → Result (Unit {0}) × RmFileHandle
delete_record_quarantine h rid lsn =
    if leb h.file_hdr.num_pages rid.page_no
    then (done tt, h)
    else elim (fetch_page_handle h rid.page_no) [
      | throw e ↦ (throw e, h)
      | done page ↦
          let h₁ = put_page h rid.page_no (emptied page rid.slot_no lsn) in
          if is_set page.bitmap rid.slot_no then (done tt, quarantine h₁ rid) else (done tt, h)
    ]

unfoldable pub update_record :
    RmFileHandle → Rid → List ℕ → Option ℕ → Result (Unit {0}) × RmFileHandle
update_record h rid buf lsn = elim (fetch_page_handle h rid.page_no) [
  | throw e ↦ (throw e, h)
  | done page ↦
      if is_set page.bitmap rid.slot_no
      then (
        done tt,
        put_page h rid.page_no (
            mark_page_wal_state
              (record page { slots = set page.slots rid.slot_no (take h.file_hdr.record_size buf) })
              lsn),
      )
      else (throw (record_not_found rid), h)
]
