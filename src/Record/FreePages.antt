-- ===== src/Record/FreePages.antt =====
-- The list of the pages with free space in record/rm_file_handle.cpp: `create_new_page_handle_unlocked`,
-- `create_page_handle`, `release_page_handle` and `unlink_free_page_if_needed`. The page handle that
-- these take or return is the page's number.
use database.Prelude.{
  ℕ, zero, suc, ◌+◌, [], ◌∷◌, ◌++◌, Option, none, some, if◌then◌else◌, option_eqb, nat_eq,
  replicate,
}
use database.Txn.Defs.{Result, done, throw, out_of_rounds}
use database.Bitmap.{init}
use database.Record.{
  RmFileHandle, RmPage, blank_page, mark_page_wal_state, mark_wal_free_dirty, page_at, put_page,
  set_first_free, fetch_page_handle,
}
use database.Record.Slots.{page_has_available_slot}

-- The page as it is set up: no record, and linked to the first free page.
abbrev pub fresh_page : RmFileHandle → RmPage
fresh_page h = mark_wal_free_dirty (record blank_page {
  next_free_page_no = h.file_hdr.first_free_page_no;
  bitmap = init h.file_hdr.bitmap_size;
  slots = replicate h.file_hdr.num_records_per_page [];
})

-- The new page's number is the count of pages, where the disk manager's allocation stands.
unfoldable pub create_new_page_handle_unlocked : RmFileHandle → ℕ × RmFileHandle
create_new_page_handle_unlocked h = (
  h.file_hdr.num_pages,
  record h {
    file_hdr = record h.file_hdr {
      first_free_page_no = some h.file_hdr.num_pages;
      num_pages = h.file_hdr.num_pages + 1;
    };
    num_pages_snapshot = h.file_hdr.num_pages + 1;
    pages = h.pages ++ fresh_page h ∷ [];
  },
)

unfoldable pub release_page_handle : RmFileHandle → ℕ → RmFileHandle
release_page_handle h page_no =
    set_first_free
      (put_page h page_no
        (record (page_at h page_no) { next_free_page_no = h.file_hdr.first_free_page_no }))
      (some page_no)

abbrev pub set_next : RmFileHandle → ℕ → Option ℕ → RmFileHandle
set_next h page_no next =
    put_page h page_no (record (page_at h page_no) { next_free_page_no = next })

-- The page `prev` is made to pass over the target, which is its next.
unfoldable pub bypass : RmFileHandle → ℕ → ℕ → Option ℕ → RmFileHandle
bypass h prev_no target lsn =
    let h₁ = set_next h prev_no (page_at h target).next_free_page_no in
    let h₂ = set_next h₁ target none in
    put_page h₂ prev_no (mark_page_wal_state (page_at h₂ prev_no) lsn)

-- The walk along the list; `rounds` bounds the pages that are visited.
unfoldable pub unlink_from :
    ℕ → RmFileHandle → Option ℕ → ℕ → Option ℕ → Result (Unit {0}) × RmFileHandle
unlink_from rounds h none target lsn = (done tt, h)
unlink_from zero h (some prev_no) target lsn = (throw out_of_rounds, h)
unlink_from (suc rounds) h (some prev_no) target lsn =
    let next = (page_at h prev_no).next_free_page_no in
    let rest = unlink_from rounds h next target lsn in
    elim (fetch_page_handle h prev_no) [
      | throw e ↦ (throw e, h)
      | done page ↦
          if option_eqb next (some target) then (done tt, bypass h prev_no target lsn) else rest
    ]

unfoldable pub unlink_free_page_if_needed :
    RmFileHandle → ℕ → Option ℕ → Result (Unit {0}) × RmFileHandle
unlink_free_page_if_needed h target lsn =
    if option_eqb h.file_hdr.first_free_page_no (some target)
    then (done tt, set_next (set_first_free h (page_at h target).next_free_page_no) target none)
    else unlink_from h.file_hdr.num_pages h h.file_hdr.first_free_page_no target lsn

-- The loop that drops pages without room from the head of the list.
unfoldable pub find_free_page : ℕ → RmFileHandle → Option ℕ → Result ℕ × RmFileHandle
find_free_page rounds h none =
    let (page_no, h') = create_new_page_handle_unlocked h in (done page_no, h')
find_free_page zero h (some page_no) = (throw out_of_rounds, h)
find_free_page (suc rounds) h (some page_no) =
    let marked = put_page h page_no (mark_wal_free_dirty (page_at h page_no)) in
    let unlinked = unlink_free_page_if_needed marked page_no none in
    let rest = find_free_page rounds unlinked.1 unlinked.1.file_hdr.first_free_page_no in
    elim (fetch_page_handle h page_no) [
      | throw e ↦ (throw e, h)
      | done page ↦
          if page_has_available_slot h page_no page
          then (done page_no, h)
          else elim unlinked.0 [ throw e ↦ (throw e, unlinked.1) | done _ ↦ rest ]
    ]

unfoldable pub create_page_handle : RmFileHandle → Result ℕ × RmFileHandle
create_page_handle h = find_free_page h.file_hdr.num_pages h h.file_hdr.first_free_page_no
