-- ===== src/Record.antt =====
-- record/rm_file_handle.h, record/rm_defs.h and storage/page.h: a table's heap file. Page and slot
-- numbers are natural numbers, `none` is RM_NO_PAGE and INVALID_LSN. Every page of the file is held
-- here, at its number, and page 0 is the place of the file header; the buffer pool, the latches and
-- the frames are not modelled. The calls return the file beside the result, since the file keeps
-- what a call changed before it threw.
pub mod Slots
pub mod FreePages
pub mod Ops
pub mod Reserve
pub mod Scan
pub mod Layout
pub mod FirstFree
pub mod Valid
pub mod Moves
pub mod Chain
pub mod Distinct
pub mod Unlink
pub mod Grow
pub mod Room
pub mod Write
pub mod Insert
pub mod Change
pub mod ScanOrder
pub mod Extend
pub mod Place
pub mod ReadBack
pub mod Sample
mod Tests
use database.Prelude.{
  ℕ, ◌+◌, ◌<◌, List, [], ◌∷◌, ◌++◌, Option, none, some, Bool, true, false, not, if◌then◌else◌, ltb,
  nat_eqb, get_or, set, Map, lookup, nat_eq,
}
use database.Txn.Defs.{RmRecord, Result, done, throw, page_not_exist}

pub data WalDirtyState : Type 0 where
  clean wal_backed wal_free unknown : WalDirtyState

-- A page with its header, its slots and the frame's log bookkeeping.
pub record RmPage : Type 0 where
  pub next_free_page_no : Option ℕ
  pub num_records : ℕ
  pub bitmap : List ℕ
  pub slots : List RmRecord
  pub page_lsn : Option ℕ
  pub wal_dirty_state : WalDirtyState

pub record RmFileHdr : Type 0 where
  pub record_size : ℕ
  pub num_pages : ℕ
  pub num_records_per_page : ℕ
  pub first_free_page_no : Option ℕ
  pub bitmap_size : ℕ

pub record RmFileHandle : Type 0 where
  pub file_hdr : RmFileHdr
  pub num_pages_snapshot : ℕ
  pub pages : List RmPage
  pub quarantined_slots : Map ℕ (List ℕ)
  pub reserved_slots : Map ℕ (List ℕ)
  pub active_insert_pages : List ℕ
  pub active_insert_cursor : ℕ
  pub reserved_slot_count : ℕ

-- A page whose memory was reset.
abbrev pub blank_page : RmPage
blank_page = record {
  next_free_page_no = none;
  num_records = 0;
  bitmap = [];
  slots = [];
  page_lsn = none;
  wal_dirty_state = clean;
}

-- `set_page_lsn`: the greatest LSN stays, and an unknown origin is not washed away.
abbrev pub backed : WalDirtyState → WalDirtyState
backed unknown = unknown
backed clean = wal_backed
backed wal_backed = wal_backed
backed wal_free = wal_backed

abbrev pub later_lsn : Option ℕ → ℕ → ℕ
later_lsn none lsn = lsn
later_lsn (some current) lsn = if ltb current lsn then lsn else current

unfoldable pub set_page_lsn : RmPage → ℕ → RmPage
set_page_lsn page lsn = record page {
  page_lsn = some (later_lsn page.page_lsn lsn);
  wal_dirty_state = backed page.wal_dirty_state;
}

abbrev pub freed : WalDirtyState → WalDirtyState
freed clean = wal_free
freed wal_backed = wal_backed
freed wal_free = wal_free
freed unknown = unknown

unfoldable pub mark_wal_free_dirty : RmPage → RmPage
mark_wal_free_dirty page = record page { wal_dirty_state = freed page.wal_dirty_state }

unfoldable pub mark_page_wal_state : RmPage → Option ℕ → RmPage
mark_page_wal_state page none = mark_wal_free_dirty page
mark_page_wal_state page (some lsn) = set_page_lsn page lsn

abbrev pub page_at : RmFileHandle → ℕ → RmPage
page_at h page_no = get_or h.pages page_no blank_page

abbrev pub put_page : RmFileHandle → ℕ → RmPage → RmFileHandle
put_page h page_no page = record h { pages = set h.pages page_no page }

abbrev pub set_first_free : RmFileHandle → Option ℕ → RmFileHandle
set_first_free h first = record h { file_hdr = record h.file_hdr { first_free_page_no = first } }

-- `fetch_page_handle`
unfoldable pub fetch_page_handle : RmFileHandle → ℕ → Result RmPage
fetch_page_handle h page_no =
    if ltb page_no h.num_pages_snapshot
    then done (page_at h page_no)
    else throw (page_not_exist (some page_no))

-- The sets of slot numbers that the handle keeps for each page.
abbrev pub slots_of : Map ℕ (List ℕ) → ℕ → List ℕ
slots_of m page_no = elim (lookup page_no m) [ none ↦ [] | some slots ↦ slots ]

-- `count(slot) > 0`
abbrev pub contains : ℕ → List ℕ → Bool
contains x [] = false
contains x (y ∷ ys) = if nat_eqb x y then true else contains x ys

-- `erase(slot)`, and `std::remove` on a vector.
abbrev pub without : ℕ → List ℕ → List ℕ
without x [] = []
without x (y ∷ ys) = if nat_eqb x y then without x ys else y ∷ without x ys

-- `insert(slot)`, and a `push_back` where the number is not there yet.
abbrev pub with_number : List ℕ → ℕ → List ℕ
with_number ys x = if contains x ys then ys else ys ++ x ∷ []
