-- ===== src/Record/Sample.antt =====
-- A file of two data pages of three slots, for the tests of record/rm_file_handle.cpp and of its callers.
use database.Prelude.{
  ◌≡◌, refl, inl, inr, [], ◌∷◌, none, some, arith, nat_eqb, Bool-cases, lookup, nat_eq,
}
use database.Bitmap.{is_set}
use database.Record.{RmPage, RmFileHandle, clean, blank_page}
use database.Record.Valid.{IsValid, PageOk, count_set}
use database.Record.Chain.{Chain}

-- Page 1 holds a record in its first slot, page 2 none.
abbrev page_one : RmPage
page_one = record {
  next_free_page_no = none;
  num_records = 1;
  bitmap = 128 ∷ [];
  slots = (7 ∷ 8 ∷ []) ∷ [] ∷ [] ∷ [];
  page_lsn = none;
  wal_dirty_state = clean;
}

abbrev pub page_two : RmPage
page_two = record {
  next_free_page_no = some 1;
  num_records = 0;
  bitmap = 0 ∷ [];
  slots = [] ∷ [] ∷ [] ∷ [];
  page_lsn = none;
  wal_dirty_state = clean;
}

-- The first slot of page 2 is quarantined.
abbrev pub two_pages : RmFileHandle
two_pages = record {
  file_hdr = record {
    record_size = 2;
    num_pages = 3;
    num_records_per_page = 3;
    first_free_page_no = some 2;
    bitmap_size = 1;
  };
  num_pages_snapshot = 3;
  pages = blank_page ∷ page_one ∷ page_two ∷ [];
  quarantined_slots = (2, 0 ∷ []) ∷ [];
  reserved_slots = [];
  active_insert_pages = [];
  active_insert_cursor = 0;
  reserved_slot_count = 0;
}

page_one-PageOk : PageOk 3 page_one
unfolding count_set is_set
page_one-PageOk = record {
  bits = record { bytes = (omega arith, tt); room = omega arith };
  room = refl;
  count = refl;
}

page_two-PageOk : PageOk 3 page_two
unfolding count_set is_set
page_two-PageOk = record {
  bits = record { bytes = (omega arith, tt); room = omega arith };
  room = refl;
  count = refl;
}

pub two_pages-IsValid : IsValid two_pages
unfolding lookup
two_pages-IsValid = record {
  counted = (refl, refl);
  capacity = (omega arith, omega arith, omega arith);
  each = λ p low high. elim (Bool-cases (nat_eqb p 1)) [
    | inl e ↦ let same : p ≡ 1 = ground arith in rw same page_one-PageOk
    | inr e ↦ let same : p ≡ 2 = ground arith in rw same page_two-PageOk
  ];
  fresh = λ p high. (ground arith, refl);
}

pub two_pages-Chain : Chain two_pages two_pages.file_hdr.first_free_page_no (2 ∷ 1 ∷ [])
two_pages-Chain =
    (refl, omega arith, omega arith, refl, (refl, omega arith, omega arith, refl, refl))
