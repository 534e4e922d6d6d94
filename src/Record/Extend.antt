-- ===== src/Record/Extend.antt =====
-- The growth of a heap file of record/rm_file_handle.cpp up to the page of a record to be inserted.
use database.Prelude.{ℕ, zero, suc, ◌+◌, ◌<◌, ◌≡◌, refl, List, ◌∷◌, Option, arith, length, nat_eq}
use database.Record.{RmFileHandle, page_at, put_page, mark_page_wal_state}
use database.Record.FreePages.{create_new_page_handle_unlocked}
use database.Record.Ops.{extend_to}
use database.Record.Valid.{Same-refl, IsValid, Same-IsValid}
use database.Record.Moves.{mark_page_wal_state-Alike, put_page-Same}
use database.Record.Chain.{Chain}
use database.Record.Grow.{
  Keeps, Same-Keeps, Keeps-trans, grown, grown-IsValid, grown-Keeps, grown-Chain,
}
use database.Record.Write.{put_page-Chain}

-- The file with more pages.
pub record Extended (h : RmFileHandle) (rounds : ℕ) (h' : RmFileHandle) : Type 0 where
  pub valid : IsValid h'
  pub keeps : Keeps h h'
  pub pages : h'.file_hdr.num_pages ≡ h.file_hdr.num_pages + rounds
  pub list : List ℕ
  pub chain : Chain h' h'.file_hdr.first_free_page_no list

-- One page more, with its mark.
abbrev one_more : RmFileHandle → Option ℕ → RmFileHandle
one_more h lsn =
    put_page (grown h) h.file_hdr.num_pages
      (mark_page_wal_state (page_at (grown h) h.file_hdr.num_pages) lsn)

one_more-Extended :
    (h : RmFileHandle) (ps : List ℕ) (lsn : Option ℕ)
    → IsValid h
    → Chain h h.file_hdr.first_free_page_no ps
    → Extended h 1 (one_more h lsn)
unfolding create_new_page_handle_unlocked
one_more-Extended h ps lsn v c =
    let g = grown-IsValid h v in
    let (alike, kept) = mark_page_wal_state-Alike (page_at (grown h) h.file_hdr.num_pages) lsn in
    let below : h.file_hdr.num_pages < length (grown h).pages = omega (arith, g.counted.0) in
    let same = put_page-Same (grown h) h.file_hdr.num_pages _ below alike in
    record {
      valid = Same-IsValid (grown h) _ same g;
      keeps = Keeps-trans h (grown h) _ (grown-Keeps h v) (Same-Keeps (grown h) _ same);
      pages = refl;
      list = h.file_hdr.num_pages ∷ ps;
      chain =
          put_page-Chain (grown h) h.file_hdr.num_pages
            (mark_page_wal_state (page_at (grown h) h.file_hdr.num_pages) lsn)
            (grown h).file_hdr.first_free_page_no (h.file_hdr.num_pages ∷ ps) below kept
            (grown-Chain h v ps c);
    }

pub extend_to-Extended :
    (rounds : ℕ) (h : RmFileHandle) (ps : List ℕ) (lsn : Option ℕ)
    → IsValid h
    → Chain h h.file_hdr.first_free_page_no ps
    → Extended h rounds (extend_to rounds h lsn)
unfolding extend_to create_new_page_handle_unlocked
extend_to-Extended zero h ps lsn v c = record {
  valid = v;
  keeps = Same-Keeps h h (Same-refl h);
  pages = omega arith;
  list = ps;
  chain = c;
}
extend_to-Extended (suc rounds) h ps lsn v c =
    let one = one_more-Extended h ps lsn v c in
    let rest = extend_to-Extended rounds (one_more h lsn) one.list lsn one.valid one.chain in
    record {
      valid = rest.valid;
      keeps = Keeps-trans h (one_more h lsn) _ one.keeps rest.keeps;
      pages = omega (arith, rest.pages, one.pages);
      list = rest.list;
      chain = rest.chain;
    }
