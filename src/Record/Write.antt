-- ===== src/Record/Write.antt =====
-- What a write of one page of a heap file does to the file's records.
use database.Prelude.{
  ℕ, ◌<◌, ◌≡◌, refl, ◌∙◌, inl, inr, List, [], Option, none, some, true, false, arith, nat_eqb,
  if◌then◌else◌, length, length-set, get_or, set, get_or-set_self, get_or-set_ne, Bool-cases,
}
use database.Bitmap.{is_set}
use database.Bitmap.Bits.{mark-Writes, reset-Writes}
use database.Txn.Defs.{RmRecord, done}
use database.Record.{
  RmFileHandle, RmPage, page_at, put_page, mark_page_wal_state, mark_wal_free_dirty, set_page_lsn,
  without,
}
use database.Record.Ops.{filled, emptied, finish_insert}
use database.Record.Slots.{page_has_available_slot}
use database.Record.Valid.{Same, Same-refl, IsValid, PageOk, contents, PageOk-mark_page_wal_state}
use database.Record.Moves.{page_at-put_page, put_page-next}
use database.Record.Chain.{Chain, Chain-moved, next_of}
use database.Record.Unlink.{unlink_free_page_if_needed-Chain, Unlinks}

-- What a page shows at a slot.
abbrev pub shown : RmPage → ℕ → Option RmRecord
shown page slot = if is_set page.bitmap slot then some (get_or page.slots slot []) else none

pub put_page-IsValid :
    (h : RmFileHandle) (p : ℕ) (page : RmPage)
    → IsValid h
    → p < h.file_hdr.num_pages
    → PageOk h.file_hdr.num_records_per_page page
    → IsValid (put_page h p page)
put_page-IsValid h p page v below ok = record {
  counted = (length-set h.pages p page ∙ v.counted.0, v.counted.1);
  capacity = v.capacity;
  each = λ q low high. elim (Bool-cases (nat_eqb p q)) [
    | inl e ↦ rw (page_at-put_page h p page q (omega (arith, v.counted.0)), e) ok
    | inr e ↦ rw (page_at-put_page h p page q (omega (arith, v.counted.0)), e) (v.each q low high)
  ];
  fresh = v.fresh;
}

pub put_page-Chain :
    (h : RmFileHandle) (p : ℕ) (page : RmPage) (head : Option ℕ) (ps : List ℕ)
    → p < length h.pages
    → page.next_free_page_no ≡ next_of h p
    → Chain h head ps
    → Chain (put_page h p page) head ps
put_page-Chain h p page head ps below kept c =
    Chain-moved h (put_page h p page) head ps (omega arith)
      (λ x i. ground (arith, put_page-next h p page x below, kept)) c

pub put_page-contents :
    (h : RmFileHandle) (p : ℕ) (page : RmPage) (q slot : ℕ)
    → IsValid h
    → p < h.file_hdr.num_pages
    → contents (put_page h p page) q slot
      ≡ (if nat_eqb p q then shown page slot else contents h q slot)
unfolding contents
put_page-contents h p page q slot v below =
    let write = page_at-put_page h p page q (omega (arith, v.counted.0)) in
    elim (Bool-cases (nat_eqb p q)) [
      | inl e ↦ rw (write, e) (ground (arith, v.counted.1))
      | inr e ↦ rw (write, e) refl
    ]

shown-mark_page_wal_state :
    (page : RmPage) (lsn : Option ℕ) (j : ℕ) → shown (mark_page_wal_state page lsn) j ≡ shown page j
unfolding mark_page_wal_state mark_wal_free_dirty set_page_lsn
shown-mark_page_wal_state page none j = refl
shown-mark_page_wal_state page (some lsn) j = refl

-- A page with one more record shows that record, and the others as before.
pub shown-filled :
    (n : ℕ) (page : RmPage) (slot : ℕ) (value : RmRecord) (lsn : Option ℕ) (j : ℕ)
    → PageOk n page
    → slot < n
    → shown (filled page slot value lsn) j ≡ (if nat_eqb slot j then some value else shown page j)
shown-filled n page slot value lsn j ok below =
    let (bits, each) = mark-Writes n page.bitmap slot ok.bits below in
    shown-mark_page_wal_state _ lsn j ∙ elim (Bool-cases (nat_eqb slot j)) [
      | inl e ↦
          let same : slot ≡ j = ground arith in
          rw (each j, e, ← same, get_or-set_self page.slots slot value [] (omega (arith, ok.room)))
            refl
      | inr e ↦ rw (each j, e, get_or-set_ne page.slots slot j value [] (λ same. ground arith)) refl
    ]

-- A page with one record less shows none at its slot, and the others as before.
pub shown-emptied :
    (n : ℕ) (page : RmPage) (slot : ℕ) (lsn : Option ℕ) (j : ℕ)
    → PageOk n page
    → slot < n
    → shown (emptied page slot lsn) j ≡ (if nat_eqb slot j then none else shown page j)
shown-emptied n page slot lsn j ok below =
    let (bits, each) = reset-Writes n page.bitmap slot ok.bits below in
    shown-mark_page_wal_state _ lsn j ∙ rw (each j) (ground arith)

-- A page whose record is overwritten.
abbrev pub overwritten : RmPage → ℕ → RmRecord → Option ℕ → RmPage
overwritten page slot value lsn =
    mark_page_wal_state (record page { slots = set page.slots slot value }) lsn

pub shown-overwritten :
    (n : ℕ) (page : RmPage) (slot : ℕ) (value : RmRecord) (lsn : Option ℕ) (j : ℕ)
    → PageOk n page
    → slot < n
    → is_set page.bitmap slot ≡ true
    → shown (overwritten page slot value lsn) j
      ≡ (if nat_eqb slot j then some value else shown page j)
shown-overwritten n page slot value lsn j ok below isset =
    shown-mark_page_wal_state _ lsn j ∙ elim (Bool-cases (nat_eqb slot j)) [
      | inl e ↦
          let same : slot ≡ j = ground arith in
          rw (e, ← same, isset, get_or-set_self page.slots slot value [] (omega (arith, ok.room)))
            refl
      | inr e ↦ rw (e, get_or-set_ne page.slots slot j value [] (λ same. ground arith)) refl
    ]

pub overwritten-PageOk :
    (n : ℕ) (page : RmPage) (slot : ℕ) (value : RmRecord) (lsn : Option ℕ)
    → PageOk n page
    → PageOk n (overwritten page slot value lsn)
overwritten-PageOk n page slot value lsn ok =
    PageOk-mark_page_wal_state n _ lsn (record {
      bits = ok.bits;
      room = length-set page.slots slot value ∙ ok.room;
      count = ok.count;
    })

-- On a well formed file the end of an insertion is no error, and the records stay as they are.
pub finish_insert-Same :
    {A : Type 0} (h : RmFileHandle) (p : ℕ) (ps : List ℕ) (lsn : Option ℕ) (answer : A)
    → IsValid h
    → p < h.file_hdr.num_pages
    → Chain h h.file_hdr.first_free_page_no ps
    → (h' : RmFileHandle) × (finish_insert h p lsn answer ≡ (done answer, h'))
      × Same h h'
      × ((ps' : List ℕ) × Chain h' h'.file_hdr.first_free_page_no ps')
unfolding finish_insert
finish_insert-Same h p ps lsn answer v below c =
    elim (Bool-cases (page_has_available_slot h p (page_at h p))) [
      | inl e ↦ (h, rw e refl, Same-refl h, (ps, c))
      | inr e ↦ unlinked e (unlink_free_page_if_needed-Chain h p ps lsn v c below)
    ]
  where
    unlinked :
        page_has_available_slot h p (page_at h p) ≡ false
        → Unlinks h p ps lsn
        → (h' : RmFileHandle) × (finish_insert h p lsn answer ≡ (done answer, h'))
          × Same h h'
          × ((ps' : List ℕ) × Chain h' h'.file_hdr.first_free_page_no ps')
    unlinked e (h', ran, s, left) = (h', simp (finish_insert, e, ran), s, (without p ps, left))
