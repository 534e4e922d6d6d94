-- ===== src/Record/Change.antt =====
-- `get_record`, `delete_record`, `delete_record_quarantine` and `update_record` of
-- record/rm_file_handle.cpp on a well formed file.
use database.Prelude.{
  ℕ, ◌≤◌, ◌<◌, ◌≡◌, ◌⊎◌, refl, sym, subst, ◌∙◌, inl, inr, List, [], get_or, ◌∷◌, Option, none, some,
  false, ◌&&◌, arith, nat_eqb, if◌then◌else◌, length, take, Bool-cases, nat_eq,
}
use database.Bitmap.{is_set}
use database.Txn.Defs.{Rid, RmRecord, Result, done, throw, record_not_found}
use database.Record.{RmFileHandle, RmPage, page_at, put_page, contains}
use database.Record.FreePages.{release_page_handle, set_next}
use database.Record.Ops.{get_record, delete_record, update_record, emptied}
use database.Record.Valid.{
  Same, Same-trans, IsValid, PageOk, contents, Same-IsValid, Same-contents, emptied-PageOk,
  fetch_page_handle_valid,
}
use database.Record.Moves.{mark_page_wal_state-Alike, set_next-Same, set_next-next}
use database.Record.Chain.{Chain, Chain-moved, next_of, contains_ne}
use database.Record.Unlink.{set_first_free-Same}
use database.Record.Write.{
  put_page-IsValid, put_page-Chain, put_page-contents, shown, shown-emptied, overwritten,
  shown-overwritten, overwritten-PageOk,
}
use database.Record.Insert.{shown-contents}

-- A rid that lies in a data page of the file.
abbrev pub Inside : RmFileHandle → Rid → Type 0
Inside h rid =
    (1 ≤ rid.page_no)
    × (rid.page_no < h.file_hdr.num_pages)
    × (rid.slot_no < h.file_hdr.num_records_per_page)

abbrev pub found_or : Rid → Option RmRecord → Result RmRecord
found_or rid none = throw (record_not_found rid)
found_or rid (some value) = done value

pub get_record-contents :
    (h : RmFileHandle) (rid : Rid)
    → IsValid h
    → rid.page_no < h.file_hdr.num_pages
    → get_record h rid ≡ found_or rid (contents h rid.page_no rid.slot_no)
unfolding get_record
get_record-contents h rid v below =
    rw
      (
        get_record,
        fetch_page_handle_valid h rid.page_no v below,
        shown-contents h rid.page_no rid.slot_no v below,
      )
      (ground arith)

-- `h'` is well formed and holds `value` at `rid`, and else what `h` holds.
pub record Changed (h : RmFileHandle) (rid : Rid) (value : Option RmRecord) (h' : RmFileHandle)
    : Type 0 where
  pub valid : IsValid h'
  pub list : List ℕ
  pub chain : Chain h' h'.file_hdr.first_free_page_no list
  pub sizes :
      (h'.file_hdr.num_records_per_page ≡ h.file_hdr.num_records_per_page)
      × (h'.file_hdr.record_size ≡ h.file_hdr.record_size)
  pub records :
      (p slot : ℕ)
      → contents h' p slot
        ≡ (if nat_eqb rid.page_no p && nat_eqb rid.slot_no slot then value else contents h p slot)

-- Writing a page that differs in one slot.
pub put_page-Changed :
    (h : RmFileHandle) (rid : Rid) (page : RmPage) (value : Option RmRecord) (ps : List ℕ)
    → IsValid h
    → Inside h rid
    → Chain h h.file_hdr.first_free_page_no ps
    → PageOk h.file_hdr.num_records_per_page page
    → page.next_free_page_no ≡ next_of h rid.page_no
    → ((s : ℕ)
        → shown page s ≡ (if nat_eqb rid.slot_no s then value else shown (page_at h rid.page_no) s))
    → Changed h rid value (put_page h rid.page_no page)
put_page-Changed h rid page value ps v inside c ok kept each = record {
  valid = put_page-IsValid h rid.page_no page v inside.1 ok;
  list = ps;
  chain = put_page-Chain h rid.page_no page _ ps (omega (arith, v.counted.0, inside.1)) kept c;
  sizes = (refl, refl);
  records = λ q s.
      put_page-contents h rid.page_no page q s v inside.1
      ∙ elim (Bool-cases (nat_eqb rid.page_no q)) [
        | inl e ↦
            let same : rid.page_no ≡ q = ground arith in
            rw (e, ← same) (each s ∙ ground (arith, shown-contents h rid.page_no s v inside.1))
        | inr e ↦ rw e refl
      ];
}

pub Changed-Same :
    (h : RmFileHandle) (rid : Rid) (value : Option RmRecord) (h₁ h₂ : RmFileHandle) (ps : List ℕ)
    → Changed h rid value h₁
    → Same h₁ h₂
    → Chain h₂ h₂.file_hdr.first_free_page_no ps
    → Changed h rid value h₂
Changed-Same h rid value h₁ h₂ ps changed same c = record {
  valid = Same-IsValid h₁ h₂ same changed.valid;
  list = ps;
  chain = c;
  sizes = (same.sizes.1 ∙ changed.sizes.0, same.sizes.3 ∙ changed.sizes.1);
  records = λ p s. Same-contents h₁ h₂ same p s ∙ changed.records p s;
}

release_page_handle-Chain :
    (h : RmFileHandle) (p : ℕ) (ps : List ℕ)
    → IsValid h
    → 1 ≤ p
    → p < h.file_hdr.num_pages
    → contains p ps ≡ false
    → Chain h h.file_hdr.first_free_page_no ps
    → Same h (release_page_handle h p)
      × Chain
          (release_page_handle h p)
          (release_page_handle h p).file_hdr.first_free_page_no
          (p ∷ ps)
unfolding release_page_handle
release_page_handle-Chain h p ps v low high out c =
    let first = h.file_hdr.first_free_page_no in
    let below : p < length h.pages = omega (arith, v.counted.0) in
    let moved = set_next-next h p first in
    (
      Same-trans (set_next-Same h p first below)
          (set_first_free-Same (set_next h p first) (some p)),
      (
        refl,
        low,
        high,
        out,
        subst (λ head. Chain (release_page_handle h p) head ps) (sym (moved p below ∙ ground arith))
            (Chain-moved h (release_page_handle h p) first ps (omega arith)
              (λ x i. moved x below ∙ ground (arith, contains_ne x p ps i out)) c),
      ),
    )

-- `delete_record` on a rid of a well formed file, whose page is out of the list of free pages if it is
-- full: either the rid holds no record, this is reported and the file unchanged; or it holds one, the
-- call succeeds and removes it, every other rid holds what it did, and the file is well formed again.
pub delete_record-Changed :
    (h : RmFileHandle) (rid : Rid) (ps : List ℕ) (lsn : Option ℕ)
    → IsValid h
    → Inside h rid
    → Chain h h.file_hdr.first_free_page_no ps
    → ((page_at h rid.page_no).num_records ≡ h.file_hdr.num_records_per_page
        → contains rid.page_no ps ≡ false)
    → ((contents h rid.page_no rid.slot_no ≡ none)
        × (delete_record h rid lsn ≡ (throw (record_not_found rid), h)))
      ⊎ ((old : RmRecord) × (contents h rid.page_no rid.slot_no ≡ some old)
          × ((h' : RmFileHandle) × (delete_record h rid lsn ≡ (done tt, h'))
              × Changed h rid none h'))
unfolding delete_record
delete_record-Changed h rid ps lsn v inside c full =
    let page = page_at h rid.page_no in
    let fetched = fetch_page_handle_valid h rid.page_no v inside.1 in
    let ok = v.each rid.page_no inside.0 inside.1 in
    let held = shown-contents h rid.page_no rid.slot_no v inside.1 in
    elim (Bool-cases (is_set page.bitmap rid.slot_no)) [
      | inl e ↦
          let deleted =
            put_page-Changed h rid (emptied page rid.slot_no lsn) none ps v inside c
              (emptied-PageOk _ page rid.slot_no lsn ok inside.2 e)
              (mark_page_wal_state-Alike _ lsn).1
              (λ s. shown-emptied _ page rid.slot_no lsn s ok inside.2) in
          let linked =
            put_page-Chain h rid.page_no (emptied page rid.slot_no lsn) _ ps
              (omega (arith, v.counted.0, inside.1)) (mark_page_wal_state-Alike _ lsn).1 c in
          inr (
            get_or page.slots rid.slot_no [],
            held ∙ rw e refl,
            elim (Bool-cases (nat_eqb page.num_records h.file_hdr.num_records_per_page)) [
              | inl all ↦
                  let h₁ = put_page h rid.page_no (emptied page rid.slot_no lsn) in
                  let (same, listed) =
                    release_page_handle-Chain h₁ rid.page_no ps deleted.valid inside.0 inside.1
                      (full (ground arith)) linked in
                  (
                    release_page_handle h₁ rid.page_no,
                    rw (delete_record, fetched, e, all) refl,
                    Changed-Same h rid none h₁ _ (rid.page_no ∷ ps) deleted same listed,
                  )
              | inr some_free ↦ (
                put_page h rid.page_no (emptied page rid.slot_no lsn),
                rw (delete_record, fetched, e, some_free) refl,
                deleted,
              )
            ],
          )
      | inr e ↦ inl (held ∙ rw e refl, rw (delete_record, fetched, e) refl)
    ]

-- `update_record` on a rid of a well formed file: either the rid holds no record, this is reported
-- and the file unchanged; or it holds one, the call succeeds and the rid then holds the first bytes of
-- the buffer, as many as a record has, every other rid holds what it did, and the file is well formed.
pub update_record-Changed :
    (h : RmFileHandle) (rid : Rid) (ps buf : List ℕ) (lsn : Option ℕ)
    → IsValid h
    → Inside h rid
    → Chain h h.file_hdr.first_free_page_no ps
    → ((contents h rid.page_no rid.slot_no ≡ none)
        × (update_record h rid buf lsn ≡ (throw (record_not_found rid), h)))
      ⊎ ((old : RmRecord) × (contents h rid.page_no rid.slot_no ≡ some old)
          × ((h' : RmFileHandle) × (update_record h rid buf lsn ≡ (done tt, h'))
              × Changed h rid (some (take h.file_hdr.record_size buf)) h'))
unfolding update_record
update_record-Changed h rid ps buf lsn v inside c =
    let page = page_at h rid.page_no in
    let fetched = fetch_page_handle_valid h rid.page_no v inside.1 in
    let ok = v.each rid.page_no inside.0 inside.1 in
    let held = shown-contents h rid.page_no rid.slot_no v inside.1 in
    let value = take h.file_hdr.record_size buf in
    elim (Bool-cases (is_set page.bitmap rid.slot_no)) [
      | inl e ↦ inr (
        get_or page.slots rid.slot_no [],
        held ∙ rw e refl,
        (
          put_page h rid.page_no (overwritten page rid.slot_no value lsn),
          rw (update_record, fetched, e) refl,
          put_page-Changed h rid (overwritten page rid.slot_no value lsn) (some value) ps v inside c
              (overwritten-PageOk _ page rid.slot_no value lsn ok)
              (mark_page_wal_state-Alike _ lsn).1
              (λ s. shown-overwritten _ page rid.slot_no value lsn s ok inside.2 e),
        ),
      )
      | inr e ↦ inl (held ∙ rw e refl, rw (update_record, fetched, e) refl)
    ]
