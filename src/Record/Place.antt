-- ===== src/Record/Place.antt =====
-- `insert_record` at a given rid and `delete_record_quarantine` of record/rm_file_handle.cpp, which
-- recovery calls, on a well formed file.
use database.Prelude.{
  ℕ, ◌+◌, ◌-◌, ◌≤◌, ◌<◌, ◌≡◌, refl, subst, ◌∙◌, inl, inr, List, Option, none, some, true, false,
  ◌&&◌, arith, nat_eqb, leb, if◌then◌else◌, take, Bool-cases, nat_eq, insert, lookup-insert_ne,
}
use database.Bitmap.{is_set}
use database.Txn.Defs.{Rid, RmRecord, done}
use database.Record.{RmFileHandle, page_at, put_page, slots_of}
use database.Record.Ops.{
  extend_to, insert_record_at, release_quarantine, quarantine, delete_record_quarantine, filled,
  emptied, finish_insert,
}
use database.Record.Valid.{
  Same, IsValid, contents, fetch_page_handle_valid, filled-PageOk, emptied-PageOk,
}
use database.Record.Moves.{mark_page_wal_state-Alike}
use database.Record.Chain.{Chain, Chain-moved}
use database.Record.Grow.{Keeps}
use database.Record.Write.{shown-filled, shown-emptied, finish_insert-Same}
use database.Record.Insert.{shown-contents}
use database.Record.Change.{Inside, Changed, put_page-Changed, Changed-Same}
use database.Record.Extend.{Extended, extend_to-Extended}

-- The quarantine of a page of the file may change without the file's records.
requarantined-IsValid :
    (h : RmFileHandle) (p : ℕ) (slots : List ℕ)
    → IsValid h
    → p < h.file_hdr.num_pages
    → IsValid (record h { quarantined_slots = insert p slots h.quarantined_slots })
requarantined-IsValid h p slots v below = record {
  counted = v.counted;
  capacity = v.capacity;
  each = v.each;
  fresh = λ q high. (
    rw (slots_of, lookup-insert_ne p q slots h.quarantined_slots (λ same. omega arith))
        (v.fresh q high).0,
    (v.fresh q high).1,
  );
}

Changed-requarantined :
    (h h₁ : RmFileHandle) (rid : Rid) (value : Option RmRecord) (slots : List ℕ)
    → Changed h rid value h₁
    → rid.page_no < h₁.file_hdr.num_pages
    → Changed h rid value
        (record h₁ { quarantined_slots = insert rid.page_no slots h₁.quarantined_slots })
unfolding contents
Changed-requarantined h h₁ rid value slots changed below = record {
  valid = requarantined-IsValid h₁ rid.page_no slots changed.valid below;
  list = changed.list;
  chain =
      Chain-moved h₁
        (record h₁ { quarantined_slots = insert rid.page_no slots h₁.quarantined_slots })
        h₁.file_hdr.first_free_page_no changed.list (omega arith) (λ x i. refl) changed.chain;
  sizes = changed.sizes;
  records = changed.records;
}

Keeps-Changed :
    (h h₁ h₂ : RmFileHandle) (rid : Rid) (value : Option RmRecord)
    → Keeps h h₁
    → Changed h₁ rid value h₂
    → Changed h rid value h₂
Keeps-Changed h h₁ h₂ rid value keeps changed = record {
  valid = changed.valid;
  list = changed.list;
  chain = changed.chain;
  sizes = (changed.sizes.0 ∙ keeps.sizes.0, changed.sizes.1 ∙ keeps.sizes.1);
  records = λ p s. changed.records p s ∙ rw (keeps.records p s) refl;
}

-- What the insertion at a rid does.
abbrev Places : RmFileHandle → Rid → List ℕ → Option ℕ → Type 0
Places h rid buf lsn =
    (h' : RmFileHandle) × (insert_record_at h rid buf lsn ≡ (done tt, h'))
    × Changed h rid (some (take h.file_hdr.record_size buf)) h'

-- The file just before the page may leave the list of free pages.
abbrev placed : RmFileHandle → Rid → RmRecord → Option ℕ → RmFileHandle
placed h rid value lsn =
    release_quarantine
      (put_page h rid.page_no (filled (page_at h rid.page_no) rid.slot_no value lsn)) rid

placed-Changed :
    (h : RmFileHandle) (rid : Rid) (value : RmRecord) (lsn : Option ℕ) (ps : List ℕ)
    → IsValid h
    → Inside h rid
    → Chain h h.file_hdr.first_free_page_no ps
    → is_set (page_at h rid.page_no).bitmap rid.slot_no ≡ false
    → Changed h rid (some value) (placed h rid value lsn)
placed-Changed h rid value lsn ps v inside c unset =
    let page = page_at h rid.page_no in
    let ok = v.each rid.page_no inside.0 inside.1 in
    let written =
      put_page-Changed h rid (filled page rid.slot_no value lsn) (some value) ps v inside c
        (filled-PageOk _ page rid.slot_no value lsn ok inside.2 unset)
        (mark_page_wal_state-Alike _ lsn).1
        (λ s. shown-filled _ page rid.slot_no value lsn s ok inside.2) in
    Changed-requarantined h _ rid (some value) _ written inside.1

-- The end of the call, where the page stays in the list of free pages or leaves it.
closed :
    (h h₁ : RmFileHandle) (rid : Rid) (buf : List ℕ) (lsn : Option ℕ)
    → extend_to (rid.page_no + 1 - h.file_hdr.num_pages) h lsn ≡ h₁
    → Extended h (rid.page_no + 1 - h.file_hdr.num_pages) h₁
    → Inside h₁ rid
    → is_set (page_at h₁ rid.page_no).bitmap rid.slot_no ≡ false
    → Changed h₁ rid
        (some (take h₁.file_hdr.record_size buf))
        (placed h₁ rid (take h₁.file_hdr.record_size buf) lsn)
    → ((h' : RmFileHandle) × (finish_insert
            (placed h₁ rid (take h₁.file_hdr.record_size buf) lsn)
            rid.page_no
            lsn
            tt
          ≡ (done tt, h'))
        × Same (placed h₁ rid (take h₁.file_hdr.record_size buf) lsn) h'
        × ((ps : List ℕ) × Chain h' h'.file_hdr.first_free_page_no ps))
    → Places h rid buf lsn
unfolding insert_record_at
closed h h₁ rid buf lsn extended x inside unset changed (h', ran, same, (ps, linked)) = (
  h',
  simp (
    insert_record_at,
    extended,
    fetch_page_handle_valid h₁ rid.page_no x.valid inside.1,
    unset,
    ran,
  ),
  subst (λ n. Changed h rid (some (take n buf)) h') x.keeps.sizes.1
      (Keeps-Changed h h₁ h' rid _ x.keeps (Changed-Same h₁ rid _ _ h' ps changed same linked)),
)

place :
    (h h₁ : RmFileHandle) (rid : Rid) (buf : List ℕ) (lsn : Option ℕ)
    → extend_to (rid.page_no + 1 - h.file_hdr.num_pages) h lsn ≡ h₁
    → Extended h (rid.page_no + 1 - h.file_hdr.num_pages) h₁
    → 1 ≤ rid.page_no
    → rid.slot_no < h.file_hdr.num_records_per_page
    → contents h rid.page_no rid.slot_no ≡ none
    → Places h rid buf lsn
place h h₁ rid buf lsn extended x low below free =
    let inside : Inside h₁ rid =
      (low, omega (arith, x.pages), omega (arith, below, x.keeps.sizes.0)) in
    let empty : contents h₁ rid.page_no rid.slot_no ≡ none = x.keeps.records _ _ ∙ free in
    let unset : is_set (page_at h₁ rid.page_no).bitmap rid.slot_no ≡ false =
      ground (arith, empty, shown-contents h₁ rid.page_no rid.slot_no x.valid inside.1) in
    let value = take h₁.file_hdr.record_size buf in
    let changed = placed-Changed h₁ rid value lsn x.list x.valid inside x.chain unset in
    closed h h₁ rid buf lsn extended x inside unset changed (
      finish_insert-Same (placed h₁ rid value lsn) rid.page_no changed.list lsn tt changed.valid
        inside.1 changed.chain)

-- `insert_record` at a rid of a data page, in the file or behind its end, of a well formed file: a rid
-- that holds a record is refused with the file unchanged, and else the file is extended up to the
-- page, the rid holds the bytes of the buffer, and every other rid what it did.
pub insert_record_at-Changed :
    (h : RmFileHandle) (rid : Rid) (ps buf : List ℕ) (lsn : Option ℕ)
    → IsValid h
    → Chain h h.file_hdr.first_free_page_no ps
    → 1 ≤ rid.page_no
    → rid.slot_no < h.file_hdr.num_records_per_page
    → (contents h rid.page_no rid.slot_no ≡ none)
    → Places h rid buf lsn
insert_record_at-Changed h rid ps buf lsn v c low below free =
    let rounds = rid.page_no + 1 - h.file_hdr.num_pages in
    place h (extend_to rounds h lsn) rid buf lsn refl (extend_to-Extended rounds h ps lsn v c) low
      below free

outside :
    (h : RmFileHandle) (rid : Rid)
    → IsValid h
    → leb h.file_hdr.num_pages rid.page_no ≡ true
    → contents h rid.page_no rid.slot_no ≡ none
unfolding contents
outside h rid v e = ground (arith, v.counted.1)

same_slot :
    (h : RmFileHandle) (rid : Rid)
    → contents h rid.page_no rid.slot_no ≡ none
    → (p s : ℕ)
    → contents h p s
      ≡ (if nat_eqb rid.page_no p && nat_eqb rid.slot_no s then none else contents h p s)
same_slot h rid empty p s = elim (Bool-cases (nat_eqb rid.page_no p && nat_eqb rid.slot_no s)) [
  | inl e ↦
      let (same_page, same) : (rid.page_no ≡ p) × (rid.slot_no ≡ s) =
        (ground arith, ground arith) in
      rw e (rw (← same_page, ← same) empty)
  | inr e ↦ rw e refl
]

-- `delete_record_quarantine` at a rid of a data page, in the file or behind its end, of a well formed
-- file ends without an error; the rid then holds nothing, and every other rid what it did.
pub delete_record_quarantine-Changed :
    (h : RmFileHandle) (rid : Rid) (ps : List ℕ) (lsn : Option ℕ)
    → IsValid h
    → Chain h h.file_hdr.first_free_page_no ps
    → 1 ≤ rid.page_no
    → rid.slot_no < h.file_hdr.num_records_per_page
    → (h' : RmFileHandle) × (delete_record_quarantine h rid lsn ≡ (done tt, h'))
      × Changed h rid none h'
unfolding delete_record_quarantine
delete_record_quarantine-Changed h rid ps lsn v c low below =
    elim (Bool-cases (leb h.file_hdr.num_pages rid.page_no)) [
      | inl e ↦ (h, rw e refl, kept (outside h rid v e))
      | inr e ↦
          let inside : Inside h rid = (low, ground arith, below) in
          let page = page_at h rid.page_no in
          let fetched = fetch_page_handle_valid h rid.page_no v inside.1 in
          let ok = v.each rid.page_no low inside.1 in
          elim (Bool-cases (is_set page.bitmap rid.slot_no)) [
            | inl isset ↦
                let written =
                  put_page-Changed h rid (emptied page rid.slot_no lsn) none ps v inside c
                    (emptied-PageOk _ page rid.slot_no lsn ok below isset)
                    (mark_page_wal_state-Alike _ lsn).1
                    (λ s. shown-emptied _ page rid.slot_no lsn s ok below) in
                (
                  quarantine (put_page h rid.page_no (emptied page rid.slot_no lsn)) rid,
                  rw (e, fetched, isset) refl,
                  Changed-requarantined h _ rid none _ written inside.1,
                )
            | inr unset ↦ (
              h,
              rw (e, fetched, unset) refl,
              kept (shown-contents h rid.page_no rid.slot_no v inside.1 ∙ rw unset refl),
            )
          ]
    ]
  where
    kept : contents h rid.page_no rid.slot_no ≡ none → Changed h rid none h
    kept empty = record {
      valid = v;
      list = ps;
      chain = c;
      sizes = (refl, refl);
      records = λ p s. same_slot h rid empty p s;
    }
