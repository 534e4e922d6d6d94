-- ===== src/Record/Insert.antt =====
-- `insert_record(buf)` of record/rm_file_handle.cpp on a well formed file.
use database.Prelude.{
  ℕ, ◌≤◌, ◌<◌, ◌≡◌, refl, ap, subst, ◌∙◌, inl, inr, List, Option, none, some, false, ◌&&◌, arith,
  nat_eqb, if◌then◌else◌, take, Bool-cases,
}
use database.Bitmap.{is_set}
use database.Txn.Defs.{Rid, RmRecord, done}
use database.Record.{RmFileHandle, RmPage, page_at, put_page, slots_of, contains}
use database.Record.Slots.{first_available_slot, taken}
use database.Record.FirstFree.{first_available_slot-IsFirstFree}
use database.Record.FreePages.{create_page_handle}
use database.Record.Ops.{insert_record, insert_into_page, filled, finish_insert}
use database.Record.Valid.{Same, IsValid, contents, Same-IsValid, Same-contents, filled-PageOk}
use database.Record.Moves.{mark_page_wal_state-Alike}
use database.Record.Chain.{Chain}
use database.Record.Room.{Roomy, create_page_handle-Roomy}
use database.Record.Write.{
  put_page-IsValid, put_page-Chain, put_page-contents, shown, shown-filled, finish_insert-Same,
}

-- `h'` holds the record `value` at `rid`, where `h` had none, and else what `h` holds.
pub record Inserted (h : RmFileHandle) (value : RmRecord) (rid : Rid) (h' : RmFileHandle)
    : Type 0 where
  pub valid : IsValid h'
  pub list : List ℕ
  pub chain : Chain h' h'.file_hdr.first_free_page_no list
  pub inside :
      (1 ≤ rid.page_no)
      × (rid.page_no < h'.file_hdr.num_pages)
      × (rid.slot_no < h.file_hdr.num_records_per_page)
  pub sizes :
      (h'.file_hdr.num_records_per_page ≡ h.file_hdr.num_records_per_page)
      × (h'.file_hdr.record_size ≡ h.file_hdr.record_size)
  pub unused :
      (contents h rid.page_no rid.slot_no ≡ none)
      × (contains rid.slot_no (slots_of h.quarantined_slots rid.page_no) ≡ false)
      × (contains rid.slot_no (slots_of h.reserved_slots rid.page_no) ≡ false)
  pub records :
      (p slot : ℕ)
      → contents h' p slot ≡ (
          if nat_eqb rid.page_no p && nat_eqb rid.slot_no slot
          then some value
          else contents h p slot)

not_taken :
    (h : RmFileHandle) (p : ℕ) (page : RmPage) (slot : ℕ)
    → taken h p page slot ≡ false
    → (is_set page.bitmap slot ≡ false)
      × (contains slot (slots_of h.quarantined_slots p) ≡ false)
      × (contains slot (slots_of h.reserved_slots p) ≡ false)
not_taken h p page slot e = ground arith

unset_contents :
    (h : RmFileHandle) (p slot : ℕ)
    → is_set (page_at h p).bitmap slot ≡ false
    → contents h p slot ≡ none
unfolding contents
unset_contents h p slot e = ground arith

pub shown-contents :
    (h : RmFileHandle) (p slot : ℕ)
    → IsValid h
    → p < h.file_hdr.num_pages
    → contents h p slot ≡ shown (page_at h p) slot
unfolding contents
shown-contents h p slot v below = ground (arith, v.counted.1)

-- A file with a record put in a slot of its page `p`.
abbrev put : RmFileHandle → ℕ → ℕ → RmRecord → Option ℕ → RmFileHandle
put h p slot value lsn = put_page h p (filled (page_at h p) slot value lsn)

module _ (h : RmFileHandle) (p slot : ℕ) (value : RmRecord) (lsn : Option ℕ) (v : IsValid h) where
  put-records :
      1 ≤ p
      → p < h.file_hdr.num_pages
      → slot < h.file_hdr.num_records_per_page
      → (q s : ℕ)
      → contents (put h p slot value lsn) q s
        ≡ (if nat_eqb p q && nat_eqb slot s then some value else contents h q s)
  put-records low high below q s = elim (Bool-cases (nat_eqb p q)) [
    | inl e ↦
        let same : p ≡ q = ground arith in
        put_page-contents h p _ q s v high
        ∙ rw (e, ← same)
            (shown-filled _ (page_at h p) slot value lsn s (v.each p low high) below
              ∙ ground (arith, shown-contents h p s v high))
    | inr e ↦ put_page-contents h p _ q s v high ∙ rw e refl
  ]

  put-IsValid :
      1 ≤ p
      → p < h.file_hdr.num_pages
      → slot < h.file_hdr.num_records_per_page
      → is_set (page_at h p).bitmap slot ≡ false
      → IsValid (put h p slot value lsn)
  put-IsValid low high below unset =
      put_page-IsValid h p _ v high
        (filled-PageOk _ (page_at h p) slot value lsn (v.each p low high) below unset)

  put-Chain :
      (ps : List ℕ)
      → p < h.file_hdr.num_pages
      → Chain h h.file_hdr.first_free_page_no ps
      → Chain (put h p slot value lsn) (put h p slot value lsn).file_hdr.first_free_page_no ps
  put-Chain ps high c =
      put_page-Chain h p _ _ ps (omega (arith, v.counted.0)) (mark_page_wal_state-Alike _ lsn).1 c

-- The record is in the file once the page has left the list of free pages or stayed in it.
put-Inserted :
    (h h₁ h₂ : RmFileHandle) (p slot : ℕ) (value : RmRecord) (lsn : Option ℕ) (ps : List ℕ)
    → Roomy h p h₁
    → slot < h₁.file_hdr.num_records_per_page
    → taken h₁ p (page_at h₁ p) slot ≡ false
    → Same (put h₁ p slot value lsn) h₂
    → Chain h₂ h₂.file_hdr.first_free_page_no ps
    → Inserted h value (record { page_no = p; slot_no = slot }) h₂
put-Inserted h h₁ h₂ p slot value lsn ps r below free s linked =
    let (unset, unquarantined, unreserved) = not_taken h₁ p (page_at h₁ p) slot free in
    let filled_valid = put-IsValid h₁ p slot value lsn r.valid r.inside.0 r.inside.1 below unset in
    record {
      valid = Same-IsValid _ h₂ s filled_valid;
      list = ps;
      chain = linked;
      inside =
          (r.inside.0, omega (arith, r.inside.1, s.sizes.0), omega (arith, below, r.keeps.sizes.0));
      sizes = (s.sizes.1 ∙ r.keeps.sizes.0, s.sizes.3 ∙ r.keeps.sizes.1);
      unused = (
        rw (← r.keeps.records p slot) (unset_contents h₁ p slot unset),
        rw (← r.keeps.held.0) unquarantined,
        rw (← r.keeps.held.1) unreserved,
      );
      records = λ q j.
          Same-contents _ h₂ s q j
          ∙ put-records h₁ p slot value lsn r.valid r.inside.0 r.inside.1 below q j
          ∙ rw (r.keeps.records q j) refl;
    }

abbrev Finished : RmFileHandle → ℕ → ℕ → RmRecord → Option ℕ → Type 0
Finished h p slot value lsn =
    let rid : Rid = record { page_no = p; slot_no = slot } in
    (h' : RmFileHandle) × (finish_insert (put h p slot value lsn) p lsn rid ≡ (done rid, h'))
    × Same (put h p slot value lsn) h'
    × ((ps : List ℕ) × Chain h' h'.file_hdr.first_free_page_no ps)

finished :
    (h h₁ : RmFileHandle) (p : ℕ) (buf : List ℕ) (lsn : Option ℕ)
    → Roomy h p h₁
    → Finished h₁ p
        (first_available_slot h₁ p (page_at h₁ p))
        (take h₁.file_hdr.record_size buf)
        lsn
    → (rid : Rid) × (h' : RmFileHandle) × (insert_into_page h₁ p buf lsn ≡ (done rid, h'))
      × Inserted h (take h₁.file_hdr.record_size buf) rid h'
unfolding insert_into_page
finished h h₁ p buf lsn r (h₂, ran, s, (ps, linked)) = (
  record { page_no = p; slot_no = first_available_slot h₁ p (page_at h₁ p) },
  h₂,
  ran,
  (put-Inserted h h₁ h₂ p _ _ lsn ps r r.slot
      ((first_available_slot-IsFirstFree h₁ p (page_at h₁ p)).free r.slot) s linked),
)

insert_into :
    (h h₁ : RmFileHandle) (p : ℕ) (buf : List ℕ) (lsn : Option ℕ)
    → Roomy h p h₁
    → (rid : Rid) × (h' : RmFileHandle) × (insert_into_page h₁ p buf lsn ≡ (done rid, h'))
      × Inserted h (take h₁.file_hdr.record_size buf) rid h'
insert_into h h₁ p buf lsn r =
    let slot = first_available_slot h₁ p (page_at h₁ p) in
    let free = (first_available_slot-IsFirstFree h₁ p (page_at h₁ p)).free r.slot in
    let value = take h₁.file_hdr.record_size buf in
    let (unset, _, _) = not_taken h₁ p (page_at h₁ p) slot free in
    let ready = put-IsValid h₁ p slot value lsn r.valid r.inside.0 r.inside.1 r.slot unset in
    let linked = put-Chain h₁ p slot value lsn r.valid r.list r.inside.1 r.chain in
    finished h h₁ p buf lsn r (
      finish_insert-Same (put h₁ p slot value lsn) p r.list lsn
        (record { page_no = p; slot_no = slot }) ready r.inside.1 linked)

abbrev Inserts : RmFileHandle → List ℕ → Option ℕ → Type 0
Inserts h buf lsn =
    (rid : Rid) × (h' : RmFileHandle) × (insert_record h buf lsn ≡ (done rid, h'))
    × Inserted h (take h.file_hdr.record_size buf) rid h'

-- On a well formed file `insert_record` ends without an error, and answers with a rid of the file that
-- held no record and was neither quarantined nor reserved. Afterwards the file is well formed, the
-- rid holds the bytes of the buffer, and every other rid what it held.
pub insert_record-Inserted :
    (h : RmFileHandle) (ps buf : List ℕ) (lsn : Option ℕ)
    → IsValid h
    → Chain h h.file_hdr.first_free_page_no ps
    → (rid : Rid) × (h' : RmFileHandle) × (insert_record h buf lsn ≡ (done rid, h'))
      × Inserted h (take h.file_hdr.record_size buf) rid h'
unfolding insert_record
insert_record-Inserted h ps buf lsn v c = into (create_page_handle-Roomy h ps v c)
  where
    and_then :
        (p : ℕ) (h₁ : RmFileHandle)
        → create_page_handle h ≡ (done p, h₁)
        → h₁.file_hdr.record_size ≡ h.file_hdr.record_size
        → ((rid : Rid) × (h' : RmFileHandle) × (insert_into_page h₁ p buf lsn ≡ (done rid, h'))
            × Inserted h (take h₁.file_hdr.record_size buf) rid h')
        → Inserts h buf lsn
    and_then p h₁ found size (rid, h₂, ran, put_in) = (
      rid,
      h₂,
      simp (insert_record, found, ran),
      subst (λ value. Inserted h value rid h₂) (ap (λ n. take n buf) size) put_in,
    )

    into :
        ((p : ℕ) × (h₁ : RmFileHandle) × (create_page_handle h ≡ (done p, h₁)) × Roomy h p h₁)
        → Inserts h buf lsn
    into (p, h₁, found, r) = and_then p h₁ found r.keeps.sizes.1 (insert_into h h₁ p buf lsn r)
