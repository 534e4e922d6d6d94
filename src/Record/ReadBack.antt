-- ===== src/Record/ReadBack.antt =====
-- What `get_record` of record/rm_file_handle.cpp reads after `insert_record` and after
-- `update_record`.
use database.Prelude.{
  ℕ, ◌<◌, ◌≡◌, ◌≢◌, sym, ap, ◌∙◌, inl, inr, List, Option, none, some, false, ◌&&◌, arith, nat_eqb,
  if◌then◌else◌, take,
}
use database.Txn.Defs.{Rid, RmRecord, done}
use database.Record.{RmFileHandle}
use database.Record.Ops.{insert_record, get_record, update_record}
use database.Record.Valid.{IsValid, contents}
use database.Record.Chain.{Chain}
use database.Record.Insert.{Inserted, insert_record-Inserted}
use database.Record.Change.{Inside, Changed, found_or, get_record-contents, update_record-Changed}

-- Every record but the one at `rid` is read as before.
abbrev pub ReadsKept : RmFileHandle → Rid → RmFileHandle → Type 0
ReadsKept h rid h' =
    (other : Rid) (value : RmRecord)
    → other ≢ rid
    → other.page_no < h.file_hdr.num_pages
    → get_record h other ≡ done value
    → get_record h' other ≡ done value

found_some :
    (rid : Rid) (held : Option RmRecord) (value : RmRecord)
    → found_or rid held ≡ done value
    → held ≡ some value
found_some rid none value e = ground (arith, e)
found_some rid (some old) value e = ground (arith, e)

some_below :
    (h : RmFileHandle) (rid : Rid) (value : RmRecord)
    → IsValid h
    → contents h rid.page_no rid.slot_no ≡ some value
    → rid.page_no < h.file_hdr.num_pages
unfolding contents
some_below h rid value v e = ground (arith, v.counted.1)

read_some :
    (h : RmFileHandle) (rid : Rid) (value : RmRecord)
    → IsValid h
    → contents h rid.page_no rid.slot_no ≡ some value
    → get_record h rid ≡ done value
read_some h rid value v e =
    get_record-contents h rid v (some_below h rid value v e) ∙ ap (found_or rid) e

other_false :
    (rid other : Rid)
    → other ≢ rid
    → (nat_eqb rid.page_no other.page_no && nat_eqb rid.slot_no other.slot_no) ≡ false
other_false rid other ne = ground arith

-- Where only the record at `rid` changes, the others are read as before.
kept_reads :
    (h : RmFileHandle) (rid : Rid) (value : Option RmRecord) (h' : RmFileHandle)
    → IsValid h
    → IsValid h'
    → ((p slot : ℕ)
        → contents h' p slot ≡ (
            if nat_eqb rid.page_no p && nat_eqb rid.slot_no slot then value else contents h p slot))
    → ReadsKept h rid h'
kept_reads h rid value h' v v' each other old ne below read =
    let held : contents h other.page_no other.slot_no ≡ some old =
      found_some other _ old (sym (get_record-contents h other v below) ∙ read) in
    read_some h' other old v'
      (each other.page_no other.slot_no ∙ rw (other_false rid other ne) held)

here_true :
    {A : Type 0} (rid : Rid) (a b : A)
    → (if nat_eqb rid.page_no rid.page_no && nat_eqb rid.slot_no rid.slot_no then a else b) ≡ a
here_true rid a b = ground arith

abbrev Reread : RmFileHandle → List ℕ → List ℕ → Option ℕ → Option ℕ → Type 0
Reread h buf new_buf lsn new_lsn =
    (rid : Rid) × (h₁ : RmFileHandle) × (h₂ : RmFileHandle) × (insert_record h buf lsn
      ≡ (done rid, h₁))
    × (get_record h₁ rid ≡ done (take h.file_hdr.record_size buf))
    × ReadsKept h rid h₁
    × (update_record h₁ rid new_buf new_lsn ≡ (done tt, h₂))
    × (get_record h₂ rid ≡ done (take h.file_hdr.record_size new_buf))
    × ReadsKept h₁ rid h₂

updated :
    (h : RmFileHandle) (buf new_buf : List ℕ) (lsn new_lsn : Option ℕ) (rid : Rid)
    (h₁ : RmFileHandle)
    → IsValid h
    → insert_record h buf lsn ≡ (done rid, h₁)
    → Inserted h (take h.file_hdr.record_size buf) rid h₁
    → contents h₁ rid.page_no rid.slot_no ≡ some (take h.file_hdr.record_size buf)
    → ((h₂ : RmFileHandle) × (update_record h₁ rid new_buf new_lsn ≡ (done tt, h₂))
        × Changed h₁ rid (some (take h₁.file_hdr.record_size new_buf)) h₂)
    → Reread h buf new_buf lsn new_lsn
updated h buf new_buf lsn new_lsn rid h₁ v ran put here (h₂, again, changed) = (
  rid,
  h₁,
  h₂,
  ran,
  read_some h₁ rid _ put.valid here,
  kept_reads h rid _ h₁ v put.valid put.records,
  again,
  read_some h₂ rid _ changed.valid (
      changed.records rid.page_no rid.slot_no
      ∙ here_true rid _ _
      ∙ ap (λ n. some (take n new_buf)) put.sizes.1),
  kept_reads h₁ rid _ h₂ put.valid changed.valid changed.records,
)

-- In a well formed file, `insert_record` succeeds at a rid where `get_record` then reads the first bytes
-- of the buffer, as many as a record has. An update of that rid succeeds too, and `get_record` then
-- reads the bytes of the update's buffer there. Neither call changes what is read at another rid that
-- had a record.
pub get_record-insert_record :
    (h : RmFileHandle) (ps buf new_buf : List ℕ) (lsn new_lsn : Option ℕ)
    → IsValid h
    → Chain h h.file_hdr.first_free_page_no ps
    → (rid : Rid) × (h₁ : RmFileHandle) × (h₂ : RmFileHandle) × (insert_record h buf lsn
        ≡ (done rid, h₁))
      × (get_record h₁ rid ≡ done (take h.file_hdr.record_size buf))
      × ReadsKept h rid h₁
      × (update_record h₁ rid new_buf new_lsn ≡ (done tt, h₂))
      × (get_record h₂ rid ≡ done (take h.file_hdr.record_size new_buf))
      × ReadsKept h₁ rid h₂
get_record-insert_record h ps buf new_buf lsn new_lsn v c =
    inserted (insert_record-Inserted h ps buf lsn v c)
  where
    inserted :
        ((rid : Rid) × (h₁ : RmFileHandle) × (insert_record h buf lsn ≡ (done rid, h₁))
          × Inserted h (take h.file_hdr.record_size buf) rid h₁)
        → Reread h buf new_buf lsn new_lsn
    inserted (rid, h₁, ran, put) =
        let here : contents h₁ rid.page_no rid.slot_no ≡ some (take h.file_hdr.record_size buf) =
          put.records rid.page_no rid.slot_no ∙ here_true rid _ _ in
        let inside : Inside h₁ rid =
          (put.inside.0, put.inside.1, omega (arith, put.inside.2, put.sizes.0)) in
        elim (update_record-Changed h₁ rid put.list new_buf new_lsn put.valid inside put.chain) [
          | inl (gone, _) ↦ absurd (ground (arith, here, gone))
          | inr (_, _, rest) ↦ updated h buf new_buf lsn new_lsn rid h₁ v ran put here rest
        ]
