-- ===== src/Recovery/Replay/Images.antt =====
-- What the calls of recovery/log_recovery.cpp on the heap files leave at each tuple.
use database.Prelude.{
  ℕ, zero, suc, ◌≤◌, ◌<◌, ◌≡◌, refl, sym, ap, subst, ◌∙◌, inl, inr, List, [], ◌∷◌, Option, none,
  some, Bool, true, if◌then◌else◌, leb, length, take, lookup, lookup-insert, insert as map_insert,
  has_value, arith, Bool-cases, Option-cases,
}
use database.Bitmap.{is_set}
use database.Txn.Defs.{Rid, RmRecord, Result, done}
use database.Txn.Unique.Keys.{bytes_eqb, bytes_eqb_iff}
use database.Record.{RmFileHandle, page_at}
use database.Record.Ops.{is_record, insert_record_at}
use database.Record.Valid.{IsValid, contents, fetch_page_handle_valid}
use database.Record.Chain.{Chain}
use database.Record.Insert.{shown-contents}
use database.Record.Change.{Changed, update_record-Changed}
use database.Record.Place.{insert_record_at-Changed}
use database.Recovery.Replay.{
  Tables, RowKey, row_key_eqb, bytes_eq, heap_rid_exists, apply_image, on_table,
}

take_all : {A : Type 0} (n : ℕ) (xs : List A) → length xs ≡ n → take n xs ≡ xs
take_all zero [] h = refl
take_all zero (x ∷ xs) h = absurd (omega (arith, h))
take_all (suc n) [] h = refl
take_all (suc n) (x ∷ xs) h = ap (λ ys. x ∷ ys) (take_all n xs (omega (arith, h)))

past_end :
    (fh : RmFileHandle) (rid : Rid)
    → IsValid fh
    → leb fh.file_hdr.num_pages rid.page_no ≡ true
    → contents fh rid.page_no rid.slot_no ≡ none
unfolding contents
past_end fh rid v e = ground (arith, v.counted.1)

-- An image written at a rid of a data page is what the file then holds there.
pub apply_image-Changed :
    (fh : RmFileHandle) (rid : Rid) (value : RmRecord) (lsn : ℕ) (ps : List ℕ)
    → IsValid fh
    → Chain fh fh.file_hdr.first_free_page_no ps
    → 1 ≤ rid.page_no
    → rid.slot_no < fh.file_hdr.num_records_per_page
    → length value ≡ fh.file_hdr.record_size
    → (fh' : RmFileHandle) × (apply_image fh rid value lsn ≡ (done tt, fh'))
      × Changed fh rid (some value) fh'
unfolding apply_image heap_rid_exists is_record
apply_image-Changed fh rid value lsn ps v c low below size =
    elim (Bool-cases (leb fh.file_hdr.num_pages rid.page_no)) [
      | inl e ↦ fresh (rw (apply_image, heap_rid_exists, e) refl) (outside e)
      | inr e ↦
          let inside : rid.page_no < fh.file_hdr.num_pages = ground arith in
          let fetched = fetch_page_handle_valid fh rid.page_no v inside in
          let held = shown-contents fh rid.page_no rid.slot_no v inside in
          elim (Bool-cases (is_set (page_at fh rid.page_no).bitmap rid.slot_no)) [
            | inl isset ↦
                elim (update_record-Changed fh rid ps value (some lsn) v (low, inside, below) c) [
                  | inl (gone, _) ↦ absurd (ground (arith, held, gone))
                  | inr (_, _, (fh', ran, changed)) ↦ (
                    fh',
                    rw (apply_image, heap_rid_exists, e, is_record, fetched, isset) ran,
                    whole changed,
                  )
                ]
            | inr unset ↦
                fresh (rw (apply_image, heap_rid_exists, e, is_record, fetched, unset) refl)
                  (held ∙ rw unset refl)
          ]
    ]
  where
    whole :
        {fh' : RmFileHandle}
        → Changed fh rid (some (take fh.file_hdr.record_size value)) fh'
        → Changed fh rid (some value) fh'
    whole {fh'} changed =
        subst (λ bytes. Changed fh rid (some bytes) fh') (take_all _ value size) changed

    outside :
        leb fh.file_hdr.num_pages rid.page_no ≡ true → contents fh rid.page_no rid.slot_no ≡ none
    outside e = past_end fh rid v e

    fresh :
        apply_image fh rid value lsn ≡ insert_record_at fh rid value (some lsn)
        → contents fh rid.page_no rid.slot_no ≡ none
        → (fh' : RmFileHandle) × (apply_image fh rid value lsn ≡ (done tt, fh'))
          × Changed fh rid (some value) fh'
    fresh same empty =
        let (fh', ran, changed) =
          insert_record_at-Changed fh rid ps value (some lsn) v c low below empty in
        (fh', same ∙ ran, whole changed)

-- What the open tables hold at a tuple.
unfoldable pub row : Tables → RowKey → Option RmRecord
row fhs key = elim (lookup key.table_name fhs) [
  | none ↦ none
  | some fh ↦ contents fh key.rid.page_no key.rid.slot_no
]

abbrev pub is_open : Tables → List ℕ → Bool
is_open fhs table_name = has_value (lookup table_name fhs)

-- Well formed files, with the sizes that their tables have.
module _ (slots size : List ℕ → ℕ) where
  abbrev pub FileOk : List ℕ → Option RmFileHandle → Type 0
  FileOk table_name none = Unit
  FileOk table_name (some fh) =
      IsValid fh
      × ((ps : List ℕ) × Chain fh fh.file_hdr.first_free_page_no ps)
      × (fh.file_hdr.num_records_per_page ≡ slots table_name)
      × (fh.file_hdr.record_size ≡ size table_name)

  abbrev pub TablesOk : Tables → Type 0
  TablesOk fhs = (table_name : List ℕ) → FileOk table_name (lookup table_name fhs)

  -- The tables hold `value` at the tuple, if its table is open, and else what they did.
  pub record Wrote (fhs : Tables) (key : RowKey) (value : Option RmRecord) (fhs' : Tables)
      : Type 0 where
    pub tables : TablesOk fhs'
    pub opened : (table_name : List ℕ) → is_open fhs' table_name ≡ is_open fhs table_name
    pub rows :
        (k : RowKey)
        → is_open fhs k.table_name ≡ true
        → row fhs' k ≡ (if row_key_eqb key k then value else row fhs k)

  closed-Wrote :
      (fhs : Tables) (key : RowKey) (value : Option RmRecord)
      → TablesOk fhs
      → lookup key.table_name fhs ≡ none
      → Wrote fhs key value fhs
  closed-Wrote fhs key value ok e = record {
    tables = ok;
    opened = λ name. refl;
    rows = λ k open_k. elim (Bool-cases (row_key_eqb key k)) [
      | inl same ↦
          let name : key.table_name ≡ k.table_name =
            (bytes_eqb_iff key.table_name k.table_name).0 (ground arith) in
          let gone : lookup k.table_name fhs ≡ none = ap (λ n. lookup n fhs) (sym name) ∙ e in
          absurd (ground (arith, open_k, gone))
      | inr off ↦ rw off refl
    ];
  }

  stored-Wrote :
      (fhs : Tables) (key : RowKey) (value : Option RmRecord) (fh fh' : RmFileHandle)
      → TablesOk fhs
      → lookup key.table_name fhs ≡ some fh
      → Changed fh key.rid value fh'
      → Wrote fhs key value (map_insert key.table_name fh' fhs)
  unfolding row
  stored-Wrote fhs key value fh fh' ok e changed =
      let (valid, linked, same_slots, same_size) =
        subst (FileOk key.table_name) e (ok key.table_name) in
      let new = λ (name : List ℕ). lookup-insert key.table_name name fh' fhs in
      record {
        tables = λ name. elim (Bool-cases (bytes_eqb key.table_name name)) [
          | inl same ↦
              let named : key.table_name ≡ name = (bytes_eqb_iff key.table_name name).0 same in
              rw (new name, same)
                (
                  changed.valid,
                  (changed.list, changed.chain),
                  changed.sizes.0 ∙ same_slots ∙ ap slots named,
                  changed.sizes.1 ∙ same_size ∙ ap size named,
                )
          | inr off ↦ rw (new name, off) (ok name)
        ];
        opened = λ name. elim (Bool-cases (bytes_eqb key.table_name name)) [
          | inl same ↦
              let named : key.table_name ≡ name = (bytes_eqb_iff key.table_name name).0 same in
              rw (new name, same, ← named, e) refl
          | inr off ↦ rw (new name, off) refl
        ];
        rows = λ k open_k. elim (Bool-cases (bytes_eqb key.table_name k.table_name)) [
          | inl same ↦
              let named : key.table_name ≡ k.table_name =
                (bytes_eqb_iff key.table_name k.table_name).0 same in
              rw (row, new k.table_name, same, ← named, e)
                (changed.records k.rid.page_no k.rid.slot_no)
          | inr off ↦ rw (row, new k.table_name, off) refl
        ];
      }

  pub on_table-Wrote :
      (fhs : Tables) (key : RowKey) (value : Option RmRecord)
      (call : RmFileHandle → Result (Unit {0}) × RmFileHandle)
      → TablesOk fhs
      → ((fh : RmFileHandle)
          → lookup key.table_name fhs ≡ some fh
          → (fh' : RmFileHandle) × (call fh ≡ (done tt, fh')) × Changed fh key.rid value fh')
      → (fhs' : Tables) × (on_table fhs key.table_name call ≡ (done tt, fhs'))
        × Wrote fhs key value fhs'
  unfolding on_table
  on_table-Wrote fhs key value call ok run = elim (Option-cases (lookup key.table_name fhs)) [
    | inl e ↦ (fhs, rw (on_table, e) refl, closed-Wrote fhs key value ok e)
    | inr (fh, e) ↦ after fh e (run fh e)
  ]
    where
      after :
          (fh : RmFileHandle)
          → lookup key.table_name fhs ≡ some fh
          → ((fh' : RmFileHandle) × (call fh ≡ (done tt, fh')) × Changed fh key.rid value fh')
          → (fhs' : Tables) × (on_table fhs key.table_name call ≡ (done tt, fhs'))
            × Wrote fhs key value fhs'
      after fh e (fh', ran, changed) = (
        map_insert key.table_name fh' fhs,
        simp (on_table, e, ran),
        stored-Wrote fhs key value fh fh' ok e changed,
      )
