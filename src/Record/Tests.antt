-- ===== src/Record/Tests.antt =====
-- Runs of record/rm_file_handle.cpp and record/rm_scan.cpp on the sample file.
use database.Prelude.{ℕ, ◌≡◌, ◌⊎◌, refl, [], ◌∷◌, Option, none, some, arith, nat_eq}
use database.Bitmap.{is_set, next_bit, search_bit}
use database.Txn.Defs.{Rid, RmRecord, done, throw, record_not_found}
use database.Record.{RmFileHandle, fetch_page_handle}
use database.Record.ReadBack.{ReadsKept, get_record-insert_record}
use database.Record.Sample.{two_pages, two_pages-IsValid, two_pages-Chain}
use database.Record.FreePages.{create_page_handle}
use database.Record.Ops.{insert_record, get_record, delete_record, update_record}
use database.Record.Scan.{next_from}
use database.Record.ScanOrder.{Next, next_from-Next}
use database.Record.Layout.{create_file_hdr, create_file_hdr-Fits, Fits, laid_out}
use database.Record.Valid.{contents}
use database.Record.Room.{Roomy, create_page_handle-Roomy}
use database.Record.Insert.{Inserted, insert_record-Inserted}
use database.Record.Change.{Inside, Changed, delete_record-Changed, update_record-Changed}

abbrev first_rid : Rid
first_rid = record { page_no = 1; slot_no = 0 }

first_rid-Inside : Inside two_pages first_rid
first_rid-Inside = (omega arith, omega arith, omega arith)

insert_record_example :
    (rid : Rid) × (h' : RmFileHandle) × (insert_record two_pages (5 ∷ 6 ∷ 9 ∷ []) (some 4)
      ≡ (done rid, h'))
    × Inserted two_pages (5 ∷ 6 ∷ []) rid h'
insert_record_example =
    insert_record-Inserted two_pages (2 ∷ 1 ∷ []) (5 ∷ 6 ∷ 9 ∷ []) (some 4) two_pages-IsValid
      two_pages-Chain

create_page_handle_example :
    (page_no : ℕ) × (h' : RmFileHandle) × (create_page_handle two_pages ≡ (done page_no, h'))
    × Roomy two_pages page_no h'
create_page_handle_example =
    create_page_handle-Roomy two_pages (2 ∷ 1 ∷ []) two_pages-IsValid two_pages-Chain

reread_example :
    (rid : Rid) × (h₁ : RmFileHandle) × (h₂ : RmFileHandle) × (insert_record two_pages
        (5 ∷ 6 ∷ 9 ∷ [])
        (some 4)
      ≡ (done rid, h₁))
    × (get_record h₁ rid ≡ done (5 ∷ 6 ∷ []))
    × ReadsKept two_pages rid h₁
    × (update_record h₁ rid (3 ∷ 4 ∷ []) none ≡ (done tt, h₂))
    × (get_record h₂ rid ≡ done (3 ∷ 4 ∷ []))
    × ReadsKept h₁ rid h₂
reread_example =
    get_record-insert_record two_pages (2 ∷ 1 ∷ []) (5 ∷ 6 ∷ 9 ∷ []) (3 ∷ 4 ∷ []) (some 4) none
      two_pages-IsValid two_pages-Chain

delete_record_example :
    ((contents two_pages 1 0 ≡ none)
      × (delete_record two_pages first_rid none ≡ (throw (record_not_found first_rid), two_pages)))
    ⊎ ((old : RmRecord) × (contents two_pages 1 0 ≡ some old)
        × ((h' : RmFileHandle) × (delete_record two_pages first_rid none ≡ (done tt, h'))
            × Changed two_pages first_rid none h'))
delete_record_example =
    delete_record-Changed two_pages first_rid (2 ∷ 1 ∷ []) none two_pages-IsValid first_rid-Inside
      two_pages-Chain (λ full. absurd (omega (arith, full)))

update_record_example :
    ((contents two_pages 1 0 ≡ none)
      × (update_record two_pages first_rid (3 ∷ 4 ∷ []) none
          ≡ (throw (record_not_found first_rid), two_pages)))
    ⊎ ((old : RmRecord) × (contents two_pages 1 0 ≡ some old)
        × ((h' : RmFileHandle) × (update_record two_pages first_rid (3 ∷ 4 ∷ []) none
              ≡ (done tt, h'))
            × Changed two_pages first_rid (some (3 ∷ 4 ∷ [])) h'))
update_record_example =
    update_record-Changed two_pages first_rid (2 ∷ 1 ∷ []) (3 ∷ 4 ∷ []) none two_pages-IsValid
      first_rid-Inside two_pages-Chain

next_from_example :
    (found : Option Rid) × (next_from 1 two_pages 1 0 ≡ done found) × Next two_pages 2 1 0 found
next_from_example = next_from-Next 1 two_pages 2 1 0 two_pages-IsValid refl (omega arith)

create_file_hdr_example : Fits (laid_out 100)
create_file_hdr_example = create_file_hdr-Fits 100 (laid_out 100) (unfold create_file_hdr in refl)

-- The scan from the start finds page 1's record, and from behind it nothing.
scan_first : next_from 2 two_pages 1 0 ≡ done (some first_rid)
unfolding next_from fetch_page_handle next_bit search_bit is_set
scan_first = refl

scan_rest : next_from 2 two_pages 1 1 ≡ done none
unfolding next_from fetch_page_handle next_bit search_bit is_set
scan_rest = refl
