-- ===== src/Record/Room.antt =====
-- `create_page_handle` of record/rm_file_handle.cpp on a well formed file: pages without room are
-- dropped from the list until one has a slot, or a new page is made.
use database.Prelude.{
  ℕ, zero, suc, ◌≤◌, ◌<◌, ◌≡◌, refl, ap, ◌∙◌, inl, inr, List, [], ◌∷◌, Option, none, some, true,
  false, arith, Bool-cases, length,
}
use database.Txn.Defs.{done}
use database.Record.{RmFileHandle, page_at, put_page, mark_wal_free_dirty, mark_page_wal_state}
use database.Record.Slots.{first_available_slot, page_has_available_slot}
use database.Record.FreePages.{
  create_new_page_handle_unlocked, find_free_page, create_page_handle, unlink_free_page_if_needed,
}
use database.Record.Valid.{
  Same, Same-refl, Same-trans, IsValid, Same-IsValid, fetch_page_handle_valid,
}
use database.Record.Moves.{put_page-Same, put_page-next, mark_page_wal_state-Alike}
use database.Record.Chain.{Chain, Chain-moved, without_head}
use database.Record.Distinct.{length-Chain}
use database.Record.Unlink.{unlink_free_page_if_needed-Chain, Unlinks}
use database.Record.Grow.{
  Keeps, Same-Keeps, Keeps-trans, grown, grown-IsValid, grown-Keeps, grown-Chain, grown_room,
}

-- The page that a call answers with has a slot to fill, and is in the list of free pages.
pub record Roomy (h : RmFileHandle) (page_no : ℕ) (h' : RmFileHandle) : Type 0 where
  pub valid : IsValid h'
  pub keeps : Keeps h h'
  pub inside : (1 ≤ page_no) × (page_no < h'.file_hdr.num_pages)
  pub slot : first_available_slot h' page_no (page_at h' page_no) < h'.file_hdr.num_records_per_page
  pub list : List ℕ
  pub chain : Chain h' h'.file_hdr.first_free_page_no list

-- On a well formed file, the search ends without an error.
abbrev pub Finds : RmFileHandle → ℕ → Option ℕ → Type 0
Finds h rounds head =
    (page_no : ℕ) × (h' : RmFileHandle) × (find_free_page rounds h head ≡ (done page_no, h'))
    × Roomy h page_no h'

new_page-Finds :
    (rounds : ℕ) (h : RmFileHandle)
    → IsValid h
    → Chain h h.file_hdr.first_free_page_no []
    → Finds h rounds none
unfolding find_free_page create_new_page_handle_unlocked
new_page-Finds rounds h v c = (
  h.file_hdr.num_pages,
  grown h,
  refl,
  record {
    valid = grown-IsValid h v;
    keeps = grown-Keeps h v;
    inside = (v.capacity.0, omega arith);
    slot = grown_room h v;
    list = h.file_hdr.num_pages ∷ [];
    chain = grown-Chain h v [] c;
  },
)

abbrev head_of : List ℕ → Option ℕ
head_of [] = none
head_of (p ∷ ps) = some p

Chain-head :
    (h : RmFileHandle) (head : Option ℕ) (ps : List ℕ) → Chain h head ps → head ≡ head_of ps
Chain-head h head [] c = c
Chain-head h head (p ∷ ps) c = c.0

-- What is left of the file when its first free page has no room.
abbrev marked : RmFileHandle → ℕ → RmFileHandle
marked h p = put_page h p (mark_wal_free_dirty (page_at h p))

marked-Same :
    (h : RmFileHandle) (p : ℕ) (ps : List ℕ)
    → IsValid h
    → Chain h h.file_hdr.first_free_page_no (p ∷ ps)
    → Same h (marked h p) × Chain (marked h p) (marked h p).file_hdr.first_free_page_no (p ∷ ps)
unfolding mark_page_wal_state
marked-Same h p ps v c =
    let (alike, kept) = mark_page_wal_state-Alike (page_at h p) none in
    let below : p < length h.pages = omega (arith, v.counted.0, c.2) in
    (
      put_page-Same h p _ below alike,
      Chain-moved h (marked h p) _ (p ∷ ps) (omega arith)
          (λ x i.
            ground (arith, put_page-next h p (mark_wal_free_dirty (page_at h p)) x below, kept))
          c,
    )

-- The search after the first page was dropped, as a part of the whole search.
dropped :
    (rounds : ℕ) (h h₁ : RmFileHandle) (p : ℕ) (ps : List ℕ)
    → IsValid h
    → p < h.file_hdr.num_pages
    → page_has_available_slot h p (page_at h p) ≡ false
    → unlink_free_page_if_needed (marked h p) p none ≡ (done tt, h₁)
    → Keeps h h₁
    → h₁.file_hdr.first_free_page_no ≡ head_of ps
    → Finds h₁ rounds (head_of ps)
    → Finds h (suc rounds) (some p)
unfolding find_free_page
dropped rounds h h₁ p ps v below full ran keeps first (q, h', found, r) = (
  q,
  h',
  simp (find_free_page, fetch_page_handle_valid h p v below, full, ran, first, found),
  record {
    valid = r.valid;
    keeps = Keeps-trans h h₁ h' keeps r.keeps;
    inside = r.inside;
    slot = r.slot;
    list = r.list;
    chain = r.chain;
  },
)

next_page :
    (rounds : ℕ) (h : RmFileHandle) (p : ℕ) (ps : List ℕ)
    → IsValid h
    → Chain h h.file_hdr.first_free_page_no (p ∷ ps)
    → page_has_available_slot h p (page_at h p) ≡ false
    → Same h (marked h p)
    → ((h₁ : RmFileHandle)
        → IsValid h₁
        → Chain h₁ h₁.file_hdr.first_free_page_no ps
        → Finds h₁ rounds (head_of ps))
    → Unlinks (marked h p) p (p ∷ ps) none
    → Finds h (suc rounds) (some p)
next_page rounds h p ps v c e same rest (h₁, ran, s, left) =
    let kept = Same-trans same s in
    let linked : Chain h₁ h₁.file_hdr.first_free_page_no ps = rw (without_head p ps c.3) at left in
    dropped rounds h h₁ p ps v c.2 e ran (Same-Keeps h h₁ kept) (Chain-head h₁ _ ps linked)
      (rest h₁ (Same-IsValid h h₁ kept v) linked)

roomy :
    (h : RmFileHandle) (p : ℕ)
    → page_has_available_slot h p (page_at h p) ≡ true
    → first_available_slot h p (page_at h p) < h.file_hdr.num_records_per_page
unfolding page_has_available_slot
roomy h p e = ground arith

find_free_page-Finds :
    (rounds : ℕ) (h : RmFileHandle) (ps : List ℕ)
    → IsValid h
    → Chain h h.file_hdr.first_free_page_no ps
    → length ps ≤ rounds
    → Finds h rounds (head_of ps)
unfolding find_free_page
find_free_page-Finds rounds h [] v c enough = new_page-Finds rounds h v c
find_free_page-Finds zero h (p ∷ ps) v c enough = absurd (omega arith)
find_free_page-Finds (suc rounds) h (p ∷ ps) v c enough =
    elim (Bool-cases (page_has_available_slot h p (page_at h p))) [
      | inl e ↦ (
        p,
        h,
        rw (find_free_page, fetch_page_handle_valid h p v c.2, e) refl,
        record {
          valid = v;
          keeps = Same-Keeps h h (Same-refl h);
          inside = (c.1, c.2);
          slot = roomy h p e;
          list = p ∷ ps;
          chain = c;
        },
      )
      | inr e ↦
          let (same, linked) = marked-Same h p ps v c in
          next_page rounds h p ps v c e same
            (λ h₁ v₁ c₁. find_free_page-Finds rounds h₁ ps v₁ c₁ (omega arith))
            (unlink_free_page_if_needed-Chain (marked h p) p (p ∷ ps) none (Same-IsValid h _ same v)
              linked (omega (arith, c.2)))
    ]

-- On a well formed file `create_page_handle` ends without an error, within as many rounds as the file
-- has pages. The page it answers with has an available slot, the file is well formed again, and no
-- record, quarantine or reservation has changed.
pub create_page_handle-Roomy :
    (h : RmFileHandle) (ps : List ℕ)
    → IsValid h
    → Chain h h.file_hdr.first_free_page_no ps
    → (page_no : ℕ) × (h' : RmFileHandle) × (create_page_handle h ≡ (done page_no, h'))
      × Roomy h page_no h'
unfolding create_page_handle
create_page_handle-Roomy h ps v c =
    let (q, h', found, r) =
      find_free_page-Finds h.file_hdr.num_pages h ps v c (length-Chain h _ ps c) in
    (q, h', ap (find_free_page h.file_hdr.num_pages h) (Chain-head h _ ps c) ∙ found, r)
