-- ===== src/Record/Grow.antt =====
-- New pages and pages with room: `create_new_page_handle_unlocked` and `create_page_handle` of
-- record/rm_file_handle.cpp on a well formed file.
use database.Prelude.{
  ℕ, zero, suc, ◌≤◌, ◌<◌, ◌≡◌, refl, sym, ap, ◌∙◌, inl, inr, List, [], ◌∷◌, true, false, arith,
  nat_eqb, Bool-cases, length-append, ltb, get_or-append_before, get_or-append_at,
  get_or-append_past, length-replicate,
}
use database.Bitmap.{is_set}
use database.Bitmap.Bits.{is_set-init, init-IsBitmap}
use database.Record.{RmFileHandle, RmPage, page_at, contains, blank_page, mark_wal_free_dirty}
use database.Record.Slots.{first_available_slot}
use database.Record.FirstFree.{first_available_slot_room}
use database.Record.FreePages.{fresh_page, create_new_page_handle_unlocked}
use database.Record.Valid.{Same, IsValid, PageOk, contents, count_set, Same-contents}
use database.Record.Chain.{Chain, Chain-moved, next_of, Chain-member}

-- The file may have new pages, but its records and the slots held back are the same.
pub record Keeps (h h' : RmFileHandle) : Type 0 where
  pub sizes :
      (h'.file_hdr.num_records_per_page ≡ h.file_hdr.num_records_per_page)
      × (h'.file_hdr.record_size ≡ h.file_hdr.record_size)
      × (h.file_hdr.num_pages ≤ h'.file_hdr.num_pages)
  pub held : (h'.quarantined_slots ≡ h.quarantined_slots) × (h'.reserved_slots ≡ h.reserved_slots)
  pub records : (p slot : ℕ) → contents h' p slot ≡ contents h p slot

pub Same-Keeps : (h h' : RmFileHandle) → Same h h' → Keeps h h'
Same-Keeps h h' s = record {
  sizes = (s.sizes.1, s.sizes.3, omega (arith, s.sizes.0));
  held = s.held;
  records = Same-contents h h' s;
}

pub Keeps-trans : (h h₁ h₂ : RmFileHandle) → Keeps h h₁ → Keeps h₁ h₂ → Keeps h h₂
Keeps-trans h h₁ h₂ a b = record {
  sizes = (b.sizes.0 ∙ a.sizes.0, b.sizes.1 ∙ a.sizes.1, omega (arith, a.sizes.2, b.sizes.2));
  held = (b.held.0 ∙ a.held.0, b.held.1 ∙ a.held.1);
  records = λ p slot. b.records p slot ∙ a.records p slot;
}

count_set-none : (n : ℕ) (bm : List ℕ) → ((j : ℕ) → is_set bm j ≡ false) → count_set n bm ≡ 0
unfolding count_set
count_set-none zero bm h = refl
count_set-none (suc n) bm h = ground (arith, h n, count_set-none n bm h)

abbrev pub grown : RmFileHandle → RmFileHandle
grown h = (create_new_page_handle_unlocked h).1

module _ (h : RmFileHandle) (v : IsValid h) where
  page_at-before : (p : ℕ) → p < h.file_hdr.num_pages → page_at (grown h) p ≡ page_at h p
  unfolding create_new_page_handle_unlocked
  page_at-before p below = get_or-append_before h.pages _ p blank_page (omega (arith, v.counted.0))

  page_at-new : page_at (grown h) h.file_hdr.num_pages ≡ fresh_page h
  unfolding create_new_page_handle_unlocked
  page_at-new = rw (← v.counted.0) (get_or-append_at h.pages (fresh_page h) blank_page)

  page_at-past : (p : ℕ) → h.file_hdr.num_pages < p → page_at (grown h) p ≡ blank_page
  unfolding create_new_page_handle_unlocked
  page_at-past p past =
      get_or-append_past h.pages (fresh_page h) blank_page p (omega (arith, v.counted.0))

  fresh_page-unset : (j : ℕ) → is_set (fresh_page h).bitmap j ≡ false
  unfolding mark_wal_free_dirty
  fresh_page-unset j = is_set-init h.file_hdr.bitmap_size j

  fresh_page-PageOk : PageOk h.file_hdr.num_records_per_page (fresh_page h)
  unfolding mark_wal_free_dirty
  fresh_page-PageOk = record {
    bits = init-IsBitmap _ h.file_hdr.bitmap_size (omega (arith, v.capacity.2));
    room = length-replicate h.file_hdr.num_records_per_page [];
    count = sym (count_set-none _ _ fresh_page-unset);
  }

  pub grown-IsValid : IsValid (grown h)
  unfolding create_new_page_handle_unlocked
  grown-IsValid = record {
    counted = (rw (length-append h.pages (fresh_page h ∷ [])) (omega (arith, v.counted.0)), refl);
    capacity = (omega (arith, v.capacity.0), v.capacity.1, v.capacity.2);
    each = λ p low high. elim (Bool-cases (ltb p h.file_hdr.num_pages)) [
      | inl e ↦
          let below : p < h.file_hdr.num_pages = ground arith in
          rw (page_at-before p below) (v.each p low below)
      | inr e ↦
          let same : p ≡ h.file_hdr.num_pages = ground arith in
          rw (same, page_at-new) fresh_page-PageOk
    ];
    fresh = λ p high. v.fresh p (omega arith);
  }

  grown-contents : (p slot : ℕ) → contents (grown h) p slot ≡ contents h p slot
  unfolding contents create_new_page_handle_unlocked
  grown-contents p slot = elim (Bool-cases (ltb p h.file_hdr.num_pages)) [
    | inl e ↦ let same = page_at-before p (ground arith) in rw (v.counted.1, e, same) (ground arith)
    | inr e ↦ elim (Bool-cases (nat_eqb p h.file_hdr.num_pages)) [
      | inl at ↦
          let same : p ≡ h.file_hdr.num_pages = ground arith in
          rw (v.counted.1, same, page_at-new) (ground (arith, fresh_page-unset slot))
      | inr off ↦ rw v.counted.1 (ground (arith, page_at-past p))
    ]
  ]

  pub grown-Keeps : Keeps h (grown h)
  unfolding create_new_page_handle_unlocked
  grown-Keeps = record {
    sizes = (refl, refl, omega arith);
    held = (refl, refl);
    records = grown-contents;
  }

  pub grown-Chain :
      (ps : List ℕ)
      → Chain h h.file_hdr.first_free_page_no ps
      → Chain (grown h) (grown h).file_hdr.first_free_page_no (h.file_hdr.num_pages ∷ ps)
  unfolding create_new_page_handle_unlocked mark_wal_free_dirty
  grown-Chain ps c = (
    refl,
    v.capacity.0,
    omega arith,
    outside,
    rw (next_of, page_at-new)
        (Chain-moved h (grown h) h.file_hdr.first_free_page_no ps (omega arith) kept c),
  )
    where
      outside : contains h.file_hdr.num_pages ps ≡ false
      outside = elim (Bool-cases (contains h.file_hdr.num_pages ps)) [
        | inl e ↦ absurd (omega (arith, Chain-member h _ ps _ c e))
        | inr e ↦ e
      ]

      kept : (x : ℕ) → contains x ps ≡ true → next_of (grown h) x ≡ next_of h x
      kept x i =
          ap (λ (page : RmPage). page.next_free_page_no)
            (page_at-before x (Chain-member h _ ps x c i).1)

  pub grown_room :
      first_available_slot (grown h) h.file_hdr.num_pages (page_at (grown h) h.file_hdr.num_pages)
      < (grown h).file_hdr.num_records_per_page
  unfolding create_new_page_handle_unlocked
  grown_room = first_available_slot_room (grown h) _ _ v.capacity.1 (
      rw page_at-new
        (ground (arith, fresh_page-unset 0, v.fresh h.file_hdr.num_pages (omega arith))))
