-- ===== src/Record/Valid.antt =====
-- A heap file that is well formed: each data page has a bitmap with room for its slots, and counts the
-- bits that are set. The header's page 0 is not a data page.
use database.Prelude.{
  ℕ, zero, suc, ◌+◌, ◌*◌, ◌≤◌, ◌<◌, ◌≡◌, refl, ◌∙◌, inl, inr, List, [], Option, none, some, Bool,
  true, false, arith, nat_eqb, if◌then◌else◌, length, get_or, length-set, ltb, ◌&&◌, Bool-cases,
}
use database.Bitmap.{is_set, mark, reset}
use database.Bitmap.Bits.{IsBitmap, mark-Writes, reset-Writes}
use database.Txn.Defs.{RmRecord, done}
use database.Record.{
  RmFileHandle, RmPage, page_at, slots_of, mark_page_wal_state, mark_wal_free_dirty, set_page_lsn,
  fetch_page_handle,
}
use database.Record.Ops.{filled, emptied}

abbrev one_if : Bool → ℕ
one_if true = 1
one_if false = 0

-- The number of the first slots that hold a record.
unfoldable pub count_set : ℕ → List ℕ → ℕ
count_set zero bm = 0
count_set (suc n) bm = one_if (is_set bm n) + count_set n bm

count_set-above :
    (n pos : ℕ) (value : Bool) (bm bm' : List ℕ)
    → n ≤ pos
    → ((j : ℕ) → is_set bm' j ≡ (if nat_eqb pos j then value else is_set bm j))
    → count_set n bm' ≡ count_set n bm
unfolding count_set
count_set-above zero pos value bm bm' h each = refl
count_set-above (suc n) pos value bm bm' h each =
    ground (arith, count_set-above n pos value bm bm' (omega arith) each, each n)

count_set-write :
    (n pos : ℕ) (value : Bool) (bm bm' : List ℕ)
    → pos < n
    → ((j : ℕ) → is_set bm' j ≡ (if nat_eqb pos j then value else is_set bm j))
    → count_set n bm' + one_if (is_set bm pos) ≡ count_set n bm + one_if value
unfolding count_set
count_set-write zero pos value bm bm' h each = absurd (omega arith)
count_set-write (suc n) pos value bm bm' h each = elim (Bool-cases (nat_eqb pos n)) [
  | inl e ↦
      let same : pos ≡ n = ground arith in
      rw same (ground (arith, count_set-above n pos value bm bm' (ground arith) each, each n))
  | inr e ↦ ground (arith, count_set-write n pos value bm bm' (ground arith) each, each n)
]

pub record PageOk (n : ℕ) (page : RmPage) : Type 0 where
  pub bits : IsBitmap n page.bitmap
  pub room : length page.slots ≡ n
  pub count : page.num_records ≡ count_set n page.bitmap

-- The log bookkeeping leaves a page's header, bitmap and slots alone.
pub PageOk-mark_page_wal_state :
    (n : ℕ) (page : RmPage) (lsn : Option ℕ)
    → PageOk n page
    → PageOk n (mark_page_wal_state page lsn)
unfolding mark_page_wal_state mark_wal_free_dirty set_page_lsn
PageOk-mark_page_wal_state n page none ok = record {
  bits = ok.bits;
  room = ok.room;
  count = ok.count;
}
PageOk-mark_page_wal_state n page (some lsn) ok = record {
  bits = ok.bits;
  room = ok.room;
  count = ok.count;
}

pub filled-PageOk :
    (n : ℕ) (page : RmPage) (slot : ℕ) (value : RmRecord) (lsn : Option ℕ)
    → PageOk n page
    → slot < n
    → is_set page.bitmap slot ≡ false
    → PageOk n (filled page slot value lsn)
filled-PageOk n page slot value lsn ok below unset =
    let (bits, each) = mark-Writes n page.bitmap slot ok.bits below in
    let counted = count_set-write n slot true page.bitmap (mark page.bitmap slot) below each in
    PageOk-mark_page_wal_state n _ lsn (record {
      bits = bits;
      room = length-set page.slots slot value ∙ ok.room;
      count = ground (arith, ok.count, counted);
    })

pub emptied-PageOk :
    (n : ℕ) (page : RmPage) (slot : ℕ) (lsn : Option ℕ)
    → PageOk n page
    → slot < n
    → is_set page.bitmap slot ≡ true
    → PageOk n (emptied page slot lsn)
emptied-PageOk n page slot lsn ok below isset =
    let (bits, each) = reset-Writes n page.bitmap slot ok.bits below in
    let counted = count_set-write n slot false page.bitmap (reset page.bitmap slot) below each in
    PageOk-mark_page_wal_state n _ lsn
      (record { bits = bits; room = ok.room; count = ground (arith, ok.count, counted) })

pub record IsValid (h : RmFileHandle) : Type 0 where
  pub counted :
      (length h.pages ≡ h.file_hdr.num_pages) × (h.num_pages_snapshot ≡ h.file_hdr.num_pages)
  pub capacity :
      (1 ≤ h.file_hdr.num_pages)
      × (1 ≤ h.file_hdr.num_records_per_page)
      × (h.file_hdr.num_records_per_page ≤ 8 * h.file_hdr.bitmap_size)
  pub each :
      (p : ℕ)
      → 1 ≤ p
      → p < h.file_hdr.num_pages
      → PageOk h.file_hdr.num_records_per_page (page_at h p)
  pub fresh :
      (p : ℕ)
      → h.file_hdr.num_pages ≤ p
      → (slots_of h.quarantined_slots p ≡ []) × (slots_of h.reserved_slots p ≡ [])

-- What a reader finds at a rid.
unfoldable pub contents : RmFileHandle → ℕ → ℕ → Option RmRecord
contents h p slot =
    if ltb p h.num_pages_snapshot && is_set (page_at h p).bitmap slot
    then some (get_or (page_at h p).slots slot [])
    else none

-- Two states of a file whose records are the same, and which hold the same slots back.
pub record Same (h h' : RmFileHandle) : Type 0 where
  pub sizes :
      (h'.file_hdr.num_pages ≡ h.file_hdr.num_pages)
      × (h'.file_hdr.num_records_per_page ≡ h.file_hdr.num_records_per_page)
      × (h'.file_hdr.bitmap_size ≡ h.file_hdr.bitmap_size)
      × (h'.file_hdr.record_size ≡ h.file_hdr.record_size)
      × (h'.num_pages_snapshot ≡ h.num_pages_snapshot)
      × (length h'.pages ≡ length h.pages)
  pub held : (h'.quarantined_slots ≡ h.quarantined_slots) × (h'.reserved_slots ≡ h.reserved_slots)
  pub stored :
      (p : ℕ)
      → ((page_at h' p).bitmap ≡ (page_at h p).bitmap)
        × ((page_at h' p).slots ≡ (page_at h p).slots)
        × ((page_at h' p).num_records ≡ (page_at h p).num_records)

pub Same-refl : (h : RmFileHandle) → Same h h
Same-refl h = record {
  sizes = (refl, refl, refl, refl, refl, refl);
  held = (refl, refl);
  stored = λ p. (refl, refl, refl);
}

pub Same-trans : {h h' h'' : RmFileHandle} → Same h h' → Same h' h'' → Same h h''
Same-trans a b = record {
  sizes = (
    b.sizes.0 ∙ a.sizes.0,
    b.sizes.1 ∙ a.sizes.1,
    b.sizes.2 ∙ a.sizes.2,
    b.sizes.3 ∙ a.sizes.3,
    b.sizes.4 ∙ a.sizes.4,
    b.sizes.5 ∙ a.sizes.5,
  );
  held = (b.held.0 ∙ a.held.0, b.held.1 ∙ a.held.1);
  stored = λ p. (
    (b.stored p).0 ∙ (a.stored p).0,
    (b.stored p).1 ∙ (a.stored p).1,
    (b.stored p).2 ∙ (a.stored p).2,
  );
}

pub Same-IsValid : (h h' : RmFileHandle) → Same h h' → IsValid h → IsValid h'
Same-IsValid h h' s v = record {
  counted = ground (arith, s.sizes, v.counted);
  capacity = ground (arith, s.sizes, v.capacity);
  each = λ p low high.
      let ok = v.each p low (omega (arith, s.sizes.0)) in
      record {
        bits = rw (s.sizes.1, (s.stored p).0) ok.bits;
        room = rw (s.sizes.1, (s.stored p).1) ok.room;
        count = rw (s.sizes.1, (s.stored p).0, (s.stored p).2) ok.count;
      };
  fresh = λ p high. rw (s.held.0, s.held.1) (v.fresh p (omega (arith, s.sizes.0)));
}

pub Same-contents :
    (h h' : RmFileHandle) → Same h h' → (p slot : ℕ) → contents h' p slot ≡ contents h p slot
unfolding contents
Same-contents h h' s p slot = rw (s.sizes.4, (s.stored p).0, (s.stored p).1) refl

pub fetch_page_handle_valid :
    (h : RmFileHandle) (p : ℕ)
    → IsValid h
    → p < h.file_hdr.num_pages
    → fetch_page_handle h p ≡ done (page_at h p)
unfolding fetch_page_handle
fetch_page_handle_valid h p v below = ground (arith, v.counted)
