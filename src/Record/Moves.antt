-- ===== src/Record/Moves.antt =====
-- Writes of one page of a heap file, and of the list of free pages, that leave the records as they are.
use database.Prelude.{
  ℕ, ◌<◌, ◌≡◌, refl, ◌∙◌, inl, inr, Option, none, some, false, arith, nat_eqb, if◌then◌else◌,
  length, length-set, get_or-set_self, get_or-set_ne, Bool-cases,
}
use database.Record.{
  RmFileHandle, RmPage, blank_page, page_at, put_page, mark_page_wal_state, mark_wal_free_dirty,
  set_page_lsn,
}
use database.Record.FreePages.{set_next, bypass}
use database.Record.Valid.{Same, Same-trans}

pub page_at-put_page :
    (h : RmFileHandle) (p : ℕ) (page : RmPage) (x : ℕ)
    → p < length h.pages
    → page_at (put_page h p page) x ≡ (if nat_eqb p x then page else page_at h x)
page_at-put_page h p page x below = elim (Bool-cases (nat_eqb p x)) [
  | inl e ↦
      let same : p ≡ x = ground arith in
      rw (e, ← same, get_or-set_self h.pages p page blank_page below) refl
  | inr e ↦ rw (e, get_or-set_ne h.pages p x page blank_page (λ same. ground arith)) refl
]

-- Two pages with the same records.
abbrev pub Alike : RmPage → RmPage → Type 0
Alike page page' =
    (page'.bitmap ≡ page.bitmap)
    × (page'.slots ≡ page.slots)
    × (page'.num_records ≡ page.num_records)

pub mark_page_wal_state-Alike :
    (page : RmPage) (lsn : Option ℕ)
    → Alike page (mark_page_wal_state page lsn)
      × ((mark_page_wal_state page lsn).next_free_page_no ≡ page.next_free_page_no)
unfolding mark_page_wal_state mark_wal_free_dirty set_page_lsn
mark_page_wal_state-Alike page none = ((refl, refl, refl), refl)
mark_page_wal_state-Alike page (some lsn) = ((refl, refl, refl), refl)

pub put_page-Same :
    (h : RmFileHandle) (p : ℕ) (page : RmPage)
    → p < length h.pages
    → Alike (page_at h p) page
    → Same h (put_page h p page)
put_page-Same h p page below alike = record {
  sizes = (refl, refl, refl, refl, refl, length-set h.pages p page);
  held = (refl, refl);
  stored = λ x. elim (Bool-cases (nat_eqb p x)) [
    | inl e ↦
        let same : p ≡ x = ground arith in rw (page_at-put_page h p page x below, e, ← same) alike
    | inr e ↦ rw (page_at-put_page h p page x below, e) (refl, refl, refl)
  ];
}

pub set_next-Same :
    (h : RmFileHandle) (p : ℕ) (next : Option ℕ) → p < length h.pages → Same h (set_next h p next)
set_next-Same h p next below = put_page-Same h p _ below (refl, refl, refl)

pub put_page-next :
    (h : RmFileHandle) (p : ℕ) (page : RmPage) (x : ℕ)
    → p < length h.pages
    → (page_at (put_page h p page) x).next_free_page_no
      ≡ (if nat_eqb p x then page.next_free_page_no else (page_at h x).next_free_page_no)
put_page-next h p page x below = elim (Bool-cases (nat_eqb p x)) [
  | inl e ↦ rw (page_at-put_page h p page x below, e) refl
  | inr e ↦ rw (page_at-put_page h p page x below, e) refl
]

pub set_next-next :
    (h : RmFileHandle) (p : ℕ) (next : Option ℕ) (x : ℕ)
    → p < length h.pages
    → (page_at (set_next h p next) x).next_free_page_no
      ≡ (if nat_eqb p x then next else (page_at h x).next_free_page_no)
set_next-next h p next x below = put_page-next h p _ x below

pub bypass-next :
    (h : RmFileHandle) (p t : ℕ) (lsn : Option ℕ) (x : ℕ)
    → p < length h.pages
    → t < length h.pages
    → nat_eqb t p ≡ false
    → Same h (bypass h p t lsn)
      × ((page_at (bypass h p t lsn) x).next_free_page_no ≡ (
          if nat_eqb p x
          then (page_at h t).next_free_page_no
          else if nat_eqb t x
          then none
          else (page_at h x).next_free_page_no))
unfolding bypass
bypass-next h p t lsn x hp ht ne =
    let h₁ = set_next h p (page_at h t).next_free_page_no in
    let h₂ = set_next h₁ t none in
    let s₁ = set_next-Same h p (page_at h t).next_free_page_no hp in
    let s₂ = set_next-Same h₁ t none (omega (arith, s₁.sizes.5)) in
    let below : p < length h₂.pages = omega (arith, s₁.sizes.5, s₂.sizes.5) in
    let (alike, kept) = mark_page_wal_state-Alike (page_at h₂ p) lsn in
    (
      Same-trans s₁ (Same-trans s₂ (put_page-Same h₂ p _ below alike)),
      put_page-next h₂ p _ x below
          ∙ ground (
            arith,
            kept,
            set_next-next h₁ t none x (omega (arith, s₁.sizes.5)),
            set_next-next h₁ t none p (omega (arith, s₁.sizes.5)),
            set_next-next h p (page_at h t).next_free_page_no x hp,
            set_next-next h p (page_at h t).next_free_page_no p hp,
          ),
    )
