-- ===== src/Record/Unlink.antt =====
-- `unlink_free_page_if_needed` of record/rm_file_handle.cpp on a well formed file.
use database.Prelude.{
  ℕ, ◌<◌, ◌≡◌, refl, sym, subst, inl, inr, List, [], ◌∷◌, Option, none, some, false, arith, nat_eqb,
  Bool-cases, length,
}
use database.Txn.Defs.{done}
use database.Record.{RmFileHandle, without, set_first_free}
use database.Record.FreePages.{unlink_free_page_if_needed, unlink_from, set_next}
use database.Record.Valid.{Same, Same-refl, Same-trans, IsValid}
use database.Record.Moves.{set_next-Same, set_next-next}
use database.Record.Chain.{
  Chain, Chain-moved, next_of, contains_ne, without_head, unlink_from-Unlinked, Unlinked,
}
use database.Record.Distinct.{length-Chain}

pub set_first_free-Same : (h : RmFileHandle) (first : Option ℕ) → Same h (set_first_free h first)
set_first_free-Same h first = record {
  sizes = (refl, refl, refl, refl, refl, refl);
  held = (refl, refl);
  stored = λ p. (refl, refl, refl);
}

-- The call ends without an error, with the records kept and the page out of the list.
abbrev pub Unlinks : RmFileHandle → ℕ → List ℕ → Option ℕ → Type 0
Unlinks h t ps lsn =
    (h' : RmFileHandle) × (unlink_free_page_if_needed h t lsn ≡ (done tt, h'))
    × Same h h'
    × Chain h' h'.file_hdr.first_free_page_no (without t ps)

unlink_head :
    (h : RmFileHandle) (p : ℕ) (ps : List ℕ) (lsn : Option ℕ)
    → IsValid h
    → Chain h h.file_hdr.first_free_page_no (p ∷ ps)
    → Unlinks h p (p ∷ ps) lsn
unfolding unlink_free_page_if_needed
unlink_head h p ps lsn v c =
    let h₁ = set_first_free h (next_of h p) in
    let below : p < length h₁.pages = omega (arith, v.counted.0, c.2) in
    let moved = set_next-Same h₁ p none below in
    (
      set_next h₁ p none,
      rw (unlink_free_page_if_needed, c.0) (ground arith),
      Same-trans (set_first_free-Same h (next_of h p)) moved,
      rw (without_head p ps c.3) (
          Chain-moved h (set_next h₁ p none) (next_of h p) ps (omega arith)
            (λ x i. ground (arith, set_next-next h₁ p none x below, contains_ne x p ps i c.3)) c.4),
    )

unlink_later :
    (h : RmFileHandle) (p t : ℕ) (ps : List ℕ) (lsn : Option ℕ)
    → Chain h h.file_hdr.first_free_page_no (p ∷ ps)
    → nat_eqb t p ≡ false
    → ((h' : RmFileHandle) × (unlink_from h.file_hdr.num_pages h (some p) t lsn ≡ (done tt, h'))
        × Unlinked h p ps t h')
    → Unlinks h t (p ∷ ps) lsn
unfolding unlink_free_page_if_needed
unlink_later h p t ps lsn c e (h', ran, u) =
    let e' : nat_eqb p t ≡ false = ground (arith, e) in
    (h', simp (c.0, e', ran), u.same, rw (u.first, c.0, e) u.chain)

-- On a file whose pages and list of free pages are well formed, unlinking a page ends without an
-- error, leaves every record as it is, and takes the page, and no other, out of the list.
pub unlink_free_page_if_needed-Chain :
    (h : RmFileHandle) (t : ℕ) (ps : List ℕ) (lsn : Option ℕ)
    → IsValid h
    → Chain h h.file_hdr.first_free_page_no ps
    → t < h.file_hdr.num_pages
    → Unlinks h t ps lsn
unfolding unlink_free_page_if_needed unlink_from
unlink_free_page_if_needed-Chain h t [] lsn v c below = (h, rw c refl, Same-refl h, c)
unlink_free_page_if_needed-Chain h t (p ∷ ps) lsn v c below = elim (Bool-cases (nat_eqb t p)) [
  | inl e ↦
      let same : t ≡ p = ground arith in
      subst (λ x. Unlinks h x (p ∷ ps) lsn) (sym same) (unlink_head h p ps lsn v c)
  | inr e ↦
      let start : Chain h (some p) (p ∷ ps) = (refl, c.1, c.2, c.3, c.4) in
      unlink_later h p t ps lsn c e
        (unlink_from-Unlinked _ h p t ps lsn v start e (length-Chain h _ (p ∷ ps) c))
]
