-- ===== src/Record/Chain.antt =====
-- The list of pages with free space, as the pages link it, and what unlinking a page does to it.
use database.Prelude.{
  ℕ, zero, suc, ◌≤◌, ◌<◌, ◌≡◌, refl, inl, inr, List, [], ◌∷◌, Option, none, some, true, false,
  arith, nat_eqb, if◌then◌else◌, length, Bool-cases, nat_eq,
}
use database.Txn.Defs.{done}
use database.Record.{RmFileHandle, page_at, contains, without}
use database.Record.FreePages.{unlink_from, bypass}
use database.Record.Valid.{Same, Same-refl, IsValid, fetch_page_handle_valid}
use database.Record.Moves.{bypass-next}

abbrev pub next_of : RmFileHandle → ℕ → Option ℕ
next_of h p = (page_at h p).next_free_page_no

-- From `head` on, the pages link the list of data pages `ps`, which visits none twice.
abbrev pub Chain : RmFileHandle → Option ℕ → List ℕ → Type 0
Chain h head [] = head ≡ none
Chain h head (p ∷ ps) =
    (head ≡ some p)
    × (1 ≤ p)
    × (p < h.file_hdr.num_pages)
    × (contains p ps ≡ false)
    × Chain h (next_of h p) ps

-- A chain is read from the links of its own pages.
pub Chain-moved :
    (h h' : RmFileHandle) (head : Option ℕ) (ps : List ℕ)
    → h.file_hdr.num_pages ≤ h'.file_hdr.num_pages
    → ((x : ℕ) → contains x ps ≡ true → next_of h' x ≡ next_of h x)
    → Chain h head ps
    → Chain h' head ps
Chain-moved h h' head [] more kept c = c
Chain-moved h h' head (p ∷ ps) more kept c = (
  c.0,
  c.1,
  omega (arith, c.2),
  c.3,
  rw (kept p (ground arith)) (Chain-moved h h' _ ps more (λ x i. kept x (ground (arith, i))) c.4),
)

pub Chain-member :
    (h : RmFileHandle) (head : Option ℕ) (ps : List ℕ) (x : ℕ)
    → Chain h head ps
    → contains x ps ≡ true
    → (1 ≤ x) × (x < h.file_hdr.num_pages)
Chain-member h head [] x c i = absurd (ground arith)
Chain-member h head (p ∷ ps) x (link, low, high, out, rest) i = elim (Bool-cases (nat_eqb x p)) [
  | inl e ↦ (ground (arith, low), ground (arith, high))
  | inr e ↦ Chain-member h _ ps x rest (ground arith)
]

pub without_absent : (x : ℕ) (ps : List ℕ) → contains x ps ≡ false → without x ps ≡ ps
without_absent x [] h = refl
without_absent x (p ∷ ps) h = ground (arith, without_absent x ps)

pub without_head : (x : ℕ) (ps : List ℕ) → contains x ps ≡ false → without x (x ∷ ps) ≡ ps
without_head x ps h = ground (arith, without_absent x ps h)

pub contains-without :
    (x y : ℕ) (ps : List ℕ) → contains x ps ≡ false → contains x (without y ps) ≡ false
contains-without x y [] h = h
contains-without x y (p ∷ ps) h = ground (arith, contains-without x y ps)

pub contains_ne :
    (x p : ℕ) (ps : List ℕ) → contains x ps ≡ true → contains p ps ≡ false → nat_eqb p x ≡ false
contains_ne x p [] i o = ground arith
contains_ne x p (q ∷ ps) i o = ground (arith, contains_ne x p ps)

-- What the walk from page `p` leaves behind.
pub record Unlinked (h : RmFileHandle) (p : ℕ) (ps : List ℕ) (t : ℕ) (h' : RmFileHandle)
    : Type 0 where
  pub same : Same h h'
  pub first : h'.file_hdr.first_free_page_no ≡ h.file_hdr.first_free_page_no
  pub chain : Chain h' (some p) (p ∷ without t ps)
  pub elsewhere :
      (x : ℕ) → contains x (p ∷ ps) ≡ false → nat_eqb t x ≡ false → next_of h' x ≡ next_of h x

bypass-Unlinked :
    (h : RmFileHandle) (p t : ℕ) (ps : List ℕ) (lsn : Option ℕ)
    → IsValid h
    → Chain h (some p) (p ∷ t ∷ ps)
    → Unlinked h p (t ∷ ps) t (bypass h p t lsn)
unfolding bypass
bypass-Unlinked h p t ps lsn v c =
    let (head, low, high, absent, (link, low_t, high_t, absent_t, rest)) = c in
    let ne : nat_eqb t p ≡ false = ground arith in
    let below : p < length h.pages = omega (arith, v.counted.0) in
    let below_t : t < length h.pages = omega (arith, v.counted.0) in
    let moved = λ (x : ℕ). bypass-next h p t lsn x below below_t ne in
    record {
      same = (moved p).0;
      first = refl;
      chain = rw (without_head t ps absent_t) (
        refl,
        low,
        omega (arith, (moved p).0.sizes.0),
        ground (arith, absent),
        rw (step (moved p).1) (
            Chain-moved h (bypass h p t lsn) (next_of h t) ps (omega (arith, (moved p).0.sizes.0))
              (λ x i. others x i (moved x).1 absent absent_t) rest),
      );
      elsewhere = λ x out off. ground (arith, (moved x).1);
    }
  where
    step :
        next_of (bypass h p t lsn) p
          ≡ (if nat_eqb p p then next_of h t else if nat_eqb t p then none else next_of h p)
        → next_of (bypass h p t lsn) p ≡ next_of h t
    step e = ground (arith, e)

    others :
        (x : ℕ)
        → contains x ps ≡ true
        → next_of (bypass h p t lsn) x
          ≡ (if nat_eqb p x then next_of h t else if nat_eqb t x then none else next_of h x)
        → contains p (t ∷ ps) ≡ false
        → contains t ps ≡ false
        → next_of (bypass h p t lsn) x ≡ next_of h x
    others x i e absent absent_t =
        ground (arith, e, contains_ne x p ps i (ground arith), contains_ne x t ps i absent_t)

step-Unlinked :
    (h h' : RmFileHandle) (p t q : ℕ) (qs : List ℕ)
    → Chain h (some p) (p ∷ q ∷ qs)
    → Unlinked h q qs t h'
    → nat_eqb t p ≡ false
    → nat_eqb t q ≡ false
    → Unlinked h p (q ∷ qs) t h'
step-Unlinked h h' p t q qs (head, low, high, absent, rest) u ne e = record {
  same = u.same;
  first = u.first;
  chain = (
    refl,
    low,
    omega (arith, u.same.sizes.0),
    contains-without p t (q ∷ qs) absent,
    rw (e, u.elsewhere p absent ne, rest.0) u.chain,
  );
  elsewhere = λ x out off. u.elsewhere x (ground arith) off;
}

pub unlink_from-Unlinked :
    (rounds : ℕ) (h : RmFileHandle) (p t : ℕ) (ps : List ℕ) (lsn : Option ℕ)
    → IsValid h
    → Chain h (some p) (p ∷ ps)
    → nat_eqb t p ≡ false
    → length (p ∷ ps) ≤ rounds
    → (h' : RmFileHandle) × (unlink_from rounds h (some p) t lsn ≡ (done tt, h'))
      × Unlinked h p ps t h'
unfolding unlink_from
unlink_from-Unlinked zero h p t ps lsn v c ne enough = absurd (omega arith)
unlink_from-Unlinked (suc rounds) h p t [] lsn v c ne enough = (
  h,
  rw (unlink_from, fetch_page_handle_valid h p v c.2, c.4) refl,
  record { same = Same-refl h; first = refl; chain = c; elsewhere = λ x out off. refl },
)
unlink_from-Unlinked (suc rounds) h p t (q ∷ qs) lsn v c ne enough =
    elim (Bool-cases (nat_eqb t q)) [
      | inl e ↦
          let same : q ≡ t = ground arith in
          let c' = rw same at c in
          (
            bypass h p t lsn,
            rw (unlink_from, fetch_page_handle_valid h p v c.2, c'.4.0) (ground arith),
            rw same (bypass-Unlinked h p t qs lsn v c'),
          )
      | inr e ↦
          let (head, low, high, absent, rest) = c in
          let (h', ran, u) =
            unlink_from-Unlinked rounds h q t qs lsn v (refl, rest.1, rest.2, rest.3, rest.4)
              (ground arith) (omega arith) in
          let e' : nat_eqb q t ≡ false = ground (arith, e) in
          (
            h',
            rw (unlink_from, fetch_page_handle_valid h p v high, rest.0, e', ran) refl,
            step-Unlinked h h' p t q qs c u ne e,
          )
    ]
