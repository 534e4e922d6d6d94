-- ===== src/Recovery/Replay/Recover.antt =====
-- Both passes of recovery/log_recovery.cpp together, from the records that the analysis collected.
use database.Prelude.{
  ℕ, ◌<◌, ◌≡◌, refl, sym, ap, subst, ◌∙◌, inl, inr, List, [], ◌∷◌, ◌++◌, reverse, Option, none,
  some, true, false, ◌&&◌, if◌then◌else◌, lookup, lookup-insert, has_value, arith, Bool-cases,
  Option-cases, All, Map,
}
use mathlib.Core.List.{reverse-cons}
use database.Txn.Defs.{RmRecord, done}
use database.Recovery.{LogRecord}
use database.Recovery.Replay.{
  Tables, RowKey, row_key_eq, bytes_eq, row_key_eqb, row_key_eqb_iff, dml_key, is_committed, redo,
  undo, recover, note_write, latest_committed_write,
}
use database.Recovery.Replay.Images.{row, is_open, TablesOk}
use database.Recovery.Replay.Changes.{undo_image, is_about, about, LogsOk, Stepped, Stepped-trans}
use database.Recovery.Replay.Passes.{redone, redo-Stepped}
use database.Recovery.Replay.Undone.{last_lsn, is_undone, undone, undo_all-Stepped}

lookup-note_write :
    (committed : Map ℕ ℕ) (fhs : Tables) (latest : Map RowKey ℕ) (r : LogRecord) (k : RowKey)
    → is_open fhs k.table_name ≡ true
    → lookup k (note_write committed fhs latest r)
      ≡ (if is_about r.body k && is_committed committed r then some r.lsn else lookup k latest)
unfolding note_write
lookup-note_write committed fhs latest r k o = elim (Option-cases (dml_key r.body)) [
  | inl e ↦ rw (note_write, e) refl
  | inr (key, e) ↦ elim (Bool-cases (row_key_eqb key k)) [
    | inl same ↦
        let equal : key ≡ k = (row_key_eqb_iff key k).0 same in
        let here : is_open fhs key.table_name ≡ true =
          subst (λ q. is_open fhs q.table_name ≡ true) (sym equal) o in
        elim (Bool-cases (is_committed committed r)) [
          | inl c ↦
              rw (note_write, e, c, same, here) (lookup-insert key k r.lsn latest ∙ rw same refl)
          | inr c ↦ rw (note_write, e, c, same) refl
        ]
    | inr off ↦
        elim (Bool-cases (is_committed committed r && has_value (lookup key.table_name fhs))) [
          | inl c ↦ rw (note_write, e, c, off) (lookup-insert key k r.lsn latest ∙ rw off refl)
          | inr c ↦ rw (note_write, e, c, off) refl
        ]
  ]
]

lookup-latest_committed_write :
    (committed : Map ℕ ℕ) (fhs : Tables) (logs : List LogRecord) (latest : Map RowKey ℕ)
    (k : RowKey)
    → is_open fhs k.table_name ≡ true
    → lookup k (latest_committed_write committed fhs logs latest)
      ≡ last_lsn committed logs k (lookup k latest)
unfolding latest_committed_write
lookup-latest_committed_write committed fhs [] latest k o = refl
lookup-latest_committed_write committed fhs (r ∷ logs) latest k o =
    lookup-latest_committed_write committed fhs logs (note_write committed fhs latest r) k o
    ∙ ap (last_lsn committed logs k) (lookup-note_write committed fhs latest r k o)

All-append : {A : Type 0} (P : A → Type 0) (xs ys : List A) → All P xs → All P ys → All P (xs ++ ys)
All-append P [] ys p q = q
All-append P (x ∷ xs) ys p q = (p.0, All-append P xs ys p.1 q)

All-reverse : {A : Type 0} (P : A → Type 0) (xs : List A) → All P xs → All P (reverse xs)
All-reverse P [] p = tt
All-reverse P (x ∷ xs) p =
    subst (All P) (sym (reverse-cons x xs))
      (All-append P (reverse xs) (x ∷ []) (All-reverse P xs p.1) (p.0, tt))

-- What both passes leave at a tuple.
abbrev pub recovered : Map ℕ ℕ → List LogRecord → RowKey → Option RmRecord → Option RmRecord
recovered committed logs k value =
    undone committed (last_lsn committed logs k none) (reverse logs) k
      (redone committed logs k value)

module _ (slots size : List ℕ → ℕ) where
  undo-Stepped :
      (committed : Map ℕ ℕ) (logs : List LogRecord) (fhs : Tables)
      → TablesOk slots size fhs
      → LogsOk slots size logs
      → (fhs' : Tables) × (undo committed logs fhs ≡ (done tt, fhs'))
        × Stepped slots size fhs
            (λ k. undone committed (last_lsn committed logs k none) (reverse logs) k)
            fhs'
  unfolding undo lookup
  undo-Stepped committed logs fhs ok h = known (
      undo_all-Stepped slots size committed (latest_committed_write committed fhs logs [])
        (reverse logs) fhs ok (All-reverse _ logs h))
    where
      known :
          ((fhs' : Tables) × (undo committed logs fhs ≡ (done tt, fhs'))
            × Stepped slots size fhs
                (λ k.
                  undone committed
                    (lookup k (latest_committed_write committed fhs logs []))
                    (reverse logs)
                    k)
                fhs')
          → (fhs' : Tables) × (undo committed logs fhs ≡ (done tt, fhs'))
            × Stepped slots size fhs
                (λ k. undone committed (last_lsn committed logs k none) (reverse logs) k)
                fhs'
      known (fhs', ran, s) = (
        fhs',
        ran,
        record {
          tables = s.tables;
          opened = s.opened;
          rows = λ k o.
              s.rows k o
              ∙ ap (λ last. undone committed last (reverse logs) k (row fhs k))
                  (lookup-latest_committed_write committed fhs logs [] k o);
        },
      )

  -- The redo pass and then the undo pass end without an error over well formed files. Every tuple of an
  -- open table then holds the image of the last committed record about it, or what it held where there is
  -- none, with the losers' records about it behind that one taken back, the last first.
  pub recover-Stepped :
      (committed : Map ℕ ℕ) (logs : List LogRecord) (fhs : Tables)
      → TablesOk slots size fhs
      → LogsOk slots size logs
      → (fhs' : Tables) × (recover committed logs fhs ≡ (done tt, fhs'))
        × Stepped slots size fhs (recovered committed logs) fhs'
  unfolding recover
  recover-Stepped committed logs fhs ok h = both (redo-Stepped slots size committed logs fhs ok h)
    where
      both :
          ((fhs₁ : Tables) × (redo committed logs fhs ≡ (done tt, fhs₁))
            × Stepped slots size fhs (redone committed logs) fhs₁)
          → (fhs' : Tables) × (recover committed logs fhs ≡ (done tt, fhs'))
            × Stepped slots size fhs (recovered committed logs) fhs'
      both (fhs₁, first, s) =
          let (fhs₂, second, t) = undo-Stepped committed logs fhs₁ s.tables h in
          (
            fhs₂,
            simp (recover, first, second),
            Stepped-trans slots size fhs fhs₁ fhs₂ (redone committed logs) _ s t,
          )

undone_none :
    (committed : Map ℕ ℕ) (last : ℕ) (logs : List LogRecord) (k : RowKey) (value : Option RmRecord)
    → All
        (λ (r : LogRecord).
          is_about r.body k ≡ true → is_committed committed r ≡ false → r.lsn < last)
        logs
    → undone committed (some last) logs k value ≡ value
undone_none committed last [] k value h = refl
undone_none committed last (r ∷ logs) k value h =
    ap (undone committed (some last) logs k) (kept r h.0)
    ∙ undone_none committed last logs k value h.1
  where
    kept :
        (r : LogRecord)
        → (is_about r.body k ≡ true → is_committed committed r ≡ false → r.lsn < last)
        → (if is_undone committed (some last) r k then undo_image r.body else value) ≡ value
    kept r before = elim (Bool-cases (is_about r.body k)) [
      | inr off ↦ rw off refl
      | inl about ↦ elim (Bool-cases (is_committed committed r)) [
        | inl c ↦ rw (about, c) refl
        | inr c ↦ let early : r.lsn < last = before about c in ground arith
      ]
    ]

-- A committed write of a tuple is not taken back: if the losers' records about the tuple all come before
-- the last committed one, then the tuple holds that one's image after both passes.
pub recover_keeps_committed :
    (slots size : List ℕ → ℕ) (committed : Map ℕ ℕ) (logs : List LogRecord) (fhs : Tables)
    (k : RowKey) (last : ℕ)
    → TablesOk slots size fhs
    → LogsOk slots size logs
    → is_open fhs k.table_name ≡ true
    → last_lsn committed logs k none ≡ some last
    → All
        (λ (r : LogRecord).
          is_about r.body k ≡ true → is_committed committed r ≡ false → r.lsn < last)
        logs
    → (fhs' : Tables) × (recover committed logs fhs ≡ (done tt, fhs'))
      × (row fhs' k ≡ redone committed logs k (row fhs k))
recover_keeps_committed slots size committed logs fhs k last ok h o e before =
    kept (recover-Stepped slots size committed logs fhs ok h)
  where
    kept :
        ((fhs' : Tables) × (recover committed logs fhs ≡ (done tt, fhs'))
          × Stepped slots size fhs (recovered committed logs) fhs')
        → (fhs' : Tables) × (recover committed logs fhs ≡ (done tt, fhs'))
          × (row fhs' k ≡ redone committed logs k (row fhs k))
    kept (fhs', ran, s) = (
      fhs',
      ran,
      s.rows k o
          ∙ ap (λ l. undone committed l (reverse logs) k (redone committed logs k (row fhs k))) e
          ∙ undone_none committed last (reverse logs) k _ (All-reverse _ logs before),
    )
