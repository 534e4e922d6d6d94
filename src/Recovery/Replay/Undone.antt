-- ===== src/Recovery/Replay/Undone.antt =====
-- The loop of `RecoveryManager::undo` of recovery/log_recovery.cpp, as changes of tuples.
use database.Prelude.{
  ℕ, ◌≡◌, refl, sym, ◌∙◌, inl, inr, List, [], ◌∷◌, Option, none, some, Bool, true, false, not, ◌&&◌,
  ◌||◌, if◌then◌else◌, lookup, arith, Bool-cases, Option-cases, Map,
}
use database.Txn.Defs.{RmRecord, done}
use database.Recovery.{LogRecord}
use database.Recovery.Replay.{
  Tables, RowKey, row_key_eq, bytes_eq, row_key_eqb, row_key_eqb_iff, dml_key, undo_body,
  is_committed, is_later, undo_record, undo_all,
}
use database.Recovery.Replay.Images.{row, TablesOk}
use database.Recovery.Replay.Changes.{
  undo_image, is_about, is_about_at, BodyOk, LogsOk, Stepped, unchanged, from_Does, undo_body-Does,
  Stepped-trans,
}

-- The LSN of the last committed record about a tuple.
abbrev pub last_lsn : Map ℕ ℕ → List LogRecord → RowKey → Option ℕ → Option ℕ
last_lsn committed [] k last = last
last_lsn committed (r ∷ logs) k last =
    last_lsn committed logs k
      (if is_about r.body k && is_committed committed r then some r.lsn else last)

-- The record of a loser, less those before the last committed record about the tuple.
abbrev pub is_undone : Map ℕ ℕ → Option ℕ → LogRecord → RowKey → Bool
is_undone committed last r k =
    is_about r.body k && not (is_committed committed r || is_later last r.lsn)

-- The reference: the records in the order given, each with the image from before it.
abbrev pub undone : Map ℕ ℕ → Option ℕ → List LogRecord → RowKey → Option RmRecord → Option RmRecord
undone committed last [] k value = value
undone committed last (r ∷ logs) k value =
    undone committed last logs k (if is_undone committed last r k then undo_image r.body else value)

module _ (slots size : List ℕ → ℕ) where
  abbrev undo_change :
      Map ℕ ℕ → Map RowKey ℕ → LogRecord → RowKey → Option RmRecord → Option RmRecord
  undo_change committed latest r k value =
      if is_undone committed (lookup k latest) r k then undo_image r.body else value

  undo_record-Stepped :
      (committed : Map ℕ ℕ) (latest : Map RowKey ℕ) (fhs : Tables) (r : LogRecord)
      → TablesOk slots size fhs
      → BodyOk slots size r.body
      → (fhs' : Tables) × (undo_record committed latest fhs r ≡ (done tt, fhs'))
        × Stepped slots size fhs (undo_change committed latest r) fhs'
  unfolding undo_record
  undo_record-Stepped committed latest fhs r ok h = elim (Option-cases (dml_key r.body)) [
    | inl e ↦ (
      fhs,
      rw (undo_record, e) refl,
      unchanged slots size fhs _ ok (λ k value. rw (is_about_at r.body k none e) refl),
    )
    | inr (key, e) ↦
        elim (Bool-cases (is_committed committed r || is_later (lookup key latest) r.lsn)) [
          | inl c ↦ (
            fhs,
            rw (undo_record, e, c) refl,
            unchanged slots size fhs _ ok (λ k value. skipped key e c k value),
          )
          | inr c ↦ applied key e c (
              from_Does slots size fhs r.body (undo_image r.body) (undo_body fhs r.lsn r.body) key e
                (undo_body-Does slots size fhs r.lsn r.body ok h))
        ]
  ]
    where
      at_key :
          (key : RowKey)
          → dml_key r.body ≡ some key
          → (k : RowKey) (value : Option RmRecord)
          → undo_change committed latest r k value ≡ (
              if is_about r.body k
                && not (is_committed committed r || is_later (lookup key latest) r.lsn)
              then undo_image r.body
              else value)
      at_key key e k value = elim (Bool-cases (row_key_eqb key k)) [
        | inl same ↦ let equal : key ≡ k = (row_key_eqb_iff key k).0 same in rw equal refl
        | inr off ↦ rw (is_about_at r.body k (some key) e, off) refl
      ]

      skipped :
          (key : RowKey)
          → dml_key r.body ≡ some key
          → (is_committed committed r || is_later (lookup key latest) r.lsn) ≡ true
          → (k : RowKey) (value : Option RmRecord) → undo_change committed latest r k value ≡ value
      skipped key e c k value = at_key key e k value ∙ rw c (ground arith)

      applied :
          (key : RowKey)
          → dml_key r.body ≡ some key
          → (is_committed committed r || is_later (lookup key latest) r.lsn) ≡ false
          → ((fhs' : Tables) × (undo_body fhs r.lsn r.body ≡ (done tt, fhs'))
              × Stepped slots size fhs
                  (λ k value. if is_about r.body k then undo_image r.body else value)
                  fhs')
          → (fhs' : Tables) × (undo_record committed latest fhs r ≡ (done tt, fhs'))
            × Stepped slots size fhs (undo_change committed latest r) fhs'
      applied key e c (fhs', ran, s) = (
        fhs',
        rw (undo_record, e, c) ran,
        record {
          tables = s.tables;
          opened = s.opened;
          rows = λ k o. s.rows k o ∙ sym (at_key key e k (row fhs k) ∙ rw c (ground arith));
        },
      )

  undo_next :
      (committed : Map ℕ ℕ) (latest : Map RowKey ℕ) (r : LogRecord) (logs : List LogRecord)
      (fhs : Tables)
      → ((fhs₁ : Tables) × (undo_record committed latest fhs r ≡ (done tt, fhs₁))
          × Stepped slots size fhs (undo_change committed latest r) fhs₁)
      → ((fhs₁ : Tables)
          → TablesOk slots size fhs₁
          → (fhs' : Tables) × (undo_all committed latest logs fhs₁ ≡ (done tt, fhs'))
            × Stepped slots size fhs₁ (λ k. undone committed (lookup k latest) logs k) fhs')
      → (fhs' : Tables) × (undo_all committed latest (r ∷ logs) fhs ≡ (done tt, fhs'))
        × Stepped slots size fhs (λ k. undone committed (lookup k latest) (r ∷ logs) k) fhs'
  unfolding undo_all
  undo_next committed latest r logs fhs (fhs₁, one, s) rest =
      let (fhs₂, ran, t) = rest fhs₁ s.tables in
      (
        fhs₂,
        simp (undo_all, one, ran),
        Stepped-trans slots size fhs fhs₁ fhs₂ _ (λ k. undone committed (lookup k latest) logs k) s
            t,
      )

  pub undo_all-Stepped :
      (committed : Map ℕ ℕ) (latest : Map RowKey ℕ) (logs : List LogRecord) (fhs : Tables)
      → TablesOk slots size fhs
      → LogsOk slots size logs
      → (fhs' : Tables) × (undo_all committed latest logs fhs ≡ (done tt, fhs'))
        × Stepped slots size fhs (λ k. undone committed (lookup k latest) logs k) fhs'
  unfolding undo_all
  undo_all-Stepped committed latest [] fhs ok h =
      (fhs, refl, unchanged slots size fhs _ ok (λ k value. refl))
  undo_all-Stepped committed latest (r ∷ logs) fhs ok h =
      undo_next committed latest r logs fhs (undo_record-Stepped committed latest fhs r ok h.0)
        (λ fhs₁ ok₁. undo_all-Stepped committed latest logs fhs₁ ok₁ h.1)
