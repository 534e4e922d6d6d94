-- ===== src/Recovery/Replay/Passes.antt =====
-- The loop of `RecoveryManager::redo` of recovery/log_recovery.cpp, as changes of tuples.
use database.Prelude.{
  ℕ, ◌≡◌, refl, ◌∙◌, inl, inr, List, [], ◌∷◌, Option, none, some, true, ◌&&◌, if◌then◌else◌, arith,
  Bool-cases, Option-cases, Map,
}
use database.Txn.Defs.{RmRecord, done}
use database.Recovery.{LogRecord}
use database.Recovery.Replay.{Tables, RowKey, dml_key, redo_body, is_committed, redo_record, redo}
use database.Recovery.Replay.Images.{TablesOk}
use database.Recovery.Replay.Changes.{
  redo_image, is_about, is_about_at, BodyOk, LogsOk, Stepped, unchanged, from_Does, redo_body-Does,
  Stepped-trans,
}

-- The reference: the image of the last committed record about the tuple, else what was there.
abbrev pub redone : Map ℕ ℕ → List LogRecord → RowKey → Option RmRecord → Option RmRecord
redone committed [] k value = value
redone committed (r ∷ logs) k value =
    redone committed logs k
      (if is_about r.body k && is_committed committed r then redo_image r.body else value)

module _ (slots size : List ℕ → ℕ) where
  redo_record-Stepped :
      (committed : Map ℕ ℕ) (fhs : Tables) (r : LogRecord)
      → TablesOk slots size fhs
      → BodyOk slots size r.body
      → (fhs' : Tables) × (redo_record committed fhs r ≡ (done tt, fhs'))
        × Stepped slots size fhs
            (λ k value.
              if is_about r.body k && is_committed committed r then redo_image r.body else value)
            fhs'
  unfolding redo_record
  redo_record-Stepped committed fhs r ok h = elim (Option-cases (dml_key r.body)) [
    | inl e ↦ (
      fhs,
      rw (redo_record, e) refl,
      unchanged slots size fhs _ ok (λ k value. rw (is_about_at r.body k none e) refl),
    )
    | inr (key, e) ↦ elim (Bool-cases (is_committed committed r)) [
      | inl c ↦ applied c key e (
          from_Does slots size fhs r.body (redo_image r.body) (redo_body fhs r.lsn r.body) key e
            (redo_body-Does slots size fhs r.lsn r.body ok h))
      | inr c ↦ (
        fhs,
        rw (redo_record, e, c) refl,
        unchanged slots size fhs _ ok (λ k value. rw c (ground arith)),
      )
    ]
  ]
    where
      applied :
          is_committed committed r ≡ true
          → (key : RowKey) → dml_key r.body ≡ some key
          → ((fhs' : Tables) × (redo_body fhs r.lsn r.body ≡ (done tt, fhs'))
              × Stepped slots size fhs
                  (λ k value. if is_about r.body k then redo_image r.body else value)
                  fhs')
          → (fhs' : Tables) × (redo_record committed fhs r ≡ (done tt, fhs'))
            × Stepped slots size fhs
                (λ k value.
                  if is_about r.body k && is_committed committed r
                  then redo_image r.body
                  else value)
                fhs'
      applied c key e (fhs', ran, s) = (
        fhs',
        rw (redo_record, e, c) ran,
        record {
          tables = s.tables;
          opened = s.opened;
          rows = λ k o. s.rows k o ∙ rw c (ground arith);
        },
      )

  redo_next :
      (committed : Map ℕ ℕ) (r : LogRecord) (logs : List LogRecord) (fhs : Tables)
      → ((fhs₁ : Tables) × (redo_record committed fhs r ≡ (done tt, fhs₁))
          × Stepped slots size fhs
              (λ k value.
                if is_about r.body k && is_committed committed r then redo_image r.body else value)
              fhs₁)
      → ((fhs₁ : Tables)
          → TablesOk slots size fhs₁
          → (fhs' : Tables) × (redo committed logs fhs₁ ≡ (done tt, fhs'))
            × Stepped slots size fhs₁ (redone committed logs) fhs')
      → (fhs' : Tables) × (redo committed (r ∷ logs) fhs ≡ (done tt, fhs'))
        × Stepped slots size fhs (redone committed (r ∷ logs)) fhs'
  unfolding redo
  redo_next committed r logs fhs (fhs₁, one, s) rest =
      let (fhs₂, ran, t) = rest fhs₁ s.tables in
      (
        fhs₂,
        simp (redo, one, ran),
        Stepped-trans slots size fhs fhs₁ fhs₂ _ (redone committed logs) s t,
      )

  -- The redo pass over well formed files ends without an error, and every tuple of an open table then
  -- holds the image of the last committed record about it, or what it held where there is none.
  pub redo-Stepped :
      (committed : Map ℕ ℕ) (logs : List LogRecord) (fhs : Tables)
      → TablesOk slots size fhs
      → LogsOk slots size logs
      → (fhs' : Tables) × (redo committed logs fhs ≡ (done tt, fhs'))
        × Stepped slots size fhs (redone committed logs) fhs'
  unfolding redo
  redo-Stepped committed [] fhs ok h =
      (fhs, refl, unchanged slots size fhs (redone committed []) ok (λ k value. refl))
  redo-Stepped committed (r ∷ logs) fhs ok h =
      redo_next committed r logs fhs (redo_record-Stepped committed fhs r ok h.0)
        (λ fhs₁ ok₁. redo-Stepped committed logs fhs₁ ok₁ h.1)
