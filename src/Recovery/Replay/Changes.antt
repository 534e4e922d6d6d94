-- ===== src/Recovery/Replay/Changes.antt =====
-- What one record of the log asks for, in recovery/log_recovery.cpp, and steps as changes of tuples.
use database.Prelude.{
  ℕ, ◌≤◌, ◌<◌, ◌≡◌, refl, sym, ap, subst, ◌∙◌, List, Option, none, some, Bool, true, false,
  if◌then◌else◌, length, arith, All,
}
use database.Txn.Defs.{Rid, RmRecord, Result, done}
use database.Record.Ops.{delete_record_quarantine}
use database.Recovery.{LogBody, LogRecord, begin, abort, commit, checkpoint, insert, delete, update}
use database.Record.Place.{delete_record_quarantine-Changed}
use database.Recovery.Replay.{
  Tables, RowKey, row_key_eqb, dml_key, apply_image, on_table, redo_body, undo_body,
}
use database.Recovery.Replay.Images.{
  apply_image-Changed, row, is_open, TablesOk, FileOk, Wrote, on_table-Wrote,
}

-- What a record leaves at its tuple when it is done again, and when it is undone.
abbrev pub redo_image : LogBody → Option RmRecord
redo_image begin = none
redo_image abort = none
redo_image (commit ts) = none
redo_image (checkpoint a b c d) = none
redo_image (insert v r t) = some v
redo_image (update o n r t) = some n
redo_image (delete v r t) = none

abbrev pub undo_image : LogBody → Option RmRecord
undo_image begin = none
undo_image abort = none
undo_image (commit ts) = none
undo_image (checkpoint a b c d) = none
undo_image (insert v r t) = none
undo_image (update o n r t) = some o
undo_image (delete v r t) = some v

abbrev pub about : Option RowKey → RowKey → Bool
about none k = false
about (some key) k = row_key_eqb key k

-- The record is about the tuple.
abbrev pub is_about : LogBody → RowKey → Bool
is_about body k = about (dml_key body) k

pub is_about_at :
    (body : LogBody) (k : RowKey) (o : Option RowKey)
    → dml_key body ≡ o
    → is_about body k ≡ about o k
is_about_at body k o e = ap (λ o. about o k) e

module _ (slots size : List ℕ → ℕ) where
  -- A record of the log is about a slot of a data page, and its images have the size of the table's.
  abbrev pub RidOk : Rid → List ℕ → Type 0
  RidOk r t = (1 ≤ r.page_no) × (r.slot_no < slots t)

  abbrev pub BodyOk : LogBody → Type 0
  BodyOk begin = Unit
  BodyOk abort = Unit
  BodyOk (commit ts) = Unit
  BodyOk (checkpoint a b c d) = Unit
  BodyOk (insert v r t) = RidOk r t × (length v ≡ size t)
  BodyOk (update o n r t) = RidOk r t × (length o ≡ size t) × (length n ≡ size t)
  BodyOk (delete v r t) = RidOk r t × (length v ≡ size t)

  abbrev pub LogsOk : List LogRecord → Type 0
  LogsOk = All (λ (r : LogRecord). BodyOk r.body)

  write_image :
      (fhs : Tables) (t : List ℕ) (r : Rid) (value : RmRecord) (lsn : ℕ)
      → TablesOk slots size fhs
      → RidOk r t
      → length value ≡ size t
      → (fhs' : Tables) × (on_table fhs t (λ fh. apply_image fh r value lsn) ≡ (done tt, fhs'))
        × Wrote slots size fhs (record { table_name = t; rid = r }) (some value) fhs'
  write_image fhs t r value lsn ok (low, below) len =
      on_table-Wrote slots size fhs (record { table_name = t; rid = r }) (some value) _ ok
        (λ fh e.
          let (valid, (ps, c), n, bytes) = subst (FileOk slots size t) e (ok t) in
          apply_image-Changed fh r value lsn ps valid c low (omega (arith, below, n))
            (len ∙ sym bytes))

  erase_row :
      (fhs : Tables) (t : List ℕ) (r : Rid) (lsn : ℕ)
      → TablesOk slots size fhs
      → RidOk r t
      → (fhs' : Tables) × (on_table fhs t (λ fh. delete_record_quarantine fh r (some lsn))
          ≡ (done tt, fhs'))
        × Wrote slots size fhs (record { table_name = t; rid = r }) none fhs'
  erase_row fhs t r lsn ok (low, below) =
      on_table-Wrote slots size fhs (record { table_name = t; rid = r }) none _ ok
        (λ fh e.
          let (valid, (ps, c), n, bytes) = subst (FileOk slots size t) e (ok t) in
          delete_record_quarantine-Changed fh r ps (some lsn) valid c low (omega (arith, below, n)))

  -- What one record does, if it is about a tuple.
  abbrev pub Does : Tables → Option RowKey → Option RmRecord → Result (Unit {0}) × Tables → Type 0
  Does fhs none image outcome = Unit
  Does fhs (some key) image outcome =
      (fhs' : Tables) × (outcome ≡ (done tt, fhs')) × Wrote slots size fhs key image fhs'

  pub redo_body-Does :
      (fhs : Tables) (lsn : ℕ) (body : LogBody)
      → TablesOk slots size fhs
      → BodyOk body
      → Does fhs (dml_key body) (redo_image body) (redo_body fhs lsn body)
  unfolding dml_key redo_body
  redo_body-Does fhs lsn begin ok h = tt
  redo_body-Does fhs lsn abort ok h = tt
  redo_body-Does fhs lsn (commit ts) ok h = tt
  redo_body-Does fhs lsn (checkpoint a b c d) ok h = tt
  redo_body-Does fhs lsn (insert v r t) ok h = write_image fhs t r v lsn ok h.0 h.1
  redo_body-Does fhs lsn (update o n r t) ok h = write_image fhs t r n lsn ok h.0 h.2
  redo_body-Does fhs lsn (delete v r t) ok h = erase_row fhs t r lsn ok h.0

  pub undo_body-Does :
      (fhs : Tables) (lsn : ℕ) (body : LogBody)
      → TablesOk slots size fhs
      → BodyOk body
      → Does fhs (dml_key body) (undo_image body) (undo_body fhs lsn body)
  unfolding dml_key undo_body
  undo_body-Does fhs lsn begin ok h = tt
  undo_body-Does fhs lsn abort ok h = tt
  undo_body-Does fhs lsn (commit ts) ok h = tt
  undo_body-Does fhs lsn (checkpoint a b c d) ok h = tt
  undo_body-Does fhs lsn (insert v r t) ok h = erase_row fhs t r lsn ok h.0
  undo_body-Does fhs lsn (update o n r t) ok h = write_image fhs t r o lsn ok h.0 h.1
  undo_body-Does fhs lsn (delete v r t) ok h = write_image fhs t r v lsn ok h.0 h.1

  -- The open tables stay open and well formed, and each tuple in them is changed as told.
  pub record Stepped (fhs : Tables) (change : RowKey → Option RmRecord → Option RmRecord)
      (fhs' : Tables) : Type 0 where
    pub tables : TablesOk slots size fhs'
    pub opened : (t : List ℕ) → is_open fhs' t ≡ is_open fhs t
    pub rows : (k : RowKey) → is_open fhs k.table_name ≡ true → row fhs' k ≡ change k (row fhs k)

  pub unchanged :
      (fhs : Tables) (change : RowKey → Option RmRecord → Option RmRecord)
      → TablesOk slots size fhs
      → ((k : RowKey) (value : Option RmRecord) → change k value ≡ value)
      → Stepped fhs change fhs
  unchanged fhs change ok same = record {
    tables = ok;
    opened = λ t. refl;
    rows = λ k o. sym (same k (row fhs k));
  }

  -- A call that a record asks for, as a change of tuples.
  pub from_Does :
      (fhs : Tables) (body : LogBody) (image : Option RmRecord)
      (outcome : Result (Unit {0}) × Tables) (key : RowKey)
      → dml_key body ≡ some key
      → Does fhs (dml_key body) image outcome
      → (fhs' : Tables) × (outcome ≡ (done tt, fhs'))
        × Stepped fhs (λ k value. if is_about body k then image else value) fhs'
  from_Does fhs body image outcome key e does =
      stepped (subst (λ o. Does fhs o image outcome) e does)
    where
      stepped :
          ((fhs' : Tables) × (outcome ≡ (done tt, fhs')) × Wrote slots size fhs key image fhs')
          → (fhs' : Tables) × (outcome ≡ (done tt, fhs'))
            × Stepped fhs (λ k value. if is_about body k then image else value) fhs'
      stepped (fhs', ran, w) = (
        fhs',
        ran,
        record {
          tables = w.tables;
          opened = w.opened;
          rows = λ k o. rw (is_about_at body k (some key) e) (w.rows k o);
        },
      )

  pub Stepped-trans :
      (fhs fhs₁ fhs₂ : Tables) (f g : RowKey → Option RmRecord → Option RmRecord)
      → Stepped fhs f fhs₁
      → Stepped fhs₁ g fhs₂
      → Stepped fhs (λ k value. g k (f k value)) fhs₂
  Stepped-trans fhs fhs₁ fhs₂ f g a b = record {
    tables = b.tables;
    opened = λ t. b.opened t ∙ a.opened t;
    rows = λ k o. b.rows k (a.opened k.table_name ∙ o) ∙ ap (g k) (a.rows k o);
  }
