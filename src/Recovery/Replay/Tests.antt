-- ===== src/Recovery/Replay/Tests.antt =====
-- Runs of the passes of recovery/log_recovery.cpp over the sample file, as the table "t".
use database.Prelude.{
  ℕ, ◌≡◌, refl, inl, inr, List, [], ◌∷◌, none, some, arith, Bool-cases, lookup, nat_eq, Map,
}
use database.Txn.Defs.{done}
use database.Txn.Unique.Keys.{bytes_eqb}
use database.Record.Sample.{two_pages, two_pages-IsValid, two_pages-Chain}
use database.Recovery.{LogRecord, insert, delete}
use database.Recovery.Replay.{Tables, RowKey, bytes_eq, dml_key, recover}
use database.Recovery.Replay.Images.{row, TablesOk}
use database.Recovery.Replay.Changes.{LogsOk, Stepped}
use database.Recovery.Replay.Passes.{redone}
use database.Recovery.Replay.Recover.{recovered, recover-Stepped, recover_keeps_committed}

abbrev table_t : List ℕ
table_t = 116 ∷ []

abbrev tables : Tables
tables = (table_t, two_pages) ∷ []

abbrev new_row : RowKey
new_row = record { table_name = table_t; rid = record { page_no = 2; slot_no = 1 } }

abbrev old_row : RowKey
old_row = record { table_name = table_t; rid = record { page_no = 1; slot_no = 0 } }

-- Transaction 4 is a loser, transaction 3 committed.
abbrev logs : List LogRecord
logs =
    record {
      lsn = 3;
      log_tot_len = 43;
      log_tid = 4;
      prev_lsn = 0;
      body = insert (1 ∷ 2 ∷ []) new_row.rid table_t;
    }
    ∷ record {
      lsn = 46;
      log_tot_len = 43;
      log_tid = 3;
      prev_lsn = 0;
      body = insert (5 ∷ 6 ∷ []) new_row.rid table_t;
    }
    ∷ record {
      lsn = 89;
      log_tot_len = 43;
      log_tid = 4;
      prev_lsn = 3;
      body = delete (7 ∷ 8 ∷ []) old_row.rid table_t;
    }
    ∷ []

abbrev committed : Map ℕ ℕ
committed = (3, 9) ∷ []

abbrev slots : List ℕ → ℕ
slots table_name = 3

abbrev size : List ℕ → ℕ
size table_name = 2

tables-TablesOk : TablesOk slots size tables
unfolding lookup
tables-TablesOk name = elim (Bool-cases (bytes_eqb table_t name)) [
  | inl same ↦ rw same (two_pages-IsValid, (2 ∷ 1 ∷ [], two_pages-Chain), refl, refl)
  | inr off ↦ rw off tt
]

logs-LogsOk : LogsOk slots size logs
logs-LogsOk = (
  ((omega arith, omega arith), refl),
  (((omega arith, omega arith), refl), (((omega arith, omega arith), refl), tt)),
)

recover_example :
    (fhs' : Tables) × (recover committed logs tables ≡ (done tt, fhs'))
    × Stepped slots size tables (recovered committed logs) fhs'
recover_example = recover-Stepped slots size committed logs tables tables-TablesOk logs-LogsOk

keeps_committed_example :
    (fhs' : Tables) × (recover committed logs tables ≡ (done tt, fhs'))
    × (row fhs' new_row ≡ redone committed logs new_row (row tables new_row))
unfolding lookup dml_key
keeps_committed_example =
    recover_keeps_committed slots size committed logs tables new_row 46 tables-TablesOk logs-LogsOk
      refl refl
      (
        (λ about loser. omega arith),
        (
          (λ about loser. absurd (ground (arith, loser))),
          ((λ about loser. absurd (ground (arith, about))), tt),
        ),
      )

-- The committed insertion is kept, and the loser's deletion is taken back.
new_row-recovered : recovered committed logs new_row none ≡ some (5 ∷ 6 ∷ [])
unfolding dml_key lookup
new_row-recovered = refl

old_row-recovered : recovered committed logs old_row none ≡ some (7 ∷ 8 ∷ [])
unfolding dml_key lookup
old_row-recovered = refl
