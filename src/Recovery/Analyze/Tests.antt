-- ===== src/Recovery/Analyze/Tests.antt =====
-- A run of the scan of recovery/log_recovery.cpp over two records and the start of a third.
use database.Prelude.{ℕ, ◌≡◌, refl, [], ◌∷◌, ◌++◌, arith, take, insert, lookup, none, nat_eq}
use database.Recovery.{LogRecord, begin, commit, delete, tot_len, serialize}
use database.Recovery.RoundTrip.{Fits}
use database.Recovery.Analyze.{no_logs, note_log, note_body, analyze}
use database.Recovery.Analyze.Noted.{noted, committed_at}
use database.Recovery.Analyze.Whole.{Torn, written, analyze-noted}

abbrev first : LogRecord
first = record {
  lsn = 0;
  log_tot_len = 43;
  log_tid = 3;
  prev_lsn = 4294967295;
  body = delete (7 ∷ 8 ∷ []) (record { page_no = 1; slot_no = 0 }) (116 ∷ []);
}

abbrev second : LogRecord
second = record { lsn = 43; log_tot_len = 32; log_tid = 3; prev_lsn = 0; body = commit 5 }

abbrev third : LogRecord
third = record { lsn = 75; log_tot_len = 24; log_tid = 4; prev_lsn = 4294967295; body = begin }

first-Fits : Fits first
unfolding tot_len
first-Fits = record {
  lsn = omega arith;
  log_tid = omega arith;
  prev_lsn = omega arith;
  log_tot_len = (refl, omega arith);
  body = (omega arith, (omega arith, omega arith), omega arith);
}

second-Fits : Fits second
unfolding tot_len
second-Fits = record {
  lsn = omega arith;
  log_tid = omega arith;
  prev_lsn = omega arith;
  log_tot_len = (refl, omega arith);
  body = omega arith;
}

third-Fits : Fits third
unfolding tot_len
third-Fits = record {
  lsn = omega arith;
  log_tid = omega arith;
  prev_lsn = omega arith;
  log_tot_len = (refl, omega arith);
  body = tt;
}

third-Torn : Torn (take 10 (serialize third))
unfolding tot_len
third-Torn = record { last = third; fits = third-Fits; cut = 10; short = omega arith; bytes = refl }

analyze_example :
    ((analyze ([] ++ (written (first ∷ second ∷ []) ++ take 10 (serialize third))) 0).logs
      ≡ first ∷ second ∷ [])
    × ((tid : ℕ)
        → lookup tid
            (analyze
              ([] ++ (written (first ∷ second ∷ []) ++ take 10 (serialize third)))
              0).committed_txns
          ≡ committed_at tid (first ∷ second ∷ []) none)
unfolding tot_len
analyze_example =
    analyze-noted [] (first ∷ second ∷ []) (take 10 (serialize third))
      (refl, first-Fits, (refl, second-Fits, tt)) third-Torn

-- Transaction 3 is committed at 5.
first_second-committed_txns : (noted no_logs (first ∷ second ∷ [])).committed_txns ≡ (3, 5) ∷ []
unfolding note_log note_body insert
first_second-committed_txns = refl
