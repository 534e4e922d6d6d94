-- ===== src/Recovery/Analyze/Noted.antt =====
-- What the scan of recovery/log_recovery.cpp collects from records, one after the other.
use database.Prelude.{
  ℕ, ◌≡◌, refl, sym, ap, ◌∙◌, inl, inr, List, [], ◌∷◌, ◌++◌, Option, some, if◌then◌else◌, lookup,
  lookup-insert, nat_eq, nat_eqb, arith, Bool-cases,
}
use database.Recovery.{LogBody, begin, abort, commit, checkpoint, insert, delete, update, LogRecord}
use database.Recovery.Analyze.{Analysis, invalid_txn_id, note_body, note_log}

abbrev pub noted : Analysis → List LogRecord → Analysis
noted a [] = a
noted a (r ∷ rs) = noted (note_log a r) rs

pub append_nil : {A : Type 0} (xs : List A) → xs ++ [] ≡ xs
append_nil [] = refl
append_nil (x ∷ xs) = ap (λ ys. x ∷ ys) (append_nil xs)

pub append_assoc : {A : Type 0} (xs ys zs : List A) → (xs ++ ys) ++ zs ≡ xs ++ (ys ++ zs)
append_assoc [] ys zs = refl
append_assoc (x ∷ xs) ys zs = ap (λ ws. x ∷ ws) (append_assoc xs ys zs)

note_body_logs : (a : Analysis) (tid : ℕ) (body : LogBody) → (note_body a tid body).logs ≡ a.logs
unfolding note_body
note_body_logs a tid begin = refl
note_body_logs a tid abort = refl
note_body_logs a tid (commit ts) = refl
note_body_logs a tid (checkpoint n t c d) = refl
note_body_logs a tid (insert v r t) = refl
note_body_logs a tid (delete v r t) = refl
note_body_logs a tid (update o n r t) = refl

note_log_logs : (a : Analysis) (r : LogRecord) → (note_log a r).logs ≡ a.logs ++ r ∷ []
unfolding note_log
note_log_logs a r = elim (Bool-cases (nat_eqb r.log_tid invalid_txn_id)) [
  | inl e ↦ rw e (ap (λ logs. logs ++ r ∷ []) (note_body_logs _ r.log_tid r.body))
  | inr e ↦ rw e (ap (λ logs. logs ++ r ∷ []) (note_body_logs _ r.log_tid r.body))
]

pub noted_logs : (a : Analysis) (logs : List LogRecord) → (noted a logs).logs ≡ a.logs ++ logs
noted_logs a [] = sym (append_nil a.logs)
noted_logs a (r ∷ logs) =
    noted_logs (note_log a r) logs
    ∙ ap (λ front. front ++ logs) (note_log_logs a r)
    ∙ append_assoc a.logs (r ∷ []) logs

-- The reference: the timestamp in the last record of the transaction's commit.
abbrev pub stamp : LogBody → Option ℕ → Option ℕ
stamp (commit ts) last = some ts
stamp begin last = last
stamp abort last = last
stamp (checkpoint n t c d) last = last
stamp (insert v r t) last = last
stamp (delete v r t) last = last
stamp (update o n r t) last = last

abbrev pub committed_at : ℕ → List LogRecord → Option ℕ → Option ℕ
committed_at tid [] last = last
committed_at tid (r ∷ logs) last =
    committed_at tid logs (if nat_eqb r.log_tid tid then stamp r.body last else last)

note_body_committed :
    (a : Analysis) (tid other : ℕ) (body : LogBody)
    → lookup other (note_body a tid body).committed_txns ≡ (
        if nat_eqb tid other
        then stamp body (lookup other a.committed_txns)
        else lookup other a.committed_txns)
unfolding note_body
note_body_committed a tid other (commit ts) = lookup-insert tid other ts a.committed_txns
note_body_committed a tid other begin = ground arith
note_body_committed a tid other abort = ground arith
note_body_committed a tid other (checkpoint n t c d) = ground arith
note_body_committed a tid other (insert v r t) = ground arith
note_body_committed a tid other (delete v r t) = ground arith
note_body_committed a tid other (update o n r t) = ground arith

note_log_committed :
    (a : Analysis) (r : LogRecord) (tid : ℕ)
    → lookup tid (note_log a r).committed_txns ≡ (
        if nat_eqb r.log_tid tid
        then stamp r.body (lookup tid a.committed_txns)
        else lookup tid a.committed_txns)
unfolding note_log
note_log_committed a r tid = elim (Bool-cases (nat_eqb r.log_tid invalid_txn_id)) [
  | inl e ↦ rw e (note_body_committed _ r.log_tid tid r.body)
  | inr e ↦ rw e (note_body_committed _ r.log_tid tid r.body)
]

pub noted_committed :
    (a : Analysis) (logs : List LogRecord) (tid : ℕ)
    → lookup tid (noted a logs).committed_txns ≡ committed_at tid logs (lookup tid a.committed_txns)
noted_committed a [] tid = refl
noted_committed a (r ∷ logs) tid =
    noted_committed (note_log a r) logs tid
    ∙ ap (committed_at tid logs) (note_log_committed a r tid)
