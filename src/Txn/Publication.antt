-- ===== src/Txn/Publication.antt =====
-- The order in which commits become visible: `ReserveCommitTimestamp`, `CancelCommitTimestamp`,
-- `AwaitCommitPublicationTurn`, `CompleteCommitPublication` and `RecoveryAdvanceCounters` of
-- transaction/transaction_manager.cpp. The `std::map` is a list in the order of its keys; its value
-- says that the commit record is durable. A wait is split into the marking before it and the
-- condition under which it ends.
pub mod Order
pub mod Progress
pub mod Tests
pub mod Between
use database.Prelude.{
  ℕ, ◌+◌, List, [], ◌∷◌, Option, none, some, Bool, true, false, not, if◌then◌else◌, max, nat_eqb,
  ltb, has_value,
}
use database.Txn.Defs.{Result, done, throw, internal_error}

pub record Publications : Type 0 where
  pub next_timestamp : ℕ
  pub last_commit_ts : ℕ
  pub commit_publications : List (ℕ × Bool)

unfoldable pub init : Publications
init = record { next_timestamp = 1; last_commit_ts = 0; commit_publications = [] }

-- The ordered map: look up, insert if absent, erase, and the write through an iterator.
unfoldable pub find : ℕ → List (ℕ × Bool) → Option Bool
find ts [] = none
find ts ((t, b) ∷ m) = if nat_eqb t ts then some b else find ts m

unfoldable pub emplace : ℕ → Bool → List (ℕ × Bool) → List (ℕ × Bool)
emplace ts b [] = (ts, b) ∷ []
emplace ts b ((t, c) ∷ m) =
    if ltb ts t
    then (ts, b) ∷ (t, c) ∷ m
    else if nat_eqb ts t
    then (t, c) ∷ m
    else (t, c) ∷ emplace ts b m

unfoldable pub erase_at : ℕ → List (ℕ × Bool) → List (ℕ × Bool)
erase_at ts [] = []
erase_at ts ((t, b) ∷ m) = if nat_eqb t ts then m else (t, b) ∷ erase_at ts m

unfoldable pub set_durable : ℕ → List (ℕ × Bool) → List (ℕ × Bool)
set_durable ts [] = []
set_durable ts ((t, b) ∷ m) = if nat_eqb t ts then (t, true) ∷ m else (t, b) ∷ set_durable ts m

-- The timestamp that a reservation takes.
unfoldable pub next_commit_ts : Publications → ℕ
next_commit_ts p = elim p.commit_publications [
  | [] ↦ max p.next_timestamp (p.last_commit_ts + 1)
  | _ ∷ _ ↦ p.next_timestamp
]

unfoldable pub reserve : Publications → Result (ℕ × Publications)
unfolding next_commit_ts
reserve p =
    if has_value (find (next_commit_ts p) p.commit_publications)
    then throw internal_error
    else done (
      next_commit_ts p,
      record p {
        next_timestamp = next_commit_ts p + 1;
        commit_publications = emplace (next_commit_ts p) false p.commit_publications;
      },
    )

unfoldable pub cancel : Publications → ℕ → Result Publications
cancel p commit_ts = elim (find commit_ts p.commit_publications) [
  | none ↦ throw internal_error
  | some durable ↦
      if durable
      then throw internal_error
      else done (record p { commit_publications = erase_at commit_ts p.commit_publications })
]

-- `AwaitCommitPublicationTurn` up to its wait.
unfoldable pub announce : Publications → ℕ → Result Publications
announce p commit_ts =
    if has_value (find commit_ts p.commit_publications)
    then done (record p { commit_publications = set_durable commit_ts p.commit_publications })
    else throw internal_error

-- The condition of the wait.
unfoldable pub has_turn : Publications → ℕ → Bool
has_turn p commit_ts = elim p.commit_publications [ [] ↦ false | e ∷ _ ↦ nat_eqb e.0 commit_ts ]

abbrev is_durable : Option Bool → Bool
is_durable none = false
is_durable (some b) = b

unfoldable pub complete : Publications → ℕ → Result Publications
unfolding has_turn
complete p commit_ts =
    if not (has_turn p commit_ts)
    then throw internal_error
    else if not (is_durable (find commit_ts p.commit_publications))
    then throw internal_error
    else done (record p {
      commit_publications = erase_at commit_ts p.commit_publications;
      last_commit_ts = commit_ts;
    })

-- Each counter is raised to the recovered value, and never lowered.
unfoldable pub recovery_advance_counters : Publications → ℕ → ℕ → Publications
recovery_advance_counters p next_timestamp last_commit_ts = record p {
  next_timestamp = if ltb p.next_timestamp next_timestamp then next_timestamp else p.next_timestamp;
  last_commit_ts = if ltb p.last_commit_ts last_commit_ts then last_commit_ts else p.last_commit_ts;
}
