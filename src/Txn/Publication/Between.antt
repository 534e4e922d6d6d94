-- ===== src/Txn/Publication/Between.antt =====
-- The ordered map of pending commits in transaction/transaction_manager.cpp, and the bounds on its
-- keys that each write to it keeps.
use database.Prelude.{ℕ, suc, ◌≤◌, ◌<◌, ◌≡◌, refl, ◌⊎◌, List, [], ◌∷◌, none, Bool, false, arith}
use database.Txn.Publication.{Publications, find, emplace, erase_at, set_durable, next_commit_ts}

-- Keys rise from the bound on and stay below the other one.
abbrev pub Between : ℕ → ℕ → List (ℕ × Bool) → Type 0
Between lo hi [] = Unit {0}
Between lo hi ((t, b) ∷ m) = (lo ≤ t) × (t < hi) × Between (suc t) hi m

-- Every reservation is after the last published commit and before the next timestamp.
abbrev pub IsOrdered : Publications → Type 0
IsOrdered p = Between (suc p.last_commit_ts) p.next_timestamp p.commit_publications

pub Between-weaken :
    (lo lo' hi hi' : ℕ) (m : List (ℕ × Bool))
    → lo' ≤ lo
    → hi ≤ hi'
    → Between lo hi m
    → Between lo' hi' m
Between-weaken lo lo' hi hi' [] a b h = tt
Between-weaken lo lo' hi hi' ((t, c) ∷ m) a b h =
    (omega arith, omega arith, Between-weaken (suc t) (suc t) hi hi' m (omega arith) b h.2)

pub find_outside :
    (lo hi ts : ℕ) (m : List (ℕ × Bool))
    → Between lo hi m
    → (hi ≤ ts) ⊎ (ts < lo)
    → find ts m ≡ none
unfolding find
find_outside lo hi ts [] h o = refl
find_outside lo hi ts ((t, b) ∷ m) h o = ground (arith, find_outside (suc t) hi ts m h.2)

pub emplace-Between :
    (lo ts : ℕ) (m : List (ℕ × Bool))
    → lo ≤ ts
    → Between lo ts m
    → Between lo (suc ts) (emplace ts false m)
unfolding emplace
emplace-Between lo ts [] l h = (l, omega arith, tt)
emplace-Between lo ts ((t, b) ∷ m) l h = ground (arith, emplace-Between (suc t) ts m)

pub erase_at-Between :
    (lo hi ts : ℕ) (m : List (ℕ × Bool)) → Between lo hi m → Between lo hi (erase_at ts m)
unfolding erase_at
erase_at-Between lo hi ts [] h = tt
erase_at-Between lo hi ts ((t, b) ∷ m) h = ground (
  arith,
  erase_at-Between (suc t) hi ts m h.2,
  Between-weaken (suc t) lo hi hi m (omega arith) (omega arith) h.2,
)

pub set_durable-Between :
    (lo hi ts : ℕ) (m : List (ℕ × Bool)) → Between lo hi m → Between lo hi (set_durable ts m)
unfolding set_durable
set_durable-Between lo hi ts [] h = tt
set_durable-Between lo hi ts ((t, b) ∷ m) h =
    ground (arith, set_durable-Between (suc t) hi ts m h.2)

pub emplace-Between_next :
    (n l : ℕ) (m : List (ℕ × Bool)) (p : Publications)
    → p.next_timestamp ≡ n
    → p.last_commit_ts ≡ l
    → p.commit_publications ≡ m
    → Between (suc l) n m
    → (l < next_commit_ts p) × (n ≤ next_commit_ts p) × Between (suc l) (next_commit_ts p) m
unfolding next_commit_ts
emplace-Between_next n l [] p e f g h = ground arith
emplace-Between_next n l ((t, b) ∷ m) p e f g h = ground (arith, head_below n l t b m h)
  where
    head_below :
        (n l t : ℕ) (b : Bool) (m : List (ℕ × Bool))
        → Between (suc l) n ((t, b) ∷ m)
        → (l < n) × (suc l ≤ t)
    head_below n l t b m h = (omega arith, h.0)
