-- ===== src/Watermark/Reads.antt =====
-- The `std::map<timestamp_t, int>` of transaction/watermark.h: how often each timestamp is read.
use database.Prelude.{
  ℕ, suc, ◌+◌, ◌-◌, ◌≤◌, ◌<◌, ◌≡◌, refl, List, [], ◌∷◌, arith, ltb, leb, nat_eqb, if◌then◌else◌,
}

-- A timestamp and the number of its readers.
abbrev pub Count : Type 0
Count = ℕ × ℕ

-- `current_reads_[read_ts]++`
unfoldable pub increment : ℕ → List Count → List Count
increment ts [] = (ts, 1) ∷ []
increment ts ((t, n) ∷ m) =
    if nat_eqb ts t
    then (t, n + 1) ∷ m
    else if ltb ts t
    then (ts, 1) ∷ (t, n) ∷ m
    else (t, n) ∷ increment ts m

-- `find`, then `it->second--` and `erase` at zero
unfoldable pub decrement : ℕ → List Count → List Count
decrement ts [] = []
decrement ts ((t, n) ∷ m) =
    if nat_eqb ts t then (if leb n 1 then m else (t, n - 1) ∷ m) else (t, n) ∷ decrement ts m

-- `current_reads_.empty() ? commit_ts_ : current_reads_.begin()->first`
unfoldable pub oldest_or : ℕ → List Count → ℕ
oldest_or commit_ts [] = commit_ts
oldest_or commit_ts ((t, n) ∷ m) = t

-- The readers at a timestamp.
unfoldable pub readers : ℕ → List Count → ℕ
readers ts [] = 0
readers ts ((t, n) ∷ m) = if nat_eqb ts t then n else readers ts m

-- Keys rise from the bound on, and each has a reader.
abbrev pub From : ℕ → List Count → Type 0
From lo [] = Unit {0}
From lo ((t, n) ∷ m) = (lo ≤ t) × (0 < n) × From (suc t) m

pub From-mono : (lo hi : ℕ) (m : List Count) → lo ≤ hi → From hi m → From lo m
From-mono lo hi [] h f = tt
From-mono lo hi ((t, n) ∷ m) h f = (omega arith, f.1, f.2)

pub increment-From : (lo ts : ℕ) (m : List Count) → lo ≤ ts → From lo m → From lo (increment ts m)
unfolding increment
increment-From lo ts [] h f = (h, omega arith, tt)
increment-From lo ts ((t, n) ∷ m) h f =
    ground (arith, increment-From (suc t) ts m, From-mono (suc ts) (suc t) m)

pub decrement-From : (lo ts : ℕ) (m : List Count) → From lo m → From lo (decrement ts m)
unfolding decrement
decrement-From lo ts [] f = tt
decrement-From lo ts ((t, n) ∷ m) f =
    ground (arith, decrement-From (suc t) ts m, From-mono lo (suc t) m)

readers_below : (lo ts : ℕ) (m : List Count) → ts < lo → From lo m → readers ts m ≡ 0
unfolding readers
readers_below lo ts [] h f = refl
readers_below lo ts ((t, n) ∷ m) h f = ground (arith, readers_below (suc t) ts m)

pub readers-increment :
    (lo ts t : ℕ) (m : List Count)
    → From lo m
    → readers t (increment ts m) ≡ (if nat_eqb ts t then readers t m + 1 else readers t m)
unfolding readers increment
readers-increment lo ts t [] f = ground arith
readers-increment lo ts t ((u, n) ∷ m) f =
    ground (arith, readers-increment (suc u) ts t m, readers_below (suc u) ts m)

readers-decrement_cons :
    (lo ts t u n : ℕ) (m : List Count)
    → From lo ((u, n) ∷ m)
    → readers t (decrement ts m) ≡ (if nat_eqb ts t then readers t m - 1 else readers t m)
    → readers t (decrement ts ((u, n) ∷ m))
      ≡ (if nat_eqb ts t then readers t ((u, n) ∷ m) - 1 else readers t ((u, n) ∷ m))
unfolding readers decrement
readers-decrement_cons lo ts t u n m f h = ground (arith, readers_below (suc u) ts m)

pub readers-decrement :
    (lo ts t : ℕ) (m : List Count)
    → From lo m
    → readers t (decrement ts m) ≡ (if nat_eqb ts t then readers t m - 1 else readers t m)
unfolding readers decrement
readers-decrement lo ts t [] f = ground arith
readers-decrement lo ts t ((u, n) ∷ m) f =
    readers-decrement_cons lo ts t u n m f (readers-decrement (suc u) ts t m f.2)

pub decrement-increment :
    (lo ts : ℕ) (m : List Count) → From lo m → decrement ts (increment ts m) ≡ m
unfolding increment decrement
decrement-increment lo ts [] f = ground arith
decrement-increment lo ts ((t, n) ∷ m) f = ground (arith, decrement-increment (suc t) ts m)

-- The first key bounds every timestamp that has a reader.
pub oldest_or-le-reader :
    (lo commit_ts t : ℕ) (m : List Count)
    → From lo m
    → 0 < readers t m
    → (lo ≤ t) × (oldest_or commit_ts m ≤ t)
unfolding readers oldest_or
oldest_or-le-reader lo c t [] f h = ground arith
oldest_or-le-reader lo c t ((u, n) ∷ m) f h = ground (arith, oldest_or-le-reader (suc u) c t m)
