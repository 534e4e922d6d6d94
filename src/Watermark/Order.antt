-- ===== src/Watermark/Order.antt =====
-- What garbage collection relies on in transaction/watermark.cpp.
use database.Prelude.{
  ℕ, ◌+◌, ◌-◌, ◌≤◌, ◌<◌, ◌≡◌, ◌⊎◌, inl, inr, refl, sym, ap, ◌∙◌, List, [], ◌∷◌, arith, nat_eqb,
  if◌then◌else◌,
}
use database.Watermark.Reads.{
  Count, increment, decrement, oldest_or, readers, From, increment-From, decrement-From,
  readers-increment, readers-decrement, decrement-increment, oldest_or-le-reader,
}
use database.Watermark.{Watermark, init, add_txn, remove_txn, update_commit_ts, get_watermark}

-- The map is in order with positive counts, and the cached watermark is the one that it determines.
pub record IsValid (w : Watermark) : Type 0 where
  pub ordered : From 0 w.current_reads
  pub cached : w.watermark ≡ oldest_or w.commit_ts w.current_reads

pub data Call : Type 0 where
  add remove update : ℕ → Call

unfoldable pub step : Watermark → Call → Watermark
step w (add ts) = add_txn w ts
step w (remove ts) = remove_txn w ts
step w (update ts) = update_commit_ts w ts

unfoldable pub run : Watermark → List Call → Watermark
run w [] = w
run w (c ∷ cs) = run (step w c) cs

-- Every call keeps the map of reads in order, with positive counts, and the cached watermark the one
-- that the map and the commit timestamp determine.
pub step-IsValid : (w : Watermark) (c : Call) → IsValid w → IsValid (step w c)
unfolding step add_txn remove_txn update_commit_ts oldest_or
step-IsValid w (add ts) v = record {
  ordered = increment-From 0 ts w.current_reads (omega arith) v.ordered;
  cached = refl;
}
step-IsValid w (remove ts) v = record {
  ordered = decrement-From 0 ts w.current_reads v.ordered;
  cached = refl;
}
step-IsValid w (update ts) v = ground arith

run-IsValid : (w : Watermark) (cs : List Call) → IsValid w → IsValid (run w cs)
unfolding run
run-IsValid w [] v = v
run-IsValid w (c ∷ cs) v = run-IsValid (step w c) cs (step-IsValid w c v)

pub init-IsValid : (commit_ts : ℕ) → IsValid (init commit_ts)
unfolding init oldest_or
init-IsValid c = record { ordered = tt; cached = refl }

-- The number of calls that opened a read at `t`, less those that closed one while it was open.
abbrev pub open_reads : ℕ → ℕ → List Call → ℕ
open_reads t n [] = n
open_reads t n (add ts ∷ cs) = open_reads t (if nat_eqb ts t then n + 1 else n) cs
open_reads t n (remove ts ∷ cs) = open_reads t (if nat_eqb ts t then n - 1 else n) cs
open_reads t n (update ts ∷ cs) = open_reads t n cs

readers-run_from :
    (t : ℕ) (w : Watermark) (cs : List Call)
    → IsValid w
    → readers t (run w cs).current_reads ≡ open_reads t (readers t w.current_reads) cs
unfolding run step add_txn remove_txn update_commit_ts
readers-run_from t w [] v = refl
readers-run_from t w (add ts ∷ cs) v =
    readers-run_from t (add_txn w ts) cs (step-IsValid w (add ts) v)
    ∙ ap (λ n. open_reads t n cs) (readers-increment 0 ts t w.current_reads v.ordered)
readers-run_from t w (remove ts ∷ cs) v =
    readers-run_from t (remove_txn w ts) cs (step-IsValid w (remove ts) v)
    ∙ ap (λ n. open_reads t n cs) (readers-decrement 0 ts t w.current_reads v.ordered)
readers-run_from t w (update ts ∷ cs) v =
    readers-run_from t (update_commit_ts w ts) cs (step-IsValid w (update ts) v)
    ∙ ap (λ n. open_reads t n cs) (ground arith)

readers-run :
    (c : ℕ) (cs : List Call) (t : ℕ) → readers t (run (init c) cs).current_reads ≡ open_reads t 0 cs
unfolding init readers
readers-run c cs t = readers-run_from t (init c) cs (init-IsValid c)

oldest_attained :
    (c lo : ℕ) (m : List Count)
    → From lo m
    → (0 < readers (oldest_or c m) m) ⊎ ((oldest_or c m ≡ c) × ((t : ℕ) → readers t m ≡ 0))
unfolding readers oldest_or
oldest_attained c lo [] f = inr (refl, λ t. refl)
oldest_attained c lo ((t, n) ∷ m) f = inl (ground arith)

oldest_reads :
    (w : Watermark) (f : ℕ → ℕ)
    → IsValid w
    → ((t : ℕ) → readers t w.current_reads ≡ f t)
    → ((t : ℕ) → 0 < f t → get_watermark w ≤ t)
      × ((0 < f (get_watermark w)) ⊎ ((get_watermark w ≡ w.commit_ts) × ((t : ℕ) → f t ≡ 0)))
unfolding get_watermark
oldest_reads w f v e = (
  λ t h. rw v.cached (oldest_or-le-reader 0 w.commit_ts t w.current_reads v.ordered (rw (e t) h)).1,
  elim (oldest_attained w.commit_ts 0 w.current_reads v.ordered) [
    | inl h ↦ inl (rw (v.cached, ← e (oldest_or w.commit_ts w.current_reads)) h)
    | inr (h, none_open) ↦ inr (v.cached ∙ h, λ t. sym (e t) ∙ none_open t)
  ],
)

-- A run from the constructor opens and closes reads as its calls say. The watermark then bounds every
-- open read from below, and it is the timestamp of an open read, or the commit timestamp where no
-- read is open.
pub watermark_oldest :
    (commit_ts : ℕ) (cs : List Call)
    → let w = run (init commit_ts) cs in
      ((t : ℕ) → 0 < open_reads t 0 cs → get_watermark w ≤ t)
      × ((0 < open_reads (get_watermark w) 0 cs)
          ⊎ ((get_watermark w ≡ w.commit_ts) × ((t : ℕ) → open_reads t 0 cs ≡ 0)))
watermark_oldest c cs =
    oldest_reads (run (init c) cs) (λ t. open_reads t 0 cs)
      (run-IsValid (init c) cs (init-IsValid c)) (readers-run c cs)

-- Closing a read that was just opened leaves a valid state as it was.
pub remove_txn-add_txn : (w : Watermark) (ts : ℕ) → IsValid w → remove_txn (add_txn w ts) ts ≡ w
unfolding add_txn remove_txn
remove_txn-add_txn w ts v = ground (arith, decrement-increment 0 ts w.current_reads v.ordered)

-- Every open read is at most the last commit timestamp.
abbrev pub Published : Watermark → Type 0
Published w = (t : ℕ) → 0 < readers t w.current_reads → t ≤ w.commit_ts

-- A new read is not below the watermark, and at a commit that the watermark has been told of.
abbrev pub Allowed : Watermark → Call → Type 0
Allowed w (add ts) = (get_watermark w ≤ ts) × (ts ≤ w.commit_ts)
Allowed w (remove ts) = Unit {0}
Allowed w (update ts) = Unit {0}

increment-grows :
    (c lo ts : ℕ) (m : List Count)
    → From lo m
    → oldest_or c m ≤ ts
    → ts ≤ c
    → oldest_or c m ≤ oldest_or c (increment ts m)
unfolding increment oldest_or
increment-grows c lo ts [] f h k = omega arith
increment-grows c lo ts ((t, n) ∷ m) f h k = ground arith

decrement-grows :
    (c lo ts : ℕ) (m : List Count)
    → From lo m
    → ((t : ℕ) → 0 < readers t m → t ≤ c)
    → oldest_or c m ≤ oldest_or c (decrement ts m)
unfolding decrement oldest_or readers
decrement-grows c lo ts [] f h = omega arith
decrement-grows c lo ts ((t, n) ∷ []) f h = ground (arith, h t)
decrement-grows c lo ts ((t, n) ∷ (u, k) ∷ m) f h = ground (arith, h t)

update-grows :
    (w : Watermark) (ts : ℕ)
    → (m : List Count) → w.current_reads ≡ m
    → IsValid w
    → get_watermark w ≤ get_watermark (update_commit_ts w ts)
unfolding update_commit_ts get_watermark oldest_or
update-grows w ts [] e v = ground arith
update-grows w ts (x ∷ m) e v = ground arith

-- From a valid state in which every open read is at most the commit timestamp, a call never moves the
-- watermark down, where a call that adds a read does so between the watermark and that timestamp.
pub watermark_grows :
    (w : Watermark) (c : Call)
    → IsValid w
    → Published w
    → Allowed w c
    → get_watermark w ≤ get_watermark (step w c)
unfolding step add_txn remove_txn get_watermark
watermark_grows w (add ts) v p a =
    rw v.cached
      (increment-grows w.commit_ts 0 ts w.current_reads v.ordered (rw v.cached at a.0) a.1)
watermark_grows w (remove ts) v p a =
    rw v.cached (decrement-grows w.commit_ts 0 ts w.current_reads v.ordered p)
watermark_grows w (update ts) v p a = update-grows w ts w.current_reads refl v
