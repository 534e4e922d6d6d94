-- ===== src/Watermark/Tests.antt =====
-- Runs of transaction/watermark.cpp.
use database.Prelude.{ℕ, ◌≤◌, ◌<◌, ◌≡◌, ◌⊎◌, List, [], ◌∷◌, arith}
use database.Watermark.{Watermark, init, add_txn, get_watermark}
use database.Watermark.Reads.{readers, increment}
use database.Watermark.Order.{
  IsValid, Call, add, remove, update, step, run, open_reads, Published, init-IsValid, step-IsValid,
  watermark_oldest, watermark_grows,
}

-- A read at 5 is open.
abbrev reading : Watermark
reading = add_txn (init 5) 5

reading-IsValid : IsValid reading
unfolding step
reading-IsValid = step-IsValid (init 5) (add 5) (init-IsValid 5)

abbrev some_calls : List Call
some_calls = add 5 ∷ update 8 ∷ add 8 ∷ remove 5 ∷ []

watermark_oldest_example :
    let w = run (init 5) some_calls in
    ((t : ℕ) → 0 < open_reads t 0 some_calls → get_watermark w ≤ t)
    × ((0 < open_reads (get_watermark w) 0 some_calls)
        ⊎ ((get_watermark w ≡ w.commit_ts) × ((t : ℕ) → open_reads t 0 some_calls ≡ 0)))
watermark_oldest_example = watermark_oldest 5 some_calls

reading-Published : Published reading
unfolding init add_txn increment readers
reading-Published t h = ground (arith, h)

watermark_grows_example : get_watermark reading ≤ get_watermark (step reading (update 8))
watermark_grows_example = watermark_grows reading (update 8) reading-IsValid reading-Published tt
