-- ===== src/Watermark.antt =====
-- transaction/watermark.h and transaction/watermark.cpp: the lowest read timestamp of the running
-- transactions. `current_reads` is the `std::map`, in the order of its keys. The latch is held for
-- the whole of each call, so a call is one step.
pub mod Reads
pub mod Order
pub mod Tests
use database.Prelude.{ℕ, List, [], ◌∷◌, ltb, if◌then◌else◌}
use Reads.{Count, increment, decrement, oldest_or}

pub record Watermark : Type 0 where
  pub commit_ts : ℕ
  pub watermark : ℕ
  pub current_reads : List Count

unfoldable pub init : ℕ → Watermark
init commit_ts = record { commit_ts = commit_ts; watermark = commit_ts; current_reads = [] }

unfoldable pub add_txn : Watermark → ℕ → Watermark
add_txn w read_ts = record w {
  current_reads = increment read_ts w.current_reads;
  watermark = oldest_or w.commit_ts (increment read_ts w.current_reads);
}

unfoldable pub remove_txn : Watermark → ℕ → Watermark
remove_txn w read_ts = record w {
  current_reads = decrement read_ts w.current_reads;
  watermark = oldest_or w.commit_ts (decrement read_ts w.current_reads);
}

-- The last assignment of `UpdateCommitTs`.
refresh : ℕ → ℕ → List Count → ℕ
refresh commit_ts watermark [] = commit_ts
refresh commit_ts watermark (c ∷ m) = watermark

unfoldable pub update_commit_ts : Watermark → ℕ → Watermark
unfolding refresh
update_commit_ts w commit_ts = if ltb commit_ts w.commit_ts then w else record w {
  commit_ts = commit_ts;
  watermark = refresh commit_ts w.watermark w.current_reads;
}

unfoldable pub get_watermark : Watermark → ℕ
get_watermark w = w.watermark
