-- ===== src/Replacer/Tests.antt =====
-- Runs of replacer/lru_replacer.cpp.
use database.Prelude.{◌≡◌, List, [], ◌∷◌, ltb}
use database.Replacer.{init}
use database.Replacer.Nodes.{frames}
use database.Replacer.Refine.{run, queue_run, run-queue_run}
use database.Replacer.Queue.{Call, evict, evict_if, pins, unpins, unpins_cold}

-- Three frames come, the middle one is used again.
abbrev some_calls : List Call
some_calls =
    unpins 1 ∷ unpins 2 ∷ unpins_cold 3 ∷ pins 2 ∷ unpins 2 ∷ evict_if (λ f. ltb f 3) 2 ∷ evict ∷ []

run_replacer_example :
    ((run some_calls (init 8)).0 ≡ (queue_run some_calls []).0)
    × (frames (run some_calls (init 8)).1.nodes ≡ (queue_run some_calls []).1)
run_replacer_example = run-queue_run 8 some_calls
