-- ===== src/Txn/Publication/Tests.antt =====
-- Runs of the commit publication of transaction/transaction_manager.cpp.
use database.Prelude.{ℕ, Bool, some, ◌≤◌, ◌<◌, ◌≡◌, refl, [], ◌∷◌, true, false, arith}
use database.Txn.Defs.{done}
use database.Txn.Publication.{
  Publications, init, find, emplace, erase_at, next_commit_ts, reserve, complete, has_turn,
  announce, set_durable,
}
use database.Txn.Publication.Order.{
  Step, reserves, announces, completes, Reach, here, next, Reach-pending,
}
use database.Txn.Publication.Progress.{finish_all, timestamps, finish_all-drains}
use database.Txn.Publication.Between.{IsOrdered}

-- Commits 1 and 2 are pending, the first is durable.
abbrev first_durable : Publications
first_durable = record {
  next_timestamp = 3;
  last_commit_ts = 0;
  commit_publications = (1, true) ∷ (2, false) ∷ [];
}

-- Commit 1 is published, 2 is pending.
abbrev second_left : Publications
second_left = record {
  next_timestamp = 3;
  last_commit_ts = 1;
  commit_publications = (2, false) ∷ [];
}

first_durable-IsOrdered : IsOrdered first_durable
first_durable-IsOrdered = (omega arith, omega arith, (omega arith, omega arith, tt))

completes_first : complete first_durable 1 ≡ done second_left
unfolding complete has_turn find erase_at
completes_first = refl

abbrev one_reserved : Publications
one_reserved = record {
  next_timestamp = 2;
  last_commit_ts = 0;
  commit_publications = (1, false) ∷ [];
}

abbrev two_reserved : Publications
two_reserved = record {
  next_timestamp = 3;
  last_commit_ts = 0;
  commit_publications = (1, false) ∷ (2, false) ∷ [];
}

one_step : Step init one_reserved
unfolding init reserve next_commit_ts find emplace
one_step = reserves 1 refl

second_step : Step two_reserved first_durable
unfolding announce set_durable find
second_step = announces 1 refl

to_two_reserved : Reach init two_reserved
unfolding init reserve next_commit_ts find emplace
to_two_reserved = next (next here one_step) (reserves 2 refl)

to_second_left : Reach two_reserved second_left
unfolding announce set_durable find
to_second_left = next (next here second_step) (completes 1 completes_first)

pending_example :
    (two_reserved.last_commit_ts ≤ second_left.last_commit_ts) × (second_left.last_commit_ts < 2)
unfolding find
pending_example = Reach-pending 2 false to_two_reserved to_second_left refl

drains_example :
    ((q : Publications) × (finish_all (timestamps two_reserved.commit_publications) two_reserved
        ≡ done q)
      × (q.commit_publications ≡ [])
      × ((ts : ℕ) (durable : Bool)
          → find ts two_reserved.commit_publications ≡ some durable
          → ts ≤ q.last_commit_ts))
    × ((ts : ℕ) (q : Publications)
        → complete two_reserved ts ≡ done q
        → timestamps two_reserved.commit_publications ≡ ts ∷ timestamps q.commit_publications)
drains_example = finish_all-drains two_reserved to_two_reserved
