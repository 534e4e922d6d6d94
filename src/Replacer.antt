-- ===== src/Replacer.antt =====
-- replacer/lru_replacer.h and replacer/lru_replacer.cpp: the frames that may be evicted, in the order
-- of their last use. A node of the `std::list` has an identity of its own, as the iterators that the
-- hash table keeps point at nodes. The list is written coldest first: its head is the back of the
-- source's list. The latch is held for the whole of each call, so a call is one step.
pub mod Nodes
pub mod Refine
pub mod Tests
pub mod Queue
use database.Prelude.{
  ℕ, zero, suc, ◌+◌, List, [], ◌∷◌, ◌++◌, Option, none, some, Bool, if◌then◌else◌, Map, lookup,
  insert, erase, has_value, length, nat_eq,
}
use Nodes.{Node, remove_node, frames}

pub record Replacer : Type 0 where
  pub nodes : List Node
  pub hash : Map ℕ ℕ
  pub max_size : ℕ
  pub next_node : ℕ

unfoldable pub init : ℕ → Replacer
init num_pages = record { nodes = []; hash = []; max_size = num_pages; next_node = 0 }

-- The frame taken, and the new state.
unfoldable pub victim : Replacer → Option (ℕ × Replacer)
victim r = elim r.nodes [
  | [] ↦ none
  | n ∷ rest ↦ some (n.frame, record r { nodes = rest; hash = erase n.frame r.hash })
]

-- The loop of `victim_if`, from the cold end over at most `budget` nodes.
unfoldable pub scan : (ℕ → Bool) → ℕ → List Node → Option Node
scan predicate zero ns = none
scan predicate (suc budget) [] = none
scan predicate (suc budget) (n ∷ ns) =
    let later = scan predicate budget ns in if predicate n.frame then some n else later

unfoldable pub victim_if : Replacer → (ℕ → Bool) → ℕ → Option (ℕ × Replacer)
victim_if r predicate max_scan = elim (scan predicate max_scan r.nodes) [
  | none ↦ none
  | some n ↦
      some (n.frame, record r { nodes = remove_node n.id r.nodes; hash = erase n.frame r.hash })
]

first_frames : ℕ → List Node → List ℕ
first_frames zero ns = []
first_frames (suc k) [] = []
first_frames (suc k) (n ∷ ns) = n.frame ∷ first_frames k ns

unfoldable pub cold_candidates : Replacer → ℕ → List ℕ
unfolding first_frames
cold_candidates r max_count = first_frames max_count r.nodes

unfoldable pub pin : Replacer → ℕ → Replacer
pin r frame_id = elim (lookup frame_id r.hash) [
  | none ↦ r
  | some node ↦ record r { nodes = remove_node node r.nodes; hash = erase frame_id r.hash }
]

unfoldable pub unpin : Replacer → ℕ → Replacer
unpin r frame_id = if has_value (lookup frame_id r.hash) then r else record r {
  nodes = r.nodes ++ record { id = r.next_node; frame = frame_id } ∷ [];
  hash = insert frame_id r.next_node r.hash;
  next_node = r.next_node + 1;
}

unfoldable pub unpin_cold : Replacer → ℕ → Replacer
unpin_cold r frame_id = if has_value (lookup frame_id r.hash) then r else record r {
  nodes = record { id = r.next_node; frame = frame_id } ∷ r.nodes;
  hash = insert frame_id r.next_node r.hash;
  next_node = r.next_node + 1;
}

unfoldable pub size : Replacer → ℕ
size r = length r.nodes
