-- ===== src/Replacer/Queue.antt =====
-- replacer/lru_replacer.cpp beside a queue of frames without repetitions: the state that it keeps
-- well-formed, and the calls of both.
use database.Prelude.{
  ℕ, zero, suc, ◌≡◌, refl, List, [], ◌∷◌, ◌++◌, Option, none, some, arith, Bool, if◌then◌else◌,
  lookup, erase, lookup-erase, nat_eq,
}
use database.Replacer.Nodes.{
  Node, remove_node, frames, node_of, without, contains, Distinct, Below, node_of-remove_node,
  remove_node-Distinct, remove_node-Below,
}
use database.Replacer.{Replacer, init, victim, scan, victim_if, pin, unpin, unpin_cold}

-- The hash table maps each frame to the node that holds it, and to nothing where there is none.
pub record IsValid (r : Replacer) : Type 0 where
  pub distinct : Distinct r.nodes
  pub fresh : Below r.next_node r.nodes
  pub agrees : (f : ℕ) → lookup f r.hash ≡ node_of f r.nodes

pub init-IsValid : (num_pages : ℕ) → IsValid (init num_pages)
unfolding init lookup node_of
init-IsValid k = record { distinct = tt; fresh = tt; agrees = λ f. refl }

-- Taking out the node that holds a frame.
unfoldable pub taken : Replacer → ℕ → ℕ → Replacer
taken r i f = record r { nodes = remove_node i r.nodes; hash = erase f r.hash }

pub taken-IsValid :
    (r : Replacer) (i f : ℕ) → IsValid r → node_of f r.nodes ≡ some i → IsValid (taken r i f)
unfolding taken
taken-IsValid r i f v e = record {
  distinct = remove_node-Distinct i r.nodes v.distinct;
  fresh = remove_node-Below r.next_node i r.nodes v.fresh;
  agrees = λ g.
      ground (
        arith,
        lookup-erase f g r.hash,
        node_of-remove_node f i g r.nodes v.distinct e,
        v.agrees g,
      );
}

-- A frame that the scan finds is held by the node found, is among the first nodes, and is wanted.
pub scan_found :
    (p : ℕ → Bool) (k : ℕ) (ns : List Node) (n : Node)
    → Distinct ns
    → scan p k ns ≡ some n
    → node_of n.frame ns ≡ some n.id
unfolding scan node_of
scan_found p zero ns n d e = ground arith
scan_found p (suc k) [] n d e = ground arith
scan_found p (suc k) (m ∷ ns) n d e = ground (arith, scan_found p k ns n d.2)

-- The abstract replacer: the frames, coldest first.
pub data Call : Type 0 where
  evict : Call
  evict_if : (ℕ → Bool) → ℕ → Call
  pins unpins unpins_cold : ℕ → Call

abbrev after : Replacer → Option (ℕ × Replacer) → Option ℕ × Replacer
after r none = (none, r)
after r (some (f, r')) = (some f, r')

unfoldable pub step : Call → Replacer → Option ℕ × Replacer
step evict r = after r (victim r)
step (evict_if p k) r = after r (victim_if r p k)
step (pins f) r = (none, pin r f)
step (unpins f) r = (none, unpin r f)
step (unpins_cold f) r = (none, unpin_cold r f)

-- The coldest wanted frame among the first `k`.
pub first_wanted : (ℕ → Bool) → ℕ → List ℕ → Option ℕ
first_wanted p zero xs = none
first_wanted p (suc k) [] = none
first_wanted p (suc k) (x ∷ xs) = if p x then some x else first_wanted p k xs

abbrev pub take_out : Option ℕ → List ℕ → Option ℕ × List ℕ
take_out none xs = (none, xs)
take_out (some f) xs = (some f, without f xs)

unfoldable pub queue_step : Call → List ℕ → Option ℕ × List ℕ
queue_step evict [] = (none, [])
queue_step evict (x ∷ xs) = (some x, xs)
queue_step (evict_if p k) xs = take_out (first_wanted p k xs) xs
queue_step (pins f) xs = (none, without f xs)
queue_step (unpins f) xs = (none, if contains f xs then xs else xs ++ f ∷ [])
queue_step (unpins_cold f) xs = (none, if contains f xs then xs else f ∷ xs)

abbrev pub frame_of : Option Node → Option ℕ
frame_of none = none
frame_of (some n) = some n.frame

pub scan-first_wanted :
    (p : ℕ → Bool) (k : ℕ) (ns : List Node) → frame_of (scan p k ns) ≡ first_wanted p k (frames ns)
unfolding scan first_wanted
scan-first_wanted p zero ns = refl
scan-first_wanted p (suc k) [] = refl
scan-first_wanted p (suc k) (n ∷ ns) = ground (arith, scan-first_wanted p k ns)
