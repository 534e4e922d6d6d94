-- ===== src/Replacer/Nodes.antt =====
-- The nodes of the list in replacer/lru_replacer.cpp, and their removal through an iterator.
use database.Prelude.{
  ℕ, ◌+◌, ◌<◌, ◌≡◌, refl, List, [], ◌∷◌, ◌++◌, Option, none, some, arith, Bool, true, false,
  nat_eqb, if◌then◌else◌, has_value, map,
}

pub record Node : Type 0 where
  pub id : ℕ
  pub frame : ℕ

-- `LRUlist_.erase(it)`
unfoldable pub remove_node : ℕ → List Node → List Node
remove_node i [] = []
remove_node i (n ∷ ns) = if nat_eqb n.id i then ns else n ∷ remove_node i ns

abbrev pub frames : List Node → List ℕ
frames = map (λ n. n.frame)

-- The node that holds a frame.
unfoldable pub node_of : ℕ → List Node → Option ℕ
node_of f [] = none
node_of f (n ∷ ns) = if nat_eqb n.frame f then some n.id else node_of f ns

-- A list of frames without every copy of one.
unfoldable pub without : ℕ → List ℕ → List ℕ
without f [] = []
without f (x ∷ xs) = if nat_eqb x f then without f xs else x ∷ without f xs

unfoldable pub contains : ℕ → List ℕ → Bool
contains f [] = false
contains f (x ∷ xs) = if nat_eqb x f then true else contains f xs

unfoldable pub has_id : ℕ → List Node → Bool
has_id i [] = false
has_id i (n ∷ ns) = if nat_eqb n.id i then true else has_id i ns

-- No frame twice, and no node twice.
abbrev pub Distinct : List Node → Type 0
Distinct [] = Unit {0}
Distinct (n ∷ ns) = (node_of n.frame ns ≡ none) × (has_id n.id ns ≡ false) × Distinct ns

abbrev pub Below : ℕ → List Node → Type 0
Below k [] = Unit {0}
Below k (n ∷ ns) = (n.id < k) × Below k ns

pub has_value-node_of : (f : ℕ) (ns : List Node) → has_value (node_of f ns) ≡ contains f (frames ns)
unfolding node_of contains
has_value-node_of f [] = refl
has_value-node_of f (n ∷ ns) = ground (arith, has_value-node_of f ns)

has_id-node_of : (f i : ℕ) (ns : List Node) → node_of f ns ≡ some i → has_id i ns ≡ true
unfolding node_of has_id
has_id-node_of f i [] e = ground arith
has_id-node_of f i (n ∷ ns) e = ground (arith, has_id-node_of f i ns)

pub without_absent :
    (f : ℕ) (ns : List Node) → node_of f ns ≡ none → without f (frames ns) ≡ frames ns
unfolding node_of without
without_absent f [] e = refl
without_absent f (n ∷ ns) e = ground (arith, without_absent f ns)

pub frames-remove_node :
    (f i : ℕ) (ns : List Node)
    → Distinct ns
    → node_of f ns ≡ some i
    → frames (remove_node i ns) ≡ without f (frames ns)
unfolding remove_node node_of without
frames-remove_node f i [] d e = ground arith
frames-remove_node f i (n ∷ ns) d e =
    ground (arith, frames-remove_node f i ns d.2, without_absent f ns, has_id-node_of f i ns)

pub node_of-remove_node :
    (f i g : ℕ) (ns : List Node)
    → Distinct ns
    → node_of f ns ≡ some i
    → node_of g (remove_node i ns) ≡ (if nat_eqb f g then none else node_of g ns)
unfolding remove_node node_of
node_of-remove_node f i g [] d e = ground arith
node_of-remove_node f i g (n ∷ ns) d e =
    ground (arith, node_of-remove_node f i g ns d.2, has_id-node_of f i ns)

has_id-remove_node :
    (i j : ℕ) (ns : List Node) → has_id j ns ≡ false → has_id j (remove_node i ns) ≡ false
unfolding has_id remove_node
has_id-remove_node i j [] e = refl
has_id-remove_node i j (n ∷ ns) e = ground (arith, has_id-remove_node i j ns)

node_of-remove_node-none :
    (i g : ℕ) (ns : List Node) → node_of g ns ≡ none → node_of g (remove_node i ns) ≡ none
unfolding node_of remove_node
node_of-remove_node-none i g [] e = refl
node_of-remove_node-none i g (n ∷ ns) e = ground (arith, node_of-remove_node-none i g ns)

pub remove_node-Distinct : (i : ℕ) (ns : List Node) → Distinct ns → Distinct (remove_node i ns)
unfolding remove_node
remove_node-Distinct i [] d = tt
remove_node-Distinct i (n ∷ ns) d = ground (
  arith,
  remove_node-Distinct i ns d.2,
  has_id-remove_node i n.id ns,
  node_of-remove_node-none i n.frame ns,
)

pub remove_node-Below : (k i : ℕ) (ns : List Node) → Below k ns → Below k (remove_node i ns)
unfolding remove_node
remove_node-Below k i [] b = tt
remove_node-Below k i (n ∷ ns) b = ground (arith, remove_node-Below k i ns)

pub Below-suc : (k : ℕ) (ns : List Node) → Below k ns → Below (k + 1) ns
Below-suc k [] b = tt
Below-suc k (n ∷ ns) b = (omega arith, Below-suc k ns b.1)

pub has_id_fresh : (k : ℕ) (ns : List Node) → Below k ns → has_id k ns ≡ false
unfolding has_id
has_id_fresh k [] b = refl
has_id_fresh k (n ∷ ns) b = ground (arith, has_id_fresh k ns)

pub node_of-append :
    (g : ℕ) (ns : List Node) (n : Node)
    → node_of g (ns ++ n ∷ [])
      ≡ (if has_value (node_of g ns) then node_of g ns else node_of g (n ∷ []))
unfolding node_of
node_of-append g [] n = refl
node_of-append g (m ∷ ns) n = ground (arith, node_of-append g ns n)

has_id-append :
    (i : ℕ) (ns : List Node) (n : Node)
    → has_id i (ns ++ n ∷ []) ≡ (if has_id i ns then true else nat_eqb n.id i)
unfolding has_id
has_id-append i [] n = ground arith
has_id-append i (m ∷ ns) n = ground (arith, has_id-append i ns n)

pub append-Distinct :
    (ns : List Node) (n : Node)
    → Distinct ns
    → node_of n.frame ns ≡ none
    → has_id n.id ns ≡ false
    → Distinct (ns ++ n ∷ [])
unfolding node_of has_id
append-Distinct [] n d e h = (refl, refl, tt)
append-Distinct (m ∷ ns) n d e h =
    ground (arith, append-Distinct ns n d.2, node_of-append m.frame ns n, has_id-append m.id ns n)

pub append-Below :
    (k : ℕ) (ns : List Node) (n : Node) → Below k ns → n.id < k → Below k (ns ++ n ∷ [])
append-Below k [] n b h = (h, tt)
append-Below k (m ∷ ns) n b h = (b.0, append-Below k ns n b.1 h)
