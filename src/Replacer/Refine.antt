-- ===== src/Replacer/Refine.antt =====
-- replacer/lru_replacer.cpp as a queue of frames without repetitions.
use database.Prelude.{
  ℕ, ◌+◌, ◌≡◌, refl, sym, ap, ◌∙◌, inl, inr, List, [], ◌∷◌, ◌++◌, Option, none, some, arith, Bool,
  true, false, nat_eqb, if◌then◌else◌, has_value, lookup, insert, lookup-insert, Option-cases,
  nat_eq,
}
use mathlib.Core.List.{map-append}
use database.Replacer.Nodes.{
  Node, remove_node, frames, node_of, without, contains, has_value-node_of, frames-remove_node,
  Below-suc, has_id_fresh, node_of-append, append-Distinct, append-Below, without_absent,
}
use database.Replacer.{Replacer, init, victim, scan, victim_if, pin, unpin, unpin_cold}
use database.Replacer.Queue.{
  IsValid, init-IsValid, taken, taken-IsValid, scan_found, Call, step, first_wanted, queue_step,
  frame_of, scan-first_wanted, evict, evict_if, pins, unpins, unpins_cold,
}

-- What a step keeps and what it is the image of.
abbrev pub Simulates : Call → Replacer → Type 0
Simulates c r =
    IsValid (step c r).1
    × ((step c r).0 ≡ (queue_step c (frames r.nodes)).0)
    × (frames (step c r).1.nodes ≡ (queue_step c (frames r.nodes)).1)

taken-frames :
    (r : Replacer) (i f : ℕ)
    → IsValid r
    → node_of f r.nodes ≡ some i
    → frames (taken r i f).nodes ≡ without f (frames r.nodes)
unfolding taken
taken-frames r i f v e = frames-remove_node f i r.nodes v.distinct e

evict_if-Simulates : (p : ℕ → Bool) (k : ℕ) (r : Replacer) → IsValid r → Simulates (evict_if p k) r
unfolding step victim_if queue_step
evict_if-Simulates p k r v = elim (Option-cases (scan p k r.nodes)) [
  | inl e ↦
      let w : first_wanted p k (frames r.nodes) ≡ none =
        sym (scan-first_wanted p k r.nodes) ∙ ap frame_of e in
      rw (e, victim_if, w, queue_step) (v, refl, refl)
  | inr (n, e) ↦
      let w : first_wanted p k (frames r.nodes) ≡ some n.frame =
        sym (scan-first_wanted p k r.nodes) ∙ ap frame_of e in
      let h : node_of n.frame r.nodes ≡ some n.id = scan_found p k r.nodes n v.distinct e in
      rw (e, victim_if, w, queue_step)
        (
          unfold taken in taken-IsValid r n.id n.frame v h,
          refl,
          unfold taken in taken-frames r n.id n.frame v h,
        )
]

victim-none : (r : Replacer) → r.nodes ≡ [] → victim r ≡ none
unfolding victim
victim-none r e = ground arith

victim_head :
    (r : Replacer) (n : Node) (ns : List Node)
    → r.nodes ≡ n ∷ ns
    → victim r ≡ some (n.frame, taken r n.id n.frame)
unfolding victim taken remove_node
victim_head r n ns e = ground arith

frames_head :
    (r : Replacer) (n : Node) (ns : List Node)
    → r.nodes ≡ n ∷ ns
    → frames (taken r n.id n.frame).nodes ≡ frames ns
unfolding taken remove_node
frames_head r n ns e = ground arith

evict-Simulates : (r : Replacer) (ns : List Node) → r.nodes ≡ ns → IsValid r → Simulates evict r
unfolding step queue_step
evict-Simulates r [] e v = simp (victim-none r e) (v, simp (ap frames e), simp (ap frames e))
evict-Simulates r (n ∷ ns) e v =
    let h : node_of n.frame r.nodes ≡ some n.id = unfold node_of in ground arith in
    simp (victim_head r n ns e, ap frames e)
      (taken-IsValid r n.id n.frame v h, refl, frames_head r n ns e)

pin-Simulates : (f : ℕ) (r : Replacer) → IsValid r → Simulates (pins f) r
unfolding step pin queue_step taken
pin-Simulates f r v = elim (Option-cases (lookup f r.hash)) [
  | inl e ↦ rw (e, pin) (v, refl, sym (without_absent f r.nodes (sym (v.agrees f) ∙ e)))
  | inr (i, e) ↦
      let h : node_of f r.nodes ≡ some i = sym (v.agrees f) ∙ e in
      rw (e, pin) (taken-IsValid r i f v h, refl, taken-frames r i f v h)
]

-- A new node at one end of the list.
module _ (r : Replacer) (f : ℕ) (v : IsValid r) (absent : node_of f r.nodes ≡ none) where
  new_node : Node
  new_node = record { id = r.next_node; frame = f }

  added-agrees :
      (ns : List Node)
      → ((g : ℕ) → node_of g ns ≡ (if nat_eqb f g then some r.next_node else node_of g r.nodes))
      → (g : ℕ) → lookup g (insert f r.next_node r.hash) ≡ node_of g ns
  added-agrees ns h g = ground (arith, h g, lookup-insert f g r.next_node r.hash, v.agrees g)

  appended-IsValid : IsValid (record r {
    nodes = r.nodes ++ new_node ∷ [];
    hash = insert f r.next_node r.hash;
    next_node = r.next_node + 1;
  })
  unfolding new_node node_of
  appended-IsValid = record {
    distinct =
        append-Distinct r.nodes new_node v.distinct absent
          (has_id_fresh r.next_node r.nodes v.fresh);
    fresh =
        append-Below (r.next_node + 1) r.nodes new_node (Below-suc r.next_node r.nodes v.fresh)
          (omega arith);
    agrees =
        added-agrees (r.nodes ++ new_node ∷ [])
          λ g. ground (arith, node_of-append g r.nodes new_node, absent);
  }

  consed-IsValid : IsValid (record r {
    nodes = new_node ∷ r.nodes;
    hash = insert f r.next_node r.hash;
    next_node = r.next_node + 1;
  })
  unfolding new_node node_of
  consed-IsValid = record {
    distinct = (absent, has_id_fresh r.next_node r.nodes v.fresh, v.distinct);
    fresh = (omega arith, Below-suc r.next_node r.nodes v.fresh);
    agrees = added-agrees (new_node ∷ r.nodes) λ g. refl;
  }

unpin-Simulates : (f : ℕ) (r : Replacer) → IsValid r → Simulates (unpins f) r
unfolding step unpin queue_step
unpin-Simulates f r v = elim (Option-cases (node_of f r.nodes)) [
  | inl e ↦
      let a : lookup f r.hash ≡ none = v.agrees f ∙ e in
      let c : contains f (frames r.nodes) ≡ false =
        sym (has_value-node_of f r.nodes) ∙ ap has_value e in
      rw (a, unpin, c, queue_step)
        (unfold new_node in appended-IsValid r f v e, refl, map-append (λ n. n.frame) r.nodes _)
  | inr (i, e) ↦
      let a : lookup f r.hash ≡ some i = v.agrees f ∙ e in
      let c : contains f (frames r.nodes) ≡ true =
        sym (has_value-node_of f r.nodes) ∙ ap has_value e in
      rw (a, unpin, c, queue_step) (v, refl, refl)
]

unpin_cold-Simulates : (f : ℕ) (r : Replacer) → IsValid r → Simulates (unpins_cold f) r
unfolding step unpin_cold queue_step
unpin_cold-Simulates f r v = elim (Option-cases (node_of f r.nodes)) [
  | inl e ↦
      let a : lookup f r.hash ≡ none = v.agrees f ∙ e in
      let c : contains f (frames r.nodes) ≡ false =
        sym (has_value-node_of f r.nodes) ∙ ap has_value e in
      rw (a, unpin_cold, c, queue_step) (unfold new_node in consed-IsValid r f v e, refl, refl)
  | inr (i, e) ↦
      let a : lookup f r.hash ≡ some i = v.agrees f ∙ e in
      let c : contains f (frames r.nodes) ≡ true =
        sym (has_value-node_of f r.nodes) ∙ ap has_value e in
      rw (a, unpin_cold, c, queue_step) (v, refl, refl)
]

-- Every call keeps the hash table and the list in step, and acts as the queue does.
pub step-Simulates : (c : Call) (r : Replacer) → IsValid r → Simulates c r
step-Simulates evict r v = evict-Simulates r r.nodes refl v
step-Simulates (evict_if p k) r v = evict_if-Simulates p k r v
step-Simulates (pins f) r v = pin-Simulates f r v
step-Simulates (unpins f) r v = unpin-Simulates f r v
step-Simulates (unpins_cold f) r v = unpin_cold-Simulates f r v

pub run : List Call → Replacer → List (Option ℕ) × Replacer
run [] r = ([], r)
run (c ∷ cs) r = let (x, r') = step c r in let (xs, r'') = run cs r' in (x ∷ xs, r'')

pub queue_run : List Call → List ℕ → List (Option ℕ) × List ℕ
queue_run [] q = ([], q)
queue_run (c ∷ cs) q =
    let (x, q') = queue_step c q in let (xs, q'') = queue_run cs q' in (x ∷ xs, q'')

run-Simulates_from :
    (cs : List Call) (r : Replacer)
    → IsValid r
    → ((run cs r).0 ≡ (queue_run cs (frames r.nodes)).0)
      × (frames (run cs r).1.nodes ≡ (queue_run cs (frames r.nodes)).1)
unfolding run queue_run
run-Simulates_from [] r v = (refl, refl)
run-Simulates_from (c ∷ cs) r v =
    let (v', out, q) = step-Simulates c r v in
    let (outs, q') = run-Simulates_from cs (step c r).1 v' in
    rw (← out, ← q) (ap (◌∷◌ (step c r).0) outs, q')

-- From the constructor on, any history of calls evicts the frames that the queue evicts, and leaves
-- the frames that the queue holds, in its order.
pub run-queue_run :
    (num_pages : ℕ) (cs : List Call)
    → ((run cs (init num_pages)).0 ≡ (queue_run cs []).0)
      × (frames (run cs (init num_pages)).1.nodes ≡ (queue_run cs []).1)
unfolding init
run-queue_run k cs = run-Simulates_from cs (init k) (init-IsValid k)
