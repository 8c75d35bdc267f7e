-- ===== src/Cluster/SplitBrain/Quorum/Safety.antt =====
-- src/cluster/split_brain_detector.cpp: which strategies keep two halves of a cluster apart.
use qc_database.Prelude.{
  ℕ, ◌+◌, ◌≤◌, ◌≡◌, refl, sym, ◌∙◌, Bool, true, false, ◌&&◌, none, some, [], ◌∷◌, arith, length,
  if◌then◌else◌, inl, inr, Option-cases, list_eq, nat_eq, list_beq_iff,
}
use qc_database.Std.HashMap.{
  HashMap, find, erase, Distinct, find-erase, erase-missing, erase-Distinct, length-erase,
}
use qc_database.Cluster.SplitBrain.{NodeId, NodeStatus, Detector}
use qc_database.Cluster.SplitBrain.Quorum.{
  is_active, nodes_where, majority_quorum, static_quorum, dynamic_quorum,
}

abbrev pub known : NodeId → HashMap NodeId NodeStatus → Bool
known node m = elim (find node m) [ none ↦ false | some s ↦ true ]

-- The same nodes, in whatever order.
abbrev pub SameNodes : HashMap NodeId NodeStatus → HashMap NodeId NodeStatus → Type 0
SameNodes m n = (node : NodeId) → known node m ≡ known node n

abbrev active_in : NodeId → HashMap NodeId NodeStatus → Bool
active_in node m = elim (find node m) [ none ↦ false | some s ↦ is_active s ]

-- No node is active in both.
abbrev pub Disjoint : HashMap NodeId NodeStatus → HashMap NodeId NodeStatus → Type 0
Disjoint m n = (node : NodeId) → (active_in node m && active_in node n) ≡ false

abbrev active_count : HashMap NodeId NodeStatus → ℕ
active_count m = length (nodes_where true m)

abbrev weight : NodeStatus → ℕ
weight s = if is_active s then 1 else 0

active_count-erase :
    (node : NodeId) (s : NodeStatus) (m : HashMap NodeId NodeStatus)
    → Distinct m
    → find node m ≡ some s
    → active_count m ≡ active_count (erase node m) + weight s
unfolding find erase nodes_where
active_count-erase node s [] d found = cc
active_count-erase node s ((i, t) ∷ m) d found =
    ground (arith, list_beq_iff i node, erase-missing node m, active_count-erase node s m d.1, d.0)

SameNodes-nil : (n : HashMap NodeId NodeStatus) → SameNodes [] n → n ≡ []
unfolding find
SameNodes-nil [] same = refl
SameNodes-nil ((i, t) ∷ n) same = ground (arith, same i, list_beq_iff i i)

SameNodes-erase :
    (i : NodeId) (s : NodeStatus) (m n : HashMap NodeId NodeStatus)
    → find i m ≡ none
    → SameNodes ((i, s) ∷ m) n
    → SameNodes m (erase i n)
unfolding find
SameNodes-erase i s m n missing same node =
    ground (arith, same node, find-erase node i n, list_beq_iff i node, missing)

Disjoint-erase :
    (i : NodeId) (s : NodeStatus) (m n : HashMap NodeId NodeStatus)
    → find i m ≡ none
    → Disjoint ((i, s) ∷ m) n
    → Disjoint m (erase i n)
unfolding find
Disjoint-erase i s m n missing apart node =
    ground (arith, apart node, find-erase node i n, list_beq_iff i node, missing)

known-find :
    (node : NodeId) (n : HashMap NodeId NodeStatus)
    → known node n ≡ true
    → (s : NodeStatus) × (find node n ≡ some s)
known-find node n k = elim (Option-cases (find node n)) [
  | inl missing ↦ absurd (cc)
  | inr (s, found) ↦ (s, found)
]

Disjoint-counts :
    (m n : HashMap NodeId NodeStatus)
    → Distinct m
    → Distinct n
    → SameNodes m n
    → Disjoint m n
    → (active_count m + active_count n ≤ length m) × (length n ≡ length m)
unfolding nodes_where find
Disjoint-counts [] n d f same apart = rw (SameNodes-nil n same) (omega arith, refl)
Disjoint-counts ((i, s) ∷ m) n d f same apart =
    let itself = (list_beq_iff i i).1 refl in
    let (t, found) = known-find i n (sym (same i) ∙ rw (itself, known) refl) in
    let rest =
      Disjoint-counts m (erase i n) d.1 (erase-Distinct i n f) (SameNodes-erase i s m n d.0 same)
        (Disjoint-erase i s m n d.0 apart) in
    let one = active_count-erase i t n f found in
    let size = length-erase i t n f found in
    (ground (arith, rest.0, one, apart i, found, itself), ground (arith, rest.1, size))

-- The majority strategy excludes a split brain: of two detectors that watch the same nodes, each node
-- once and in any order and state, if no node is active for both then at most one of them has a
-- quorum.
pub majority_excludes_split :
    (a b : Detector)
    → Distinct a.nodes
    → Distinct b.nodes
    → SameNodes a.nodes b.nodes
    → Disjoint a.nodes b.nodes
    → ((majority_quorum a).has_quorum && (majority_quorum b).has_quorum) ≡ false
unfolding majority_quorum
majority_excludes_split a b d f same apart =
    let counts = Disjoint-counts a.nodes b.nodes d f same apart in
    let small : active_count a.nodes + active_count b.nodes ≤ length a.nodes = counts.0 in
    ground (arith, small, counts.1)

-- The dynamic strategy is the static one: in every state it has a quorum exactly when the static
-- strategy has, over the same active nodes.
pub dynamic_quorum-static_quorum :
    (d : Detector)
    → ((dynamic_quorum d).has_quorum ≡ (static_quorum d).has_quorum)
      × ((dynamic_quorum d).active_nodes ≡ (static_quorum d).active_nodes)
unfolding dynamic_quorum static_quorum
dynamic_quorum-static_quorum d = (ground arith, refl)
