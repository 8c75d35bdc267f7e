-- ===== src/Cluster/SplitBrain/Quorum.antt =====
-- src/cluster/split_brain_detector.cpp: the quorum, by each strategy.
pub mod Safety
use qc_database.Prelude.{
  ℕ, ◌+◌, ◌/◌, Bool, true, false, not, ◌&&◌, List, [], ◌∷◌, if◌then◌else◌, leb, ltb, length,
  list_eq, nat_eq,
}
use qc_database.Std.HashMap.{HashMap}
use qc_database.Std.HashSet.{contains}
use qc_database.Cluster.SplitBrain.{
  NodeId, NodeStatus, Detector, QuorumDecision, QuorumStrategy, majority_strategy, static_strategy,
  dynamic_strategy, witness_strategy,
}

abbrev pub is_active : NodeStatus → Bool
is_active s = s.is_alive && not s.is_isolated

-- The loop over the nodes that collects those that are active, or those that are not.
unfoldable pub nodes_where : Bool → HashMap NodeId NodeStatus → List NodeId
nodes_where active [] = []
nodes_where active ((node, s) ∷ m) =
    let rest = nodes_where active m in
    if is_active s
    then (if active then node ∷ rest else rest)
    else (if active then rest else node ∷ rest)

abbrev pub alive_nodes : Detector → List NodeId
alive_nodes d = nodes_where true d.nodes

unfoldable pub majority_quorum : Detector → QuorumDecision
majority_quorum d = record {
  has_quorum = leb (length d.nodes / 2 + 1) (length (alive_nodes d));
  active_nodes = alive_nodes d;
  isolated_nodes = nodes_where false d.nodes;
  strategy_used = majority_strategy;
}

unfoldable pub static_quorum : Detector → QuorumDecision
static_quorum d = record {
  has_quorum = leb d.config.min_quorum_size (length (alive_nodes d));
  active_nodes = alive_nodes d;
  isolated_nodes = [];
  strategy_used = static_strategy;
}

-- std::max
abbrev pub max_size : ℕ → ℕ → ℕ
max_size a b = if ltb a b then b else a

unfoldable pub dynamic_quorum : Detector → QuorumDecision
dynamic_quorum d = record {
  has_quorum =
      leb (max_size d.config.min_quorum_size ((length (alive_nodes d) + 1) / 2))
        (length (alive_nodes d));
  active_nodes = alive_nodes d;
  isolated_nodes = [];
  strategy_used = dynamic_strategy;
}

-- The active nodes that are witnesses.
abbrev pub witnesses : List NodeId → List NodeId → List NodeId
witnesses witness_nodes [] = []
witnesses witness_nodes (node ∷ nodes) =
    let rest = witnesses witness_nodes nodes in
    if contains node witness_nodes then node ∷ rest else rest

unfoldable pub witness_based_quorum : Detector → QuorumDecision
witness_based_quorum d = record {
  has_quorum =
      ltb 0 (length (witnesses d.config.witness_nodes (alive_nodes d)))
      && leb d.config.min_quorum_size (length (alive_nodes d));
  active_nodes = alive_nodes d;
  isolated_nodes = [];
  strategy_used = witness_strategy;
}

-- calculate_quorum, which check_quorum calls under the lock
unfoldable pub calculate_quorum : Detector → QuorumDecision
calculate_quorum d = elim d.config.quorum_strategy [
  | majority_strategy ↦ majority_quorum d
  | static_strategy ↦ static_quorum d
  | dynamic_strategy ↦ dynamic_quorum d
  | witness_strategy ↦ witness_based_quorum d
]

unfoldable pub has_quorum : Detector → Bool
has_quorum d = (calculate_quorum d).has_quorum
