-- ===== src/Tests/Clusters.antt =====
-- src/cluster/split_brain_detector.cpp at small inputs.
use qc_database.Prelude.{
  ◌≡◌, refl, arith, list_beq_iff, true, false, ◌&&◌, some, List, [], ◌∷◌, list_eq, nat_eq,
}
use qc_database.Std.HashMap.{find, Distinct}
use qc_database.Std.HashSet.{contains}
use qc_database.Cluster.SplitBrain.{
  NodeId, NodeStatus, Detector, new_detector, new_status, is_node_isolated, isolate_node,
}
use qc_database.Cluster.SplitBrain.Quorum.{
  calculate_quorum, majority_quorum, static_quorum, dynamic_quorum,
}
use qc_database.Cluster.SplitBrain.Quorum.Safety.{
  majority_excludes_split, SameNodes, Disjoint, dynamic_quorum-static_quorum,
}
use qc_database.Cluster.SplitBrain.Partitions.{find_connected_components}
use qc_database.Cluster.SplitBrain.Partitions.Search.{find_connected_components-answers}
use qc_database.Cluster.SplitBrain.Isolation.{take_reports, heartbeat, seen, isolated_stays, Report}

abbrev node_a : NodeId
node_a = b'a' ∷ []

abbrev node_b : NodeId
node_b = b'b' ∷ []

abbrev alive : NodeStatus
alive = record new_status { is_alive = true; last_heartbeat = 100 }

-- One node of two is alive, for each of two detectors another.
abbrev left : Detector
left = record new_detector { nodes = (node_a, alive) ∷ (node_b, new_status) ∷ [] }

abbrev right : Detector
right = record new_detector { nodes = (node_b, alive) ∷ (node_a, new_status) ∷ [] }

left-Distinct : Distinct left.nodes
unfolding find
left-Distinct = (refl, (refl, tt))

right-Distinct : Distinct right.nodes
unfolding find
right-Distinct = (refl, (refl, tt))

-- The nodes of `right` in the other order.
same : SameNodes left.nodes right.nodes
unfolding find
same node = ground arith

apart : Disjoint left.nodes right.nodes
unfolding find
apart node = ground (arith, list_beq_iff node_a node, list_beq_iff node_b node)

majority_excludes_split_example :
    ((majority_quorum left).has_quorum && (majority_quorum right).has_quorum) ≡ false
majority_excludes_split_example =
    majority_excludes_split left right left-Distinct right-Distinct same apart

dynamic_quorum-static_quorum_example :
    ((dynamic_quorum left).has_quorum ≡ (static_quorum left).has_quorum)
    × ((dynamic_quorum left).active_nodes ≡ (static_quorum left).active_nodes)
dynamic_quorum-static_quorum_example = dynamic_quorum-static_quorum left

find_connected_components-answers_example :
    (cs : List (List NodeId)) × (find_connected_components (λ a b. 120) left ≡ some cs)
find_connected_components-answers_example = find_connected_components-answers (λ a b. 120) left

abbrev reports : List Report
reports = heartbeat node_a node_b 200 ∷ seen node_a true 201 ∷ []

isolated_stays_example :
    let later = take_reports reports (isolate_node node_a left).0 in
    (is_node_isolated node_a later ≡ true)
    × (contains node_a (calculate_quorum later).active_nodes ≡ false)
    × (contains node_a (majority_quorum later).isolated_nodes ≡ true)
isolated_stays_example =
    isolated_stays node_a left alive reports left-Distinct (unfold find in refl)
