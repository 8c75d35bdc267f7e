-- ===== src/Cluster/SplitBrain/Utilities.antt =====
-- src/cluster/split_brain_detector.cpp, split_brain_utils: functions on plain lists of nodes.
use qc_database.Prelude.{
  ℕ, zero, suc, ◌+◌, ◌-◌, ◌/◌, Bool, true, false, not, ◌&&◌, ◌==◌, Option, none, some, List, [],
  ◌∷◌, ◌++◌, if◌then◌else◌, length, get_or, set, replicate, list_eq, nat_eq,
}
use qc_database.Std.HashSet.{HashSet, contains, insert as insert_member}
use qc_database.Cluster.SplitBrain.{
  NodeId, QuorumStrategy, majority_strategy, static_strategy, dynamic_strategy, witness_strategy,
  QuorumDecision,
}
use qc_database.Cluster.SplitBrain.Quorum.{max_size}

unfoldable pub calculate_required_quorum_size : ℕ → QuorumStrategy → ℕ
calculate_required_quorum_size total majority_strategy = total / 2 + 1
calculate_required_quorum_size total static_strategy = max_size 1 (total / 3)
calculate_required_quorum_size total dynamic_strategy = max_size 1 ((total + 1) / 2)
calculate_required_quorum_size total witness_strategy = max_size 1 (total / 2)

-- The loop that refuses a node it has seen, and the nodes seen after it.
unfoldable pub account : List NodeId → HashSet NodeId → Option (HashSet NodeId)
account [] seen = some seen
account (node ∷ nodes) seen =
    if contains node seen then none else account nodes (insert_member node seen)

account_both : List NodeId → Option (HashSet NodeId) → Bool
account_both nodes none = false
account_both nodes (some seen) = elim (account nodes seen) [ none ↦ false | some s ↦ true ]

unfoldable pub validate_quorum_decision : QuorumDecision → List NodeId → Bool
unfolding account_both
validate_quorum_decision decision all_nodes =
    if length decision.active_nodes + length decision.isolated_nodes == length all_nodes
    then account_both decision.isolated_nodes (account decision.active_nodes [])
    else false

-- The row of a node against those that follow it.
abbrev connected_row : (NodeId → NodeId → Bool) → NodeId → List NodeId → List Bool
connected_row connected node [] = []
connected_row connected node (other ∷ others) =
    connected node other ∷ connected_row connected node others

abbrev with_column : List Bool → List (List Bool) → List (List Bool)
with_column [] rows = rows
with_column (b ∷ bs) [] = []
with_column (b ∷ bs) (row ∷ rows) = (b ∷ row) ∷ with_column bs rows

-- The matrix of a node and those behind it: its row, and its row again as the first column.
unfoldable pub calculate_connectivity_matrix :
    List NodeId → (NodeId → NodeId → Bool) → List (List Bool)
calculate_connectivity_matrix [] connected = []
calculate_connectivity_matrix (node ∷ nodes) connected =
    let row = connected_row connected node nodes in
    (true ∷ row) ∷ with_column row (calculate_connectivity_matrix nodes connected)

-- The loop over one row of the matrix, from the index `j` on: what it queues, and what is visited
-- then. A matrix has a row for every node, with an entry for every node.
unfoldable pub visit_row : (j : ℕ) → List Bool → (visited : List Bool) → List ℕ × List Bool
visit_row j [] visited = ([], visited)
visit_row j (connected ∷ row) [] = ([], [])
visit_row j (connected ∷ row) (v ∷ visited) =
    let (queued, rest) = visit_row (j + 1) row visited in
    if not v && connected then (j ∷ queued, true ∷ rest) else (queued, v ∷ rest)

abbrev row_of : List (List Bool) → ℕ → List Bool
row_of matrix i = get_or matrix i []

-- The loop while the queue is not empty; `none` means that the fuel ran out.
unfoldable pub search_matrix :
    ℕ
    → List NodeId
    → List (List Bool)
    → (partition : List NodeId) → (queue : List ℕ) → (visited : List Bool)
    → Option (List NodeId × List Bool)
search_matrix fuel nodes matrix partition [] visited = some (partition, visited)
search_matrix zero nodes matrix partition (current ∷ queue) visited = none
search_matrix (suc fuel) nodes matrix partition (current ∷ queue) visited =
    let (queued, visited') = visit_row 0 (row_of matrix current) visited in
    search_matrix fuel nodes matrix (partition ++ get_or nodes current [] ∷ []) (queue ++ queued)
      visited'

and_next :
    Option (List NodeId × List Bool)
    → (List Bool → Option (List (List NodeId)))
    → Option (List (List NodeId))
and_next none k = none
and_next (some (partition, visited)) k = elim (k visited) [
  | none ↦ none
  | some partitions ↦ some (partition ∷ partitions)
]

-- The partitions that begin at one of the last `left` nodes.
partitions_from :
    (left : ℕ) → List NodeId → List (List Bool) → List Bool → Option (List (List NodeId))
unfolding and_next
partitions_from zero nodes matrix visited = some []
partitions_from (suc left) nodes matrix visited =
    let i = length nodes - suc left in
    if get_or visited i true
    then partitions_from left nodes matrix visited
    else and_next (search_matrix (length nodes) nodes matrix [] (i ∷ []) (set visited i true))
        (partitions_from left nodes matrix)

unfoldable pub find_network_partitions :
    List NodeId → List (List Bool) → Option (List (List NodeId))
unfolding partitions_from
find_network_partitions nodes matrix =
    partitions_from (length nodes) nodes matrix (replicate (length nodes) false)
