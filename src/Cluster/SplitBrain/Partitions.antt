-- ===== src/Cluster/SplitBrain/Partitions.antt =====
-- src/cluster/split_brain_detector.cpp: connected components, and the partitions between them. A
-- `clock` says what the time is when a pair of nodes is compared: one search compares no pair twice.
pub mod Search
use qc_database.Prelude.{
  ℕ, zero, suc, ◌+◌, ◌*◌, ◌%◌, ◌^◌, Bool, true, false, not, ◌&&◌, ◌||◌, Option, none, some, List,
  [], ◌∷◌, ◌++◌, if◌then◌else◌, leb, ltb, length, list_eq, nat_eq, map,
}
use qc_database.Std.HashMap.{HashMap, find}
use qc_database.Std.HashSet.{HashSet, contains, insert as insert_member}
use qc_database.Cluster.SplitBrain.{
  NodeId, NodeStatus, Detector, NetworkPartition, Event, split_brain_detected, split_brain_resolved,
  notify, SplitBrainConfig, confirmed, healthy, recovering,
}

abbrev recent : ℕ → ℕ → NodeStatus → Bool
recent now timeout s = ltb now (s.last_heartbeat + timeout * 2)

abbrev both_recent : ℕ → ℕ → Option NodeStatus → Option NodeStatus → Bool
both_recent now timeout none t = false
both_recent now timeout (some s) none = false
both_recent now timeout (some s) (some t) = recent now timeout s && recent now timeout t

unfoldable pub are_nodes_connected : ℕ → Detector → NodeId → NodeId → Bool
are_nodes_connected now d a b =
    both_recent now d.config.heartbeat_timeout (find a d.nodes) (find b d.nodes)

abbrev pub Clock : Type 0
Clock = NodeId → NodeId → ℕ

abbrev visit : Bool → NodeId → List NodeId × HashSet NodeId → List NodeId × HashSet NodeId
visit true node (queue, visited) = (queue ++ node ∷ [], insert_member node visited)
visit false node (queue, visited) = (queue, visited)

-- The queue and the visited nodes after the loop over the nodes for the node `current`.
unfoldable pub expand :
    Clock
    → Detector
    → NodeId
    → HashMap NodeId NodeStatus
    → List NodeId × HashSet NodeId
    → List NodeId × HashSet NodeId
expand clock d current [] p = p
expand clock d current ((other, s) ∷ m) p = expand clock d current m (
    visit
      (not (contains other p.1)
        && s.is_alive
        && are_nodes_connected (clock current other) d current other)
      other p)

-- The loop while the queue is not empty; `none` means that the fuel ran out.
unfoldable pub search :
    ℕ
    → Clock
    → Detector
    → (component : List NodeId) → List NodeId × HashSet NodeId
    → Option (List NodeId × HashSet NodeId)
search fuel clock d component ([], visited) = some (component, visited)
search zero clock d component (current ∷ queue, visited) = none
search (suc fuel) clock d component (current ∷ queue, visited) =
    search fuel clock d (component ++ current ∷ [])
      (expand clock d current d.nodes (queue, visited))

and_next :
    Option (List NodeId × HashSet NodeId)
    → (HashSet NodeId → Option (List (List NodeId)))
    → Option (List (List NodeId))
and_next none k = none
and_next (some (component, visited)) k = elim (k visited) [
  | none ↦ none
  | some components ↦ some (component ∷ components)
]

-- The components that begin at one of these nodes. Each search has fuel for every node.
unfoldable pub components_from :
    Clock → Detector → HashMap NodeId NodeStatus → HashSet NodeId → Option (List (List NodeId))
unfolding and_next
components_from clock d [] visited = some []
components_from clock d ((node, s) ∷ m) visited =
    if not (contains node visited) && s.is_alive
    then and_next (search (length d.nodes) clock d [] (node ∷ [], insert_member node visited))
        (components_from clock d m)
    else components_from clock d m visited

unfoldable pub find_connected_components : Clock → Detector → Option (List (List NodeId))
find_connected_components clock d = components_from clock d d.nodes []

-- A node that is not isolated and whose heartbeat is overdue misses one more, and dies when it has
-- missed too many. The counter is a uint32_t.
unfoldable pub check_heartbeat : ℕ → SplitBrainConfig → NodeStatus → NodeStatus
check_heartbeat now c s =
    let missed = (s.missed_heartbeats + 1) % 2 ^ 32 in
    if not s.is_isolated && ltb (s.last_heartbeat + c.heartbeat_timeout) now
    then record s {
      missed_heartbeats = missed;
      is_alive = if leb c.max_missed_heartbeats missed then false else s.is_alive;
    }
    else s

abbrev check_heartbeats :
    ℕ → SplitBrainConfig → HashMap NodeId NodeStatus → HashMap NodeId NodeStatus
check_heartbeats now c [] = []
check_heartbeats now c ((node, s) ∷ m) = (node, check_heartbeat now c s) ∷ check_heartbeats now c m

abbrev partitions_with : ℕ → List NodeId → List (List NodeId) → List NetworkPartition
partitions_with now component [] = []
partitions_with now component (other ∷ others) =
    record { partition_a = component; partition_b = other; detected_at = now; resolved = false }
    ∷ partitions_with now component others

-- One partition for each pair of components, in the order of the two loops.
unfoldable pub partitions_between : ℕ → List (List NodeId) → List NetworkPartition
partitions_between now [] = []
partitions_between now (component ∷ others) =
    partitions_with now component others ++ partitions_between now others

abbrev pub notify_all : Detector → List Event → List Event
notify_all d [] = []
notify_all d (event ∷ events) = notify d event ++ notify_all d events

detected : ℕ → Detector → Option (List (List NodeId)) → Option (Detector × List Event)
detected now d none = none
detected now d (some components) =
    let partitions = partitions_between now components in
    some (
      record d { detected_partitions = d.detected_partitions ++ partitions },
      notify_all d (map split_brain_detected partitions),
    )

-- Partitions that are detected again are listed again.
unfoldable pub detect_network_partitions : ℕ → Clock → Detector → Option (Detector × List Event)
unfolding detected
detect_network_partitions now clock d =
    let checked : Detector = record d { nodes = check_heartbeats now d.config d.nodes } in
    detected now checked (find_connected_components clock checked)

any_connected : Clock → Detector → NodeId → List NodeId → Bool
any_connected clock d a [] = false
any_connected clock d a (b ∷ bs) =
    are_nodes_connected (clock a b) d a b || any_connected clock d a bs

-- What the loop over the pairs between the two sides finds.
unfoldable pub inter_connected : Clock → Detector → List NodeId → List NodeId → Bool
unfolding any_connected
inter_connected clock d [] bs = false
inter_connected clock d (a ∷ rest) bs =
    any_connected clock d a bs || inter_connected clock d rest bs

-- The loop over the partitions; the clock is also told how many of them are left. What it finds out
-- about the two sides in themselves is not used.
unfoldable pub resolve_connected :
    (ℕ → Clock) → Detector → List NetworkPartition → List NetworkPartition × List Event
resolve_connected clock d [] = ([], [])
resolve_connected clock d (p ∷ ps) =
    let (rest, events) = resolve_connected clock d ps in
    let done : NetworkPartition = record p { resolved = true } in
    if not p.resolved && inter_connected (clock (length ps)) d p.partition_a p.partition_b
    then (done ∷ rest, notify d (split_brain_resolved done) ++ events)
    else (p ∷ rest, events)

unfoldable pub update_partition_status : (ℕ → Clock) → Detector → Detector × List Event
update_partition_status clock d =
    let (partitions, events) = resolve_connected clock d d.detected_partitions in
    (record d { detected_partitions = partitions }, events)

abbrev resolve_all : Detector → List NetworkPartition → List Event
resolve_all d [] = []
resolve_all d (p ∷ ps) =
    let rest = resolve_all d ps in
    if p.resolved
    then rest
    else notify d (split_brain_resolved (record p { resolved = true })) ++ rest

-- All partitions are resolved, and then erased. The status returned is always OK.
unfoldable pub force_merge_partitions : Detector → Detector × List Event
force_merge_partitions d =
    (record d { detected_partitions = []; status = healthy }, resolve_all d d.detected_partitions)
