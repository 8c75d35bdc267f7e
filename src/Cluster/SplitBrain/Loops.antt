-- ===== src/Cluster/SplitBrain/Loops.antt =====
-- src/cluster/split_brain_detector.cpp: one round of each of the two threads, without its waits.
use qc_database.Prelude.{
  Bool, true, false, ◌&&◌, Option, none, some, List, [], ◌∷◌, ◌++◌, if◌then◌else◌, ℕ,
}
use qc_database.Cluster.SplitBrain.{
  NodeId, Detector, Event, SplitBrainStatus, suspected, isolated, confirmed, recovering, healthy,
  notify, quorum_lost, quorum_restored, isolate_node, NetworkPartition, QuorumDecision,
}
use qc_database.Cluster.SplitBrain.Quorum.{calculate_quorum}
use qc_database.Cluster.SplitBrain.Partitions.{
  Clock, detect_network_partitions, update_partition_status,
}

unfoldable pub detect_split_brain : Detector → Bool
detect_split_brain d = elim d.detected_partitions [ [] ↦ false | p ∷ ps ↦ true ]

unfoldable pub isolate_all : List NodeId → Detector → Detector × List Event
isolate_all [] d = (d, [])
isolate_all (node ∷ nodes) d =
    let (d1, e1) = isolate_node node d in let (d2, e2) = isolate_all nodes d1 in (d2, e1 ++ e2)

decide : QuorumDecision → Detector → Detector × List Event
decide decision d =
    if decision.has_quorum
    then isolate_all decision.isolated_nodes d
    else (record d { status = confirmed }, notify d quorum_lost)

after_detection : Option (Detector × List Event) → Option (Detector × List Event)
unfolding decide
after_detection none = none
after_detection (some (d, events)) =
    if detect_split_brain d
    then (let (d', more) = decide (calculate_quorum d) d in some (d', events ++ more))
    else some (d, events)

unfoldable pub detection_round : ℕ → Clock → Detector → Option (Detector × List Event)
unfolding after_detection
detection_round now clock d = after_detection (detect_network_partitions now clock d)

all_resolved : List NetworkPartition → Bool
all_resolved [] = true
all_resolved (p ∷ ps) = p.resolved && all_resolved ps

is_confirmed : SplitBrainStatus → Bool
is_confirmed confirmed = true
is_confirmed healthy = false
is_confirmed suspected = false
is_confirmed recovering = false
is_confirmed isolated = false

finish_recovery : Detector × List Event → Detector × List Event
unfolding all_resolved
finish_recovery (d, events) =
    if all_resolved d.detected_partitions
    then (record d { status = healthy }, events ++ notify d quorum_restored)
    else (d, events)

-- `meanwhile` is what the other threads make of the detector while the round waits.
unfoldable pub recovery_round :
    (Detector → Detector) → (ℕ → Clock) → Detector → Detector × List Event
unfolding finish_recovery is_confirmed
recovery_round meanwhile clock d =
    if d.config.auto_recovery_enabled && is_confirmed d.status
    then finish_recovery
        (update_partition_status clock (meanwhile (record d { status = recovering })))
    else (d, [])
