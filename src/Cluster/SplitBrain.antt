-- ===== src/Cluster/SplitBrain.antt =====
-- src/cluster/split_brain_detector.cpp: the detector of a node. No method that locks calls another
-- one that does, so each runs as one step and the mutex is left out. Times and durations are in one
-- unit, and the texts of reasons are left out. A call of the handler is an event.
pub mod Partitions
pub mod Loops
pub mod Utilities
pub mod Quorum
pub mod Isolation
use qc_database.Prelude.{
  ℕ, ◌+◌, ◌*◌, ◌/◌, ◌%◌, ◌^◌, Bool, true, false, not, ◌&&◌, Option, none, some, List, [], ◌∷◌, ◌++◌,
  if◌then◌else◌, leb, ltb, ◌==◌, length, list_eq, nat_eq, list_beq,
}
use qc_database.Std.Bytes.{Str}
use qc_database.Std.HashMap.{HashMap, find, insert, erase}
use qc_database.Std.HashSet.{HashSet, contains, insert as insert_member, erase as erase_member}
use qc_database.Types.{Result, ok}

abbrev pub NodeId : Type 0
NodeId = Str

pub data SplitBrainStatus : Type 0 where
  healthy suspected confirmed recovering isolated : SplitBrainStatus

pub data QuorumStrategy : Type 0 where
  majority_strategy static_strategy dynamic_strategy witness_strategy : QuorumStrategy

pub record NetworkPartition : Type 0 where
  pub partition_a : List NodeId
  pub partition_b : List NodeId
  pub detected_at : ℕ
  pub resolved : Bool

pub record QuorumDecision : Type 0 where
  pub has_quorum : Bool
  pub active_nodes : List NodeId
  pub isolated_nodes : List NodeId
  pub strategy_used : QuorumStrategy

pub record SplitBrainConfig : Type 0 where
  pub heartbeat_timeout : ℕ
  pub max_missed_heartbeats : ℕ
  pub quorum_strategy : QuorumStrategy
  pub min_quorum_size : ℕ
  pub witness_nodes : List NodeId
  pub auto_recovery_enabled : Bool

-- SplitBrainConfig()
abbrev pub default_config : SplitBrainConfig
default_config = record {
  heartbeat_timeout = 1000;
  max_missed_heartbeats = 3;
  quorum_strategy = majority_strategy;
  min_quorum_size = 2;
  witness_nodes = [];
  auto_recovery_enabled = true;
}

pub record NodeStatus : Type 0 where
  pub is_alive : Bool
  pub last_seen : ℕ
  pub last_heartbeat : ℕ
  pub missed_heartbeats : ℕ
  pub is_isolated : Bool

-- NodeStatus(id): the times are the epoch.
abbrev pub new_status : NodeStatus
new_status = record {
  is_alive = false;
  last_seen = 0;
  last_heartbeat = 0;
  missed_heartbeats = 0;
  is_isolated = false;
}

-- The calls of SplitBrainEventHandler.
pub data Event : Type 0 where
  split_brain_detected split_brain_resolved : NetworkPartition → Event
  node_isolated : NodeId → Event
  quorum_lost quorum_restored : Event

pub record Detector : Type 0 where
  pub config : SplitBrainConfig
  pub handled : Bool
  pub nodes : HashMap NodeId NodeStatus
  pub detected_partitions : List NetworkPartition
  pub isolated_nodes : HashSet NodeId
  pub status : SplitBrainStatus
  pub is_running : Bool
  pub stop_threads : Bool

unfoldable pub new_detector : Detector
new_detector = record {
  config = default_config;
  handled = false;
  nodes = [];
  detected_partitions = [];
  isolated_nodes = [];
  status = healthy;
  is_running = false;
  stop_threads = false;
}

-- The two threads are not started here.
unfoldable pub start : SplitBrainConfig → Detector → Result (Unit {0}) × Detector
start config d = if d.is_running then (ok tt, d) else (
  ok tt,
  record d { config = config; status = healthy; stop_threads = false; is_running = true },
)

-- stop waits for both threads.
unfoldable pub stop : Detector → Result (Unit {0}) × Detector
stop d =
    if d.is_running
    then (ok tt, record d { stop_threads = true; is_running = false })
    else (ok tt, d)

unfoldable pub add_node : NodeId → Detector → Detector
add_node node d = record d { nodes = insert node new_status d.nodes }

unfoldable pub remove_node : NodeId → Detector → Detector
remove_node node d = record d {
  nodes = erase node d.nodes;
  isolated_nodes = erase_member node d.isolated_nodes;
}

abbrev update_found : NodeId → (NodeStatus → NodeStatus) → Detector → Option NodeStatus → Detector
update_found node f d none = d
update_found node f d (some s) = record d { nodes = insert node (f s) d.nodes }

-- A change of a node's status, if the node is known.
abbrev pub update : NodeId → (NodeStatus → NodeStatus) → Detector → Detector
update node f d = update_found node f d (find node d.nodes)

unfoldable pub update_node_status : NodeId → Bool → ℕ → Detector → Detector
update_node_status node is_alive last_seen = update node λ s. record s {
  is_alive = is_alive;
  last_seen = last_seen;
  missed_heartbeats = if is_alive then 0 else s.missed_heartbeats;
}

unfoldable pub process_heartbeat : (from_node to_node : NodeId) → ℕ → Detector → Detector
process_heartbeat from_node to_node timestamp =
    update from_node
      λ s. record s { last_heartbeat = timestamp; is_alive = true; missed_heartbeats = 0 }

unfoldable pub is_node_isolated : NodeId → Detector → Bool
is_node_isolated node d = contains node d.isolated_nodes

-- The events that a call of the handler makes: none without a handler.
abbrev pub notify : Detector → Event → List Event
notify d event = if d.handled then event ∷ [] else []

isolate_found : NodeId → Option NodeStatus → Detector → Detector × List Event
isolate_found node none d = (d, [])
isolate_found node (some s) d = (
  record d {
    nodes = insert node (record s { is_isolated = true }) d.nodes;
    isolated_nodes = insert_member node d.isolated_nodes;
  },
  notify d (node_isolated node),
)

-- The status is always OK.
unfoldable pub isolate_node : NodeId → Detector → Detector × List Event
unfolding isolate_found
isolate_node node d = isolate_found node (find node d.nodes) d

restore_found : NodeId → Option NodeStatus → Detector → Detector
restore_found node none d = d
restore_found node (some s) d = record d {
  nodes = insert node (record s { is_isolated = false }) d.nodes;
  isolated_nodes = erase_member node d.isolated_nodes;
}

unfoldable pub restore_node : NodeId → Detector → Detector
unfolding restore_found
restore_node node d = restore_found node (find node d.nodes) d

unfoldable pub set_event_handler : Bool → Detector → Detector
set_event_handler handled d = record d { handled = handled }

unfoldable pub update_config : SplitBrainConfig → Detector → Detector
update_config config d = record d { config = config }
