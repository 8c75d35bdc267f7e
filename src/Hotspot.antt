-- ===== src/Hotspot.antt =====
-- include/cache/hotspot/hotspot_manager.h: what the hotspot manager keeps. Points in time are
-- nanoseconds and durations milliseconds. Floating-point fields (rates and ratios) are left out, as
-- are the texts of events.
pub mod Events
pub mod Calls
pub mod Rounds
pub mod Strategies
pub mod Deadlock
use qc_database.Prelude.{ℕ, Bool, true, Option, List, [], ◌∷◌}
use qc_database.Std.Bytes.{Str}
use qc_database.Std.HashMap.{HashMap}
use qc_database.Types.{MultiLevelKey}

abbrev pub NodeId : Type 0
NodeId = Str

pub data OperationType : Type 0 where
  get_operation put_operation delete_operation range_scan_operation : OperationType
  multi_get_operation multi_put_operation : OperationType

pub data HotspotLevel : Type 0 where
  normal warm hot critical : HotspotLevel

pub data HotspotStrategy : Type 0 where
  replication partitioning caching load_balancing rate_limiting : HotspotStrategy

pub data AccessPattern : Type 0 where
  read_heavy write_heavy mixed burst periodic : AccessPattern

pub record HotspotKeyInfo : Type 0 where
  pub key : MultiLevelKey
  pub level : HotspotLevel
  pub pattern : AccessPattern
  pub total_access_count : ℕ
  pub read_count : ℕ
  pub write_count : ℕ
  pub first_detected : ℕ
  pub last_access : ℕ
  pub detection_window : ℕ
  pub node_access_counts : HashMap NodeId ℕ
  pub applied_strategies : List HotspotStrategy

pub record HotspotDetectionConfig : Type 0 where
  pub warm_threshold : ℕ
  pub hot_threshold : ℕ
  pub critical_threshold : ℕ
  pub detection_window : ℕ
  pub cooling_period : ℕ
  pub min_nodes_for_distribution : ℕ
  pub enable_pattern_detection : Bool
  pub burst_detection_window : ℕ

-- HotspotDetectionConfig()
abbrev pub default_detection : HotspotDetectionConfig
default_detection = record {
  warm_threshold = 1000;
  hot_threshold = 5000;
  critical_threshold = 20000;
  detection_window = 60000;
  cooling_period = 300000;
  min_nodes_for_distribution = 2;
  enable_pattern_detection = true;
  burst_detection_window = 10000;
}

pub record HotspotHandlingConfig : Type 0 where
  pub max_replicas : ℕ
  pub min_replicas_for_hot : ℕ
  pub local_cache_size : ℕ
  pub cache_ttl : ℕ
  pub max_qps_per_key : ℕ
  pub rate_limit_window : ℕ
  pub enable_key_partitioning : Bool
  pub max_partitions_per_key : ℕ
  pub auto_handle_hotspots : Bool
  pub preferred_strategies : List HotspotStrategy

-- HotspotHandlingConfig()
abbrev pub default_handling : HotspotHandlingConfig
default_handling = record {
  max_replicas = 5;
  min_replicas_for_hot = 3;
  local_cache_size = 10000;
  cache_ttl = 300000;
  max_qps_per_key = 10000;
  rate_limit_window = 1000;
  enable_key_partitioning = true;
  max_partitions_per_key = 4;
  auto_handle_hotspots = true;
  preferred_strategies = replication ∷ caching ∷ [];
}

pub data HotspotEventType : Type 0 where
  hotspot_detected hotspot_resolved strategy_applied strategy_removed : HotspotEventType

pub record HotspotEvent : Type 0 where
  pub type : HotspotEventType
  pub key : MultiLevelKey
  pub level : HotspotLevel
  pub strategy : HotspotStrategy
  pub timestamp : ℕ

-- The calls of HotspotEventHandler.
pub data Notice : Type 0 where
  on_hotspot_detected : HotspotKeyInfo → Notice
  on_hotspot_resolved : MultiLevelKey → Notice
  on_strategy_applied : MultiLevelKey → HotspotStrategy → Notice
  on_strategy_failed : MultiLevelKey → HotspotStrategy → Notice

-- AccessRecorder, of which the repository has the declaration and no implementation: what the
-- manager calls of one whose state is `R`.
pub record AccessRecorder (R : Type 0) : Type 0 where
  pub record_access : MultiLevelKey → OperationType → NodeId → R → R
  pub get_key_stats : MultiLevelKey → R → HotspotKeyInfo
  pub get_top_keys : ℕ → R → List MultiLevelKey

-- A handler is the list of the calls that it has had. The handler of strategies has no state, and
-- the threads are left out.
pub record Manager (R : Type 0) : Type 0 where
  pub detection_config : HotspotDetectionConfig
  pub handling_config : HotspotHandlingConfig
  pub access_recorder : R
  pub event_handler : Option (List Notice)
  pub current_hotspots : HashMap MultiLevelKey HotspotKeyInfo
  pub recent_events : List HotspotEvent
  pub is_running : Bool
  pub stop_threads : Bool
