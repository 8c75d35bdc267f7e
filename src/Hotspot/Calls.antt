-- ===== src/Hotspot/Calls.antt =====
-- src/hotspot/hotspot_manager.cpp: the calls of DefaultHotspotManager under its mutex, over an access
-- recorder `api`. `now` is what the clock reads when an event is built.
use qc_database.Prelude.{
  ℕ, zero, suc, Bool, true, false, Option, none, some, List, [], ◌∷◌, if◌then◌else◌, leb,
}
use qc_database.Std.HashMap
use qc_database.Std.HashMap.{find}
use qc_database.Std.Method.{Method, ◌>>=◌, ◌>>◌, pure, gets, modify, with_unique, with_shared}
use qc_database.Types.{MultiLevelKey, key_eq, Result, ok, error, storage_error}
use qc_database.Hotspot.{
  NodeId, OperationType, HotspotLevel, normal, warm, hot, critical, HotspotStrategy, replication,
  partitioning, load_balancing, HotspotKeyInfo, HotspotDetectionConfig, HotspotHandlingConfig,
  HotspotEvent, AccessRecorder, Manager, default_detection, default_handling,
}
use qc_database.Hotspot.Events.{notify_hotspot_resolved, notify_strategy_applied}

-- DefaultHotspotManager::DefaultHotspotManager, with the state of a new recorder
abbrev pub new_manager : {R : Type 0} → R → Manager R
new_manager r = record {
  detection_config = default_detection;
  handling_config = default_handling;
  access_recorder = r;
  event_handler = none;
  current_hotspots = [];
  recent_events = [];
  is_running = false;
  stop_threads = false;
}

unfoldable pub calculate_hotspot_level : HotspotDetectionConfig → HotspotKeyInfo → HotspotLevel
calculate_hotspot_level c info =
    if leb c.critical_threshold info.total_access_count
    then critical
    else if leb c.hot_threshold info.total_access_count
    then hot
    else if leb c.warm_threshold info.total_access_count
    then warm
    else normal

unfoldable pub select_strategies : HotspotKeyInfo → List HotspotStrategy
select_strategies info = elim info.level [
  | normal ↦ []
  | warm ↦ load_balancing ∷ []
  | hot ↦ replication ∷ load_balancing ∷ []
  | critical ↦ replication ∷ partitioning ∷ load_balancing ∷ []
]

-- DefaultHotspotHandler::apply_strategy
unfoldable pub apply_strategy : MultiLevelKey → HotspotStrategy → Result (Unit {0})
apply_strategy key strategy = ok tt

first : {A : Type 0} → ℕ → List A → List A
first zero l = []
first (suc n) [] = []
first (suc n) (x ∷ l) = x ∷ first n l

infos : List (MultiLevelKey × HotspotKeyInfo) → List HotspotKeyInfo
infos [] = []
infos ((key, info) ∷ m) = info ∷ infos m

level_in : Option HotspotKeyInfo → HotspotLevel
level_in none = normal
level_in (some info) = info.level

abbrev pub is_normal : HotspotLevel → Bool
is_normal normal = true
is_normal warm = false
is_normal hot = false
is_normal critical = false

module _ {R : Type 0} where
  started : HotspotDetectionConfig → HotspotHandlingConfig → Manager R → Manager R
  started detection handling m = if m.is_running then m else record m {
    detection_config = detection;
    handling_config = handling;
    stop_threads = false;
    is_running = true;
  }

  -- The status returned is always OK.
  unfoldable pub start :
      HotspotDetectionConfig → HotspotHandlingConfig → Method (Manager R) (Unit {0})
  unfolding started
  start detection handling = with_unique (modify (started detection handling))

  stopped : Manager R → Manager R
  stopped m = if m.is_running then record m { stop_threads = true; is_running = false } else m

  unfoldable pub stop : Method (Manager R) (Unit {0})
  unfolding stopped
  stop = with_unique (modify stopped)

  recorded : AccessRecorder R → MultiLevelKey → OperationType → NodeId → Manager R → Manager R
  recorded api key op_type node_id m =
      if m.is_running
      then record m { access_recorder = api.record_access key op_type node_id m.access_recorder }
      else m

  unfoldable pub record_access :
      AccessRecorder R → MultiLevelKey → OperationType → NodeId → Method (Manager R) (Unit {0})
  unfolding recorded
  record_access api key op_type node_id = modify (recorded api key op_type node_id)

  unfoldable pub hotspots_among :
      AccessRecorder R → Manager R → List MultiLevelKey → List HotspotKeyInfo
  hotspots_among api m [] = []
  hotspots_among api m (key ∷ keys) =
      let rest = hotspots_among api m keys in
      let stats = api.get_key_stats key m.access_recorder in
      let info : HotspotKeyInfo = record stats {
        level = calculate_hotspot_level m.detection_config stats;
      } in
      if is_normal info.level then rest else info ∷ rest

  -- What detect_hotspots finds: the keys above the lowest threshold that they pass.
  unfoldable pub found_hotspots : AccessRecorder R → Manager R → List HotspotKeyInfo
  unfolding hotspots_among
  found_hotspots api m = hotspots_among api m (api.get_top_keys 1000 m.access_recorder)

  unfoldable pub detect_hotspots : AccessRecorder R → Method (Manager R) (List HotspotKeyInfo)
  detect_hotspots api = with_shared (gets (found_hotspots api))

  unfoldable pub get_current_hotspots : Method (Manager R) (List HotspotKeyInfo)
  unfolding infos
  get_current_hotspots = with_shared (gets λ m. infos m.current_hotspots)

  unfoldable pub get_hotspot_level : MultiLevelKey → Method (Manager R) HotspotLevel
  unfolding level_in
  get_hotspot_level key = with_shared (gets λ m. level_in (find key m.current_hotspots))

  applied_or_next :
      ℕ
      → MultiLevelKey
      → HotspotStrategy
      → Method (Manager R) (Result (Unit {0}))
      → Result (Unit {0})
      → Method (Manager R) (Result (Unit {0}))
  applied_or_next now key strategy next (ok t) =
      notify_strategy_applied now key strategy >> pure (ok tt)
  applied_or_next now key strategy next (error s) = next

  try_strategies : ℕ → MultiLevelKey → List HotspotStrategy → Method (Manager R) (Result (Unit {0}))
  unfolding applied_or_next
  try_strategies now key [] = pure (error storage_error)
  try_strategies now key (strategy ∷ strategies) =
      applied_or_next now key strategy (try_strategies now key strategies)
        (apply_strategy key strategy)

  -- Without strategies, replication and load balancing are tried.
  unfoldable pub handle_hotspot :
      ℕ → MultiLevelKey → List HotspotStrategy → Method (Manager R) (Result (Unit {0}))
  unfolding try_strategies
  handle_hotspot now key [] = try_strategies now key (replication ∷ load_balancing ∷ [])
  handle_hotspot now key (strategy ∷ strategies) = try_strategies now key (strategy ∷ strategies)

  resolve_found : ℕ → MultiLevelKey → Option HotspotKeyInfo → Method (Manager R) (Unit {0})
  resolve_found now key none = pure tt
  resolve_found now key (some info) =
      modify (λ m. record m { current_hotspots = HashMap.erase key m.current_hotspots })
      >> notify_hotspot_resolved now key

  -- resolve_hotspot notifies while it holds the mutex. The status returned is always OK.
  unfoldable pub resolve_hotspot : ℕ → MultiLevelKey → Method (Manager R) (Unit {0})
  unfolding resolve_found
  resolve_hotspot now key =
      with_unique (do info ← gets λ m. find key m.current_hotspots; resolve_found now key info)

  unfoldable pub get_top_accessed_keys :
      AccessRecorder R → ℕ → Method (Manager R) (List MultiLevelKey)
  get_top_accessed_keys api limit = gets λ m. api.get_top_keys limit m.access_recorder

  info_or_stats :
      AccessRecorder R → MultiLevelKey → Manager R → Option HotspotKeyInfo → HotspotKeyInfo
  info_or_stats api key m none = api.get_key_stats key m.access_recorder
  info_or_stats api key m (some info) = info

  unfoldable pub get_key_info : AccessRecorder R → MultiLevelKey → Method (Manager R) HotspotKeyInfo
  unfolding info_or_stats
  get_key_info api key =
      with_shared (gets λ m. info_or_stats api key m (find key m.current_hotspots))

  unfoldable pub get_recent_events : ℕ → Method (Manager R) (List HotspotEvent)
  unfolding first
  get_recent_events limit = with_shared (gets λ m. first limit m.recent_events)
