-- ===== src/Hotspot/Deadlock.antt =====
-- src/hotspot/hotspot_manager.cpp: add_event locks the mutex, and the detection thread,
-- resolve_hotspot and the cleanup thread notify while they hold it.
pub mod Runs
use mathlib.Core.Path.{subst}
use qc_database.Prelude.{
  ℕ, ◌≡◌, refl, ap, sym, ◌∙◌, Bool-cases, ◌⊎◌, inl, inr, Option, none, some, List, [], ◌∷◌, ◌++◌,
  leb, arith, false,
}
use qc_database.Std.HashMap.{find}
use qc_database.Std.Method.{
  Outcome, returns, undefined, Guarded, Method, ◌>>=◌, ◌>>◌, pure, at_rest, >>=-returns,
  >>=-undefined, with_unique,
}
use qc_database.Types.{MultiLevelKey, key_eq}
use qc_database.Hotspot.{
  NodeId, OperationType, HotspotStrategy, HotspotDetectionConfig, HotspotHandlingConfig,
  HotspotKeyInfo, AccessRecorder, Manager, true,
}
use qc_database.Hotspot.Events.{
  notify_hotspot_detected, notify_hotspot_resolved, notify_strategy_applied, add_event,
}
use qc_database.Hotspot.Calls.{
  start, stop, record_access, found_hotspots, hotspots_among, is_normal, calculate_hotspot_level,
  detect_hotspots, handle_hotspot, resolve_hotspot, apply_strategy,
}
use qc_database.Hotspot.Rounds.{
  keep_detected, detection_round, handle_all, handling_round, drop_cooled, trim_events,
  cleanup_round,
}

busy_level :
    (c : HotspotDetectionConfig) (info : HotspotKeyInfo)
    → leb c.warm_threshold info.total_access_count ≡ true
    → is_normal (calculate_hotspot_level c info) ≡ false
unfolding calculate_hotspot_level
busy_level c info e = ground arith

module _ {R : Type 0} where
  keep_detected_lem :
      (later : MultiLevelKey → ℕ) (detected : List HotspotKeyInfo) (m : Manager R)
      → with_unique (keep_detected later detected) (at_rest m)
        ≡ elim detected [ [] ↦ returns (tt, at_rest m) | info ∷ rest ↦ undefined ]
  unfolding keep_detected notify_hotspot_detected add_event
  keep_detected_lem later [] m = refl
  keep_detected_lem later (info ∷ rest) m = refl

  -- A round of the detection thread never gets past a hotspot: on a manager that nobody has locked
  -- the round is undefined when some key is a hotspot, and otherwise it returns and leaves the
  -- manager as it is.
  pub detection_round_lem :
      (api : AccessRecorder R) (later : MultiLevelKey → ℕ) (m : Manager R)
      → detection_round api later (at_rest m)
        ≡ elim (found_hotspots api m) [ [] ↦ returns (tt, at_rest m) | info ∷ rest ↦ undefined ]
  unfolding detection_round detect_hotspots
  detection_round_lem api later m = keep_detected_lem later (found_hotspots api m) m

  -- What detect_hotspots makes of the statistics of a key.
  abbrev leveled : AccessRecorder R → Manager R → MultiLevelKey → HotspotKeyInfo
  leveled api m key =
      let stats = api.get_key_stats key m.access_recorder in
      record stats { level = calculate_hotspot_level m.detection_config stats }

  hotspots_among-busy :
      (api : AccessRecorder R) (m : Manager R) (key : MultiLevelKey)
      (before after : List MultiLevelKey)
      → leb m.detection_config.warm_threshold
          (api.get_key_stats key m.access_recorder).total_access_count
        ≡ true
      → (info : HotspotKeyInfo) × (rest : List HotspotKeyInfo) × (hotspots_among api m
            (before ++ key ∷ after)
          ≡ info ∷ rest)
  unfolding hotspots_among
  hotspots_among-busy api m key [] after busy =
      let stats = api.get_key_stats key m.access_recorder in
      (
        leveled api m key,
        hotspots_among api m after,
        rw (busy_level m.detection_config stats busy) refl,
      )
  hotspots_among-busy api m key (other ∷ before) after busy =
      let stats = api.get_key_stats other m.access_recorder in
      let (info, rest, e) = hotspots_among-busy api m key before after busy in
      elim (Bool-cases (is_normal (calculate_hotspot_level m.detection_config stats))) [
        | inl n ↦ (info, rest, rw n e)
        | inr h ↦ (leveled api m other, hotspots_among api m (before ++ key ∷ after), rw h refl)
      ]

  -- One key that is asked for often is enough: when a key among the 1000 that the recorder lists has
  -- at least warm_threshold accesses, the next round of the detection thread is undefined.
  pub busy_key_undefined :
      (api : AccessRecorder R) (later : MultiLevelKey → ℕ) (m : Manager R) (key : MultiLevelKey)
      (before after : List MultiLevelKey)
      → api.get_top_keys 1000 m.access_recorder ≡ before ++ key ∷ after
      → leb m.detection_config.warm_threshold
          (api.get_key_stats key m.access_recorder).total_access_count
        ≡ true
      → detection_round api later (at_rest m) ≡ undefined
  unfolding found_hotspots
  busy_key_undefined api later m key before after top busy =
      let (info, rest, e) = hotspots_among-busy api m key before after busy in
      detection_round_lem api later m ∙ rw (top, e) refl

  pub resolve_hotspot-find :
      (now : ℕ) (key : MultiLevelKey) (m : Manager R) (found : Option HotspotKeyInfo)
      → find key m.current_hotspots ≡ found
      → resolve_hotspot now key (at_rest m)
        ≡ elim found [ none ↦ returns (tt, at_rest m) | some info ↦ undefined ]
  unfolding resolve_hotspot notify_hotspot_resolved add_event
  resolve_hotspot-find now key m none e = rw e refl
  resolve_hotspot-find now key m (some info) e = rw e refl
