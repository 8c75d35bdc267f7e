-- ===== src/Hotspot/Rounds.antt =====
-- src/hotspot/hotspot_manager.cpp: one round of each of the three threads, without its wait. `later`
-- is what the clock reads when the event for a key is built. No other thread comes in between where
-- a round lets go of the mutex.
--
-- The source has a try block around each round, whose handler does nothing. It is left out: what the
-- code itself could throw there is std::system_error, from a library that notices that a thread locks
-- the mutex again, and the standard leaves that case undefined, as the model does.
use qc_database.Prelude.{
  ℕ, zero, suc, ◌-◌, ◌/◌, Bool, true, false, List, [], ◌∷◌, if◌then◌else◌, ltb, length,
}
use qc_database.Std.HashMap
use qc_database.Std.HashMap.{HashMap}
use qc_database.Std.Method.{Method, ◌>>=◌, ◌>>◌, pure, gets, modify, with_unique, with_shared}
use qc_database.Types.{MultiLevelKey, key_eq}
use qc_database.Hotspot.{
  HotspotLevel, normal, warm, hot, critical, HotspotKeyInfo, AccessRecorder, Manager,
}
use qc_database.Hotspot.Events.{notify_hotspot_detected, notify_hotspot_resolved}
use qc_database.Hotspot.Calls.{detect_hotspots, handle_hotspot}

-- level >= HotspotLevel::HOT
at_least_hot : HotspotLevel → Bool
at_least_hot normal = false
at_least_hot warm = false
at_least_hot hot = true
at_least_hot critical = true

hot_ones : HashMap MultiLevelKey HotspotKeyInfo → List HotspotKeyInfo
unfolding at_least_hot
hot_ones [] = []
hot_ones ((key, info) ∷ m) =
    let rest = hot_ones m in if at_least_hot info.level then info ∷ rest else rest

-- Whole minutes of a time in nanoseconds and of a time in milliseconds.
abbrev minutes_of_ns : ℕ → ℕ
minutes_of_ns t = t / 60000000000

abbrev minutes_of_ms : ℕ → ℕ
minutes_of_ms t = t / 60000

-- A duration below zero is no more minutes than 0.
unfoldable pub has_cooled : ℕ → ℕ → HotspotKeyInfo → Bool
has_cooled now cooling_period info =
    ltb (minutes_of_ms cooling_period) (minutes_of_ns (now - info.last_access))

without_first : {A : Type 0} → ℕ → List A → List A
without_first zero l = l
without_first (suc n) [] = []
without_first (suc n) (x ∷ l) = without_first n l

module _ {R : Type 0} where
  -- The loop over what was detected, which notifies while it holds the mutex.
  unfoldable pub keep_detected :
      (MultiLevelKey → ℕ) → List HotspotKeyInfo → Method (Manager R) (Unit {0})
  keep_detected later [] = pure tt
  keep_detected later (info ∷ detected) =
      modify (λ m. record m { current_hotspots = HashMap.insert info.key info m.current_hotspots })
      >> notify_hotspot_detected (later info.key) info
      >> keep_detected later detected

  unfoldable pub detection_round :
      AccessRecorder R → (MultiLevelKey → ℕ) → Method (Manager R) (Unit {0})
  detection_round api later = do
    detected ← detect_hotspots api
    with_unique (keep_detected later detected)

  unfoldable pub handle_all :
      (MultiLevelKey → ℕ) → List HotspotKeyInfo → Method (Manager R) (Unit {0})
  handle_all later [] = pure tt
  handle_all later (info ∷ rest) = do
    handled ← handle_hotspot (later info.key) info.key []
    handle_all later rest

  unfoldable pub handling_round : (MultiLevelKey → ℕ) → Method (Manager R) (Unit {0})
  unfolding hot_ones
  handling_round later = do
    hotspots ← with_shared (gets λ m. hot_ones m.current_hotspots)
    handle_all later hotspots

  expired_or_kept :
      (MultiLevelKey → ℕ)
      → MultiLevelKey
      → Method (Manager R) (Unit {0})
      → Bool
      → Method (Manager R) (Unit {0})
  expired_or_kept later key next true =
      notify_hotspot_resolved (later key) key
      >> modify (λ m. record m { current_hotspots = HashMap.erase key m.current_hotspots })
      >> next
  expired_or_kept later key next false = next

  -- The loop over the hotspots, which notifies while the round holds the mutex.
  unfoldable pub drop_cooled :
      (now cooling_period : ℕ)
      → (MultiLevelKey → ℕ)
      → HashMap MultiLevelKey HotspotKeyInfo
      → Method (Manager R) (Unit {0})
  unfolding expired_or_kept
  drop_cooled now cooling_period later [] = pure tt
  drop_cooled now cooling_period later ((key, info) ∷ rest) =
      expired_or_kept later key (drop_cooled now cooling_period later rest)
        (has_cooled now cooling_period info)

  -- At most the last 1000 events stay.
  unfoldable pub trim_events : Manager R → Manager R
  unfolding without_first
  trim_events m = record m {
    recent_events = without_first (length m.recent_events - 1000) m.recent_events;
  }

  unfoldable pub cleanup_round : (now : ℕ) → (MultiLevelKey → ℕ) → Method (Manager R) (Unit {0})
  cleanup_round now later = with_unique (do
    m ← gets λ m. m
    drop_cooled now m.detection_config.cooling_period later m.current_hotspots
    modify trim_events)
