-- ===== src/Hotspot/Events.antt =====
-- src/hotspot/hotspot_manager.cpp: the events of a hotspot manager, and what its handler hears of
-- them. `now` is what the clock reads when an event is built.
use qc_database.Prelude.{ℕ, Option, none, some, List, [], ◌∷◌, ◌++◌}
use qc_database.Std.Method.{Method, ◌>>◌, modify, with_unique}
use qc_database.Types.{MultiLevelKey, key_eq}
use qc_database.Hotspot.{
  normal, HotspotStrategy, replication, HotspotKeyInfo, HotspotEvent, hotspot_detected,
  hotspot_resolved, strategy_applied, strategy_removed, Notice, on_hotspot_detected,
  on_hotspot_resolved, on_strategy_applied, on_strategy_failed, Manager,
}

told : List Notice → Option (List Notice) → Option (List Notice)
told notices none = none
told notices (some heard) = some (heard ++ notices)

notices_of : HotspotEvent → List Notice
notices_of event = elim event.type [
  | hotspot_detected ↦ []
  | hotspot_resolved ↦ on_hotspot_resolved event.key ∷ []
  | strategy_applied ↦ on_strategy_applied event.key event.strategy ∷ []
  | strategy_removed ↦ []
]

module _ {R : Type 0} where
  tell : Notice → Manager R → Manager R
  tell notice m = record m { event_handler = told (notice ∷ []) m.event_handler }

  add : HotspotEvent → Manager R → Manager R
  add event m = record m {
    recent_events = m.recent_events ++ event ∷ [];
    event_handler = told (notices_of event) m.event_handler;
  }

  -- add_event locks the mutex itself.
  unfoldable pub add_event : HotspotEvent → Method (Manager R) (Unit {0})
  unfolding add told notices_of
  add_event event = with_unique (modify (add event))

  unfoldable pub notify_hotspot_detected : ℕ → HotspotKeyInfo → Method (Manager R) (Unit {0})
  unfolding tell told
  notify_hotspot_detected now info =
      let event : HotspotEvent = record {
        type = hotspot_detected;
        key = info.key;
        level = info.level;
        strategy = replication;
        timestamp = now;
      } in
      modify (tell (on_hotspot_detected info)) >> add_event event

  unfoldable pub notify_hotspot_resolved : ℕ → MultiLevelKey → Method (Manager R) (Unit {0})
  notify_hotspot_resolved now key = add_event (record {
    type = hotspot_resolved;
    key = key;
    level = normal;
    strategy = replication;
    timestamp = now;
  })

  unfoldable pub notify_strategy_applied :
      ℕ → MultiLevelKey → HotspotStrategy → Method (Manager R) (Unit {0})
  notify_strategy_applied now key strategy = add_event (record {
    type = strategy_applied;
    key = key;
    level = normal;
    strategy = strategy;
    timestamp = now;
  })

  -- A failure is recorded as a removed strategy.
  unfoldable pub notify_strategy_failed :
      ℕ → MultiLevelKey → HotspotStrategy → Method (Manager R) (Unit {0})
  unfolding tell told
  notify_strategy_failed now key strategy =
      let event : HotspotEvent = record {
        type = strategy_removed;
        key = key;
        level = normal;
        strategy = strategy;
        timestamp = now;
      } in
      modify (tell (on_strategy_failed key strategy)) >> add_event event
