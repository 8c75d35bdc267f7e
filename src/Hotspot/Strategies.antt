-- ===== src/Hotspot/Strategies.antt =====
-- src/hotspot/hotspot_manager.cpp: what becomes of the strategies for a hotspot.
use qc_database.Prelude.{ℕ, ◌≡◌, refl, List, [], ◌∷◌, ◌++◌}
use qc_database.Std.Method.{returns, at_rest}
use qc_database.Types.{MultiLevelKey, ok}
use qc_database.Hotspot.{
  HotspotStrategy, normal, critical, HotspotKeyInfo, strategy_applied, Manager,
}
use qc_database.Hotspot.Events.{notify_strategy_applied, add_event}
use qc_database.Hotspot.Calls.{handle_hotspot, apply_strategy, select_strategies}

-- Of the strategies that handle_hotspot is given, one is applied: on a manager that nobody has
-- locked it returns OK after one event for the first of them, however many follow, and leaves the
-- current hotspots alone. The three strategies that select_strategies picks for a critical hotspot
-- come to the same as no strategies at all.
pub handle_hotspot_lem :
    {R : Type 0} (now : ℕ) (key : MultiLevelKey) (strategy : HotspotStrategy)
    (strategies : List HotspotStrategy) (info : HotspotKeyInfo) (m : Manager R)
    → info.level ≡ critical
    → ((m' : Manager R) × (handle_hotspot now key (strategy ∷ strategies) (at_rest m)
          ≡ returns (ok tt, at_rest m'))
        × (m'.recent_events
            ≡ m.recent_events
              ++ record {
                type = strategy_applied;
                key = key;
                level = normal;
                strategy = strategy;
                timestamp = now;
              }
                ∷ [])
        × (m'.current_hotspots ≡ m.current_hotspots))
      × (handle_hotspot now key (select_strategies info) (at_rest m)
          ≡ handle_hotspot now key [] (at_rest m))
unfolding handle_hotspot notify_strategy_applied add_event apply_strategy select_strategies
handle_hotspot_lem now key strategy strategies info m e = ((_, refl, refl, refl), rw e refl)
