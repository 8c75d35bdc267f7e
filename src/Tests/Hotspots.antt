-- ===== src/Tests/Hotspots.antt =====
-- src/hotspot/hotspot_manager.cpp at small inputs.
use qc_database.Prelude.{ℕ, ◌+◌, ◌≡◌, ◌⊎◌, refl, List, [], ◌∷◌, ◌++◌}
use qc_database.Std.Method.{returns, undefined, at_rest}
use qc_database.Types.{MultiLevelKey, ok}
use qc_database.Hotspot.{
  get_operation, normal, critical, mixed, HotspotKeyInfo, caching, partitioning, strategy_applied,
  AccessRecorder, Manager, default_detection, default_handling,
}
use qc_database.Hotspot.Calls.{new_manager, handle_hotspot, select_strategies, found_hotspots}
use qc_database.Hotspot.Rounds.{detection_round}
use qc_database.Hotspot.Strategies.{handle_hotspot_lem}
use qc_database.Hotspot.Deadlock.{detection_round_lem, busy_key_undefined}
use qc_database.Hotspot.Deadlock.Runs.{
  Step, starts, records, detects, handles, run, FindsNone, FindsOne, run-FindsNone,
}

abbrev asked_for : MultiLevelKey
asked_for = record { primary_key = b'k' ∷ []; secondary_key = [] }

-- A recorder that counts every access as one of the same key.
abbrev counter : AccessRecorder ℕ
counter = record {
  record_access = λ key op_type node_id count. count + 1;
  get_key_stats = λ key count. record {
    key = key;
    level = normal;
    pattern = mixed;
    total_access_count = count;
    read_count = count;
    write_count = 0;
    first_detected = 0;
    last_access = 0;
    detection_window = 60000;
    node_access_counts = [];
    applied_strategies = [];
  };
  get_top_keys = λ limit count. asked_for ∷ [];
}

abbrev later : MultiLevelKey → ℕ
later key = 7

detection_round_lem_example :
    detection_round counter later (at_rest (new_manager 20))
    ≡ elim (found_hotspots counter (new_manager 20)) [
      | [] ↦ returns (tt, at_rest (new_manager 20))
      | info ∷ rest ↦ undefined
    ]
detection_round_lem_example = detection_round_lem counter later (new_manager 20)

busy_key_undefined_example : detection_round counter later (at_rest (new_manager 5000)) ≡ undefined
busy_key_undefined_example =
    busy_key_undefined counter later (new_manager 5000) asked_for [] [] refl refl

abbrev steps : List Step
steps =
    starts default_detection default_handling
    ∷ records asked_for get_operation []
    ∷ detects later
    ∷ handles 3 asked_for []
    ∷ []

run-FindsNone_example :
    FindsNone (run counter steps (at_rest (new_manager 0)))
    ⊎ ((run counter steps (at_rest (new_manager 0)) ≡ undefined)
        × FindsOne counter steps (new_manager 0))
run-FindsNone_example = run-FindsNone counter steps (new_manager 0) refl

abbrev boiling : HotspotKeyInfo
boiling = record (counter.get_key_stats asked_for 20000) { level = critical }

handle_hotspot_lem_example :
    ((m' : Manager ℕ) × (handle_hotspot 3 asked_for
          (caching ∷ partitioning ∷ [])
          (at_rest (new_manager 0))
        ≡ returns (ok tt, at_rest m'))
      × (m'.recent_events
          ≡ []
            ++ record {
              type = strategy_applied;
              key = asked_for;
              level = normal;
              strategy = caching;
              timestamp = 3;
            }
              ∷ [])
      × (m'.current_hotspots ≡ []))
    × (handle_hotspot {R = ℕ} 3 asked_for (select_strategies boiling) (at_rest (new_manager 0))
        ≡ handle_hotspot {R = ℕ} 3 asked_for [] (at_rest (new_manager 0)))
handle_hotspot_lem_example =
    handle_hotspot_lem 3 asked_for caching (partitioning ∷ []) boiling (new_manager 0) refl
