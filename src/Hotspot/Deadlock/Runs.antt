-- ===== src/Hotspot/Deadlock/Runs.antt =====
-- src/hotspot/hotspot_manager.cpp: sequences of calls and rounds, from a manager without hotspots.
use qc_database.Prelude.{
  ℕ, ◌≡◌, refl, ap, ◌∙◌, Bool-cases, ◌⊎◌, inl, inr, none, List, [], ◌∷◌, ◌++◌,
}
use qc_database.Std.HashMap.{find}
use qc_database.Std.Method.{
  Outcome, returns, undefined, Guarded, Method, ◌>>=◌, ◌>>◌, pure, at_rest, >>=-returns,
  >>=-undefined,
}
use qc_database.Types.{MultiLevelKey, key_eq}
use qc_database.Hotspot.{
  NodeId, OperationType, HotspotStrategy, HotspotDetectionConfig, HotspotHandlingConfig,
  HotspotKeyInfo, AccessRecorder, Manager,
}
use qc_database.Hotspot.Events.{notify_strategy_applied, add_event}
use qc_database.Hotspot.Calls.{
  start, stop, record_access, found_hotspots, handle_hotspot, resolve_hotspot, apply_strategy,
}
use qc_database.Hotspot.Rounds.{
  detection_round, handle_all, handling_round, drop_cooled, trim_events, cleanup_round,
}
use qc_database.Hotspot.Deadlock.{detection_round_lem, resolve_hotspot-find}

-- A call from outside that changes the state, or a round of a thread.
pub data Step : Type 0 where
  starts : HotspotDetectionConfig → HotspotHandlingConfig → Step
  stops : Step
  records : MultiLevelKey → OperationType → NodeId → Step
  handles : ℕ → MultiLevelKey → List HotspotStrategy → Step
  resolves : ℕ → MultiLevelKey → Step
  detects : (MultiLevelKey → ℕ) → Step
  handles_all : (MultiLevelKey → ℕ) → Step
  cleans : ℕ → (MultiLevelKey → ℕ) → Step

module _ {R : Type 0} where
  abbrev ignoring : {A : Type 0} → Method (Manager R) A → Method (Manager R) (Unit {0})
  ignoring m = m >>= λ _. pure tt

  unfoldable pub take_step : AccessRecorder R → Step → Method (Manager R) (Unit {0})
  take_step api (starts detection handling) = start detection handling
  take_step api stops = stop
  take_step api (records key op_type node_id) = record_access api key op_type node_id
  take_step api (handles now key strategies) = ignoring (handle_hotspot now key strategies)
  take_step api (resolves now key) = resolve_hotspot now key
  take_step api (detects later) = detection_round api later
  take_step api (handles_all later) = handling_round later
  take_step api (cleans now later) = cleanup_round now later

  unfoldable pub run : AccessRecorder R → List Step → Method (Manager R) (Unit {0})
  run api [] = pure tt
  run api (s ∷ steps) = take_step api s >> run api steps

  -- A method that returns with the mutex free and without a current hotspot.
  abbrev pub FindsNone : Outcome (Unit {0} × Guarded (Manager R)) → Type 0
  FindsNone o = (m : Manager R) × (o ≡ returns (tt, at_rest m)) × (m.current_hotspots ≡ [])

  -- The step is a round of the detection thread, which finds a hotspot.
  abbrev Finds : AccessRecorder R → Step → Manager R → Type 0
  Finds api s m =
      (later : MultiLevelKey → ℕ) × (info : HotspotKeyInfo) × (rest : List HotspotKeyInfo) × (s
        ≡ detects later)
      × (found_hotspots api m ≡ info ∷ rest)

  -- The steps return up to a round of the detection thread, which finds a hotspot.
  abbrev pub FindsOne : AccessRecorder R → List Step → Manager R → Type 0
  FindsOne api steps m =
      (before : List Step) × (after : List Step) × (s : Step) × (m' : Manager R) × (steps
        ≡ before ++ s ∷ after)
      × (run api before (at_rest m) ≡ returns (tt, at_rest m'))
      × Finds api s m'

  detection_round-found :
      (api : AccessRecorder R) (later : MultiLevelKey → ℕ) (found : List HotspotKeyInfo)
      (m : Manager R)
      → found_hotspots api m ≡ found
      → m.current_hotspots ≡ []
      → Finds api (detects later) m ⊎ FindsNone (detection_round api later (at_rest m))
  detection_round-found api later [] m f e = inr (m, detection_round_lem api later m ∙ rw f refl, e)
  detection_round-found api later (info ∷ rest) m f e = inl (later, info, rest, refl, f)

  start-FindsNone :
      (detection : HotspotDetectionConfig) (handling : HotspotHandlingConfig) (m : Manager R)
      → m.current_hotspots ≡ []
      → FindsNone (start detection handling (at_rest m))
  unfolding start
  start-FindsNone detection handling m e = elim (Bool-cases m.is_running) [
    | inl on ↦ (_, refl, rw on e)
    | inr off ↦ (_, refl, rw off e)
  ]

  stop-FindsNone : (m : Manager R) → m.current_hotspots ≡ [] → FindsNone (stop (at_rest m))
  unfolding stop
  stop-FindsNone m e = elim (Bool-cases m.is_running) [
    | inl on ↦ (_, refl, rw on e)
    | inr off ↦ (_, refl, rw off e)
  ]

  record_access-FindsNone :
      (api : AccessRecorder R) (key : MultiLevelKey) (op_type : OperationType) (node_id : NodeId)
      (m : Manager R)
      → m.current_hotspots ≡ []
      → FindsNone (record_access api key op_type node_id (at_rest m))
  unfolding record_access
  record_access-FindsNone api key op_type node_id m e = elim (Bool-cases m.is_running) [
    | inl on ↦ (_, refl, rw on e)
    | inr off ↦ (_, refl, rw off e)
  ]

  handle_hotspot-FindsNone :
      (now : ℕ) (key : MultiLevelKey) (strategies : List HotspotStrategy) (m : Manager R)
      → m.current_hotspots ≡ []
      → FindsNone (ignoring (handle_hotspot now key strategies) (at_rest m))
  unfolding handle_hotspot notify_strategy_applied add_event apply_strategy
  handle_hotspot-FindsNone now key [] m e = (_, refl, e)
  handle_hotspot-FindsNone now key (strategy ∷ strategies) m e = (_, refl, e)

  handling_round-FindsNone :
      (later : MultiLevelKey → ℕ) (m : Manager R)
      → m.current_hotspots ≡ []
      → FindsNone (handling_round later (at_rest m))
  unfolding handling_round handle_all
  handling_round-FindsNone later m e = rw e (_, refl, refl)

  cleanup_round-FindsNone :
      (now : ℕ) (later : MultiLevelKey → ℕ) (m : Manager R)
      → m.current_hotspots ≡ []
      → FindsNone (cleanup_round now later (at_rest m))
  unfolding cleanup_round drop_cooled trim_events
  cleanup_round-FindsNone now later m e = rw e (_, refl, refl)

  take_step-FindsNone :
      (api : AccessRecorder R) (s : Step) (m : Manager R)
      → m.current_hotspots ≡ []
      → Finds api s m ⊎ FindsNone (take_step api s (at_rest m))
  unfolding take_step
  take_step-FindsNone api (starts detection handling) m e =
      inr (start-FindsNone detection handling m e)
  take_step-FindsNone api stops m e = inr (stop-FindsNone m e)
  take_step-FindsNone api (records key op_type node_id) m e =
      inr (record_access-FindsNone api key op_type node_id m e)
  take_step-FindsNone api (handles now key strategies) m e =
      inr (handle_hotspot-FindsNone now key strategies m e)
  take_step-FindsNone api (resolves now key) m e =
      inr (m, resolve_hotspot-find now key m none (ap (find key) e ∙ unfold find in refl), e)
  take_step-FindsNone api (detects later) m e =
      detection_round-found api later (found_hotspots api m) m refl e
  take_step-FindsNone api (handles_all later) m e = inr (handling_round-FindsNone later m e)
  take_step-FindsNone api (cleans now later) m e = inr (cleanup_round-FindsNone now later m e)

  take_step-undefined :
      (api : AccessRecorder R) (s : Step) (m : Manager R)
      → Finds api s m
      → take_step api s (at_rest m) ≡ undefined
  unfolding take_step
  take_step-undefined api s m (later, info, rest, here, f) =
      ap (λ t. take_step api t (at_rest m)) here ∙ detection_round_lem api later m ∙ rw f refl

  -- No run that is defined ever makes a hotspot current. Take any sequence of calls that change the
  -- state and of rounds of the three threads, which one thread runs on a manager that nobody has
  -- locked and that has no hotspots, such as a new one. Either it returns, and again nobody has
  -- locked the manager and it has no hotspots; or it is undefined, and then it returns up to a round
  -- of the detection thread that finds a hotspot. Of the state of an undefined run nothing is said.
  pub run-FindsNone :
      (api : AccessRecorder R) (steps : List Step) (m : Manager R)
      → m.current_hotspots ≡ []
      → FindsNone (run api steps (at_rest m))
        ⊎ ((run api steps (at_rest m) ≡ undefined) × FindsOne api steps m)
  unfolding run
  run-FindsNone api [] m e = inl (m, refl, e)
  run-FindsNone api (s ∷ steps) m e = elim (take_step-FindsNone api s m e) [
    | inl found ↦ inr (
      >>=-undefined (take_step api s) (λ _. run api steps) (at_rest m)
          (take_step-undefined api s m found),
      ([], steps, s, m, refl, refl, found),
    )
    | inr (m', r, e') ↦
        let go =
          λ (rest : List Step). >>=-returns (take_step api s) (λ _. run api rest) (at_rest m) r in
        elim (run-FindsNone api steps m' e') [
          | inl (m'', r', e'') ↦ inl (m'', go steps ∙ r', e'')
          | inr (u, (before, after, t, m'', split, r', found)) ↦ inr (
            go steps ∙ u,
            (s ∷ before, after, t, m'', ap (λ l. s ∷ l) split, go before ∙ r', found),
          )
        ]
  ]
