-- ===== src/Cluster/SplitBrain/Isolation.antt =====
-- src/cluster/split_brain_detector.cpp: what becomes of a node that was isolated.
use mathlib.Core.Path.{subst}
use qc_database.Prelude.{
  ℕ, ◌≡◌, refl, ap, sym, ◌∙◌, Bool, true, false, Option, none, some, List, [], ◌∷◌, arith, inl, inr,
  Bool-cases, list_eq, nat_eq, list_beq, list_beq_iff,
}
use qc_database.Std.HashMap.{HashMap, find, find-insert, Distinct, insert-Distinct}
use qc_database.Std.HashSet.{contains, contains-insert}
use qc_database.Cluster.SplitBrain.{
  NodeId, NodeStatus, Detector, update_found, update_node_status, process_heartbeat,
  is_node_isolated, isolate_node, isolate_found,
}
use qc_database.Cluster.SplitBrain.Quorum.{
  is_active, nodes_where, alive_nodes, calculate_quorum, majority_quorum, static_quorum,
  dynamic_quorum, witness_based_quorum,
}

-- What nodes tell about themselves and others.
pub data Report : Type 0 where
  heartbeat : (from_node to_node : NodeId) → ℕ → Report
  seen : NodeId → Bool → ℕ → Report

unfoldable pub take_report : Report → Detector → Detector
take_report (heartbeat from_node to_node timestamp) = process_heartbeat from_node to_node timestamp
take_report (seen node is_alive last_seen) = update_node_status node is_alive last_seen

unfoldable pub take_reports : List Report → Detector → Detector
take_reports [] d = d
take_reports (r ∷ rs) d = take_reports rs (take_report r d)

-- A known node that is marked as isolated, and listed; no node is known twice.
abbrev pub Isolated : NodeId → Detector → Type 0
Isolated node d =
    (is_node_isolated node d ≡ true)
    × (s : NodeStatus) × (find node d.nodes ≡ some s)
    × (s.is_isolated ≡ true)
    × Distinct d.nodes

KeepsIsolation : (NodeStatus → NodeStatus) → Type 0
KeepsIsolation f = (s : NodeStatus) → (f s).is_isolated ≡ s.is_isolated

abbrev marked_in : Option NodeStatus → Bool
marked_in none = false
marked_in (some s) = s.is_isolated

update_found-Isolated :
    (node other : NodeId) (f : NodeStatus → NodeStatus) (d : Detector) (found : Option NodeStatus)
    → KeepsIsolation f
    → find other d.nodes ≡ found
    → Isolated node d
    → Isolated node (update_found other f d found)
unfolding KeepsIsolation is_node_isolated
update_found-Isolated node other f d none k e h = h
update_found-Isolated node other f d (some t) k e (listed, s, known, marked, once) =
    elim (Bool-cases (list_beq other node)) [
      | inl here ↦
          let same : some t ≡ some s =
            sym e ∙ ap (λ n. find n d.nodes) ((list_beq_iff other node).0 here) ∙ known in
          (
            listed,
            f t,
            find-insert node other (f t) d.nodes ∙ rw here refl,
            k t ∙ ap marked_in same ∙ marked,
            insert-Distinct other (f t) d.nodes once,
          )
      | inr elsewhere ↦ (
        listed,
        s,
        find-insert node other (f t) d.nodes ∙ rw elsewhere known,
        marked,
        insert-Distinct other (f t) d.nodes once,
      )
    ]

take_report-Isolated :
    (node : NodeId) (r : Report) (d : Detector) → Isolated node d → Isolated node (take_report r d)
unfolding take_report process_heartbeat update_node_status
take_report-Isolated node (heartbeat from_node to_node timestamp) d h =
    update_found-Isolated node from_node _ d _ (unfold KeepsIsolation in λ s. refl) refl h
take_report-Isolated node (seen other is_alive last_seen) d h =
    update_found-Isolated node other _ d _ (unfold KeepsIsolation in λ s. refl) refl h

take_reports-Isolated :
    (node : NodeId) (rs : List Report) (d : Detector)
    → Isolated node d
    → Isolated node (take_reports rs d)
unfolding take_reports
take_reports-Isolated node [] d h = h
take_reports-Isolated node (r ∷ rs) d h =
    take_reports-Isolated node rs (take_report r d) (take_report-Isolated node r d h)

isolate_node-Isolated :
    (node : NodeId) (d : Detector) (s : NodeStatus)
    → Distinct d.nodes
    → find node d.nodes ≡ some s
    → Isolated node (isolate_node node d).0
unfolding isolate_node isolate_found is_node_isolated
isolate_node-Isolated node d s once e =
    let itself = (list_beq_iff node node).1 refl in
    let marked : NodeStatus = record s { is_isolated = true } in
    subst (λ o. Isolated node (isolate_found node o d).0) (sym e)
      (
        contains-insert node node d.isolated_nodes ∙ rw itself refl,
        marked,
        find-insert node node marked d.nodes ∙ rw itself refl,
        refl,
        insert-Distinct node marked d.nodes once,
      )

contains-nodes_where_missing :
    (node : NodeId) (active : Bool) (m : HashMap NodeId NodeStatus)
    → find node m ≡ none
    → contains node (nodes_where active m) ≡ false
unfolding find nodes_where contains
contains-nodes_where_missing node active [] missing = refl
contains-nodes_where_missing node active ((i, t) ∷ m) missing =
    ground (arith, contains-nodes_where_missing node active m)

contains-nodes_where :
    (node : NodeId) (s : NodeStatus) (m : HashMap NodeId NodeStatus)
    → Distinct m
    → find node m ≡ some s
    → is_active s ≡ false
    → (contains node (nodes_where true m) ≡ false) × (contains node (nodes_where false m) ≡ true)
unfolding find nodes_where contains
contains-nodes_where node s [] once known idle = cc
contains-nodes_where node s ((i, t) ∷ m) once known idle = ground (
  arith,
  list_beq_iff i node,
  contains-nodes_where_missing node true m,
  contains-nodes_where node s m once.1,
  once.0,
)

active_nodes-calculate_quorum : (d : Detector) → (calculate_quorum d).active_nodes ≡ alive_nodes d
unfolding calculate_quorum majority_quorum static_quorum dynamic_quorum witness_based_quorum
active_nodes-calculate_quorum d = ground arith

-- A node that was isolated does not come back by itself: after isolate_node has isolated a node of a
-- detector that knows each of its nodes once, whatever heartbeats and status updates follow, from
-- any nodes, it stays isolated; the quorum decision, by any strategy, does not count it among the
-- active nodes, and the majority decision lists it among those to isolate.
pub isolated_stays :
    (node : NodeId) (d : Detector) (s : NodeStatus) (rs : List Report)
    → Distinct d.nodes
    → find node d.nodes ≡ some s
    → let later = take_reports rs (isolate_node node d).0 in
      (is_node_isolated node later ≡ true)
      × (contains node (calculate_quorum later).active_nodes ≡ false)
      × (contains node (majority_quorum later).isolated_nodes ≡ true)
unfolding majority_quorum
isolated_stays node d s rs once e =
    let later = take_reports rs (isolate_node node d).0 in
    let (listed, t, known, marked, each) =
      take_reports-Isolated node rs (isolate_node node d).0
        (isolate_node-Isolated node d s once e) in
    let (out, in_list) = contains-nodes_where node t later.nodes each known (ground arith) in
    (listed, ap (λ l. contains node l) (active_nodes-calculate_quorum later) ∙ out, in_list)
