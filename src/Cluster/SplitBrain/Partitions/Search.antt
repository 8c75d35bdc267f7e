-- ===== src/Cluster/SplitBrain/Partitions/Search.antt =====
-- src/cluster/split_brain_detector.cpp, find_connected_components: the search ends.
use qc_database.Prelude.{
  ℕ, zero, suc, ◌+◌, ◌≤◌, ◌≡◌, refl, sym, ap, ◌∙◌, Bool, true, false, not, ◌&&◌, some, List, [],
  ◌∷◌, ◌++◌, arith, if◌then◌else◌, inl, inr, ◌⊎◌, Bool-cases, length, length-append, list_eq,
  nat_eq, list_beq, list_beq_iff,
}
use qc_database.Std.HashMap.{HashMap}
use qc_database.Std.HashSet.{HashSet, contains, insert as insert_member, contains-insert}
use qc_database.Cluster.SplitBrain.{NodeId, NodeStatus, Detector}
use qc_database.Cluster.SplitBrain.Partitions.{
  Clock, expand, search, components_from, find_connected_components, are_nodes_connected, and_next,
  visit,
}

-- How many nodes of a list are not visited.
abbrev unvisited : HashMap NodeId NodeStatus → HashSet NodeId → ℕ
unvisited [] v = 0
unvisited ((k, s) ∷ m) v = let rest = unvisited m v in if contains k v then rest else suc rest

unvisited_le : (m : HashMap NodeId NodeStatus) (v : HashSet NodeId) → unvisited m v ≤ length m
unvisited_le [] v = omega arith
unvisited_le ((k, s) ∷ m) v = ground (arith, unvisited_le m v)

unvisited_mono :
    (m : HashMap NodeId NodeStatus) (v : HashSet NodeId) (a : NodeId)
    → unvisited m (insert_member a v) ≤ unvisited m v
unvisited_mono [] v a = omega arith
unvisited_mono ((k, s) ∷ m) v a = ground (arith, contains-insert k a v, unvisited_mono m v a)

-- A key of the list.
abbrev IsKey : NodeId → HashMap NodeId NodeStatus → Type 0
IsKey a [] = ⊥
IsKey a ((k, s) ∷ m) = (list_beq k a ≡ true) ⊎ IsKey a m

unvisited-insert :
    (m : HashMap NodeId NodeStatus) (v : HashSet NodeId) (a : NodeId)
    → IsKey a m
    → contains a v ≡ false
    → suc (unvisited m (insert_member a v)) ≤ unvisited m v
unvisited-insert [] v a i h = absurd i
unvisited-insert ((k, s) ∷ m) v a (inl here) h =
    let e : k ≡ a = (list_beq_iff k a).0 here in
    let not_yet : contains k v ≡ false = ap (λ x. contains x v) e ∙ h in
    let same = (list_beq_iff a k).1 (sym e) in
    ground (arith, contains-insert k a v, not_yet, same, unvisited_mono m v a)
unvisited-insert ((k, s) ∷ m) v a (inr there) h =
    ground (arith, contains-insert k a v, unvisited-insert m v a there h)

-- All keys of one list are keys of another.
abbrev AllKeys : HashMap NodeId NodeStatus → HashMap NodeId NodeStatus → Type 0
AllKeys [] all = Unit
AllKeys ((k, s) ∷ m) all = IsKey k all × AllKeys m all

AllKeys-weaken :
    (k : NodeId) (s : NodeStatus) (m all : HashMap NodeId NodeStatus)
    → AllKeys m all
    → AllKeys m ((k, s) ∷ all)
AllKeys-weaken k s [] all h = tt
AllKeys-weaken k s ((j, t) ∷ m) all h = (inr h.0, AllKeys-weaken k s m all h.1)

AllKeys-self : (m : HashMap NodeId NodeStatus) → AllKeys m m
AllKeys-self [] = tt
AllKeys-self ((k, s) ∷ m) =
    (inl ((list_beq_iff k k).1 refl), AllKeys-weaken k s m m (AllKeys-self m))

abbrev work : HashMap NodeId NodeStatus → List NodeId × HashSet NodeId → ℕ
work all (queue, v) = length queue + unvisited all v

visit-work :
    (all : HashMap NodeId NodeStatus) (b : Bool) (node : NodeId) (p : List NodeId × HashSet NodeId)
    → (b ≡ true → contains node p.1 ≡ false)
    → IsKey node all
    → work all (visit b node p) ≤ work all p
visit-work all true node (queue, v) h k =
    let fewer = unvisited-insert all v node k (h refl) in
    let longer = length-append queue (node ∷ []) in omega arith
visit-work all false node (queue, v) h k = omega arith

expand-work :
    (clock : Clock) (d : Detector) (current : NodeId) (m : HashMap NodeId NodeStatus)
    (p : List NodeId × HashSet NodeId)
    → AllKeys m d.nodes
    → work d.nodes (expand clock d current m p) ≤ work d.nodes p
unfolding expand
expand-work clock d current [] p k = omega arith
expand-work clock d current ((other, s) ∷ m) p k =
    let joins : Bool =
      not (contains other p.1)
      && s.is_alive
      && are_nodes_connected (clock current other) d current other in
    let new : joins ≡ true → contains other p.1 ≡ false = λ h. ground arith in
    let here = visit-work d.nodes joins other p new k.0 in
    let rest = expand-work clock d current m (visit joins other p) k.1 in omega arith

-- With fuel for the queue and all that is not visited, a search ends.
search-answers :
    (fuel : ℕ) (clock : Clock) (d : Detector) (component queue : List NodeId) (v : HashSet NodeId)
    → work d.nodes (queue, v) ≤ fuel
    → (r : List NodeId × HashSet NodeId) × (search fuel clock d component (queue, v) ≡ some r)
unfolding search
search-answers fuel clock d component [] v h = ((component, v), refl)
search-answers zero clock d component (current ∷ queue) v h = absurd (omega arith)
search-answers (suc fuel) clock d component (current ∷ queue) v h =
    let next = expand clock d current d.nodes (queue, v) in
    let less = expand-work clock d current d.nodes (queue, v) (AllKeys-self d.nodes) in
    search-answers fuel clock d (component ++ current ∷ []) next.0 next.1 (omega arith)

components_from-answers :
    (clock : Clock) (d : Detector) (m : HashMap NodeId NodeStatus) (v : HashSet NodeId)
    → AllKeys m d.nodes
    → (cs : List (List NodeId)) × (components_from clock d m v ≡ some cs)
unfolding components_from and_next
components_from-answers clock d [] v k = ([], refl)
components_from-answers clock d ((node, s) ∷ m) v k =
    elim (Bool-cases (not (contains node v) && s.is_alive)) [
      | inr skipped ↦ let (cs, e) = components_from-answers clock d m v k.1 in (cs, rw skipped e)
      | inl starts ↦
          let new : contains node v ≡ false = ground arith in
          let fewer = unvisited-insert d.nodes v node k.0 new in
          let enough = unvisited_le d.nodes v in
          let (found, e) =
            search-answers (length d.nodes) clock d [] (node ∷ []) (insert_member node v)
              (omega arith) in
          let (cs, e') = components_from-answers clock d m found.1 k.1 in
          (found.0 ∷ cs, rw (starts, e, e') refl)
    ]

-- The search for connected components ends with an answer, in every state of the detector and
-- whatever the clock says.
pub find_connected_components-answers :
    (clock : Clock) (d : Detector)
    → (cs : List (List NodeId)) × (find_connected_components clock d ≡ some cs)
unfolding find_connected_components
find_connected_components-answers clock d =
    components_from-answers clock d d.nodes [] (AllKeys-self d.nodes)
