-- ===== src/Transaction/WaitGraph/Fuel.antt =====
-- src/transaction/transaction_manager.cpp, find_cycle_in_wait_graph: the search ends, since it enters
-- no transaction twice.
use qc_database.Prelude.{
  ℕ, zero, suc, ◌≤◌, ◌<◌, ◌≡◌, refl, ap, inl, inr, Bool, true, false, some, List, [], ◌∷◌, arith,
  length, nat_eq, if◌then◌else◌, Bool-cases, beq_refl,
}
use qc_database.Std.HashMap.{find}
use qc_database.Std.HashSet.{HashSet, contains, erase, contains-insert, contains-append}
use qc_database.Transaction.WaitGraph.{
  TransactionId, WaitGraph, Search, edges, Answer, dfs, dfs_each, or_else, leave, enter, drop_last,
  targets, start_search,
}

-- How many of the listed transactions have not been visited.
fresh : HashSet TransactionId → List TransactionId → ℕ
fresh visited [] = 0
fresh visited (n ∷ ns) = if contains n visited then fresh visited ns else suc (fresh visited ns)

Grows : Search → Search → Type 0
Grows s s' = (m : TransactionId) → contains m s.visited ≡ true → contains m s'.visited ≡ true

fresh_mono :
    (s s' : Search) (ns : List TransactionId)
    → Grows s s'
    → fresh s'.visited ns ≤ fresh s.visited ns
unfolding fresh Grows
fresh_mono s s' [] g = omega arith
fresh_mono s s' (n ∷ ns) g = ground (arith, fresh_mono s s' ns g, g n)

enter-Grows : (node : TransactionId) (s : Search) → Grows s (enter node s)
unfolding Grows
enter-Grows node s m e = ground (arith, contains-insert m node s.visited)

fresh-enter :
    (node : TransactionId) (s : Search) (ns : List TransactionId)
    → contains node ns ≡ true
    → contains node s.visited ≡ false
    → fresh (enter node s).visited ns < fresh s.visited ns
unfolding fresh contains
fresh-enter node s [] e new = cc
fresh-enter node s (n ∷ ns) e new = ground (
  arith,
  fresh-enter node s ns,
  fresh_mono s (enter node s) ns (enter-Grows node s),
  contains-insert n node s.visited,
)

edges-targets :
    (graph : WaitGraph) (node m : TransactionId)
    → contains m (edges graph node) ≡ true
    → contains m (targets graph) ≡ true
unfolding edges targets contains find
edges-targets [] node m e = cc
edges-targets ((n, out) ∷ graph) node m e =
    ground (arith, edges-targets graph node m, contains-append m out (targets graph))

-- A search has an answer, in a state that has lost no visited transaction.
Answers : Search → Answer → Type 0
Answers s answer = (b : Bool) × (s' : Search) × (answer ≡ some (b, s')) × Grows s s'

next :
    (b : Bool) (s s' : Search) (rest : Search → Answer) (answer : Answer)
    → answer ≡ some (b, s')
    → Grows s s'
    → Answers s' (rest s')
    → Answers s (or_else answer rest)
unfolding Answers Grows
next true s s' rest answer e g a = (true, s', rw e refl, g)
next false s s' rest answer e g (b, t, f, h) = (b, t, rw e f, λ m i. h m (g m i))

left :
    (b : Bool) (node : TransactionId) (s s' : Search) (answer : Answer)
    → answer ≡ some (b, s')
    → Grows s s'
    → Answers s (leave node answer)
unfolding Answers Grows
left true node s s' answer e g = (true, s', rw e refl, g)
left false node s s' answer e g = (
  false,
  record s' { rec_stack = erase node s'.rec_stack; path = drop_last s'.path },
  rw e refl,
  g,
)

module _ (graph : WaitGraph) (all : List TransactionId)
    (closed : (node m : TransactionId)
      → contains m (edges graph node) ≡ true
      → contains m all ≡ true) where
  Searches : ℕ → Type 0
  Searches fuel =
      (node : TransactionId) (s : Search)
      → contains node all ≡ true
      → contains node s.visited ≡ false
      → fresh s.visited all ≤ fuel
      → Answers s (dfs fuel graph node s)

  dfs_each-Answers :
      (fuel : ℕ) (ns : List TransactionId) (s : Search)
      → Searches fuel
      → ((m : TransactionId) → contains m ns ≡ true → contains m all ≡ true)
      → fresh s.visited all ≤ fuel
      → Answers s (dfs_each (dfs fuel graph) ns s)
  unfolding dfs_each Answers Searches Grows contains
  dfs_each-Answers fuel [] s ih sub le = (false, s, refl, λ m e. e)
  dfs_each-Answers fuel (n ∷ ns) s ih sub le =
      let rest : (m : TransactionId) → contains m ns ≡ true → contains m all ≡ true =
        λ m e. sub m (ground (arith, e)) in
      elim (Bool-cases (contains n s.rec_stack)) [
        | inl on ↦ (true, s, rw (dfs_each, on) refl, λ m e. e)
        | inr off ↦ elim (Bool-cases (contains n s.visited)) [
          | inl seen ↦
              let (b, s', e, g) = dfs_each-Answers fuel ns s ih rest le in
              (b, s', rw (dfs_each, off, seen) e, g)
          | inr new ↦
              let (b, s', e, g) = ih n s (sub n (ground (arith, beq_refl n))) new le in
              let onward =
                dfs_each-Answers fuel ns s' ih rest (omega (arith, fresh_mono s s' all g, le)) in
              rw (dfs_each, off, new)
                (next b s s' (dfs_each (dfs fuel graph) ns) (dfs fuel graph n s) e g onward)
        ]
      ]

  dfs-Answers : (fuel : ℕ) → Searches fuel
  unfolding Searches Answers Grows dfs
  dfs-Answers zero node s here new le = ground (arith, fresh-enter node s all here new, le)
  dfs-Answers (suc fuel) node s here new le =
      let (b, s', e, g) =
        dfs_each-Answers fuel (edges graph node) (enter node s) (dfs-Answers fuel) (closed node)
          (omega (arith, fresh-enter node s all here new, le)) in
      left b node s s' (dfs_each (dfs fuel graph) (edges graph node) (enter node s)) e
        (λ m i. g m (enter-Grows node s m i))

fresh-length : (ns : List TransactionId) → fresh [] ns ≡ length ns
unfolding fresh contains
fresh-length [] = refl
fresh-length (n ∷ ns) = ap suc (fresh-length ns)

-- The search for a cycle always has an answer: fuel for the start and for every target of an edge is
-- enough, from any start and in any graph.
pub dfs-answers :
    (graph : WaitGraph) (start : TransactionId)
    → (b : Bool) × (s : Search) × (dfs (suc (suc (length (targets graph)))) graph start start_search
        ≡ some (b, s))
unfolding Answers Searches contains fresh
dfs-answers graph start =
    let all = start ∷ targets graph in
    let closed : (node m : TransactionId)
        → contains m (edges graph node) ≡ true
        → contains m all ≡ true =
      λ node m e. ground (arith, edges-targets graph node m e) in
    let (b, s, e, _) =
      dfs-Answers graph all closed (suc (suc (length (targets graph)))) start start_search
        (ground (arith, beq_refl start)) refl (omega (arith, fresh-length (targets graph))) in
    (b, s, e)
