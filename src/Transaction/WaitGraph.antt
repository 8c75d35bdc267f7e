-- ===== src/Transaction/WaitGraph.antt =====
-- src/transaction/transaction_manager.cpp, find_cycle_in_wait_graph: the depth-first search for a
-- deadlock. A graph maps a transaction to those it waits for.
pub mod Fuel
use qc_database.Prelude.{
  ℕ, zero, suc, Bool, true, false, Option, none, some, List, [], ◌∷◌, ◌++◌, length, nat_eq,
}
use qc_database.Std.HashMap
use qc_database.Std.HashMap.{HashMap}
use qc_database.Std.HashSet.{HashSet, contains, insert, erase}

abbrev pub TransactionId : Type 0
TransactionId = ℕ

abbrev pub WaitGraph : Type 0
WaitGraph = HashMap TransactionId (HashSet TransactionId)

-- The variables that dfs shares; the path ends with its last element.
pub record Search : Type 0 where
  pub visited : HashSet TransactionId
  pub rec_stack : HashSet TransactionId
  pub path : List TransactionId

abbrev pub edges_of : Option (HashSet TransactionId) → List TransactionId
edges_of none = []
edges_of (some s) = s

unfoldable pub edges : WaitGraph → TransactionId → List TransactionId
edges graph node = edges_of (HashMap.find node graph)

abbrev pub Answer : Type 0
Answer = Option (Bool × Search)

-- What follows a nested search: stop if it found a cycle, else go on.
abbrev pub or_else : Answer → (Search → Answer) → Answer
or_else none next = none
or_else (some (true, s)) next = some (true, s)
or_else (some (false, s)) next = next s

-- The loop over the neighbours.
unfoldable pub dfs_each : (TransactionId → Search → Answer) → List TransactionId → Search → Answer
dfs_each dfs [] s = some (false, s)
dfs_each dfs (neighbor ∷ rest) s = elim (contains neighbor s.rec_stack) [
  | true ↦ some (true, s)
  | false ↦ elim (contains neighbor s.visited) [
    | true ↦ dfs_each dfs rest s
    | false ↦ or_else (dfs neighbor s) (dfs_each dfs rest)
  ]
]

abbrev pub enter : TransactionId → Search → Search
enter node s = record {
  visited = insert node s.visited;
  rec_stack = insert node s.rec_stack;
  path = s.path ++ node ∷ [];
}

-- pop_back
abbrev pub drop_last : List TransactionId → List TransactionId
drop_last [] = []
drop_last (x ∷ []) = []
drop_last (x ∷ y ∷ xs) = x ∷ drop_last (y ∷ xs)

abbrev pub leave : TransactionId → Answer → Answer
leave node none = none
leave node (some (true, s)) = some (true, s)
leave node (some (false, s)) =
    some (false, record s { rec_stack = erase node s.rec_stack; path = drop_last s.path })

-- `none` means that the fuel ran out.
unfoldable pub dfs : ℕ → WaitGraph → TransactionId → Search → Answer
dfs zero graph node s = none
dfs (suc fuel) graph node s =
    leave node (dfs_each (dfs fuel graph) (edges graph node) (enter node s))

-- All that the edges lead to.
unfoldable pub targets : WaitGraph → List TransactionId
targets [] = []
targets ((node, out) ∷ graph) = out ++ targets graph

abbrev pub start_search : Search
start_search = record { visited = []; rec_stack = []; path = [] }

abbrev pub path_of : Answer → List TransactionId
path_of none = []
path_of (some (true, s)) = s.path
path_of (some (false, s)) = []

-- Fuel for the start and every target.
unfoldable pub find_cycle : WaitGraph → TransactionId → List TransactionId
find_cycle graph start = path_of (dfs (suc (suc (length (targets graph)))) graph start start_search)
