-- ===== src/Transaction/Locks/Queries.antt =====
-- src/transaction/transaction_manager.cpp, DefaultLockManager: the calls that only read the tables.
use qc_database.Prelude.{
  nat_eq, ◌&&◌, not, none, some, [], true, false, Option, List, Bool, ◌∷◌, not, leb, length,
}
use qc_database.Std.HashMap
use qc_database.Std.HashMap.{HashMap}
use qc_database.Std.HashSet
use qc_database.Std.HashSet.{HashSet}
use qc_database.Std.Method.{Method, with_shared, gets}
use qc_database.Types.{key_eq}
use qc_database.Transaction.WaitGraph.{TransactionId}
use qc_database.Transaction.Locks.{
  Locks, LockId, LockInfo, MultiLevelKey, LockType, WaitGraph, is_lock_compatible, find_cycle,
  set_of, ids_of,
}

unfoldable pub is_locked : MultiLevelKey → Method Locks Bool
is_locked key = with_shared (gets λ s. not (leb (length (ids_of (HashMap.find key s.key_locks))) 0))

abbrev lets_in : LockType → Option LockInfo → Bool
lets_in type none = true
lets_in type (some l) = is_lock_compatible l.type type

all_let_in : LockType → HashMap LockId LockInfo → List LockId → Bool
all_let_in type locks [] = true
all_let_in type locks (id ∷ ids) = lets_in type (HashMap.find id locks) && all_let_in type locks ids

unfoldable pub can_acquire_lock : MultiLevelKey → LockType → Method Locks Bool
unfolding all_let_in
can_acquire_lock key type =
    with_shared (gets λ s. all_let_in type s.locks (ids_of (HashMap.find key s.key_locks)))

abbrev add_info : Option LockInfo → List LockInfo → List LockInfo
add_info none infos = infos
add_info (some l) infos = l ∷ infos

infos : HashMap LockId LockInfo → List LockId → List LockInfo
infos locks [] = []
infos locks (id ∷ ids) = add_info (HashMap.find id locks) (infos locks ids)

unfoldable pub get_locks_by_transaction : TransactionId → Method Locks (List LockInfo)
unfolding infos
get_locks_by_transaction tx =
    with_shared (gets λ s. infos s.locks (set_of (HashMap.find tx s.transaction_locks)))

insert_all : List TransactionId → HashSet TransactionId → HashSet TransactionId
insert_all [] visited = visited
insert_all (id ∷ ids) visited = insert_all ids (HashSet.insert id visited)

-- The loop over the graph's keys.
deadlocks_from :
    WaitGraph
    → List (TransactionId × HashSet TransactionId)
    → HashSet TransactionId
    → List (List TransactionId)
unfolding insert_all
deadlocks_from graph [] visited = []
deadlocks_from graph ((tx, out) ∷ rest) visited = elim (HashSet.contains tx visited) [
  | true ↦ deadlocks_from graph rest visited
  | false ↦ elim (find_cycle graph tx) [
    | [] ↦ deadlocks_from graph rest visited
    | node ∷ path ↦ (node ∷ path) ∷ deadlocks_from graph rest (insert_all (node ∷ path) visited)
  ]
]

unfoldable pub detect_deadlocks : Method Locks (List (List TransactionId))
unfolding deadlocks_from
detect_deadlocks = with_shared (gets λ s. deadlocks_from s.wait_graph s.wait_graph [])
