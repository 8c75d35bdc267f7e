-- ===== src/Tests/Locks.antt =====
-- src/transaction/transaction_manager.cpp, DefaultLockManager, at small inputs.
use qc_database.Prelude.{nat_eq, ◌≡◌, refl, [], ◌∷◌, arith, ℕ, Bool, some}
use qc_database.Std.HashMap.{find}
use qc_database.Std.Method.{returns, undefined, at_rest, ◌>>=◌}
use qc_database.Types.{MultiLevelKey, ok}
use qc_database.Transaction.WaitGraph.{
  WaitGraph, Search, dfs, dfs_each, edges, targets, start_search, find_cycle,
}
use qc_database.Transaction.WaitGraph.Fuel.{dfs-answers}
use qc_database.Std.HashSet.{contains}
use qc_database.Transaction.Locks.{
  Locks, LockInfo, World, LockType, exclusive, shared, no_locks, acquire_lock, grant, obstacle,
}
use qc_database.Transaction.Locks.Release.{release_lock, release_all_locks}
use qc_database.Transaction.Locks.Conflict.{blocked_undefined}
use qc_database.Transaction.Locks.Exclusion.{
  IsConsistent, no_locks-IsConsistent, grant-IsConsistent,
}
use qc_database.Transaction.Locks.Exclusion.Releases.{
  release_lock-IsConsistent, IsWithout, status_of,
}
use qc_database.Transaction.Locks.Exclusion.Calls.{
  run, run-exclusive, request, AllKeep, KeepsConsistent,
}
use qc_database.Transaction.Locks.Teardown.{granted_never_released}
use qc_database.Transaction.Manager.Locking.{default_lock_manager}

abbrev key_a : MultiLevelKey
key_a = record { primary_key = b'a' ∷ []; secondary_key = [] }

-- Nothing happens around a call, and the clock stands at 1000.
abbrev quiet : World
quiet = record { clock = λ k. 1000; others = λ k s. s }

abbrev info : LockInfo
info = record {
  lock_id = 1;
  type = exclusive;
  transaction_id = 1;
  key = key_a;
  acquired_at = 1000;
  timeout = 100;
}

-- The tables with one exclusive lock, of transaction 1, of a tenth of a second.
abbrev held : Locks
held = record {
  locks = (1, info) ∷ [];
  key_locks = (key_a, 1 ∷ []) ∷ [];
  transaction_locks = (1, 1 ∷ []) ∷ [];
  wait_graph = [];
  next_lock_id = 2;
}

-- Transactions 1 and 2 wait for each other.
abbrev crossed : WaitGraph
crossed = (1, 2 ∷ []) ∷ (2, 1 ∷ []) ∷ []

dfs-answers_example : (b : Bool) × (s : Search) × (dfs 4 crossed 1 start_search ≡ some (b, s))
unfolding targets
dfs-answers_example = dfs-answers crossed 1

crossed_cycle : find_cycle crossed 1 ≡ 1 ∷ 2 ∷ []
unfolding find_cycle targets dfs dfs_each edges find qc_database.Std.HashSet.contains
    qc_database.Std.HashSet.insert
crossed_cycle = refl

run-exclusive_example : ◌≡◌ {A = ℕ} 1 1
unfolding AllKeep KeepsConsistent run find acquire_lock grant obstacle
    qc_database.Std.HashMap.insert qc_database.Std.HashMap.erase qc_database.Std.HashSet.insert
    qc_database.Std.HashSet.contains
run-exclusive_example =
    run-exclusive (request quiet 1 key_a exclusive 100 ∷ []) (at_rest held) 1 1 info info
      ((λ k s v. v), tt) refl refl refl refl refl

blocked_undefined_example : acquire_lock 2 quiet 2 key_a shared 50 (at_rest held) ≡ undefined
unfolding obstacle find qc_database.Transaction.Locks.is_lock_compatible
    qc_database.Transaction.WaitGraph.find_cycle qc_database.Transaction.WaitGraph.dfs
    qc_database.Transaction.WaitGraph.dfs_each qc_database.Transaction.WaitGraph.edges
    qc_database.Std.HashMap.insert qc_database.Std.HashSet.insert qc_database.Std.HashSet.contains
blocked_undefined_example =
    blocked_undefined 0 quiet 2 key_a shared 50 held info refl refl (omega arith)

-- The tables after a grant of that lock.
abbrev granted : Locks
granted = grant 1000 1 key_a exclusive 100 no_locks

granted-IsConsistent : IsConsistent granted
unfolding obstacle find
granted-IsConsistent =
    grant-IsConsistent 1000 1 key_a exclusive 100 no_locks no_locks-IsConsistent refl

release_lock-IsConsistent_example :
    (t : Locks) × (release_lock 1 (at_rest granted)
      ≡ returns (status_of (find 1 granted.locks), at_rest t))
    × IsConsistent t
    × IsWithout 1 granted t
release_lock-IsConsistent_example = release_lock-IsConsistent 1 granted granted-IsConsistent

-- The lock is there, and its release returns OK.
granted_release : status_of (find 1 granted.locks) ≡ ok tt
unfolding grant find qc_database.Std.HashMap.insert
granted_release = refl

granted_never_released_example :
    (acquire_lock 2 quiet 1 key_a exclusive 100 >>= λ _. release_all_locks 1) (at_rest no_locks)
    ≡ undefined
unfolding obstacle find
granted_never_released_example = granted_never_released 0 quiet 1 key_a exclusive 100 no_locks refl
