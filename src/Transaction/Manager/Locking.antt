-- ===== src/Transaction/Manager/Locking.antt =====
-- src/transaction/transaction_manager.cpp: the transaction manager with its own lock manager, the
-- DefaultLockManager that its constructor makes.
pub mod Stuck
use qc_database.Prelude.{ℕ, ◌+◌, List}
use qc_database.Std.Method.{Outcome, returns, undefined, Guarded, Method, at_rest}
use qc_database.Transaction.Locks.{Locks, World, acquire_lock, no_locks}
use qc_database.Transaction.Locks.Release.{release_all_locks, resolve_deadlock}
use qc_database.Transaction.Locks.Queries.{detect_deadlocks}
use qc_database.Transaction.Manager.{LockManager, Manager, new_manager}

-- The tables, and what the code around the k-th call from now decides.
pub record DefaultLockManager : Type 0 where
  pub tables : Guarded Locks
  pub worlds : ℕ → World

abbrev pub with_tables :
    {A : Type 0} → (ℕ → World) → Outcome (A × Guarded Locks) → Outcome (A × DefaultLockManager)
with_tables worlds undefined = undefined
with_tables worlds (returns (a, g)) = returns (a, record { tables = g; worlds = worlds })

instance abbrev pub default_lock_manager : LockManager DefaultLockManager
default_lock_manager = record {
  acquire = λ tx key type timeout l.
      with_tables (λ k. l.worlds (k + 1))
        (acquire_lock 2 (l.worlds 0) tx key type timeout l.tables);
  release_all = λ tx l. with_tables l.worlds (release_all_locks tx l.tables);
  detect = λ l. with_tables l.worlds (detect_deadlocks l.tables);
  resolve = λ cycle l. with_tables l.worlds (resolve_deadlock cycle l.tables);
}

-- A transaction manager as it is made.
abbrev pub default_manager : (ℕ → World) → Manager DefaultLockManager
default_manager worlds = new_manager (record { tables = at_rest no_locks; worlds = worlds })
