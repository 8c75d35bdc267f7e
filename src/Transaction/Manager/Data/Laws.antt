-- ===== src/Transaction/Manager/Data/Laws.antt =====
-- src/transaction/transaction_manager.cpp: an operation whose lock is granted, and one whose lock is
-- not.
use qc_database.Prelude.{ℕ, ◌≡◌, refl, ◌∙◌, ap, false, Option, none, some, nat_eq}
use qc_database.Std.HashMap.{find}
use qc_database.Std.Method.{returns, Guarded, at_rest, >>=-returns, unlocked, unique}
use qc_database.Types.{MultiLevelKey, DataEntry, Result, ok, error}
use qc_database.Types
use qc_database.Transaction.WaitGraph.{TransactionId}
use qc_database.Transaction.Locks.{LockId, LockType, exclusive}
use qc_database.Transaction.Records.{
  DistributedTransaction, has_expired, OperationType, write_operation, delete_operation,
  lock_operation,
}
use qc_database.Transaction.Manager.{LockManager, Manager, put}
use qc_database.Transaction.Manager.Commit.TwoPhase.{with_valid-runs}
use qc_database.Transaction.Manager.Data.{
  lock_timeout, with_operation, with_held_lock, acquire_lock, relocked, after_lock, with_lock,
  log_operation, locked_operation, write, remove, lock,
}

module _ {S : Type 0} ⦃lock_service : LockManager S⦄ (clock : ℕ → ℕ) (tx : TransactionId)
    (key : MultiLevelKey) (t : DistributedTransaction) (m : Manager S) (l l' : S)
    (e : find tx m.transactions ≡ some t) (young : has_expired (clock 0) t ≡ false)
    (held : m.lock_manager ≡ some l) where
  locked-returns :
      (type : LockType) (r : Result LockId) (g : Guarded (Manager S))
      → g.value.lock_manager ≡ some l
      → lock_service.acquire tx key type lock_timeout l ≡ returns (r, l')
      → acquire_lock tx key type g
        ≡ returns (r, record g { value = record g.value { lock_manager = some l' } })
  unfolding acquire_lock
  locked-returns type r g has a = rw (has, a, relocked) refl

  operation-granted :
      (lock_type : LockType) (type : OperationType) (value : Option DataEntry) (id : LockId)
      → lock_service.acquire tx key lock_type lock_timeout l ≡ returns (ok id, l')
      → locked_operation clock tx key lock_type type value (at_rest m)
        ≡ returns (
          ok tt,
          at_rest (
              put tx
                (with_operation clock type key value (with_held_lock id t))
                (record m { lock_manager = some l' })),
        )
  unfolding locked_operation with_lock after_lock
  operation-granted lock_type type value id a = ap unlocked (
      with_valid-runs (clock 0) tx t _ (record { mutex = unique; value = m }) e young
      ∙ >>=-returns (acquire_lock tx key lock_type)
          (after_lock t (log_operation clock tx key type value))
          (record { mutex = unique; value = m })
          (locked-returns lock_type (ok id) (record { mutex = unique; value = m }) held a))

  operation-refused :
      (lock_type : LockType) (type : OperationType) (value : Option DataEntry)
      (status : Types.Status)
      → lock_service.acquire tx key lock_type lock_timeout l ≡ returns (error status, l')
      → locked_operation clock tx key lock_type type value (at_rest m)
        ≡ returns (error status, at_rest (record m { lock_manager = some l' }))
  unfolding locked_operation with_lock after_lock
  operation-refused lock_type type value status a = ap unlocked (
      with_valid-runs (clock 0) tx t _ (record { mutex = unique; value = m }) e young
      ∙ >>=-returns (acquire_lock tx key lock_type)
          (after_lock t (log_operation clock tx key type value))
          (record { mutex = unique; value = m })
          (locked-returns lock_type (error status) (record { mutex = unique; value = m }) held a))

  pub write-granted :
      (value : DataEntry) (id : LockId)
      → lock_service.acquire tx key exclusive lock_timeout l ≡ returns (ok id, l')
      → write clock tx key value (at_rest m)
        ≡ returns (
          ok tt,
          at_rest (
              put tx
                (with_operation clock write_operation key (some value) (with_held_lock id t))
                (record m { lock_manager = some l' })),
        )
  unfolding write
  write-granted value id a = operation-granted exclusive write_operation (some value) id a

  -- When the lock manager refuses the exclusive lock, write and remove return its status, and so
  -- does lock for that type of lock: the transaction neither holds a lock more nor has an operation
  -- more. That is so for a transaction that is there and has not expired.
  pub refused_lock_lem :
      (value : DataEntry) (status : Types.Status)
      → lock_service.acquire tx key exclusive lock_timeout l ≡ returns (error status, l')
      → (write clock tx key value (at_rest m)
          ≡ returns (error status, at_rest (record m { lock_manager = some l' })))
        × (remove clock tx key (at_rest m)
            ≡ returns (error status, at_rest (record m { lock_manager = some l' })))
        × (lock clock tx key exclusive (at_rest m)
            ≡ returns (error status, at_rest (record m { lock_manager = some l' })))
  unfolding write remove lock
  refused_lock_lem value status a = (
    operation-refused exclusive write_operation (some value) status a,
    operation-refused exclusive delete_operation none status a,
    operation-refused exclusive lock_operation none status a,
  )
