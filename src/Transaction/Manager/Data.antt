-- ===== src/Transaction/Manager/Data.antt =====
-- src/transaction/transaction_manager.cpp, DefaultTransactionManager: reading, writing, removing and
-- locking a key inside a transaction. None of them reaches the storage engine.
pub mod Laws
use qc_database.Prelude.{
  ℕ, Bool, true, false, Option, none, some, [], ◌∷◌, ◌++◌, if◌then◌else◌, nat_eq,
}
use qc_database.Std.Bytes.{Str}
use qc_database.Std.HashSet
use qc_database.Std.Method.{
  Outcome, returns, undefined, Method, ◌>>=◌, ◌>>◌, pure, modify, with_unique, with_shared,
}
use qc_database.Types.{MultiLevelKey, to_string, DataEntry, default_entry, Result, ok, error}
use qc_database.Transaction.WaitGraph.{TransactionId}
use qc_database.Transaction.Locks.{LockId, LockType, shared, exclusive}
use qc_database.Transaction.Records.{
  DistributedTransaction, TransactionOperation, OperationType, read_operation, write_operation,
  delete_operation, lock_operation, IsolationLevel, read_uncommitted,
}
use qc_database.Transaction.Manager.{LockManager, Manager, put, with_valid}

abbrev pub lock_timeout : ℕ
lock_timeout = 5000

-- isolation_level >= READ_COMMITTED
abbrev pub locks_reads : IsolationLevel → Bool
locks_reads read_uncommitted = false
locks_reads _ = true

-- "simulated_value_for_"
abbrev pub simulated_value : Str
simulated_value =
    b's' ∷ b'i' ∷ b'm' ∷ b'u' ∷ b'l' ∷ b'a' ∷ b't' ∷ b'e' ∷ b'd' ∷ b'_' ∷ b'v' ∷ b'a' ∷ b'l' ∷ b'u'
    ∷ b'e' ∷ b'_' ∷ b'f' ∷ b'o' ∷ b'r' ∷ b'_' ∷ []

-- A transaction with one more operation. The readings of the clock are those of the constructor's
-- two entries, the operation's and the transaction's.
unfoldable pub with_operation :
    (ℕ → ℕ)
    → OperationType
    → MultiLevelKey
    → Option DataEntry
    → DistributedTransaction
    → DistributedTransaction
with_operation clock type key value t = record t {
  operations =
      t.operations
      ++ (record {
        type = type;
        key = key;
        old_value = default_entry (clock 1);
        new_value = elim value [ none ↦ default_entry (clock 2) | some v ↦ v ];
        version = 0;
        timestamp = clock 3;
      })
        ∷ [];
  last_activity = clock 4;
}

abbrev pub with_held_lock : LockId → DistributedTransaction → DistributedTransaction
with_held_lock id t = record t { held_locks = HashSet.insert id t.held_locks }

module _ {S : Type 0} ⦃lock_service : LockManager S⦄ where
  relocked : {A : Type 0} → Outcome (A × S) → Method (Manager S) A
  relocked undefined g = undefined
  relocked (returns (a, l)) g =
      returns (a, record g { value = record g.value { lock_manager = some l } })

  -- lock_manager_->acquire_lock
  unfoldable pub acquire_lock :
      TransactionId → MultiLevelKey → LockType → Method (Manager S) (Result LockId)
  unfolding relocked
  acquire_lock tx key type g = elim g.value.lock_manager [
    | none ↦ undefined
    | some l ↦ relocked (lock_service.acquire tx key type lock_timeout l) g
  ]

  after_lock :
      {A : Type 0}
      → DistributedTransaction
      → (DistributedTransaction → Method (Manager S) (Result A))
      → Result LockId
      → Method (Manager S) (Result A)
  after_lock t f (error status) = pure (error status)
  after_lock t f (ok id) = f (with_held_lock id t)

  -- The lock that an operation asks for first; it ends with the lock's error.
  with_lock :
      {A : Type 0}
      → TransactionId
      → MultiLevelKey
      → LockType
      → DistributedTransaction
      → (DistributedTransaction → Method (Manager S) (Result A))
      → Method (Manager S) (Result A)
  unfolding after_lock
  with_lock tx key type t f = acquire_lock tx key type >>= after_lock t f

  read_found :
      (ℕ → ℕ)
      → TransactionId
      → MultiLevelKey
      → DistributedTransaction
      → Method (Manager S) (Result DataEntry)
  read_found clock tx key t = do
    modify (put tx (with_operation clock read_operation key none t))
    pure (
        ok (record {
          value = simulated_value ++ to_string key;
          version = 1;
          timestamp = clock 5;
          deleted = false;
        }))

  -- The lock is a shared one: what the call writes is not guarded against other readers.
  unfoldable pub read :
      (ℕ → ℕ) → TransactionId → MultiLevelKey → Method (Manager S) (Result DataEntry)
  unfolding with_lock read_found
  read clock tx key = with_shared (
      with_valid (clock 0) tx λ t.
        if locks_reads t.isolation_level
        then with_lock tx key shared t (read_found clock tx key)
        else read_found clock tx key t)

  abbrev log_operation :
      (ℕ → ℕ)
      → TransactionId
      → MultiLevelKey
      → OperationType
      → Option DataEntry
      → DistributedTransaction
      → Method (Manager S) (Result (Unit {0}))
  log_operation clock tx key type value t =
      modify (put tx (with_operation clock type key value t)) >> pure (ok tt)

  -- What write, remove and lock have in common.
  locked_operation :
      (ℕ → ℕ)
      → TransactionId
      → MultiLevelKey
      → LockType
      → OperationType
      → Option DataEntry
      → Method (Manager S) (Result (Unit {0}))
  unfolding with_lock
  locked_operation clock tx key lock_type type value = with_unique (
      with_valid (clock 0) tx λ t.
        with_lock tx key lock_type t
          λ t'. modify (put tx (with_operation clock type key value t')) >> pure (ok tt))

  unfoldable pub write :
      (ℕ → ℕ) → TransactionId → MultiLevelKey → DataEntry → Method (Manager S) (Result (Unit {0}))
  unfolding locked_operation
  write clock tx key value = locked_operation clock tx key exclusive write_operation (some value)

  unfoldable pub remove :
      (ℕ → ℕ) → TransactionId → MultiLevelKey → Method (Manager S) (Result (Unit {0}))
  unfolding locked_operation
  remove clock tx key = locked_operation clock tx key exclusive delete_operation none

  unfoldable pub lock :
      (ℕ → ℕ) → TransactionId → MultiLevelKey → LockType → Method (Manager S) (Result (Unit {0}))
  unfolding locked_operation
  lock clock tx key type = locked_operation clock tx key type lock_operation none
