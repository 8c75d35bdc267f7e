-- ===== src/Transaction/Context.antt =====
-- src/transaction/transaction_manager.cpp, TransactionContext: one transaction's view of its manager.
pub mod Finished
use qc_database.Prelude.{ℕ, Bool, true, false, ◌||◌, if◌then◌else◌}
use qc_database.Std.Method.{Outcome, returns, undefined, Guarded, Method}
use qc_database.Types.{MultiLevelKey, DataEntry, Result, ok, error, invalid_state}
use qc_database.Transaction.WaitGraph.{TransactionId}
use qc_database.Transaction.Locks.{LockType}
use qc_database.Transaction.Records.{TransactionState}
use qc_database.Transaction.Manager.{LockManager, Manager}
use qc_database.Transaction.Manager.Data
use qc_database.Transaction.Manager.Commit.{commit_transaction, abort_transaction}
use qc_database.Transaction.Manager.Queries.{get_transaction_state}

pub record TransactionContext : Type 0 where
  pub transaction_id : TransactionId
  pub is_committed : Bool
  pub is_aborted : Bool

-- TransactionContext::TransactionContext
abbrev pub new_context : TransactionId → TransactionContext
new_context tx = record { transaction_id = tx; is_committed = false; is_aborted = false }

abbrev pub is_finished : TransactionContext → Bool
is_finished c = c.is_committed || c.is_aborted

-- A call on a context and the manager that it shares with others.
abbrev pub Call : Type 0 → Type 0 → Type 0
Call S A =
    TransactionContext
    → Guarded (Manager S)
    → Outcome (Result A × TransactionContext × Guarded (Manager S))

module _ {S A : Type 0} where
  carried :
      (Result A → TransactionContext)
      → Outcome (Result A × Guarded (Manager S))
      → Outcome (Result A × TransactionContext × Guarded (Manager S))
  carried f undefined = undefined
  carried f (returns (r, g)) = returns (r, f r, g)

  -- A finished context refuses; any other passes the call on and is then what `f` makes of the
  -- result.
  guarded :
      (TransactionContext → Result A → TransactionContext)
      → Method (Manager S) (Result A)
      → Call S A
  unfolding carried
  guarded f m c g =
      if is_finished c then returns (error invalid_state, c, g) else carried (f c) (m g)

abbrev unchanged : {A : Type 0} → TransactionContext → Result A → TransactionContext
unchanged c r = c

abbrev committed_on_ok : TransactionContext → Result (Unit {0}) → TransactionContext
committed_on_ok c (ok _) = record c { is_committed = true }
committed_on_ok c (error status) = c

abbrev aborted_on_ok : TransactionContext → Result (Unit {0}) → TransactionContext
aborted_on_ok c (ok _) = record c { is_aborted = true }
aborted_on_ok c (error status) = c

module _ {S : Type 0} ⦃lock_service : LockManager S⦄ where
  unfoldable pub read : (ℕ → ℕ) → MultiLevelKey → Call S DataEntry
  unfolding guarded
  read clock key c = guarded unchanged (Data.read clock c.transaction_id key) c

  unfoldable pub write : (ℕ → ℕ) → MultiLevelKey → DataEntry → Call S (Unit {0})
  unfolding guarded
  write clock key value c = guarded unchanged (Data.write clock c.transaction_id key value) c

  unfoldable pub remove : (ℕ → ℕ) → MultiLevelKey → Call S (Unit {0})
  unfolding guarded
  remove clock key c = guarded unchanged (Data.remove clock c.transaction_id key) c

  unfoldable pub lock : (ℕ → ℕ) → MultiLevelKey → LockType → Call S (Unit {0})
  unfolding guarded
  lock clock key type c = guarded unchanged (Data.lock clock c.transaction_id key type) c

  unfoldable pub commit : (ℕ → ℕ) → Call S (Unit {0})
  unfolding guarded
  commit clock c = guarded committed_on_ok (commit_transaction clock c.transaction_id) c

  unfoldable pub abort : (ℕ → ℕ) → Call S (Unit {0})
  unfolding guarded
  abort clock c = guarded aborted_on_ok (abort_transaction clock c.transaction_id) c

  -- The destructor: an abort, unless the transaction is finished.
  unfoldable pub destroy : (ℕ → ℕ) → Call S (Unit {0})
  destroy clock c g = if is_finished c then returns (ok tt, c, g) else abort clock c g

  unfoldable pub get_state : TransactionContext → Method (Manager S) TransactionState
  get_state c = get_transaction_state c.transaction_id
