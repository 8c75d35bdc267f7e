-- ===== src/Transaction/Manager.antt =====
-- src/transaction/transaction_manager.cpp, DefaultTransactionManager: its state, the checks and
-- helpers that its operations share, and beginning and preparing a transaction. The two background
-- threads are modelled by the calls that they make; an event handler only records what it is told.
pub mod Begin
pub mod Data
pub mod Commit
pub mod Messages
pub mod Queries
pub mod Locking
use qc_database.Prelude.{
  ℕ, ◌+◌, Bool, true, false, Option, none, some, List, [], ◌∷◌, ◌++◌, if◌then◌else◌, nat_eq, zero,
  suc,
}
use qc_database.Std.HashMap
use qc_database.Std.HashMap.{HashMap}
use qc_database.Std.HashSet
use qc_database.Std.Method.{
  Outcome, returns, undefined, Guarded, Method, ◌>>=◌, ◌>>◌, pure, gets, modify, with_unique,
}
use qc_database.Types.{
  MultiLevelKey, Result, ok, error, not_found, timed_out, invalid_state, service_unavailable,
}
use qc_database.Transaction.WaitGraph.{TransactionId}
use qc_database.Transaction.Locks.{LockId, LockType}
use qc_database.Transaction.Records.{
  DistributedTransaction, new_transaction, has_expired, TransactionState, active, prepared,
  IsolationLevel, Event, on_transaction_started,
}

-- The interface LockManager, as far as the transaction manager calls it: the state S of an
-- implementation, and its calls.
pub record LockManager (S : Type 0) : Type 0 where
  pub acquire : TransactionId → MultiLevelKey → LockType → ℕ → S → Outcome (Result LockId × S)
  pub release_all : TransactionId → S → Outcome (Result (Unit {0}) × S)
  pub detect : S → Outcome (List (List TransactionId) × S)
  pub resolve : List TransactionId → S → Outcome (Result (Unit {0}) × S)

-- A null pointer is `none`. The handler is the list of what it has been told.
pub record Manager (S : Type 0) : Type 0 where
  pub lock_manager : Option S
  pub event_handler : Option (List Event)
  pub transactions : HashMap TransactionId DistributedTransaction
  pub next_transaction_id : ℕ
  pub is_running : Bool
  pub stop_threads : Bool
  pub default_timeout : ℕ

told : Event → Option (List Event) → Option (List Event)
told event none = none
told event (some events) = some (events ++ event ∷ [])

validated : ℕ → Option DistributedTransaction → Result (Unit {0})
validated now none = error not_found
validated now (some t) = if has_expired now t then error timed_out else ok tt

started : TransactionId → ℕ → IsolationLevel → ℕ → DistributedTransaction
started tx now isolation timeout = record (new_transaction now) {
  transaction_id = tx;
  state = active;
  isolation_level = isolation;
  created_at = now;
  last_activity = now;
  timeout = timeout;
}

abbrev pub is_active : TransactionState → Bool
is_active active = true
is_active _ = false

module _ {S : Type 0} where
  -- DefaultTransactionManager::DefaultTransactionManager, with a new lock manager
  abbrev pub new_manager : S → Manager S
  new_manager locks = record {
    lock_manager = some locks;
    event_handler = none;
    transactions = [];
    next_transaction_id = 1;
    is_running = false;
    stop_threads = false;
    default_timeout = 30000;
  }

  abbrev pub put : TransactionId → DistributedTransaction → Manager S → Manager S
  put tx t m = record m { transactions = HashMap.insert tx t m.transactions }

  abbrev pub drop_transaction : TransactionId → Manager S → Manager S
  drop_transaction tx m = record m { transactions = HashMap.erase tx m.transactions }

  -- notify_transaction_started and the three like it
  unfoldable pub notify : Event → Manager S → Manager S
  unfolding told
  notify event m = record m { event_handler = told event m.event_handler }

  unfoldable pub validate_transaction : ℕ → TransactionId → Manager S → Result (Unit {0})
  unfolding validated
  validate_transaction now tx m = validated now (HashMap.find tx m.transactions)

  -- The iterator that an operation finds: it is dereferenced.
  at_found :
      {A : Type 0}
      → Option DistributedTransaction
      → (DistributedTransaction → Method (Manager S) A)
      → Method (Manager S) A
  at_found none f g = undefined
  at_found (some t) f g = f t g

  on_valid :
      {A : Type 0}
      → Result (Unit {0})
      → TransactionId
      → (DistributedTransaction → Method (Manager S) (Result A))
      → Method (Manager S) (Result A)
  unfolding at_found
  on_valid (error status) tx f g = returns (error status, g)
  on_valid (ok _) tx f g = at_found (HashMap.find tx g.value.transactions) f g

  -- How every operation on a transaction starts: it must be there and not have expired.
  unfoldable pub with_valid :
      {A : Type 0}
      → ℕ
      → TransactionId
      → (DistributedTransaction → Method (Manager S) (Result A))
      → Method (Manager S) (Result A)
  unfolding on_valid
  with_valid now tx f g = on_valid (validate_transaction now tx g.value) tx f g

  begin_body : ℕ → IsolationLevel → Method (Manager S) (Result TransactionId)
  unfolding started
  begin_body now isolation g =
      let m = g.value in
      let tx = m.next_transaction_id in
      if m.is_running
      then returns (
        ok tx,
        record g {
          value = notify (on_transaction_started tx) (
              put tx (started tx now isolation m.default_timeout)
                (record m { next_transaction_id = tx + 1 }));
        },
      )
      else returns (error service_unavailable, g)

  unfoldable pub begin_transaction : ℕ → IsolationLevel → Method (Manager S) (Result TransactionId)
  unfolding begin_body
  begin_transaction now isolation = with_unique (begin_body now isolation)

  unfoldable pub prepare : (ℕ → ℕ) → TransactionId → Method (Manager S) (Result (Unit {0}))
  prepare clock tx = with_unique (
      with_valid (clock 0) tx λ t.
        if is_active t.state
        then modify (put tx (record t { state = prepared; last_activity = clock 1 }))
          >> pure (ok tt)
        else pure (error invalid_state))
