-- ===== src/Transaction/Manager/Queries.antt =====
-- src/transaction/transaction_manager.cpp, DefaultTransactionManager: the queries and the setters,
-- starting and stopping, and the calls that the deadlock thread makes.
use qc_database.Prelude.{ℕ, true, false, Option, none, some, List, [], ◌∷◌, if◌then◌else◌, nat_eq}
use qc_database.Std.HashMap
use qc_database.Std.HashMap.{HashMap}
use qc_database.Std.Method.{
  Outcome, returns, undefined, Method, ◌>>=◌, ◌>>◌, pure, gets, modify, with_unique, with_shared,
}
use qc_database.Types.{Result, ok}
use qc_database.Transaction.WaitGraph.{TransactionId}
use qc_database.Transaction.Records.{
  DistributedTransaction, new_transaction, TransactionState, aborted, Event, on_deadlock_detected,
}
use qc_database.Transaction.Manager.{LockManager, Manager, is_active, notify}

state_of : Option DistributedTransaction → TransactionState
state_of none = aborted
state_of (some t) = t.state

unfoldable pub active_ids : HashMap TransactionId DistributedTransaction → List TransactionId
active_ids [] = []
active_ids ((tx, t) ∷ m) = let rest = active_ids m in if is_active t.state then tx ∷ rest else rest

info_of : ℕ → Option DistributedTransaction → DistributedTransaction
info_of now none = new_transaction now
info_of now (some t) = t

module _ {S : Type 0} where
  unfoldable pub get_transaction_state : TransactionId → Method (Manager S) TransactionState
  unfolding state_of
  get_transaction_state tx = with_shared (gets λ m. state_of (HashMap.find tx m.transactions))

  unfoldable pub get_active_transactions : Method (Manager S) (List TransactionId)
  unfolding active_ids
  get_active_transactions = with_shared (gets λ m. active_ids m.transactions)

  unfoldable pub get_transaction_info :
      ℕ → TransactionId → Method (Manager S) DistributedTransaction
  unfolding info_of
  get_transaction_info now tx = with_shared (gets λ m. info_of now (HashMap.find tx m.transactions))

  unfoldable pub set_event_handler : Option (List Event) → Method (Manager S) (Unit {0})
  set_event_handler handler = with_unique (modify λ m. record m { event_handler = handler })

  unfoldable pub set_lock_manager : Option S → Method (Manager S) (Unit {0})
  set_lock_manager locks = with_unique (modify λ m. record m { lock_manager = locks })

  unfoldable pub set_default_timeout : ℕ → Method (Manager S) (Unit {0})
  set_default_timeout timeout = with_unique (modify λ m. record m { default_timeout = timeout })

  unfoldable pub recover_transactions : Method (Manager S) (Result (Unit {0}))
  recover_transactions = with_unique (pure (ok tt))

  -- The threads that start makes, and that stop waits for, are not part of the state.
  unfoldable pub start : Method (Manager S) (Result (Unit {0}))
  start = with_unique (
      modify (λ m. if m.is_running then m else record m { stop_threads = false; is_running = true })
      >> pure (ok tt))

  unfoldable pub stop : Method (Manager S) (Result (Unit {0}))
  stop = with_unique (
      modify (λ m. if m.is_running then record m { stop_threads = true; is_running = false } else m)
      >> pure (ok tt))

module _ {S : Type 0} ⦃lock_service : LockManager S⦄ where
  resolved : {A : Type 0} → Outcome (A × S) → Method (Manager S) A
  resolved undefined g = undefined
  resolved (returns (a, l)) g =
      returns (a, record g { value = record g.value { lock_manager = some l } })

  resolve_one : List TransactionId → Method (Manager S) (Unit {0})
  unfolding resolved
  resolve_one cycle g = elim g.value.lock_manager [
    | none ↦ undefined
    | some l ↦ (resolved (lock_service.resolve cycle l) >>= λ _. pure tt) g
  ]

  resolve_each : List (List TransactionId) → Method (Manager S) (Unit {0})
  unfolding resolve_one
  resolve_each [] = pure tt
  resolve_each (cycle ∷ cycles) =
      modify (notify (on_deadlock_detected cycle)) >> resolve_one cycle >> resolve_each cycles

  -- One round of deadlock_detection_loop, which takes no lock of the manager.
  unfoldable pub deadlock_detection_round : Method (Manager S) (Unit {0})
  unfolding resolve_each
  deadlock_detection_round g = elim g.value.lock_manager [
    | none ↦ returns (tt, g)
    | some l ↦ (resolved (lock_service.detect l) >>= resolve_each) g
  ]
