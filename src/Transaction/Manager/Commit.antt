-- ===== src/Transaction/Manager/Commit.antt =====
-- src/transaction/transaction_manager.cpp, DefaultTransactionManager: the two phases of a commit, an
-- abort, and the aborts of what has expired. The code builds a message for each participant and
-- drops it, and applies and undoes operations in loops of empty cases: neither leaves a trace.
pub mod TwoPhase
pub mod Orders
pub mod Expiry
use qc_database.Prelude.{
  ℕ, Bool, true, false, Option, none, some, List, [], ◌∷◌, if◌then◌else◌, nat_eq, ◌+◌,
}
use qc_database.Std.HashMap
use qc_database.Std.HashMap.{HashMap}
use qc_database.Std.Method.{
  Outcome, returns, undefined, Method, ◌>>=◌, ◌>>◌, pure, gets, modify, with_unique,
}
use qc_database.Types.{Result, ok, error, not_found, invalid_state, transaction_aborted}
use qc_database.Transaction.WaitGraph.{TransactionId}
use qc_database.Transaction.Records.{
  NodeId, DistributedTransaction, has_expired, preparing, committing, committed, aborting, aborted,
  Event, on_transaction_committed, on_transaction_aborted,
}
use qc_database.Transaction.Manager.{
  LockManager, Manager, put, drop_transaction, notify, with_valid, is_active,
}

sent : Option DistributedTransaction → Result (Unit {0})
sent none = error not_found
sent (some t) = ok tt

-- The loop over the votes, which stops at the first no.
unfoldable pub all_prepared : HashMap NodeId Bool → Bool
all_prepared [] = true
all_prepared ((node, vote) ∷ votes) = if vote then all_prepared votes else false

unfoldable pub apply_transaction_operations : DistributedTransaction → Result (Unit {0})
apply_transaction_operations t = ok tt

unfoldable pub rollback_transaction_operations : DistributedTransaction → Result (Unit {0})
rollback_transaction_operations t = ok tt

-- The transactions that have expired, in the order of the table. Each of them is_expired reads the
-- clock; the readings are taken to be the same.
unfoldable pub expired_transactions :
    ℕ → HashMap TransactionId DistributedTransaction → List TransactionId
expired_transactions now [] = []
expired_transactions now ((tx, t) ∷ m) =
    let rest = expired_transactions now m in if has_expired now t then tx ∷ rest else rest

module _ {S : Type 0} where
  -- send_prepare_messages, send_commit_messages and send_abort_messages
  unfoldable pub send_messages : TransactionId → Manager S → Result (Unit {0})
  unfolding sent
  send_messages tx m = sent (HashMap.find tx m.transactions)

  -- The rest of a call after a result that ends it when it is an error.
  abbrev pub unless_error :
      Result (Unit {0})
      → Method (Manager S) (Result (Unit {0}))
      → Method (Manager S) (Result (Unit {0}))
  unless_error (error status) rest = pure (error status)
  unless_error (ok _) rest = rest

module _ {S : Type 0} ⦃lock_service : LockManager S⦄ where
  pub released : Outcome (Result (Unit {0}) × S) → Method (Manager S) (Unit {0})
  released undefined g = undefined
  released (returns (r, l)) g =
      returns (tt, record g { value = record g.value { lock_manager = some l } })

  -- if (lock_manager_) lock_manager_->release_all_locks(tx_id): the result is not looked at.
  unfoldable pub release_locks : TransactionId → Method (Manager S) (Unit {0})
  unfolding released
  release_locks tx g = elim g.value.lock_manager [
    | none ↦ returns (tt, g)
    | some l ↦ released (lock_service.release_all tx l) g
  ]

  -- The last steps of a commit and of an abort.
  unfoldable pub finish :
      TransactionId → DistributedTransaction → Event → Method (Manager S) (Result (Unit {0}))
  finish tx t event =
      modify (put tx t) >> modify (notify event) >> modify (drop_transaction tx) >> pure (ok tt)

  abort_found :
      (ℕ → ℕ) → TransactionId → DistributedTransaction → Method (Manager S) (Result (Unit {0}))
  abort_found clock tx t =
      let t' = record t { state = aborting; last_activity = clock 1 } in
      modify (put tx t')
      >> unless_error (rollback_transaction_operations t') (
          release_locks tx >>= λ _.
          finish tx (record t' { state = aborted }) (on_transaction_aborted tx))

  unfoldable pub abort_transaction :
      (ℕ → ℕ) → TransactionId → Method (Manager S) (Result (Unit {0}))
  unfolding abort_found
  abort_transaction clock tx = with_unique (with_valid (clock 0) tx (abort_found clock tx))

  -- The second phase.
  commit_prepared :
      (ℕ → ℕ) → TransactionId → DistributedTransaction → Method (Manager S) (Result (Unit {0}))
  commit_prepared clock tx t =
      let t' = record t { state = committing; last_activity = clock 2 } in
      modify (put tx t') >> gets (send_messages tx) >>= λ sent. unless_error sent (
        unless_error (apply_transaction_operations t') (
          release_locks tx >>= λ _.
          finish tx (record t' { state = committed }) (on_transaction_committed tx)))

  -- A participant has voted no.
  commit_refused : TransactionId → DistributedTransaction → Method (Manager S) (Result (Unit {0}))
  commit_refused tx t = do
    modify (put tx (record t { state = aborting }))
    modify (drop_transaction tx)
    pure (error transaction_aborted)

  -- The messages of the first phase could not be sent.
  commit_unsent :
      (ℕ → ℕ)
      → TransactionId
      → DistributedTransaction
      → Result (Unit {0})
      → Method (Manager S) (Result (Unit {0}))
  commit_unsent clock tx t result =
      modify (put tx (record t { state = aborting }))
      >> abort_transaction (λ k. clock (k + 2)) tx
      >>= λ _. pure result

  voted :
      (ℕ → ℕ)
      → TransactionId
      → DistributedTransaction
      → Result (Unit {0})
      → Method (Manager S) (Result (Unit {0}))
  unfolding commit_prepared commit_refused commit_unsent
  voted clock tx t (error status) = commit_unsent clock tx t (error status)
  voted clock tx t (ok _) =
      if all_prepared t.prepare_votes then commit_prepared clock tx t else commit_refused tx t

  commit_found :
      (ℕ → ℕ) → TransactionId → DistributedTransaction → Method (Manager S) (Result (Unit {0}))
  unfolding voted
  commit_found clock tx t =
      let t' = record t { state = preparing; last_activity = clock 1 } in
      if is_active t.state
      then modify (put tx t') >> gets (send_messages tx) >>= voted clock tx t'
      else pure (error invalid_state)

  unfoldable pub commit_transaction :
      (ℕ → ℕ) → TransactionId → Method (Manager S) (Result (Unit {0}))
  unfolding commit_found
  commit_transaction clock tx = with_unique (with_valid (clock 0) tx (commit_found clock tx))

  abort_each : (ℕ → ℕ) → List TransactionId → Method (Manager S) (Unit {0})
  abort_each clock [] = pure tt
  abort_each clock (tx ∷ txs) = abort_transaction clock tx >>= λ _. abort_each clock txs

  unfoldable pub cleanup_expired_transactions : (ℕ → ℕ) → Method (Manager S) (Result (Unit {0}))
  unfolding abort_each
  cleanup_expired_transactions clock = with_unique λ g.
      (abort_each (λ k. clock (k + 1)) (expired_transactions (clock 0) g.value.transactions)
          >> pure (ok tt))
        g
