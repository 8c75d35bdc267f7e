-- ===== src/Tests/Transactions.antt =====
-- src/transaction/transaction_manager.cpp at small inputs.
use qc_database.Prelude.{nat_eq, ◌≡◌, refl, true, none, [], ◌∷◌, ℕ, if◌then◌else◌, ◌==◌}
use qc_database.Std.HashMap.{find}
use qc_database.Std.Method.{returns, undefined, at_rest, ◌>>=◌}
use qc_database.Types.{
  MultiLevelKey, ok, error, timed_out, transaction_aborted, invalid_state, default_entry,
}
use qc_database.Transaction.Locks.{World, no_locks, obstacle}
use qc_database.Transaction.Records.{
  DistributedTransaction, new_transaction, TpcMessage, prepare_abort, abort_request, commit_request,
  prepared, committed, aborted, active, read_committed,
}
use qc_database.Transaction.Manager.{
  Manager, LockManager, put, prepare, begin_transaction, new_manager,
}
use qc_database.Transaction.Manager.Data.{write}
use qc_database.Transaction.Manager.Commit.{
  commit_transaction, abort_transaction, cleanup_expired_transactions,
}
use qc_database.Transaction.Manager.Commit.Orders.{prepared_never_committed, no_vote_refused}
use qc_database.Transaction.Manager.Messages.{handle_tpc_message}
use qc_database.Transaction.Manager.Locking.{DefaultLockManager, default_lock_manager}
use qc_database.Transaction.Manager.Locking.Stuck.{written_never_finished}
use qc_database.Transaction.Context.{new_context, commit, abort, destroy}
use qc_database.Transaction.Context.Finished.{committed_once}

abbrev key_a : MultiLevelKey
key_a = record { primary_key = b'a' ∷ []; secondary_key = [] }

-- Nothing happens around a call, and the clock stands at 1000.
abbrev quiet : World
quiet = record { clock = λ k. 1000; others = λ k s. s }

-- An active transaction 1 of a manager with the default lock manager.
abbrev going : DistributedTransaction
going = record (new_transaction 1000) { transaction_id = 1 }

abbrev locker : DefaultLockManager
locker = record { tables = at_rest no_locks; worlds = λ k. quiet }

abbrev manager : Manager DefaultLockManager
manager = record (new_manager locker) {
  transactions = (1, going) ∷ [];
  next_transaction_id = 2;
  is_running = true;
}

abbrev clock : ℕ → ℕ
clock k = 1000

abbrev message_of : TpcMessage
message_of = record {
  type = prepare_abort;
  transaction_id = 1;
  from_node = b'n' ∷ [];
  to_node = [];
  payload = [];
  timestamp = 1000;
}

written_never_finished_example :
    ((write clock 1 key_a (default_entry 0) >>= λ _. commit_transaction clock 1) (at_rest manager)
      ≡ undefined)
    × ((write clock 1 key_a (default_entry 0) >>= λ _. abort_transaction clock 1) (at_rest manager)
        ≡ undefined)
unfolding find obstacle qc_database.Transaction.Records.has_expired
    qc_database.Transaction.Manager.Commit.all_prepared
written_never_finished_example =
    written_never_finished clock clock 1 key_a (default_entry 0) going manager no_locks (λ k. quiet)
      refl refl refl refl refl refl refl

no_vote_refused_example :
    (n : Manager DefaultLockManager) × ((handle_tpc_message message_of >>= λ _.
    commit_transaction clock 1)
        (at_rest manager)
      ≡ returns (error transaction_aborted, at_rest n))
    × (n.lock_manager ≡ manager.lock_manager)
    × ((j : ℕ) → find j n.transactions ≡ (if 1 == j then none else find j manager.transactions))
unfolding find qc_database.Transaction.Records.has_expired
no_vote_refused_example = no_vote_refused clock message_of going manager refl refl refl refl

prepared_never_committed_example :
    (prepare clock 1 >>= λ _. commit_transaction clock 1) (at_rest manager)
    ≡ returns (error invalid_state, at_rest (put 1 (record going { state = prepared }) manager))
unfolding find qc_database.Transaction.Records.has_expired
prepared_never_committed_example =
    prepared_never_committed clock 1 going manager refl refl clock refl refl

-- A lock manager that refuses every lock.
instance abbrev refusing : LockManager (Unit {0})
refusing = record {
  acquire = λ tx key type timeout l. returns (error timed_out, l);
  release_all = λ tx l. returns (ok tt, l);
  detect = λ l. returns ([], l);
  resolve = λ cycle l. returns (ok tt, l);
}

abbrev refused_manager : Manager (Unit {0})
refused_manager = record (new_manager tt) { transactions = (1, going) ∷ [] }

-- What a commit of transaction 1 leaves.
abbrev left : Manager (Unit {0})
left = record refused_manager { transactions = [] }

committed_once_example :
    (commit clock (record (new_context 1) { is_committed = true }) (at_rest left)
      ≡ returns (error invalid_state, record (new_context 1) { is_committed = true }, at_rest left))
    × (abort clock (record (new_context 1) { is_committed = true }) (at_rest left)
        ≡ returns
            (error invalid_state, record (new_context 1) { is_committed = true }, at_rest left))
    × (destroy clock (record (new_context 1) { is_committed = true }) (at_rest left)
        ≡ returns (ok tt, record (new_context 1) { is_committed = true }, at_rest left))
unfolding commit find commit_transaction qc_database.Transaction.Manager.with_valid
    qc_database.Transaction.Manager.validate_transaction qc_database.Transaction.Records.has_expired
    qc_database.Transaction.Manager.Commit.send_messages qc_database.Std.HashMap.insert
    qc_database.Transaction.Manager.Commit.all_prepared
    qc_database.Transaction.Manager.Commit.apply_transaction_operations
    qc_database.Transaction.Manager.Commit.release_locks
    qc_database.Transaction.Manager.Commit.finish qc_database.Transaction.Manager.notify
    qc_database.Std.HashMap.erase
committed_once_example =
    committed_once clock clock (new_context 1) (record (new_context 1) { is_committed = true })
      (at_rest refused_manager) (at_rest left) refl
