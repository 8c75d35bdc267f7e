-- ===== src/Transaction/Manager/Locking/Stuck.antt =====
-- src/transaction/transaction_manager.cpp: the transaction manager with the DefaultLockManager. A
-- transaction that has been granted a lock cannot end.
use qc_database.Prelude.{ℕ, ◌≡◌, refl, ◌∙◌, ap, true, false, none, some, nat_eq, beq_refl, ◌+◌}
use qc_database.Std.HashMap.{find, find-insert}
use qc_database.Std.Method.{undefined, at_rest, ◌>>=◌, >>=-returns}
use qc_database.Types.{MultiLevelKey, DataEntry}
use qc_database.Transaction.WaitGraph.{TransactionId}
use qc_database.Transaction.Locks.{Locks, World, exclusive, obstacle, grant}
use qc_database.Transaction.Locks.Conflict.{request-none}
use qc_database.Transaction.Locks.Teardown.{grant-owner, release_all_locks-undefined}
use qc_database.Transaction.Records.{DistributedTransaction, has_expired, active, write_operation}
use qc_database.Transaction.Manager.{Manager, put}
use qc_database.Transaction.Manager.Data.{lock_timeout, write, with_operation, with_held_lock}
use qc_database.Transaction.Manager.Data.Laws.{write-granted}
use qc_database.Transaction.Manager.Commit.{all_prepared, commit_transaction, abort_transaction}
use qc_database.Transaction.Manager.Commit.TwoPhase.{commit-undefined, abort-undefined}
use qc_database.Transaction.Manager.Locking.{DefaultLockManager, default_lock_manager, with_tables}

-- With the manager's own lock manager, a transaction that has written a key can neither be committed
-- nor aborted: either call, after a write that is granted, is undefined. That is so for an active
-- transaction with all votes yes that has not expired by then.
pub written_never_finished :
    (clock later : ℕ → ℕ) (tx : TransactionId) (key : MultiLevelKey) (value : DataEntry)
    (t : DistributedTransaction) (m : Manager DefaultLockManager) (s : Locks) (worlds : ℕ → World)
    → find tx m.transactions ≡ some t
    → has_expired (clock 0) t ≡ false
    → t.state ≡ active
    → all_prepared t.prepare_votes ≡ true
    → m.lock_manager ≡ some (record { tables = at_rest s; worlds = worlds })
    → obstacle tx key exclusive s ≡ none
    → has_expired (later 0) (record t { last_activity = clock 4 }) ≡ false
    → ((write clock tx key value >>= λ _. commit_transaction later tx) (at_rest m) ≡ undefined)
      × ((write clock tx key value >>= λ _. abort_transaction later tx) (at_rest m) ≡ undefined)
unfolding has_expired with_operation
written_never_finished clock later tx key value t m s worlds e young on votes held clear young' =
    let now = (worlds 0).clock 0 in
    let s' = grant now tx key exclusive lock_timeout s in
    let (id, ids, owner) = grant-owner now tx key exclusive lock_timeout s in
    let l : DefaultLockManager = record { tables = at_rest s; worlds = worlds } in
    let l' : DefaultLockManager = record { tables = at_rest s'; worlds = λ k. worlds (k + 1) } in
    let t' =
      with_operation clock write_operation key (some value) (with_held_lock s.next_lock_id t) in
    let m' = put tx t' (record m { lock_manager = some l' }) in
    let granted =
      ap (with_tables (λ k. worlds (k + 1)))
        (request-none 0 (worlds 0) tx key exclusive lock_timeout s clear) in
    let written = write-granted clock tx key t m l l' e young held value s.next_lock_id granted in
    let found = find-insert tx tx t' m.transactions ∙ rw (beq_refl tx) refl in
    let never = ap (with_tables l'.worlds) (release_all_locks-undefined tx id ids s' owner) in
    (
      >>=-returns (write clock tx key value) (λ _. commit_transaction later tx) (at_rest m) written
          ∙ commit-undefined later tx t' m' l' found young' refl on votes never,
      >>=-returns (write clock tx key value) (λ _. abort_transaction later tx) (at_rest m) written
          ∙ abort-undefined later tx t' m' l' found young' refl never,
    )
