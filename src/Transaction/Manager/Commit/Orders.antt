-- ===== src/Transaction/Manager/Commit/Orders.antt =====
-- src/transaction/transaction_manager.cpp: calls one after the other that touch one transaction.
use qc_database.Prelude.{
  ℕ, ◌≡◌, refl, ◌∙◌, arith, true, false, none, some, if◌then◌else◌, nat_eq, list_eq, beq_refl, ◌==◌,
}
use qc_database.Std.HashMap.{find, find-insert}
use qc_database.Std.Method.{returns, ◌>>=◌, at_rest, >>=-returns}
use qc_database.Types.{Result, ok, error, invalid_state, transaction_aborted}
use qc_database.Transaction.WaitGraph.{TransactionId}
use qc_database.Transaction.Records.{
  DistributedTransaction, has_expired, active, prepared, aborted, TpcMessage, prepare_abort,
}
use qc_database.Transaction.Manager.{LockManager, Manager, put, prepare}
use qc_database.Transaction.Manager.Commit.{all_prepared, commit_transaction}
use qc_database.Transaction.Manager.Commit.TwoPhase.{
  prepare-active, commit-inactive, commit-committed, commit-refused, all_prepared-false,
}
use qc_database.Transaction.Manager.Messages.{handle_tpc_message, after_vote}
use qc_database.Transaction.Manager.Messages.Laws.{handle-prepare_abort}
use qc_database.Transaction.Manager.Queries.{get_transaction_state}

module _ {S : Type 0} ⦃lock_service : LockManager S⦄ (clock : ℕ → ℕ) (tx : TransactionId)
    (t : DistributedTransaction) (m : Manager S) (e : find tx m.transactions ≡ some t)
    (young : has_expired (clock 0) t ≡ false) where
  -- The state of a transaction whose commit has returned OK reads as aborted. That is so for an
  -- active transaction that has not expired, with all the votes that have come in being yes and a
  -- lock manager whose release of all its locks returns.
  pub commit_reads_aborted :
      (l l' : S) (r : Result (Unit {0}))
      → m.lock_manager ≡ some l
      → lock_service.release_all tx l ≡ returns (r, l')
      → t.state ≡ active
      → all_prepared t.prepare_votes ≡ true
      → (n : Manager S) × (commit_transaction clock tx (at_rest m) ≡ returns (ok tt, at_rest n))
        × (get_transaction_state tx (at_rest n) ≡ returns (aborted, at_rest n))
        × ((j : TransactionId)
            → find j n.transactions ≡ (if tx == j then none else find j m.transactions))
  unfolding get_transaction_state
  commit_reads_aborted l l' r has free_all on votes =
      let (n, c, _, f) = commit-committed clock tx t m l e young has r l' on votes free_all in
      (n, c, rw (f tx, beq_refl tx) refl, f)

  -- An active transaction that prepare has moved to PREPARED can no longer be committed: a commit
  -- that finds it there, before it expires, returns INVALID_STATE and leaves it prepared.
  pub prepared_never_committed :
      (later : ℕ → ℕ)
      → t.state ≡ active
      → has_expired (later 0) (record t { state = prepared; last_activity = clock 1 }) ≡ false
      → (prepare clock tx >>= λ _. commit_transaction later tx) (at_rest m)
        ≡ returns (
          error invalid_state,
          at_rest (put tx (record t { state = prepared; last_activity = clock 1 }) m),
        )
  prepared_never_committed later on young' =
      let t' = record t { state = prepared; last_activity = clock 1 } in
      >>=-returns (prepare clock tx) (λ _. commit_transaction later tx) (at_rest m)
        (prepare-active clock tx t m e young on)
      ∙ commit-inactive later tx t' (put tx t' m)
          (find-insert tx tx t' m.transactions ∙ rw (beq_refl tx) refl) young' refl

-- A node's no, which reaches the manager before the commit, makes the commit of an active
-- transaction that has not expired return TRANSACTION_ABORTED. The transaction is erased, the others
-- stay, and the lock manager is not called, so that the transaction's locks stay where they are.
pub no_vote_refused :
    {S : Type 0} ⦃lock_service : LockManager S⦄ (clock : ℕ → ℕ) (message : TpcMessage)
    (t : DistributedTransaction) (m : Manager S)
    → find message.transaction_id m.transactions ≡ some t
    → has_expired (clock 0) t ≡ false
    → message.type ≡ prepare_abort
    → t.state ≡ active
    → (n : Manager S) × ((handle_tpc_message message >>= λ _.
            commit_transaction clock message.transaction_id)
          (at_rest m)
        ≡ returns (error transaction_aborted, at_rest n))
      × (n.lock_manager ≡ m.lock_manager)
      × ((j : TransactionId)
          → find j n.transactions
            ≡ (if message.transaction_id == j then none else find j m.transactions))
unfolding after_vote has_expired
no_vote_refused clock message t m e young no_ on =
    let tx = message.transaction_id in
    let t' = after_vote message.from_node false t in
    let found = find-insert tx tx t' m.transactions ∙ rw (beq_refl tx) refl in
    let votes = all_prepared-false message.from_node t'.prepare_votes (
      find-insert message.from_node message.from_node false t.prepare_votes
      ∙ rw (beq_refl message.from_node) refl) in
    let (n, c, held, f) = commit-refused clock tx t' (put tx t' m) found young on votes in
    (
      n,
      >>=-returns (handle_tpc_message message) (λ _. commit_transaction clock tx) (at_rest m)
            (handle-prepare_abort message t m e no_)
          ∙ c,
      held,
      λ j. ground (arith, f j, find-insert j tx t' m.transactions),
    )
