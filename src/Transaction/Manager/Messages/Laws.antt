-- ===== src/Transaction/Manager/Messages/Laws.antt =====
-- src/transaction/transaction_manager.cpp, handle_tpc_message: what it makes of a transaction.
use qc_database.Prelude.{sym, ◌≡◌, refl, ◌∙◌, false, some, nat_eq, beq_refl}
use qc_database.Std.HashMap.{find, find-insert}
use qc_database.Std.Method.{Outcome, returns, Guarded, at_rest, ◌>>=◌, >>=-returns}
use qc_database.Types.{Result, ok}
use qc_database.Transaction.WaitGraph.{TransactionId}
use qc_database.Transaction.Records.{
  DistributedTransaction, committed, aborted, TpcMessage, prepare_abort, commit_request,
  abort_request,
}
use qc_database.Transaction.Manager.{Manager, put}
use qc_database.Transaction.Manager.Messages.{
  handle_tpc_message, handle_prepare_response, handle_commit_message, handle_abort_message,
  after_vote, in_state, update_found,
}
use qc_database.Transaction.Manager.Queries.{get_transaction_state}

module _ {S : Type 0} (message : TpcMessage) (t : DistributedTransaction) (m : Manager S)
    (e : find message.transaction_id m.transactions ≡ some t) where
  abbrev received :
      (DistributedTransaction → DistributedTransaction)
      → Outcome (Result (Unit {0}) × Guarded (Manager S))
  received f = returns (ok tt, at_rest (put message.transaction_id (f t) m))

  pub handle-prepare_abort :
      message.type ≡ prepare_abort
      → handle_tpc_message message (at_rest m) ≡ received (after_vote message.from_node false)
  unfolding handle_tpc_message handle_prepare_response
  handle-prepare_abort type = rw (type, e, update_found) refl

  pub handle-abort_request :
      message.type ≡ abort_request
      → handle_tpc_message message (at_rest m) ≡ received (in_state aborted)
  unfolding handle_tpc_message handle_abort_message
  handle-abort_request type = rw (type, e, update_found) refl

  pub handle-commit_request :
      message.type ≡ commit_request
      → handle_tpc_message message (at_rest m) ≡ received (in_state committed)
  unfolding handle_tpc_message handle_commit_message
  handle-commit_request type = rw (type, e, update_found) refl

state-put :
    {S : Type 0} (j tx : TransactionId) (t : DistributedTransaction) (n : Manager S)
    → j ≡ tx
    → get_transaction_state j (at_rest (put tx t n)) ≡ returns (t.state, at_rest (put tx t n))
unfolding get_transaction_state
state-put j tx t n same = rw (same, find-insert tx tx t n.transactions, beq_refl tx) refl

-- A commit message that comes after an abort message about the same transaction, which the manager
-- knows, is obeyed: the aborted transaction ends in COMMITTED, and reads so.
pub abort_then_commit :
    {S : Type 0} (first second : TpcMessage) (t : DistributedTransaction) (m : Manager S)
    → find first.transaction_id m.transactions ≡ some t
    → first.type ≡ abort_request
    → second.type ≡ commit_request
    → second.transaction_id ≡ first.transaction_id
    → (n : Manager S) × ((handle_tpc_message first >>= λ _. handle_tpc_message second) (at_rest m)
        ≡ returns (ok tt, at_rest n))
      × (get_transaction_state first.transaction_id (at_rest n) ≡ returns (committed, at_rest n))
abort_then_commit first second t m e a c same =
    let t' = in_state aborted t in
    let n = put first.transaction_id t' m in
    let found =
      find-insert second.transaction_id first.transaction_id t' m.transactions
      ∙ rw (same, beq_refl first.transaction_id) refl in
    (
      put second.transaction_id (in_state committed t') n,
      >>=-returns (handle_tpc_message first) (λ _. handle_tpc_message second) (at_rest m)
            (handle-abort_request first t m e a)
          ∙ handle-commit_request second t' n found c,
      state-put first.transaction_id second.transaction_id (in_state committed t') n (sym same),
    )
