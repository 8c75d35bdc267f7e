-- ===== src/Transaction/Manager/Messages.antt =====
-- src/transaction/transaction_manager.cpp, DefaultTransactionManager: the messages of the two-phase
-- commit that another node sends. A message about an unknown transaction is ignored.
pub mod Laws
use qc_database.Prelude.{Bool, true, false, Option, none, some, list_eq, nat_eq}
use qc_database.Std.HashMap
use qc_database.Std.Method.{Outcome, returns, Guarded, Method, with_unique}
use qc_database.Types.{Result, ok, error, invalid_argument}
use qc_database.Transaction.WaitGraph.{TransactionId}
use qc_database.Transaction.Records.{
  NodeId, DistributedTransaction, TransactionState, prepared, committed, aborted, TpcMessage,
  TwoPhaseCommitMessage, prepare_request, prepare_ok, prepare_abort, commit_request, commit_ok,
  abort_request, abort_ok,
}
use qc_database.Transaction.Manager.{Manager, put}

-- What a handler makes of the transaction that it finds.
unfoldable pub after_vote : NodeId → Bool → DistributedTransaction → DistributedTransaction
after_vote node vote t = record t { prepare_votes = HashMap.insert node vote t.prepare_votes }

abbrev pub in_state : TransactionState → DistributedTransaction → DistributedTransaction
in_state state t = record t { state = state }

abbrev is_vote : TwoPhaseCommitMessage → Bool
is_vote prepare_ok = true
is_vote _ = false

module _ {S : Type 0} where
  update_found :
      TransactionId
      → (DistributedTransaction → DistributedTransaction)
      → Option DistributedTransaction
      → Manager S
      → Manager S
  update_found tx f none m = m
  update_found tx f (some t) m = put tx (f t) m

  abbrev update :
      TransactionId → (DistributedTransaction → DistributedTransaction) → Manager S → Manager S
  update tx f m = update_found tx f (HashMap.find tx m.transactions) m

  -- can_commit is always true.
  unfoldable pub handle_prepare_message : TpcMessage → Manager S → Manager S
  unfolding update_found
  handle_prepare_message message = update message.transaction_id (in_state prepared)

  unfoldable pub handle_prepare_response : TpcMessage → Manager S → Manager S
  unfolding update_found
  handle_prepare_response message =
      update message.transaction_id (after_vote message.from_node (is_vote message.type))

  unfoldable pub handle_commit_message : TpcMessage → Manager S → Manager S
  unfolding update_found
  handle_commit_message message = update message.transaction_id (in_state committed)

  unfoldable pub handle_abort_message : TpcMessage → Manager S → Manager S
  unfolding update_found
  handle_abort_message message = update message.transaction_id (in_state aborted)

  handled : (Manager S → Manager S) → Method (Manager S) (Result (Unit {0}))
  handled f g = returns (ok tt, record g { value = f g.value })

  dispatch : TwoPhaseCommitMessage → TpcMessage → Method (Manager S) (Result (Unit {0}))
  unfolding handled
  dispatch prepare_request message = handled (handle_prepare_message message)
  dispatch prepare_ok message = handled (handle_prepare_response message)
  dispatch prepare_abort message = handled (handle_prepare_response message)
  dispatch commit_request message = handled (handle_commit_message message)
  dispatch abort_request message = handled (handle_abort_message message)
  dispatch _ message = λ g. returns (error invalid_argument, g)

  unfoldable pub handle_tpc_message : TpcMessage → Method (Manager S) (Result (Unit {0}))
  unfolding dispatch
  handle_tpc_message message = with_unique (dispatch message.type message)
