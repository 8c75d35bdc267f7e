-- ===== src/Transaction/Manager/Begin.antt =====
-- src/transaction/transaction_manager.cpp, begin_transaction, with the queries that follow it.
use qc_database.Std.HashSet.{contains}
use qc_database.Prelude.{
  some, List, [], ◌∷◌, refl, ◌∙◌, arith, beq_refl, ℕ, ◌+◌, ◌≡◌, if◌then◌else◌, nat_eq, Bool-cases,
  inl, inr, ◌==◌, ◌&&◌, true,
}
use qc_database.Std.HashMap.{find-insert, find, HashMap, insert}
use qc_database.Std.Method.{◌>>=◌, Outcome, returns, undefined, at_rest}
use qc_database.Types.{ok, error, service_unavailable}
use qc_database.Transaction.WaitGraph.{TransactionId}
use qc_database.Transaction.Records.{active, IsolationLevel, TransactionState}
use qc_database.Transaction.Manager.{
  Manager, begin_transaction, notify, started, on_transaction_started, put, DistributedTransaction,
  is_active,
}
use qc_database.Transaction.Manager.Queries.{
  get_transaction_state, get_active_transactions, active_ids,
}

-- What a manager answers about every transaction.
abbrev pub state_answer : {S : Type 0} → TransactionId → Manager S → Outcome TransactionState
state_answer tx m = elim (get_transaction_state tx (at_rest m)) [
  | returns (state, g) ↦ returns state
  | undefined ↦ undefined
]

-- begin_transaction of a running manager returns the next id, from then on reads that id as ACTIVE
-- and every other one as before, and has one id more to give; a manager that is not running returns
-- SERVICE_UNAVAILABLE and stays as it is.
pub begin_transaction_lem :
    {S : Type 0} (now : ℕ) (isolation : IsolationLevel) (m : Manager S)
    → (n : Manager S) × (begin_transaction now isolation (at_rest m)
        ≡ returns (
          if m.is_running then ok m.next_transaction_id else error service_unavailable,
          at_rest n,
        ))
      × (n.next_transaction_id
          ≡ (if m.is_running then m.next_transaction_id + 1 else m.next_transaction_id))
      × ((tx : TransactionId)
          → state_answer tx n ≡ (
              if (m.is_running && m.next_transaction_id == tx)
              then returns active
              else state_answer tx m))
unfolding begin_transaction get_transaction_state notify
begin_transaction_lem now isolation m = elim (Bool-cases m.is_running) [
  | inl running ↦
      let next = m.next_transaction_id in
      let t = started next now isolation m.default_timeout in
      (
        notify (on_transaction_started next)
            (put next t (record m { next_transaction_id = next + 1 })),
        rw running refl,
        rw running refl,
        λ tx. elim (Bool-cases (next == tx)) [
          | inl same ↦ rw (running, find-insert tx next t m.transactions, same) refl
          | inr other ↦ rw (running, find-insert tx next t m.transactions, other) refl
        ],
      )
  | inr stopped ↦ (m, rw stopped refl, rw stopped refl, λ tx. rw stopped refl)
]

active_ids_complete :
    (tx : TransactionId) (t : DistributedTransaction)
    (m : HashMap TransactionId DistributedTransaction)
    → find tx m ≡ some t
    → is_active t.state ≡ true
    → contains tx (active_ids m) ≡ true
unfolding find active_ids contains
active_ids_complete tx t [] e on = cc
active_ids_complete tx t ((j, k) ∷ m) e on = ground (arith, active_ids_complete tx t m)

-- The transaction that a running manager has just begun is among those that get_active_transactions
-- then lists.
pub begun_is_listed :
    {S : Type 0} (now : ℕ) (isolation : IsolationLevel) (m : Manager S)
    → m.is_running ≡ true
    → (ids : List TransactionId) × (n : Manager S) × ((begin_transaction now isolation >>= λ _.
            get_active_transactions)
          (at_rest m)
        ≡ returns (ids, at_rest n))
      × (contains m.next_transaction_id ids ≡ true)
unfolding begin_transaction get_active_transactions notify
begun_is_listed now isolation m running =
    let next = m.next_transaction_id in
    let t = started next now isolation m.default_timeout in
    (
      active_ids (insert next t m.transactions),
      notify (on_transaction_started next)
          (put next t (record m { next_transaction_id = next + 1 })),
      rw running refl,
      active_ids_complete next t (insert next t m.transactions)
          (find-insert next next t m.transactions ∙ rw (beq_refl next) refl) refl,
    )
