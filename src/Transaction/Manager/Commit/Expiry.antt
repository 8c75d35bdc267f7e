-- ===== src/Transaction/Manager/Commit/Expiry.antt =====
-- src/transaction/transaction_manager.cpp, cleanup_expired_transactions: it aborts what has expired,
-- under the mutex that abort_transaction locks.
use qc_database.Prelude.{
  ℕ, ◌≡◌, refl, arith, true, some, List, [], ◌∷◌, nat_eq, Bool-cases, inl, inr,
}
use qc_database.Std.HashMap.{HashMap, find}
use qc_database.Std.Method.{undefined, at_rest}
use qc_database.Transaction.WaitGraph.{TransactionId}
use qc_database.Transaction.Records.{DistributedTransaction, has_expired}
use qc_database.Transaction.Manager.{LockManager, Manager}
use qc_database.Transaction.Manager.Commit.{
  expired_transactions, abort_each, abort_transaction, cleanup_expired_transactions,
}

expired_transactions-found :
    (now : ℕ) (tx : TransactionId) (t : DistributedTransaction)
    (m : HashMap TransactionId DistributedTransaction)
    → find tx m ≡ some t
    → has_expired now t ≡ true
    → (i : TransactionId) × (rest : List TransactionId) × (expired_transactions now m ≡ i ∷ rest)
unfolding find expired_transactions
expired_transactions-found now tx t [] e x = cc
expired_transactions-found now tx t ((j, k) ∷ m) e x = elim (Bool-cases (has_expired now k)) [
  | inl old ↦ (j, expired_transactions now m, rw old refl)
  | inr young ↦
      let (i, rest, f) = expired_transactions-found now tx t m (ground (arith, e, x, young)) x in
      (i, rest, rw young f)
]

-- The cleanup of a manager that nobody has locked is undefined as soon as one transaction of its
-- table has expired.
pub cleanup_expired_transactions_lem :
    {S : Type 0} ⦃lock_service : LockManager S⦄ (clock : ℕ → ℕ) (tx : TransactionId)
    (t : DistributedTransaction) (m : Manager S)
    → find tx m.transactions ≡ some t
    → has_expired (clock 0) t ≡ true
    → cleanup_expired_transactions clock (at_rest m) ≡ undefined
unfolding cleanup_expired_transactions abort_each abort_transaction
cleanup_expired_transactions_lem clock tx t m e x =
    let (i, rest, f) = expired_transactions-found (clock 0) tx t m.transactions e x in rw f refl
