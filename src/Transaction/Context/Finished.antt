-- ===== src/Transaction/Context/Finished.antt =====
-- src/transaction/transaction_manager.cpp, TransactionContext: what a finished context lets through.
use qc_database.Prelude.{ℕ, ◌≡◌, refl, true, sym, Bool-cases, inl, inr}
use qc_database.Std.Method.{Outcome, returns, undefined, Guarded}
use qc_database.Types.{Result, ok, error, invalid_state}
use qc_database.Transaction.Manager.{LockManager, Manager}
use qc_database.Transaction.Manager.Commit.{commit_transaction}
use qc_database.Transaction.Context.{
  TransactionContext, is_finished, guarded, commit, abort, destroy, carried, committed_on_ok,
}

-- A finished context refuses both ways of ending it, and its destructor does nothing.
finished_lem :
    {S : Type 0} ⦃lock_service : LockManager S⦄ (clock : ℕ → ℕ) (c : TransactionContext)
    (g : Guarded (Manager S))
    → is_finished c ≡ true
    → (commit clock c g ≡ returns (error invalid_state, c, g))
      × (abort clock c g ≡ returns (error invalid_state, c, g))
      × (destroy clock c g ≡ returns (ok tt, c, g))
unfolding commit abort destroy guarded
finished_lem clock c g e = (rw e refl, rw e refl, rw e refl)

context_of :
    {A B : Type 0} {a b : A} {x y : TransactionContext} {g h : B}
    → ◌≡◌ {A = Outcome (A × TransactionContext × B)} (returns (a, x, g)) (returns (b, y, h))
    → x ≡ y
context_of e = cc

committed-finished :
    {S : Type 0} (c c' : TransactionContext) (g' : Guarded (Manager S))
    (o : Outcome (Result (Unit {0}) × Guarded (Manager S)))
    → carried (committed_on_ok c) o ≡ returns (ok tt, c', g')
    → is_finished c' ≡ true
unfolding carried
committed-finished c c' g' undefined e = cc
committed-finished c c' g' (returns (ok _, g)) e = rw (sym (context_of e)) refl
committed-finished c c' g' (returns (error status, g)) e = cc

-- A context is committed once: after a commit that returned OK, another commit and an abort are
-- refused with INVALID_STATE, and the destructor does not abort, whatever the clock says; none of
-- them touches the manager.
pub committed_once :
    {S : Type 0} ⦃lock_service : LockManager S⦄ (clock later : ℕ → ℕ) (c c' : TransactionContext)
    (g g' : Guarded (Manager S))
    → commit clock c g ≡ returns (ok tt, c', g')
    → (commit later c' g' ≡ returns (error invalid_state, c', g'))
      × (abort later c' g' ≡ returns (error invalid_state, c', g'))
      × (destroy later c' g' ≡ returns (ok tt, c', g'))
unfolding commit guarded
committed_once clock later c c' g g' e = elim (Bool-cases (is_finished c)) [
  | inl done ↦ cc (e, done)
  | inr going ↦
      finished_lem later c' g'
        (committed-finished c c' g' (commit_transaction clock c.transaction_id g) (rw going at e))
]
