-- ===== src/Transaction/Manager/Commit/TwoPhase.antt =====
-- src/transaction/transaction_manager.cpp: what the calls of a two-phase commit amount to, one after
-- the other, for any lock manager.
use qc_database.Prelude.{
  ℕ, ◌≡◌, refl, ◌∙◌, ap, arith, Bool, true, false, none, some, [], ◌∷◌, if◌then◌else◌, nat_eq,
  list_eq, beq_refl, ◌==◌,
}
use qc_database.Std.HashMap.{HashMap, find, insert, erase, find-insert, find-erase}
use qc_database.Std.Method.{
  returns, undefined, Guarded, Method, ◌>>=◌, at_rest, >>=-undefined, unlocked, >>=-returns, unique,
}
use qc_database.Types.{Result, ok, error, invalid_state, transaction_aborted}
use qc_database.Transaction.WaitGraph.{TransactionId}
use qc_database.Transaction.Records.{
  NodeId, DistributedTransaction, has_expired, active, preparing, prepared, committing, committed,
  aborted, aborting, on_transaction_committed,
}
use qc_database.Transaction.Manager.{
  LockManager, Manager, put, drop_transaction, notify, with_valid, validate_transaction, prepare,
  on_valid, at_found, is_active,
}
use qc_database.Transaction.Manager.Commit.{
  all_prepared, commit_transaction, abort_transaction, send_messages, release_locks,
  apply_transaction_operations, commit_found, voted, commit_refused, finish, commit_prepared,
  abort_found, rollback_transaction_operations, released, on_transaction_aborted,
}

module _ {S A : Type 0} where
  -- An operation on a transaction that is there and has not expired.
  pub with_valid-runs :
      (now : ℕ) (tx : TransactionId) (t : DistributedTransaction)
      (f : DistributedTransaction → Method (Manager S) (Result A)) (g : Guarded (Manager S))
      → find tx g.value.transactions ≡ some t
      → has_expired now t ≡ false
      → with_valid now tx f g ≡ f t g
  unfolding with_valid validate_transaction
  with_valid-runs now tx t f g e young = rw (e, young, on_valid) (rw (e, at_found) refl)

-- A vote that is no is enough.
pub all_prepared-false :
    (node : NodeId) (votes : HashMap NodeId Bool)
    → find node votes ≡ some false
    → all_prepared votes ≡ false
unfolding all_prepared find
all_prepared-false node [] e = cc
all_prepared-false node ((n, vote) ∷ votes) e = ground (arith, all_prepared-false node votes)

module _ {S : Type 0} ⦃lock_service : LockManager S⦄ where
  -- commit of an active transaction one of whose votes is no
  pub commit-refused :
      (clock : ℕ → ℕ) (tx : TransactionId) (t : DistributedTransaction) (m : Manager S)
      → find tx m.transactions ≡ some t
      → has_expired (clock 0) t ≡ false
      → t.state ≡ active
      → all_prepared t.prepare_votes ≡ false
      → (n : Manager S) × (commit_transaction clock tx (at_rest m)
          ≡ returns (error transaction_aborted, at_rest n))
        × (n.lock_manager ≡ m.lock_manager)
        × ((j : TransactionId)
            → find j n.transactions ≡ (if tx == j then none else find j m.transactions))
  unfolding commit_transaction commit_found send_messages
  commit-refused clock tx t m e young on refusal =
      let t' = record t { state = preparing; last_activity = clock 1 } in
      let gone = drop_transaction tx (put tx (record t' { state = aborting }) (put tx t' m)) in
      (
        gone,
        ap unlocked (
              with_valid-runs (clock 0) tx t (commit_found clock tx)
                (record { mutex = unique; value = m }) e young)
            ∙ rw (on, find-insert tx tx t' m.transactions, beq_refl tx, voted)
                (rw (refusal, commit_refused) refl),
        refl,
        λ j. ground (
          arith,
          find-erase j tx
              (insert tx (record t' { state = aborting }) (insert tx t' m.transactions)),
          find-insert j tx (record t' { state = aborting }) (insert tx t' m.transactions),
          find-insert j tx t' m.transactions,
        ),
      )

module _ {S : Type 0} ⦃lock_service : LockManager S⦄ (clock : ℕ → ℕ) (tx : TransactionId)
    (t : DistributedTransaction) (m : Manager S) (e : find tx m.transactions ≡ some t)
    (young : has_expired (clock 0) t ≡ false) where
  pub prepare-active :
      t.state ≡ active
      → prepare clock tx (at_rest m)
        ≡ returns
            (ok tt, at_rest (put tx (record t { state = prepared; last_activity = clock 1 }) m))
  unfolding prepare
  prepare-active on =
      ap unlocked (with_valid-runs (clock 0) tx t _ (record { mutex = unique; value = m }) e young)
      ∙ rw on refl

  pub commit-inactive :
      is_active t.state ≡ false
      → commit_transaction clock tx (at_rest m) ≡ returns (error invalid_state, at_rest m)
  unfolding commit_transaction commit_found
  commit-inactive off =
      ap unlocked (
        with_valid-runs (clock 0) tx t (commit_found clock tx)
          (record { mutex = unique; value = m }) e young)
      ∙ rw off refl

module _ {S : Type 0} ⦃lock_service : LockManager S⦄ (clock : ℕ → ℕ) (tx : TransactionId)
    (t : DistributedTransaction) (m : Manager S) (l : S) (e : find tx m.transactions ≡ some t)
    (young : has_expired (clock 0) t ≡ false) (held : m.lock_manager ≡ some l) where
  -- What the last steps of a commit and of an abort leave in the table.
  gone :
      (t1 t2 t3 : DistributedTransaction) (j : TransactionId)
      → find j (erase tx (insert tx t3 (insert tx t2 (insert tx t1 m.transactions))))
        ≡ (if tx == j then none else find j m.transactions)
  gone t1 t2 t3 j = ground (
    arith,
    find-erase j tx (insert tx t3 (insert tx t2 (insert tx t1 m.transactions))),
    find-insert j tx t3 (insert tx t2 (insert tx t1 m.transactions)),
    find-insert j tx t2 (insert tx t1 m.transactions),
    find-insert j tx t1 m.transactions,
  )

  entered : Guarded (Manager S)
  entered = record { mutex = unique; value = m }

  released-returns :
      (r : Result (Unit {0})) (l' : S) (g : Guarded (Manager S))
      → g.value.lock_manager ≡ some l
      → lock_service.release_all tx l ≡ returns (r, l')
      → release_locks tx g
        ≡ returns (tt, record g { value = record g.value { lock_manager = some l' } })
  unfolding release_locks
  released-returns r l' g has e = rw (has, e, released) refl

  released-undefined :
      (g : Guarded (Manager S))
      → g.value.lock_manager ≡ some l
      → lock_service.release_all tx l ≡ undefined
      → release_locks tx g ≡ undefined
  unfolding release_locks
  released-undefined g has e = rw (has, e, released) refl

  t1 : DistributedTransaction
  t1 = record t { state = preparing; last_activity = clock 1 }

  t2 : DistributedTransaction
  t2 = record t { state = committing; last_activity = clock 2 }

  -- An active transaction with all votes yes gets as far as its locks.
  commit-reaches :
      t.state ≡ active
      → all_prepared t.prepare_votes ≡ true
      → commit_transaction clock tx (at_rest m)
        ≡ unlocked (
            (release_locks tx >>= λ _.
            finish tx (record t2 { state = committed }) (on_transaction_committed tx))
              (record entered { value = put tx t2 (put tx t1 m) }))
  unfolding commit_transaction commit_found send_messages commit_prepared
      apply_transaction_operations t1 t2 entered
  commit-reaches on votes =
      ap unlocked (with_valid-runs (clock 0) tx t (commit_found clock tx) entered e young)
      ∙ rw (on, find-insert tx tx t1 m.transactions, beq_refl tx, voted)
          (rw (votes, find-insert tx tx t2 (insert tx t1 m.transactions), beq_refl tx) refl)

  pub commit-committed :
      (r : Result (Unit {0})) (l' : S)
      → t.state ≡ active
      → all_prepared t.prepare_votes ≡ true
      → lock_service.release_all tx l ≡ returns (r, l')
      → (n : Manager S) × (commit_transaction clock tx (at_rest m) ≡ returns (ok tt, at_rest n))
        × (n.lock_manager ≡ some l')
        × ((j : TransactionId)
            → find j n.transactions ≡ (if tx == j then none else find j m.transactions))
  unfolding finish notify t1 t2 entered
  commit-committed r l' on votes free_all =
      let g = record entered { value = put tx t2 (put tx t1 m) } in
      let after = record g.value { lock_manager = some l' } in
      let n =
        drop_transaction tx
          (notify (on_transaction_committed tx) (put tx (record t2 { state = committed }) after)) in
      (
        n,
        commit-reaches on votes
            ∙ ap unlocked (
                >>=-returns (release_locks tx)
                  (λ _. finish tx (record t2 { state = committed }) (on_transaction_committed tx)) g
                  (released-returns r l' g held free_all)),
        refl,
        gone t1 t2 (record t2 { state = committed }),
      )

  pub commit-undefined :
      t.state ≡ active
      → all_prepared t.prepare_votes ≡ true
      → lock_service.release_all tx l ≡ undefined
      → commit_transaction clock tx (at_rest m) ≡ undefined
  commit-undefined on votes never =
      commit-reaches on votes
      ∙ ap unlocked (
          >>=-undefined (release_locks tx)
            (λ _. finish tx (record t2 { state = committed }) (on_transaction_committed tx))
            (record entered { value = put tx t2 (put tx t1 m) }) (released-undefined _ held never))

  pub abort-undefined :
      lock_service.release_all tx l ≡ undefined → abort_transaction clock tx (at_rest m) ≡ undefined
  unfolding abort_transaction abort_found rollback_transaction_operations entered
  abort-undefined never =
      let t3 = record t { state = aborting; last_activity = clock 1 } in
      ap unlocked (
        with_valid-runs (clock 0) tx t (abort_found clock tx) entered e young
        ∙ >>=-undefined (release_locks tx)
            (λ _. finish tx (record t3 { state = aborted }) (on_transaction_aborted tx))
            (record entered { value = put tx t3 m }) (released-undefined _ held never))
