-- ===== src/Transaction/Locks/Teardown.antt =====
-- src/transaction/transaction_manager.cpp, release_all_locks and cleanup_expired_locks: they call
-- release_lock under the mutex that it locks.
use qc_database.Prelude.{
  ◌≡◌, refl, inl, inr, ℕ, suc, true, arith, none, some, List, [], ◌∷◌, Bool-cases, nat_eq, ◌∙◌,
  beq_refl,
}
use qc_database.Std.HashMap.{HashMap, find, find-insert}
use qc_database.Std.HashSet.{contains}
use qc_database.Std.HashSet
use qc_database.Std.Method.{returns, undefined, ◌>>=◌, at_rest, >>=-returns}
use qc_database.Types.{MultiLevelKey, ok}
use qc_database.Transaction.WaitGraph.{TransactionId}
use qc_database.Transaction.Locks.{
  Locks, LockId, LockType, LockInfo, World, obstacle, acquire_lock, grant, set_of, is_expired,
}
use qc_database.Transaction.Locks.Release.{
  release_lock, release_each, release_held, release_all_locks, expired_ids, cleanup_expired_locks,
}
use qc_database.Transaction.Locks.Conflict.{request-none}

-- Without locks in the table the call changes nothing.
pub release_all_locks-none :
    (tx : TransactionId) (s : Locks)
    → find tx s.transaction_locks ≡ none
    → release_all_locks tx (at_rest s) ≡ returns (ok tt, at_rest s)
unfolding release_all_locks
release_all_locks-none tx s e = rw (e, release_held) refl

pub release_all_locks-undefined :
    (tx : TransactionId) (id : LockId) (ids : List LockId) (s : Locks)
    → find tx s.transaction_locks ≡ some (id ∷ ids)
    → release_all_locks tx (at_rest s) ≡ undefined
unfolding release_all_locks release_each release_lock
release_all_locks-undefined tx id ids s e = rw (e, release_held) refl

insert-some :
    (a : LockId) (s : HashSet.HashSet LockId)
    → (x : LockId) × (xs : List LockId) × (HashSet.insert a s ≡ x ∷ xs)
unfolding HashSet.insert contains
insert-some a [] = (a, [], refl)
insert-some a (x ∷ s) = elim (Bool-cases (contains a (x ∷ s))) [
  | inl old ↦ (x, s, rw old refl)
  | inr new ↦ (a, x ∷ s, rw new refl)
]

-- A lock that is granted has an owner with a lock in its set.
pub grant-owner :
    (now : ℕ) (tx : TransactionId) (key : MultiLevelKey) (type : LockType) (timeout : ℕ) (s : Locks)
    → (id : LockId) × (ids : List LockId) × (find tx
          (grant now tx key type timeout s).transaction_locks
        ≡ some (id ∷ ids))
unfolding grant
grant-owner now tx key type timeout s =
    let (id, ids, e) = insert-some s.next_lock_id (set_of (find tx s.transaction_locks)) in
    (
      id,
      ids,
      find-insert tx tx (HashSet.insert s.next_lock_id (set_of (find tx s.transaction_locks)))
            s.transaction_locks
          ∙ rw (beq_refl tx, e) refl,
    )

-- A transaction that a request has granted a lock cannot give its locks back: release_all_locks
-- after the request is undefined.
pub granted_never_released :
    (fuel : ℕ) (w : World) (tx : TransactionId) (key : MultiLevelKey) (type : LockType)
    (timeout : ℕ) (s : Locks)
    → obstacle tx key type s ≡ none
    → (acquire_lock (suc (suc fuel)) w tx key type timeout >>= λ _. release_all_locks tx)
        (at_rest s)
      ≡ undefined
granted_never_released fuel w tx key type timeout s e =
    let (id, ids, f) = grant-owner (w.clock 0) tx key type timeout s in
    >>=-returns (acquire_lock (suc (suc fuel)) w tx key type timeout) (λ _. release_all_locks tx)
      (at_rest s) (request-none fuel w tx key type timeout s e)
    ∙ release_all_locks-undefined tx id ids (grant (w.clock 0) tx key type timeout s) f

expired_ids-found :
    (now : ℕ) (id : LockId) (l : LockInfo) (m : HashMap LockId LockInfo)
    → find id m ≡ some l
    → is_expired now l ≡ true
    → (i : LockId) × (ids : List LockId) × (expired_ids now m ≡ i ∷ ids)
unfolding find expired_ids
expired_ids-found now id l [] e x = cc
expired_ids-found now id l ((j, k) ∷ m) e x = elim (Bool-cases (is_expired now k)) [
  | inl old ↦ (j, expired_ids now m, rw old refl)
  | inr young ↦
      let (i, ids, f) = expired_ids-found now id l m (ground (arith, e, x, young)) x in
      (i, ids, rw young f)
]

-- cleanup_expired_locks is undefined as soon as one lock of the table has expired.
pub cleanup_expired_locks-undefined :
    (now : ℕ) (id : LockId) (l : LockInfo) (s : Locks)
    → find id s.locks ≡ some l
    → is_expired now l ≡ true
    → cleanup_expired_locks now (at_rest s) ≡ undefined
unfolding cleanup_expired_locks release_each release_lock
cleanup_expired_locks-undefined now id l s e x =
    let (i, ids, f) = expired_ids-found now id l s.locks e x in rw f refl
