-- ===== src/Transaction/Locks/Release.antt =====
-- src/transaction/transaction_manager.cpp, DefaultLockManager: the calls that give locks back.
use qc_database.Prelude.{nat_eq, if◌then◌else◌, Eq, none, some, [], Option, ℕ, List, ◌∷◌, ltb}
use qc_database.Std.HashMap
use qc_database.Std.HashMap.{HashMap}
use qc_database.Std.HashSet
use qc_database.Std.HashSet.{HashSet}
use qc_database.Std.Method.{Method, ◌>>=◌, ◌>>◌, pure, modify, with_unique, body}
use qc_database.Types.{Result, ok, error, not_found, invalid_argument, key_eq}
use qc_database.Transaction.WaitGraph.{TransactionId}
use qc_database.Transaction.Locks.{Locks, LockId, LockInfo, is_expired}

-- Erasing from the vector or the set of a table's entry, and the entry if nothing is left.
abbrev pub put_back :
    {K : Type 0} ⦃e : Eq K⦄ → K → List LockId → HashMap K (List LockId) → HashMap K (List LockId)
put_back k [] m = HashMap.erase k m
put_back k (id ∷ ids) m = HashMap.insert k (id ∷ ids) m

unfoldable pub forget :
    {K : Type 0} ⦃e : Eq K⦄
    → LockId
    → K
    → Option (List LockId)
    → HashMap K (List LockId)
    → HashMap K (List LockId)
forget id k none m = m
forget id k (some ids) m = put_back k (HashSet.erase id ids) m

unfoldable pub without_lock : LockId → LockInfo → Locks → Locks
without_lock id l s = record s {
  locks = HashMap.erase id s.locks;
  key_locks = forget id l.key (HashMap.find l.key s.key_locks) s.key_locks;
  transaction_locks =
      forget id l.transaction_id (HashMap.find l.transaction_id s.transaction_locks)
        s.transaction_locks;
}

pub release_found : LockId → Option LockInfo → Locks → Result (Unit {0}) × Locks
release_found id none s = (error not_found, s)
release_found id (some l) s = (ok tt, without_lock id l s)

unfoldable pub release_lock : LockId → Method Locks (Result (Unit {0}))
unfolding release_found
release_lock id = with_unique (body λ s. release_found id (HashMap.find id s.locks) s)

unfoldable pub release_each : List LockId → Method Locks (Unit {0})
release_each [] = pure tt
release_each (id ∷ ids) = release_lock id >>= λ _. release_each ids

pub release_held : TransactionId → Option (HashSet LockId) → Method Locks (Result (Unit {0}))
release_held tx none = pure (ok tt)
release_held tx (some ids) = do
  release_each ids
  modify (λ s. record s { wait_graph = HashMap.erase tx s.wait_graph })
  pure (ok tt)

unfoldable pub release_all_locks : TransactionId → Method Locks (Result (Unit {0}))
unfolding release_held
release_all_locks tx =
    with_unique λ g. release_held tx (HashMap.find tx g.value.transaction_locks) g

max_of : TransactionId → List TransactionId → TransactionId
max_of best [] = best
max_of best (tx ∷ txs) = max_of (if ltb best tx then tx else best) txs

unfoldable pub resolve_deadlock : List TransactionId → Method Locks (Result (Unit {0}))
unfolding max_of
resolve_deadlock [] = pure (error invalid_argument)
resolve_deadlock (tx ∷ txs) = release_all_locks (max_of tx txs)

unfoldable pub expired_ids : ℕ → HashMap LockId LockInfo → List LockId
expired_ids now [] = []
expired_ids now ((id, l) ∷ locks) =
    if is_expired now l then id ∷ expired_ids now locks else expired_ids now locks

unfoldable pub cleanup_expired_locks : ℕ → Method Locks (Unit {0})
unfolding expired_ids
cleanup_expired_locks now = with_unique λ g. release_each (expired_ids now g.value.locks) g
