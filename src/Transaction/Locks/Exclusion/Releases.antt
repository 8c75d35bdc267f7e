-- ===== src/Transaction/Locks/Exclusion/Releases.antt =====
-- src/transaction/transaction_manager.cpp, DefaultLockManager::release_lock: it keeps the tables
-- consistent.
use qc_database.Std.Method.{at_rest, returns}
use qc_database.Prelude.{
  ◌≡◌, refl, inl, inr, false, ◌&&◌, arith, none, List, [], ◌∷◌, Eq, if◌then◌else◌, nat_eq,
  Option-cases, Option, some, Bool, ◌==◌,
}
use qc_database.Std.HashMap.{HashMap, find, find-insert, find-erase}
use qc_database.Std.HashSet.{contains, contains-erase}
use qc_database.Std.HashSet
use qc_database.Types.{key_eq, key_beq, MultiLevelKey}
use qc_database.Transaction.WaitGraph.{TransactionId}
use qc_database.Transaction.Locks.{
  Locks, LockId, LockInfo, ids_of, set_of, Result, error, not_found, ok,
}
use qc_database.Transaction.Locks.Release.{
  forget, put_back, without_lock, release_lock, release_found,
}
use qc_database.Transaction.Locks.Exclusion.{IsConsistent}

-- What a table's entry holds after an id has been erased from the entry of k.
find-put_back :
    {K : Type 0} ⦃e : Eq K⦄ (k j : K) (ids : List LockId) (m : HashMap K (List LockId))
    → ids_of (find j (put_back k ids m)) ≡ (if e.beq k j then ids else ids_of (find j m))
find-put_back k j [] m = ground (arith, find-erase j k m)
find-put_back k j (id ∷ ids) m = ground (arith, find-insert j k (id ∷ ids) m)

contains-forget :
    {K : Type 0} ⦃e : Eq K⦄ (id i : LockId) (k j : K) (m : HashMap K (List LockId))
    → contains i (ids_of (find j (forget id k (find k m) m)))
      ≡ (if e.beq k j && nat_eq.beq id i then false else contains i (ids_of (find j m)))
unfolding forget contains
contains-forget ⦃e = e⦄ id i k j m = elim (Option-cases (find k m)) [
  | inl missing ↦ rw missing (ground (arith, e.beq_iff k j))
  | inr (ids, found) ↦ rw found (
      ground
        (arith, find-put_back k j (HashSet.erase id ids) m, contains-erase i id ids, e.beq_iff k j))
]

-- The tables without a lock are consistent.
pub without_lock-IsConsistent :
    (id : LockId) (l : LockInfo) (s : Locks) → IsConsistent s → IsConsistent (without_lock id l s)
unfolding without_lock
without_lock-IsConsistent id l s v = record {
  fresh = λ i m f. ground (arith, find-erase i id s.locks, v.fresh i m);
  indexed = λ i m f.
      ground (
        arith,
        find-erase i id s.locks,
        v.indexed i m,
        contains-forget id i l.key m.key s.key_locks,
      );
  owned = λ i m f. ground (
    arith,
    find-erase i id s.locks,
    v.owned i m,
    contains-forget id i l.transaction_id m.transaction_id s.transaction_locks,
  );
  compatible = λ i j m n f g k ne.
      ground (arith, find-erase i id s.locks, find-erase j id s.locks, v.compatible i j m n);
}

-- What release_lock finds under the id, tested.
abbrev pub found_and : (LockInfo → Bool) → Option LockInfo → Bool
found_and test none = false
found_and test (some l) = test l

abbrev pub status_of : Option LockInfo → Result (Unit {0})
status_of none = error not_found
status_of (some l) = ok tt

-- The tables `t` are the tables `s` without the lock: no record under its id, its id neither in the
-- entry of its key nor in that of its transaction, and everything else as it was.
pub record IsWithout (id : LockId) (s t : Locks) : Type 0 where
  pub recorded : (i : LockId) → find i t.locks ≡ (if id == i then none else find i s.locks)
  pub indexed :
      (i : LockId) (k : MultiLevelKey)
      → contains i (ids_of (find k t.key_locks)) ≡ (
          if found_and (λ l. key_beq l.key k) (find id s.locks) && (id == i)
          then false
          else contains i (ids_of (find k s.key_locks)))
  pub owned :
      (i : LockId) (tx : TransactionId)
      → contains i (set_of (find tx t.transaction_locks)) ≡ (
          if found_and (λ l. l.transaction_id == tx) (find id s.locks) && (id == i)
          then false
          else contains i (set_of (find tx s.transaction_locks)))
  pub waiting : t.wait_graph ≡ s.wait_graph
  pub counter : t.next_lock_id ≡ s.next_lock_id

missing-IsWithout : (id : LockId) (s : Locks) → find id s.locks ≡ none → IsWithout id s s
missing-IsWithout id s missing = record {
  recorded = λ i. ground arith;
  indexed = λ i k. rw missing refl;
  owned = λ i tx. rw missing refl;
  waiting = refl;
  counter = refl;
}

without_lock-IsWithout :
    (id : LockId) (l : LockInfo) (s : Locks)
    → find id s.locks ≡ some l
    → IsWithout id s (without_lock id l s)
unfolding without_lock
without_lock-IsWithout id l s found = record {
  recorded = λ i. find-erase i id s.locks;
  indexed = λ i k. rw found (contains-forget id i l.key k s.key_locks);
  owned = λ i tx. rw found (contains-forget id i l.transaction_id tx s.transaction_locks);
  waiting = refl;
  counter = refl;
}

-- release_lock of an id, from consistent tables that nobody has locked, returns OK if there is a
-- lock with that id and NOT_FOUND if there is none, and leaves the tables consistent and unlocked.
-- The lock is then gone from all three: no record has its id, and its id is neither in the entry of
-- its key nor in that of its transaction. Every other record and every other id in an entry is as it
-- was, and so are the wait graph and the counter of ids.
pub release_lock-IsConsistent :
    (id : LockId) (s : Locks)
    → IsConsistent s
    → (t : Locks) × (release_lock id (at_rest s) ≡ returns (status_of (find id s.locks), at_rest t))
      × IsConsistent t
      × IsWithout id s t
unfolding release_lock
release_lock-IsConsistent id s v = elim (Option-cases (find id s.locks)) [
  | inl missing ↦ (s, rw (missing, release_found) refl, v, missing-IsWithout id s missing)
  | inr (l, found) ↦ (
    without_lock id l s,
    rw (found, release_found) refl,
    without_lock-IsConsistent id l s v,
    without_lock-IsWithout id l s found,
  )
]
