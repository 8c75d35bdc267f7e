-- ===== src/Transaction/Locks/Exclusion.antt =====
-- src/transaction/transaction_manager.cpp, DefaultLockManager: the tables agree with one another,
-- and locks of different transactions on one key are compatible.
pub mod Releases
pub mod Calls
use qc_database.Prelude.{
  ℕ, zero, suc, ◌+◌, ◌<◌, ◌≡◌, refl, ap, sym, ◌∙◌, inl, inr, Bool, true, false, ◌||◌, List, [], ◌∷◌,
  ◌++◌, arith, ◌==◌, ==_iff, Option, none, some, if◌then◌else◌, Bool-cases, Option-cases, nat_eq,
  beq_refl,
}
use qc_database.Std.HashMap.{find, insert, erase, find-insert, find-erase}
use qc_database.Std.HashSet.{contains, contains-insert, contains-erase, contains-append}
use qc_database.Std.HashSet
use qc_database.Types.{MultiLevelKey, key_eq, key_beq, key_beq_iff}
use qc_database.Transaction.WaitGraph.{TransactionId}
use qc_database.Transaction.Locks.{
  Locks, LockId, LockType, shared, exclusive, intention_shared, intention_exclusive, LockInfo,
  obstacle, first_conflict, is_lock_compatible, grant, ids_of, set_of, no_locks,
}

-- The compatibility table is symmetric.
pub is_lock_compatible_symm : (a b : LockType) → is_lock_compatible a b ≡ is_lock_compatible b a
unfolding is_lock_compatible
is_lock_compatible_symm a b = ground arith

pub record IsConsistent (s : Locks) : Type 0 where
  pub fresh : (id : LockId) (l : LockInfo) → find id s.locks ≡ some l → id < s.next_lock_id
  pub indexed :
      (id : LockId) (l : LockInfo)
      → find id s.locks ≡ some l
      → contains id (ids_of (find l.key s.key_locks)) ≡ true
  pub owned :
      (id : LockId) (l : LockInfo)
      → find id s.locks ≡ some l
      → contains id (set_of (find l.transaction_id s.transaction_locks)) ≡ true
  pub compatible :
      (i j : LockId) (l m : LockInfo)
      → find i s.locks ≡ some l
      → find j s.locks ≡ some m
      → l.key ≡ m.key
      → (l.transaction_id == m.transaction_id) ≡ false
      → is_lock_compatible l.type m.type ≡ true

pub no_locks-IsConsistent : IsConsistent no_locks
unfolding find
no_locks-IsConsistent = record {
  fresh = λ id l e. cc;
  indexed = λ id l e. cc;
  owned = λ id l e. cc;
  compatible = λ i j l m e f k ne. cc;
}

-- A lock in the list that is not the first conflict, when there is none.
first_conflict-none :
    (tx : TransactionId) (type : LockType) (s : Locks) (ids : List LockId) (id : LockId)
    (l : LockInfo)
    → first_conflict tx type s.locks ids ≡ none
    → contains id ids ≡ true
    → find id s.locks ≡ some l
    → (l.transaction_id == tx) ≡ false
    → is_lock_compatible l.type type ≡ true
unfolding first_conflict contains
first_conflict-none tx type s [] id l n c e ne = cc
first_conflict-none tx type s (i ∷ ids) id l n c e ne =
    ground (arith, first_conflict-none tx type s ids id l)

module _ (now : ℕ) (tx : TransactionId) (key : MultiLevelKey) (type : LockType) (timeout : ℕ)
    (s : Locks) (v : IsConsistent s) (free : obstacle tx key type s ≡ none) where
  after : Locks
  after = grant now tx key type timeout s

  new : LockInfo
  new = record {
    lock_id = s.next_lock_id;
    type = type;
    transaction_id = tx;
    key = key;
    acquired_at = now;
    timeout = timeout;
  }

  find-after :
      (id : LockId)
      → find id after.locks ≡ (if s.next_lock_id == id then some new else find id s.locks)
  unfolding after grant new
  find-after id = find-insert id s.next_lock_id new s.locks

  fresh-after :
      (id : LockId) (l : LockInfo) → find id after.locks ≡ some l → id < after.next_lock_id
  unfolding after grant
  fresh-after id l e = ground (arith, find-after id, v.fresh id l)

  indexed-after :
      (id : LockId) (l : LockInfo)
      → find id after.locks ≡ some l
      → contains id (ids_of (find l.key after.key_locks)) ≡ true
  unfolding after grant new contains
  indexed-after id l e = ground (
    arith,
    find-after id,
    v.indexed id l,
    key_beq_iff key l.key,
    beq_refl key,
    find-insert l.key key (ids_of (find key s.key_locks) ++ s.next_lock_id ∷ []) s.key_locks,
    contains-append id (ids_of (find key s.key_locks)) (s.next_lock_id ∷ []),
  )

  owned-after :
      (id : LockId) (l : LockInfo)
      → find id after.locks ≡ some l
      → contains id (set_of (find l.transaction_id after.transaction_locks)) ≡ true
  unfolding after grant new
  owned-after id l e = ground (
    arith,
    find-after id,
    v.owned id l,
    find-insert l.transaction_id tx
        (HashSet.insert s.next_lock_id (set_of (find tx s.transaction_locks))) s.transaction_locks,
    contains-insert id s.next_lock_id (set_of (find tx s.transaction_locks)),
  )

  compatible-new :
      (j : LockId) (m : LockInfo)
      → find j s.locks ≡ some m
      → key ≡ m.key
      → (m.transaction_id == tx) ≡ false
      → is_lock_compatible m.type type ≡ true
  unfolding obstacle
  compatible-new j m f k ne =
      first_conflict-none tx type s (ids_of (find key s.key_locks)) j m free
        (rw k (v.indexed j m f)) f ne

  compatible-after :
      (i j : LockId) (l m : LockInfo)
      → find i after.locks ≡ some l
      → find j after.locks ≡ some m
      → l.key ≡ m.key
      → (l.transaction_id == m.transaction_id) ≡ false
      → is_lock_compatible l.type m.type ≡ true
  unfolding new
  compatible-after i j l m e f k ne = ground (
    arith,
    find-after i,
    find-after j,
    compatible-new j m,
    compatible-new i l,
    is_lock_compatible_symm m.type type,
    v.compatible i j l m,
  )

pub grant-IsConsistent :
    (now : ℕ) (tx : TransactionId) (key : MultiLevelKey) (type : LockType) (timeout : ℕ) (s : Locks)
    → IsConsistent s
    → obstacle tx key type s ≡ none
    → IsConsistent (grant now tx key type timeout s)
unfolding after
grant-IsConsistent now tx key type timeout s v free = record {
  fresh = fresh-after now tx key type timeout s v free;
  indexed = indexed-after now tx key type timeout s v free;
  owned = owned-after now tx key type timeout s v free;
  compatible = compatible-after now tx key type timeout s v free;
}
