-- ===== src/Transaction/Locks.antt =====
-- src/transaction/transaction_manager.cpp, DefaultLockManager: the lock tables under their mutex.
pub mod Release
pub mod Queries
pub mod Exclusion
pub mod Conflict
pub mod Teardown
use qc_database.Prelude.{
  Eq, ℕ, zero, suc, ◌+◌, ◌-◌, Bool, true, false, not, ◌&&◌, ◌||◌, Option, none, some, List, [], ◌∷◌,
  ◌++◌, ltb, leb, ◌==◌, length, if◌then◌else◌, nat_eq,
}
use qc_database.Std.HashMap
use qc_database.Std.HashMap.{HashMap}
use qc_database.Std.HashSet
use qc_database.Std.HashSet.{HashSet}
use qc_database.Std.Method.{
  Outcome, returns, undefined, Guarded, Method, ◌>>=◌, ◌>>◌, pure, gets, body, modify, with_unique,
  with_shared,
}
use qc_database.Types.{
  MultiLevelKey, key_eq, Result, ok, error, not_found, timed_out, deadlock_detected,
  invalid_argument,
}
use qc_database.Transaction.WaitGraph.{TransactionId, WaitGraph, find_cycle, edges_of}

-- The string "lock_n" is given as n.
abbrev pub LockId : Type 0
LockId = ℕ

pub data LockType : Type 0 where
  shared exclusive intention_shared intention_exclusive : LockType

pub record LockInfo : Type 0 where
  pub lock_id : LockId
  pub type : LockType
  pub transaction_id : TransactionId
  pub key : MultiLevelKey
  pub acquired_at : ℕ
  pub timeout : ℕ

-- LockInfo::is_expired at the time `now`
unfoldable pub is_expired : ℕ → LockInfo → Bool
is_expired now l = ltb (l.acquired_at + l.timeout) now

pub record Locks : Type 0 where
  pub locks : HashMap LockId LockInfo
  pub key_locks : HashMap MultiLevelKey (List LockId)
  pub transaction_locks : HashMap TransactionId (HashSet LockId)
  pub wait_graph : WaitGraph
  pub next_lock_id : ℕ

-- DefaultLockManager::DefaultLockManager
abbrev pub no_locks : Locks
no_locks = record {
  locks = [];
  key_locks = [];
  transaction_locks = [];
  wait_graph = [];
  next_lock_id = 1;
}

unfoldable pub is_lock_compatible : LockType → LockType → Bool
is_lock_compatible shared shared = true
is_lock_compatible shared intention_shared = true
is_lock_compatible shared _ = false
is_lock_compatible exclusive _ = false
is_lock_compatible intention_shared exclusive = false
is_lock_compatible intention_shared _ = true
is_lock_compatible intention_exclusive intention_shared = true
is_lock_compatible intention_exclusive intention_exclusive = true
is_lock_compatible intention_exclusive _ = false

-- What the code around a call decides: the k-th reading of the clock, and what the other threads do
-- to the tables while the call has let go of the mutex for the k-th time.
pub record World : Type 0 where
  pub clock : ℕ → ℕ
  pub others : ℕ → Locks → Locks

abbrev conflicts : TransactionId → LockType → Option LockInfo → Bool
conflicts tx type none = false
conflicts tx type (some l) = not (l.transaction_id == tx) && not (is_lock_compatible l.type type)

-- The first lock that the loop over the key's locks stops at: each such lock ends the call.
unfoldable pub first_conflict :
    TransactionId → LockType → HashMap LockId LockInfo → List LockId → Option LockInfo
first_conflict tx type locks [] = none
first_conflict tx type locks (id ∷ ids) =
    if conflicts tx type (HashMap.find id locks)
    then HashMap.find id locks
    else first_conflict tx type locks ids

abbrev pub ids_of : Option (List LockId) → List LockId
ids_of none = []
ids_of (some ids) = ids

abbrev pub set_of : Option (HashSet LockId) → HashSet LockId
set_of none = []
set_of (some ids) = ids

-- The tables with a new lock, and the waiting of its owner over.
unfoldable pub grant : ℕ → TransactionId → MultiLevelKey → LockType → ℕ → Locks → Locks
grant now tx key type timeout s =
    let id = s.next_lock_id in
    record {
      locks =
          HashMap.insert id
            (record {
              lock_id = id;
              type = type;
              transaction_id = tx;
              key = key;
              acquired_at = now;
              timeout = timeout;
            })
            s.locks;
      key_locks = HashMap.insert key (ids_of (HashMap.find key s.key_locks) ++ id ∷ []) s.key_locks;
      transaction_locks =
          HashMap.insert tx (HashSet.insert id (set_of (HashMap.find tx s.transaction_locks)))
            s.transaction_locks;
      wait_graph = HashMap.erase tx s.wait_graph;
      next_lock_id = id + 1;
    }

-- wait_graph_[tx].insert(other) and wait_graph_[tx].erase(other)
abbrev pub add_edge : TransactionId → TransactionId → Locks → Locks
add_edge tx other s = record s {
  wait_graph =
      HashMap.insert tx (HashSet.insert other (edges_of (HashMap.find tx s.wait_graph)))
        s.wait_graph;
}

abbrev pub drop_edge : TransactionId → TransactionId → Locks → Locks
drop_edge tx other s = record s {
  wait_graph =
      HashMap.insert tx (HashSet.erase other (edges_of (HashMap.find tx s.wait_graph)))
        s.wait_graph;
}

-- The world from the reading and the window on that come next.
abbrev later : ℕ → ℕ → World → World
later readings windows w = record {
  clock = λ k. w.clock (k + readings);
  others = λ k. w.others (k + windows);
}

-- After the sleep: other threads have run, and the mutex is held again. The source still holds a
-- reference to the other lock, which may be gone by then; its owner's id is taken to stay readable.
-- Time that is left below zero is given as 0, which a call that does not return never looks at.
wait_over :
    (World → ℕ → Method Locks (Result LockId))
    → World
    → TransactionId
    → TransactionId
    → ℕ
    → Method Locks (Result LockId)
wait_over again w tx holder deadline g =
    let s = w.others 0 g.value in
    if ltb deadline (w.clock 1)
    then returns (error timed_out, record g { value = drop_edge tx holder s })
    else again (later 3 1 w) (deadline - w.clock 2) (record g { value = s })

-- The branch for a lock that is in the way.
wait_for :
    (World → ℕ → Method Locks (Result LockId))
    → World
    → TransactionId
    → LockInfo
    → ℕ
    → Method Locks (Result LockId)
unfolding wait_over
wait_for again w tx l deadline g =
    let s = add_edge tx l.transaction_id g.value in
    elim (find_cycle s.wait_graph tx) [
      | [] ↦ wait_over again w tx l.transaction_id deadline (record g { value = s })
      | node ∷ path ↦
          returns (error deadlock_detected, record g { value = drop_edge tx l.transaction_id s })
    ]

granted : ℕ → TransactionId → MultiLevelKey → LockType → ℕ → Method Locks (Result LockId)
granted now tx key type timeout g =
    returns (ok g.value.next_lock_id, record g { value = grant now tx key type timeout g.value })

-- The first lock in the way of a request.
unfoldable pub obstacle : TransactionId → MultiLevelKey → LockType → Locks → Option LockInfo
unfolding first_conflict
obstacle tx key type s = first_conflict tx type s.locks (ids_of (HashMap.find key s.key_locks))

attempt :
    (World → ℕ → Method Locks (Result LockId))
    → World
    → TransactionId
    → MultiLevelKey
    → LockType
    → ℕ
    → Method Locks (Result LockId)
unfolding wait_for granted
attempt again w tx key type timeout g = elim (obstacle tx key type g.value) [
  | none ↦ granted (w.clock 0) tx key type timeout g
  | some l ↦ wait_for again w tx l (w.clock 0 + timeout) g
]

-- The fuel bounds how deep the call calls itself; what it returns without fuel is never seen from
-- two on. The call of itself is made under the mutex that it locks first of all.
unfoldable pub acquire_lock :
    ℕ → World → TransactionId → MultiLevelKey → LockType → ℕ → Method Locks (Result LockId)
unfolding attempt
acquire_lock zero w tx key type timeout g = returns (error invalid_argument, g)
acquire_lock (suc fuel) w tx key type timeout g =
    with_unique
      (attempt (λ w' timeout'. acquire_lock fuel w' tx key type timeout') w tx key type timeout) g
