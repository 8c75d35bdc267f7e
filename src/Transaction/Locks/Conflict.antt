-- ===== src/Transaction/Locks/Conflict.antt =====
-- src/transaction/transaction_manager.cpp, acquire_lock: what happens to a request that another
-- transaction's lock is in the way of.
use qc_database.Prelude.{
  ℕ, suc, ◌+◌, ◌≤◌, ◌≡◌, ◌≢◌, sym, ◌∙◌, inl, inr, List, [], ◌∷◌, arith, ltb, none, some,
  if◌then◌else◌, Option-cases, List-cases,
}
use qc_database.Std.Method.{Outcome, returns, undefined, Guarded, at_rest}
use qc_database.Types.{MultiLevelKey, Result, ok, error, timed_out, deadlock_detected}
use qc_database.Transaction.WaitGraph.{TransactionId, find_cycle}
use qc_database.Transaction.Locks.{
  Locks, LockId, LockType, LockInfo, World, obstacle, acquire_lock, attempt, wait_for, granted,
  grant, add_edge, drop_edge,
}

module _ (fuel : ℕ) (w : World) (tx : TransactionId) (key : MultiLevelKey) (type : LockType)
    (timeout : ℕ) (s : Locks) where
  -- The call, from tables that nobody has locked, with fuel for the call that it makes of itself.
  abbrev pub request : Outcome (Result LockId × Guarded Locks)
  request = acquire_lock (suc (suc fuel)) w tx key type timeout (at_rest s)

  pub request-none :
      obstacle tx key type s ≡ none
      → request ≡ returns (ok s.next_lock_id, at_rest (grant (w.clock 0) tx key type timeout s))
  unfolding acquire_lock granted
  request-none e = rw (e, attempt)

  pub request-cycle :
      (l : LockInfo) (node : TransactionId) (path : List TransactionId)
      → obstacle tx key type s ≡ some l
      → find_cycle (add_edge tx l.transaction_id s).wait_graph tx ≡ node ∷ path
      → request
        ≡ returns (
          error deadlock_detected,
          at_rest (drop_edge tx l.transaction_id (add_edge tx l.transaction_id s)),
        )
  unfolding acquire_lock
  request-cycle l node path e c = rw (e, attempt) (rw (c, wait_for))

  pub request-wait :
      (l : LockInfo)
      → obstacle tx key type s ≡ some l
      → find_cycle (add_edge tx l.transaction_id s).wait_graph tx ≡ []
      → request ≡ (
          if ltb (w.clock 0 + timeout) (w.clock 1)
          then returns (
            error timed_out,
            at_rest (drop_edge tx l.transaction_id (w.others 0 (add_edge tx l.transaction_id s))),
          )
          else undefined)
  unfolding acquire_lock
  request-wait l e c = rw (e, attempt) (rw (c, wait_for) (ground arith))

-- While a lock of another transaction that is not compatible stands in the way, a request is never
-- granted: whatever the clock says and the other threads do meanwhile, the call does not return a
-- lock.
pub blocked_never_granted :
    (fuel : ℕ) (w : World) (tx : TransactionId) (key : MultiLevelKey) (type : LockType)
    (timeout : ℕ) (s : Locks) (l : LockInfo) (id : LockId) (g : Guarded Locks)
    → obstacle tx key type s ≡ some l
    → acquire_lock (suc (suc fuel)) w tx key type timeout (at_rest s) ≢ returns (ok id, g)
blocked_never_granted fuel w tx key type timeout s l id g e h =
    elim (List-cases (find_cycle (add_edge tx l.transaction_id s).wait_graph tx)) [
      | inl c ↦ ground (arith, request-wait fuel w tx key type timeout s l e c, h)
      | inr (node, path, c) ↦ cc (request-cycle fuel w tx key type timeout s l node path e c, h)
    ]

-- A request that has to wait, without a deadlock, and whose time is not over after the first wait
-- locks the manager's mutex while it holds it, which is undefined: it never waits any further.
pub blocked_undefined :
    (fuel : ℕ) (w : World) (tx : TransactionId) (key : MultiLevelKey) (type : LockType)
    (timeout : ℕ) (s : Locks) (l : LockInfo)
    → obstacle tx key type s ≡ some l
    → find_cycle (add_edge tx l.transaction_id s).wait_graph tx ≡ []
    → w.clock 1 ≤ w.clock 0 + timeout
    → acquire_lock (suc (suc fuel)) w tx key type timeout (at_rest s) ≡ undefined
blocked_undefined fuel w tx key type timeout s l e c early =
    ground (arith, request-wait fuel w tx key type timeout s l e c)

-- Fuel for two nested calls is enough: from tables that nobody has locked, any more gives the same
-- outcome.
pub acquire_lock_fuel :
    (fuel more : ℕ) (w : World) (tx : TransactionId) (key : MultiLevelKey) (type : LockType)
    (timeout : ℕ) (s : Locks)
    → acquire_lock (suc (suc fuel)) w tx key type timeout (at_rest s)
      ≡ acquire_lock (suc (suc more)) w tx key type timeout (at_rest s)
acquire_lock_fuel fuel more w tx key type timeout s = elim (Option-cases (obstacle tx key type s)) [
  | inl e ↦
      request-none fuel w tx key type timeout s e
      ∙ sym (request-none more w tx key type timeout s e)
  | inr (l, e) ↦ elim (List-cases (find_cycle (add_edge tx l.transaction_id s).wait_graph tx)) [
    | inl c ↦
        request-wait fuel w tx key type timeout s l e c
        ∙ sym (request-wait more w tx key type timeout s l e c)
    | inr (node, path, c) ↦
        request-cycle fuel w tx key type timeout s l node path e c
        ∙ sym (request-cycle more w tx key type timeout s l node path e c)
  ]
]
