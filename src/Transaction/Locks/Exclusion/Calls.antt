-- ===== src/Transaction/Locks/Exclusion/Calls.antt =====
-- src/transaction/transaction_manager.cpp, DefaultLockManager: any sequence of requests and releases
-- keeps the tables consistent, so that an exclusive lock is alone on its key.
use qc_database.Prelude.{
  ◌≡◌, refl, inl, inr, ℕ, suc, arith, some, List, [], ◌∷◌, Option-cases, List-cases, Bool-cases,
  ◌==◌, nat_eq, ltb, ◌+◌, sym, ◌∙◌, ◌⊎◌, ap,
}
use qc_database.Std.HashMap.{find}
use qc_database.Std.Method.{
  Outcome, returns, undefined, Guarded, Method, ◌>>=◌, pure, at_rest, free, >>=-undefined,
  >>=-returns,
}
use qc_database.Types.{MultiLevelKey, Result}
use qc_database.Transaction.WaitGraph.{TransactionId, WaitGraph, find_cycle}
use qc_database.Transaction.Locks.{
  Locks, LockId, LockType, exclusive, LockInfo, World, obstacle, acquire_lock, no_locks,
  is_lock_compatible, add_edge,
}
use qc_database.Transaction.Locks.Release.{release_lock}
use qc_database.Transaction.Locks.Conflict.{request-none, request-cycle, request-wait}
use qc_database.Transaction.Locks.Exclusion.{
  IsConsistent, no_locks-IsConsistent, grant-IsConsistent,
}
use qc_database.Transaction.Locks.Exclusion.Releases.{release_lock-IsConsistent}

with_edges :
    (g : WaitGraph) (s : Locks) → IsConsistent s → IsConsistent (record s { wait_graph = g })
with_edges g s v = record {
  fresh = v.fresh;
  indexed = v.indexed;
  owned = v.owned;
  compatible = v.compatible;
}

-- What the tables are after a call of a known outcome.
same_outcome :
    {A : Type 0} {a b : A} {g h : Guarded Locks} {o : Outcome (A × Guarded Locks)}
    → o ≡ returns (a, g)
    → o ≡ returns (b, h)
    → g ≡ h
same_outcome e f = cc

settled :
    {A : Type 0} {a b : A} {g : Guarded Locks} {t : Locks} {o : Outcome (A × Guarded Locks)}
    → o ≡ returns (a, g)
    → o ≡ returns (b, at_rest t)
    → IsConsistent t
    → (g.mutex ≡ free) × IsConsistent g.value
settled e f v = rw (same_outcome e f) (refl, v)

-- The other threads keep the tables consistent in every window of a call.
unfoldable pub KeepsConsistent : World → Type 0
KeepsConsistent w = (k : ℕ) (s : Locks) → IsConsistent s → IsConsistent (w.others k s)

-- A request that returns, from consistent tables that nobody has locked, leaves them consistent and
-- unlocked, granted or not, if the other threads keep them consistent while it waits.
pub acquire_lock-IsConsistent :
    (fuel : ℕ) (w : World) (tx : TransactionId) (key : MultiLevelKey) (type : LockType)
    (timeout : ℕ) (s : Locks) (r : Result LockId) (g : Guarded Locks)
    → KeepsConsistent w
    → IsConsistent s
    → acquire_lock (suc (suc fuel)) w tx key type timeout (at_rest s) ≡ returns (r, g)
    → (g.mutex ≡ free) × IsConsistent g.value
unfolding KeepsConsistent
acquire_lock-IsConsistent fuel w tx key type timeout s r g keep v e =
    elim (Option-cases (obstacle tx key type s)) [
      | inl open_key ↦
          settled e (request-none fuel w tx key type timeout s open_key)
            (grant-IsConsistent (w.clock 0) tx key type timeout s v open_key)
      | inr (l, blocked) ↦
          elim (List-cases (find_cycle (add_edge tx l.transaction_id s).wait_graph tx)) [
            | inl c ↦ elim (Bool-cases (ltb (w.clock 0 + timeout) (w.clock 1))) [
              | inl over ↦
                  settled e (rw over at (request-wait fuel w tx key type timeout s l blocked c))
                    (with_edges _ _ (keep 0 _ (with_edges _ s v)))
              | inr early ↦ cc (e, early, request-wait fuel w tx key type timeout s l blocked c)
            ]
            | inr (node, path, c) ↦
                settled e (request-cycle fuel w tx key type timeout s l node path blocked c)
                  (with_edges _ _ v)
          ]
    ]

pub data Call : Type 0 where
  request : World → TransactionId → MultiLevelKey → LockType → ℕ → Call
  release : LockId → Call

-- One thread's calls, one after the other, with fuel for the call that a request makes of itself.
unfoldable pub run : List Call → Method Locks (Unit {0})
unfolding acquire_lock release_lock
run [] = pure tt
run (request w tx key type timeout ∷ calls) =
    acquire_lock 2 w tx key type timeout >>= λ _. run calls
run (release id ∷ calls) = release_lock id >>= λ _. run calls

-- The other threads keep the tables consistent in every window of every call.
unfoldable pub AllKeep : List Call → Type 0
AllKeep [] = Unit
AllKeep (request w tx key type timeout ∷ calls) = KeepsConsistent w × AllKeep calls
AllKeep (release id ∷ calls) = AllKeep calls

Outcome-cases : {A : Type 0} (o : Outcome A) → (o ≡ undefined) ⊎ ((a : A) × (o ≡ returns a))
Outcome-cases undefined = inl refl
Outcome-cases (returns a) = inr (a, refl)

at_rest_of : (h : Guarded Locks) → h.mutex ≡ free → h ≡ at_rest h.value
at_rest_of h e = ap (λ m. record { mutex = m; value = h.value }) e

pub run-IsConsistent :
    (calls : List Call) (s : Locks) (g : Guarded Locks)
    → AllKeep calls
    → IsConsistent s
    → run calls (at_rest s) ≡ returns (tt, g)
    → (g.mutex ≡ free) × IsConsistent g.value
unfolding run AllKeep
run-IsConsistent [] s g keep v e = settled {o = returns (tt, at_rest s)} e refl v
run-IsConsistent (request w tx key type timeout ∷ calls) s g (keep, all) v e =
    elim (Outcome-cases (acquire_lock 2 w tx key type timeout (at_rest s))) [
      | inl u ↦
          cc
            (e, >>=-undefined (acquire_lock 2 w tx key type timeout) (λ _. run calls) (at_rest s) u)
      | inr ((r, h), f) ↦
          let (rest, vh) = acquire_lock-IsConsistent 0 w tx key type timeout s r h keep v f in
          run-IsConsistent calls h.value g all vh (
            ap (run calls) (sym (at_rest_of h rest))
            ∙ sym
                (>>=-returns (acquire_lock 2 w tx key type timeout) (λ _. run calls) (at_rest s) f)
            ∙ e)
    ]
run-IsConsistent (release id ∷ calls) s g keep v e =
    let (t, f, vt, _) = release_lock-IsConsistent id s v in
    run-IsConsistent calls t g keep vt
      (sym (>>=-returns (release_lock id) (λ _. run calls) (at_rest s) f) ∙ e)

-- Mutual exclusion. After any calls that return, from the empty tables, of which the other threads
-- keep the tables consistent: when a key has an exclusive lock, every lock of the key belongs to the
-- same transaction.
pub run-exclusive :
    (calls : List Call) (g : Guarded Locks) (i j : LockId) (l m : LockInfo)
    → AllKeep calls
    → run calls (at_rest no_locks) ≡ returns (tt, g)
    → find i g.value.locks ≡ some l
    → find j g.value.locks ≡ some m
    → l.type ≡ exclusive
    → l.key ≡ m.key
    → l.transaction_id ≡ m.transaction_id
unfolding is_lock_compatible
run-exclusive calls g i j l m keep e f h x k =
    let (_, v) = run-IsConsistent calls no_locks g keep no_locks-IsConsistent e in
    let c = v.compatible i j l m f h k in
    elim (Bool-cases (l.transaction_id == m.transaction_id)) [
      | inl same ↦ ground (arith, same)
      | inr other ↦ cc (rw x at c other)
    ]
