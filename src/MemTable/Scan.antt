-- ===== src/MemTable/Scan.antt =====
-- src/storage/memtable.cpp, range_scan: which entries a scan returns, and where it runs off the end.
pub mod Corners
use mathlib.Core.Path.{subst}
use qc_database.Prelude.{
  take-nil, ℕ, zero, suc, ◌+◌, ◌-◌, ◌≤◌, ◌<◌, ◌≡◌, refl, sym, ap, ◌∙◌, inl, inr, Bool, true, false,
  not, ◌&&◌, Option, none, some, List, [], ◌∷◌, ◌++◌, arith, leb, ltb, ◌==◌, length, length-append,
  take, if◌then◌else◌, Bool-cases,
}
use qc_database.Std.OrderedMap.{find, IsSorted, Above, lower_bound, upper_bound}
use qc_database.Std.OrderedMap.Ranges.{
  where_key, skip_to, lower_bound-eq, upper_bound-eq, skip_to-split, lt-IsUpward,
  not_below-IsUpward, IsUpward,
}
use qc_database.Std.Method.{Outcome, returns, undefined}
use qc_database.Types.{
  MultiLevelKey, DataEntry, RangeQuery, key_order, key_lt, key_beq, key_beq_iff, key_lt_irrefl,
  key_lt_trans, key_lt_connex,
}
use qc_database.MemTable.{MemTable, Entries, emit, scan, step_over, range_scan}

-- The entries that are not tombstones.
abbrev pub live : Entries → Entries
live [] = []
live (x ∷ m) = if x.1.deleted then live m else x ∷ live m

scan-append :
    (limit count : ℕ) (p u : Entries)
    → scan (length u) limit count (p ++ u) ≡ returns (live (take (limit - count) p))
unfolding scan
scan-append limit count [] [] = rw take-nil
scan-append limit count [] (x ∷ u) = rw take-nil (ground arith)
scan-append limit count (x ∷ p) u = elim (Bool-cases (ltb count limit)) [
  | inl more ↦
      let e : limit - count ≡ suc (limit - (count + 1)) = ground arith in
      rw e (ground (arith, scan-append limit (count + 1) p u, length-append p u))
  | inr done ↦ let e : limit - count ≡ 0 = ground arith in rw e (ground (arith, length-append p u))
]

abbrev pub after_start : Bool → MultiLevelKey → MultiLevelKey → Bool
after_start true start k = not (key_lt k start)
after_start false start k = key_lt start k

-- The keys that a scan covers. The end is covered whatever inclusive_end says.
abbrev pub covers : RangeQuery → MultiLevelKey → Bool
covers q k = after_start q.inclusive_start q.start_key k && not (key_lt q.end_key k)

pub step_over-end :
    (flag : Bool) (key : MultiLevelKey) (m : Entries)
    → step_over flag key (skip_to (key_lt key) m) ≡ skip_to (key_lt key) m
unfolding step_over
step_over-end flag key [] = refl
step_over-end flag key ((k, e) ∷ m) =
    ground (arith, step_over-end flag key m, key_beq_iff k key, key_lt_irrefl key)

skip_to-after : (key : MultiLevelKey) (m : Entries) → Above key m → skip_to (key_lt key) m ≡ m
skip_to-after key [] a = refl
skip_to-after key ((k, e) ∷ m) a = rw a.0

step_over-start :
    (key : MultiLevelKey) (m : Entries)
    → IsSorted m
    → step_over true key (skip_to (λ j. not (key_lt j key)) m) ≡ skip_to (key_lt key) m
unfolding step_over
step_over-start key [] s = refl
step_over-start key ((k, e) ∷ m) s = elim (Bool-cases (key_beq k key)) [
  | inl here ↦
      let e : k ≡ key = (key_beq_iff k key).0 here in
      let a : Above key m = subst (λ j. Above j m) e s.0 in
      ground (
        arith,
        skip_to-after key m a,
        key_beq_iff k key,
        ap (λ j. key_lt j key) e,
        ap (key_lt key) e,
        key_lt_irrefl key,
      )
  | inr other ↦ ground (
    arith,
    step_over-start key m s.1,
    key_lt_connex k key,
    key_beq_iff k key,
    key_lt_trans key k key,
    key_lt_irrefl key,
  )
]

step_over-off : (key : MultiLevelKey) (m : Entries) → step_over false key m ≡ m
unfolding step_over
step_over-off key [] = refl
step_over-off key ((k, e) ∷ m) = refl

pub start-eq :
    (incl : Bool) (start : MultiLevelKey) (m : Entries)
    → IsSorted m
    → step_over (not incl) start (lower_bound start m) ≡ skip_to (after_start incl start) m
start-eq true start m s = rw (lower_bound-eq start m) (step_over-off start _)
start-eq false start m s = rw (lower_bound-eq start m) (step_over-start start m s)

after_start-IsUpward : (incl : Bool) (start : MultiLevelKey) → IsUpward (after_start incl start)
after_start-IsUpward true start = not_below-IsUpward start
after_start-IsUpward false start = lt-IsUpward start

after_end-after_start :
    (incl : Bool) (start end k : MultiLevelKey)
    → key_lt end start ≡ false
    → key_lt end k ≡ true
    → after_start incl start k ≡ true
after_end-after_start true start end k h g = ground (arith, key_lt_trans end k start)
after_end-after_start false start end k h g =
    ground (arith, key_lt_trans end k start, key_lt_connex end start, key_lt_connex start k)

-- On a table whose keys rise, a query whose end is not below its start returns this and nothing
-- else: of the entries from start_key (without it if inclusive_start is unset) up to and with
-- end_key, the first `limit`, less the tombstones among them. The flag inclusive_end has no effect.
pub range_scan_lem :
    (t : MemTable) (q : RangeQuery)
    → IsSorted t.entries
    → key_lt q.end_key q.start_key ≡ false
    → range_scan t q ≡ returns (live (take q.limit (where_key (covers q) t.entries)))
unfolding range_scan
range_scan_lem t q s h =
    rw
      (
        start-eq q.inclusive_start q.start_key t.entries s,
        upper_bound-eq q.end_key t.entries,
        step_over-end q.inclusive_end q.end_key t.entries,
        skip_to-split (after_start q.inclusive_start q.start_key) (key_lt q.end_key) t.entries
            (after_start-IsUpward q.inclusive_start q.start_key) (lt-IsUpward q.end_key)
            (λ k. after_end-after_start q.inclusive_start q.start_key q.end_key k h) s,
      )
      (let e : q.limit - 0 ≡ q.limit = omega arith in
        rw e at (
          scan-append q.limit 0 (where_key (covers q) t.entries)
            (skip_to (key_lt q.end_key) t.entries)))
