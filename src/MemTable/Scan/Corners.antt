-- ===== src/MemTable/Scan/Corners.antt =====
-- src/storage/memtable.cpp, range_scan: what a long enough scan holds, its end, and reversed ranges.
use qc_database.Prelude.{
  ℕ, zero, suc, ◌+◌, ◌≤◌, ◌<◌, ◌≡◌, refl, ap, Bool, true, false, not, ◌&&◌, some, [], ◌∷◌, ◌++◌,
  arith, length, length-append, take,
}
use qc_database.Std.OrderedMap.{find, IsSorted}
use qc_database.Std.OrderedMap.Ranges.{
  where_key, skip_to, upper_bound-eq, skip_to-split, lt-IsUpward, not_below-IsUpward,
}
use qc_database.Std.Method.{returns, undefined}
use qc_database.Types.{
  MultiLevelKey, DataEntry, RangeQuery, key_order, key_lt, key_lt_irrefl, key_lt_trans,
  key_lt_connex,
}
use qc_database.MemTable.{MemTable, Entries, scan, range_scan}
use qc_database.MemTable.Scan.{live, covers, range_scan_lem, start-eq, step_over-end}

length-where_key-le : (p : MultiLevelKey → Bool) (m : Entries) → length (where_key p m) ≤ length m
length-where_key-le p [] = omega arith
length-where_key-le p ((k, e) ∷ m) = ground (arith, length-where_key-le p m)

take_all : (n : ℕ) (m : Entries) → length m ≤ n → take n m ≡ m
take_all zero [] h = refl
take_all zero (x ∷ m) h = absurd (omega arith)
take_all (suc n) [] h = refl
take_all (suc n) (x ∷ m) h = ap (◌∷◌ x) (take_all n m (omega arith))

find-live :
    (p : MultiLevelKey → Bool) (k : MultiLevelKey) (e : DataEntry) (m : Entries)
    → find k m ≡ some e
    → e.deleted ≡ false
    → p k ≡ true
    → find k (live (where_key p m)) ≡ some e
unfolding find
find-live p k e [] f l h = cc
find-live p k e ((j, d) ∷ m) f l h =
    ground (arith, find-live p k e m, key_lt_connex j k, key_lt_irrefl k)

-- If the limit is not below the number of entries, a scan returns each live entry whose key it
-- covers: the table's keys rise and the query's end is not below its start.
pub scan_complete :
    (t : MemTable) (q : RangeQuery) (k : MultiLevelKey) (e : DataEntry)
    → IsSorted t.entries
    → key_lt q.end_key q.start_key ≡ false
    → length t.entries ≤ q.limit
    → find k t.entries ≡ some e
    → e.deleted ≡ false
    → covers q k ≡ true
    → (xs : Entries) × (range_scan t q ≡ returns xs) × (find k xs ≡ some e)
scan_complete t q k e s h room f l c = (
  live (take q.limit (where_key (covers q) t.entries)),
  range_scan_lem t q s h,
  rw
      (take_all q.limit (where_key (covers q) t.entries)
        (omega (arith, length-where_key-le (covers q) t.entries)))
      (find-live (covers q) k e t.entries f l c),
)

-- A query that excludes its end is answered like one that includes it: a live entry at end_key is
-- returned though inclusive_end is unset, if the limit is not below the number of entries.
pub exclusive_end_returned :
    (t : MemTable) (q : RangeQuery) (e : DataEntry)
    → IsSorted t.entries
    → q.inclusive_end ≡ false
    → q.inclusive_start ≡ true
    → key_lt q.end_key q.start_key ≡ false
    → length t.entries ≤ q.limit
    → find q.end_key t.entries ≡ some e
    → e.deleted ≡ false
    → (xs : Entries) × (range_scan t q ≡ returns xs) × (find q.end_key xs ≡ some e)
exclusive_end_returned t q e s excl incl h room f l =
    scan_complete t q q.end_key e s h room f l (rw incl (ground (arith, key_lt_irrefl q.end_key)))

scan-past_end :
    (stop limit count : ℕ) (it : Entries)
    → length it < stop
    → count + length it < limit
    → scan stop limit count it ≡ undefined
unfolding scan
scan-past_end stop limit count [] h g = ground arith
scan-past_end stop limit count (x ∷ it) h g =
    ground (arith, scan-past_end stop limit (count + 1) it)

length-skip_to-le : (p : MultiLevelKey → Bool) (m : Entries) → length (skip_to p m) ≤ length m
length-skip_to-le p [] = omega arith
length-skip_to-le p ((k, e) ∷ m) = ground (arith, length-skip_to-le p m)

where_key-pos :
    (p : MultiLevelKey → Bool) (k : MultiLevelKey) (e : DataEntry) (m : Entries)
    → find k m ≡ some e
    → p k ≡ true
    → 0 < length (where_key p m)
unfolding find
where_key-pos p k e [] f h = cc
where_key-pos p k e ((j, d) ∷ m) f h = ground (arith, where_key-pos p k e m, key_lt_connex j k)

-- A query that runs backwards past a stored key moves its iterator beyond the end of the table,
-- which is undefined, unless the limit stops it: the keys rise, the query includes its start, its
-- end is below a stored key and that key below its start, and the limit exceeds the table.
pub reversed_scan_undefined :
    (t : MemTable) (q : RangeQuery) (k : MultiLevelKey) (e : DataEntry)
    → IsSorted t.entries
    → q.inclusive_start ≡ true
    → find k t.entries ≡ some e
    → key_lt q.end_key k ≡ true
    → key_lt k q.start_key ≡ true
    → length t.entries < q.limit
    → range_scan t q ≡ undefined
unfolding range_scan
reversed_scan_undefined t q k e s incl f above below room =
    rw
      (
        incl,
        start-eq true q.start_key t.entries s,
        upper_bound-eq q.end_key t.entries,
        step_over-end q.inclusive_end q.end_key t.entries,
      )
      (scan-past_end _ _ _ _ (omega (arith, shorter)) (omega (arith, shorter, whole)))
  where
    after : MultiLevelKey → Bool
    after j = not (key_lt j q.start_key)

    reaches_end : (j : MultiLevelKey) → after j ≡ true → key_lt q.end_key j ≡ true
    reaches_end j h = ground (
      arith,
      key_lt_trans q.end_key k q.start_key,
      key_lt_trans q.end_key q.start_key j,
      key_lt_connex j q.start_key,
      key_lt_connex q.start_key j,
    )

    in_gap : (key_lt q.end_key k && not (after k)) ≡ true
    in_gap = ground arith

    gap : Entries
    gap = where_key (λ j. key_lt q.end_key j && not (after j)) t.entries

    split : skip_to (key_lt q.end_key) t.entries ≡ gap ++ skip_to after t.entries
    split =
        skip_to-split (key_lt q.end_key) after t.entries (lt-IsUpward q.end_key)
          (not_below-IsUpward q.start_key) (λ j h. reaches_end j h) s

    shorter : length (skip_to after t.entries) < length (skip_to (key_lt q.end_key) t.entries)
    shorter = omega (
      arith,
      ap length split,
      length-append gap (skip_to after t.entries),
      where_key-pos (λ j. key_lt q.end_key j && not (after j)) k e t.entries f in_gap,
    )

    whole : length (skip_to (key_lt q.end_key) t.entries) ≤ length t.entries
    whole = length-skip_to-le (key_lt q.end_key) t.entries
