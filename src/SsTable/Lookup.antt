-- ===== src/SsTable/Lookup.antt =====
-- src/storage/sstable.cpp, read and range_scan: a table whose index stands for a memtable's entries.
use mathlib.Core.Path.{subst}
use qc_database.Prelude.{
  ℕ, ◌+◌, ◌≡◌, ◌≢◌, refl, sym, ap, ◌∙◌, inl, inr, Bool, not, ◌==◌, Option, none, some, [], ◌∷◌,
  ◌++◌, arith, ltb, length, if◌then◌else◌, Bool-cases,
}
use qc_database.Std.Bytes.{Str, str_order}
use qc_database.Std.Fstream.{Fstream}
use qc_database.Std.OrderedMap.{find, lower_bound, upper_bound, IsSorted}
use qc_database.Std.Method.{Outcome, returns, undefined}
use qc_database.Std.Ifstream.{result, ◌>>=◌, pure, and_then}
use qc_database.Std.Ifstream.Laws.{between}
use qc_database.Types.{
  MultiLevelKey, DataEntry, Result, ok, RangeQuery, key_order, key_lt, key_beq, key_beq_iff,
  key_lt_connex, key_lt_irrefl,
}
use qc_database.MemTable
use qc_database.MemTable.{MemTable, Entries, emit, live_or_missing, scan, step_over}
use qc_database.SsTable.{
  Index, SsTable, Disk, ensure_index, scan_index, read_found, read, range_scan, with_table,
}
use qc_database.SsTable.Records.{read_record-Within, scan_record-Within, Within, Storable}
use qc_database.SsTable.Indexed.{
  AllStorable, Indexes, length-Indexes, lower_bound-Indexes, upper_bound-Indexes, step_over-Indexes,
  lower_bound-AllStorable, step_over-AllStorable, is_partitioned-Indexes, below-IsDownward,
  not_above-IsDownward,
}

abbrev at_key : MultiLevelKey → Entries → Option DataEntry
at_key key [] = none
at_key key ((k, entry) ∷ it) = if key_beq k key then some entry else none

find-lower_bound : (key : MultiLevelKey) (m : Entries) → find key m ≡ at_key key (lower_bound key m)
unfolding find lower_bound
find-lower_bound key [] = refl
find-lower_bound key ((k, entry) ∷ m) = elim (Bool-cases (key_beq k key)) [
  | inl here ↦
      let e = (key_beq_iff k key).0 here in
      let below = ap (λ j. key_lt j key) e in
      let above = ap (key_lt key) e in ground (arith, below, above, key_lt_irrefl key)
  | inr other ↦ ground (arith, find-lower_bound key m, key_lt_connex k key, key_beq_iff k key)
]

-- A table in a file, whose index stands for these entries.
pub record Stores (t : SsTable) (d : Disk) (m : Entries) : Type 0 where
  pub bytes : Str
  pub stored : find t.filename d ≡ some bytes
  pub index : Indexes bytes t.index m
  pub not_empty : length m ≢ 0
  pub sorted : IsSorted m
  pub storable : AllStorable m

pub ensure_index-Stores :
    (t : SsTable) (d : Disk) (m : Entries) → Stores t d m → ensure_index t d ≡ returns (ok tt, t)
unfolding ensure_index
ensure_index-Stores t d m s = ground (arith, length-Indexes s.bytes t.index m s.index, s.not_empty)

read_found-Indexes :
    (key : MultiLevelKey) (t : SsTable) (d : Disk) (bytes : Str) (it : Index) (m : Entries)
    → find t.filename d ≡ some bytes
    → Indexes bytes it m
    → AllStorable m
    → read_found key t d it ≡ returns (live_or_missing (at_key key m))
unfolding read_found
read_found-Indexes key t d bytes [] [] e h s = refl
read_found-Indexes key t d bytes [] (x ∷ m) e h s = absurd h
read_found-Indexes key t d bytes (i ∷ it) [] e h s = absurd h
read_found-Indexes key t d bytes ((k, place) ∷ it) ((j, entry) ∷ m) e h s =
    elim (Bool-cases (key_beq j key)) [
      | inl here ↦
          let same = (key_beq_iff j key).0 here in
          rw (h.0, here, e)
            (read_record-Within [] bytes key place entry (subst (λ i. Storable i entry) same s.0)
              (subst (λ i. Within bytes (i, place) entry) same h.1))
      | inr other ↦ rw (h.0, other) refl
    ]

-- A lookup in a stored table returns what a get from a memtable with the same entries returns, and
-- leaves the table as it is.
pub read-Stores :
    (key : MultiLevelKey) (t : SsTable) (d : Disk) (m : Entries)
    → Stores t d m
    → read key t d ≡ returns (live_or_missing (find key m), t)
unfolding read
read-Stores key t d m s =
    let split =
      is_partitioned-Indexes s.bytes (λ k. key_lt k key) t.index m (below-IsDownward key) s.sorted
        s.index in
    let found =
      read_found-Indexes key t d s.bytes (lower_bound key t.index) (lower_bound key m) s.stored
        (lower_bound-Indexes s.bytes key t.index m s.index)
        (lower_bound-AllStorable key m s.storable) in
    rw (ensure_index-Stores t d m s, split, found, find-lower_bound key m) refl

result-emit :
    (key : MultiLevelKey) (entry : DataEntry) (o : Outcome (Entries × Fstream))
    → result (and_then o (λ rest. pure (if entry.deleted then rest else (key, entry) ∷ rest)))
      ≡ emit (key, entry) (result o)
result-emit key entry (returns (rest, f)) = refl
result-emit key entry undefined = refl

scan_index-Indexes :
    (stop limit count : ℕ) (pre ys : Str) (it : Index) (m : Entries)
    → Indexes (pre ++ ys) it m
    → AllStorable m
    → result (scan_index stop limit count it (between pre ys)) ≡ scan stop limit count m
unfolding scan_index scan
scan_index-Indexes stop limit count pre ys [] [] h s = ground arith
scan_index-Indexes stop limit count pre ys [] (x ∷ m) h s = absurd h
scan_index-Indexes stop limit count pre ys (i ∷ it) [] h s = absurd h
scan_index-Indexes stop limit count pre ys ((k, place) ∷ it) ((j, entry) ∷ m) h s =
    elim (Bool-cases (length m + 1 == stop)) [
      | inl here ↦ rw (length-Indexes (pre ++ ys) it m h.2, here) refl
      | inr ahead ↦ elim (Bool-cases (ltb count limit)) [
        | inr full ↦ rw (length-Indexes (pre ++ ys) it m h.2, ahead, full) refl
        | inl more ↦
            let (pre', ys', same, found) =
              scan_record-Within pre ys j place entry
                (λ e. scan_index stop limit (count + 1) it >>= λ rest.
                  pure (if e.deleted then rest else (j, e) ∷ rest))
                s.0 h.1 in
            let rest =
              scan_index-Indexes stop limit (count + 1) pre' ys' it m
                (subst (λ b. Indexes b it m) (sym same) h.2) s.1 in
            rw (length-Indexes (pre ++ ys) it m h.2, ahead, more, h.0, found)
              (result-emit j entry (scan_index stop limit (count + 1) it (between pre' ys'))
                ∙ ap (emit (j, entry)) rest)
      ]
    ]

-- A scan's entries, as the result of the table's scan.
abbrev pub scanned : SsTable → Outcome Entries → Outcome (Result Entries × SsTable)
scanned t (returns m) = returns (ok m, t)
scanned t undefined = undefined

with_table-scanned :
    (t : SsTable) (o : Outcome (Entries × Fstream))
    → with_table t (result (and_then o (λ m. pure (ok m)))) ≡ scanned t (result o)
unfolding with_table
with_table-scanned t (returns (m, f)) = refl
with_table-scanned t undefined = refl

step_over-upper_bound :
    (flag : Bool) (key : MultiLevelKey) (m : Entries)
    → step_over flag key (upper_bound key m) ≡ upper_bound key m
unfolding step_over upper_bound
step_over-upper_bound flag key [] = refl
step_over-upper_bound flag key ((k, entry) ∷ m) =
    ground (arith, step_over-upper_bound flag key m, key_beq_iff k key, key_lt_irrefl key)

-- A scan of a stored table returns what the scan of a memtable with the same entries returns, and
-- is undefined exactly where that one is.
pub range_scan-Stores :
    (q : RangeQuery) (t : SsTable) (d : Disk) (m : Entries) (usage : ℕ)
    → Stores t d m
    → range_scan q t d
      ≡ scanned t (MemTable.range_scan (record { entries = m; memory_usage = usage }) q)
unfolding range_scan MemTable.range_scan
range_scan-Stores q t d m usage s =
    let b = s.bytes in
    let low =
      is_partitioned-Indexes b (λ k. key_lt k q.start_key) t.index m (below-IsDownward q.start_key)
        s.sorted s.index in
    let high =
      is_partitioned-Indexes b (λ k. not (key_lt q.end_key k)) t.index m
        (not_above-IsDownward q.end_key) s.sorted s.index in
    let from =
      step_over-Indexes b (not q.inclusive_start) q.start_key _ _
        (lower_bound-Indexes b q.start_key t.index m s.index) in
    let storable =
      step_over-AllStorable (not q.inclusive_start) q.start_key _
        (lower_bound-AllStorable q.start_key m s.storable) in
    let to = length-Indexes b _ _ (upper_bound-Indexes b q.end_key t.index m s.index) in
    let stop = step_over-upper_bound q.inclusive_end q.end_key m in
    rw (ensure_index-Stores t d m s, s.stored, low, high, to, stop)
      (with_table-scanned t _
        ∙ ap (scanned t) (scan_index-Indexes _ q.limit 0 [] b _ _ from storable))
