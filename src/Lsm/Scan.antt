-- ===== src/Lsm/Scan.antt =====
-- src/storage/lsm_tree.cpp, range_scan, multi_get and multi_put.
use qc_database.Prelude.{
  ℕ, ◌+◌, Bool, true, false, Option, none, some, List, [], ◌∷◌, if◌then◌else◌, leb,
}
use qc_database.Std.OrderedMap.{find, insert}
use qc_database.Std.Method.{Outcome, returns, undefined, Method, ◌>>=◌, pure, with_shared, Guarded}
use qc_database.Types.{
  MultiLevelKey, DataEntry, Result, ok, error, RangeQuery, default_entry, key_order,
}
use qc_database.MemTable
use qc_database.MemTable.{MemTable, Entries}
use qc_database.SsTable
use qc_database.SsTable.{SsTable, Disk}
use qc_database.Lsm.{Engine, when_open, if_ok, get, put}

-- merged_results[key] = entry for each of these
unfoldable pub insert_all : Entries → Entries → Entries
insert_all [] merged = merged
insert_all ((key, entry) ∷ m) merged = insert_all m (insert key entry merged)

absent : Option DataEntry → Bool
absent none = true
absent (some entry) = false

-- Only the keys that are not there yet.
unfoldable pub insert_missing : Entries → Entries → Entries
unfolding absent
insert_missing [] merged = merged
insert_missing ((key, entry) ∷ m) merged =
    insert_missing m (if absent (find key merged) then insert key entry merged else merged)

-- The entries that a scan of this table adds, and the table.
abbrev add_scan :
    Outcome (Result Entries × SsTable) → Entries → List SsTable → Outcome (Entries × List SsTable)
add_scan undefined merged newer = undefined
add_scan (returns (ok m, t)) merged newer = returns (insert_missing m merged, t ∷ newer)
add_scan (returns (error s, t)) merged newer = returns (merged, t ∷ newer)

abbrev scan_older :
    RangeQuery
    → Disk
    → SsTable
    → Outcome (Entries × List SsTable)
    → Outcome (Entries × List SsTable)
scan_older q d t undefined = undefined
scan_older q d t (returns (merged, newer)) = add_scan (SsTable.range_scan q t d) merged newer

-- The tables, from the newest to the oldest.
unfoldable pub scan_tables :
    RangeQuery → Disk → Entries → List SsTable → Outcome (Entries × List SsTable)
scan_tables q d merged [] = returns (merged, [])
scan_tables q d merged (t ∷ newer) = scan_older q d t (scan_tables q d merged newer)

-- The loop that drops tombstones and stops at the limit.
unfoldable pub first_live : (limit count : ℕ) → Entries → Entries
first_live limit count [] = []
first_live limit count ((key, entry) ∷ m) =
    let next = first_live limit (count + 1) m in
    let same = first_live limit count m in
    if leb limit count then [] else if entry.deleted then same else (key, entry) ∷ next

abbrev scan_immutable : RangeQuery → Option MemTable → Entries → Outcome Entries
scan_immutable q none merged = returns merged
scan_immutable q (some t) merged = elim (MemTable.range_scan t q) [
  | returns m ↦ returns (insert_missing m merged)
  | undefined ↦ undefined
]

scan_memtables : RangeQuery → Engine → Outcome Entries
scan_memtables q e = elim (MemTable.range_scan e.memtable q) [
  | returns m ↦ scan_immutable q e.immutable_memtable (insert_all m [])
  | undefined ↦ undefined
]

abbrev scan_result :
    RangeQuery
    → Guarded Engine
    → Outcome (Entries × List SsTable)
    → Outcome (Result Entries × Guarded Engine)
scan_result q g undefined = undefined
scan_result q g (returns (merged, tables)) =
    returns
      (ok (first_live q.limit 0 merged), record g { value = record g.value { sstables = tables } })

unfoldable pub range_scan : RangeQuery → Method Engine (Result Entries)
unfolding scan_memtables
range_scan q = with_shared (
    when_open λ g. elim (scan_memtables q g.value) [
      | returns merged ↦ scan_result q g (scan_tables q g.value.disk merged g.value.sstables)
      | undefined ↦ undefined
    ])

abbrev entry_or : DataEntry → Result DataEntry → DataEntry
entry_or d (ok entry) = entry
entry_or d (error s) = d

-- A key that is not found yields DataEntry(), at the time `now`.
unfoldable pub multi_get : ℕ → List MultiLevelKey → Method Engine (List DataEntry)
multi_get now [] = pure []
multi_get now (key ∷ keys) = do
  found ← get key
  rest ← multi_get now keys
  pure (entry_or (default_entry now) found ∷ rest)

unfoldable pub multi_put : Entries → Method Engine (Result (Unit {0}))
multi_put [] = pure (ok tt)
multi_put ((key, entry) ∷ m) = do r ← put key entry; if_ok r (multi_put m)
