-- ===== src/Lsm.antt =====
-- src/storage/lsm_tree.cpp: the storage engine under its mutex, over memtables, sorted tables and
-- the log. `now` and `later` are readings of the clock; the disk holds the files of the tables, and the log its own.
pub mod Tables
pub mod Scan
pub mod Lifecycle
pub mod Backup
pub mod Answers
pub mod Writes
pub mod Histories
use qc_database.Prelude.{
  ℕ, ◌+◌, ◌%◌, ◌^◌, Bool, true, false, not, Option, none, some, List, [], ◌∷◌, ◌++◌, if◌then◌else◌,
  ◌==◌,
}
use qc_database.Std.Bytes.{Str}
use qc_database.Std.Method.{
  Outcome, returns, undefined, Guarded, Method, ◌>>=◌, pure, gets, body, modify, with_unique,
  with_shared, at_rest,
}
use qc_database.Types.{
  MultiLevelKey, DataEntry, Result, ok, error, not_found, storage_error, version_conflict,
  default_entry,
}
use qc_database.MemTable
use qc_database.MemTable.{MemTable, empty}
use qc_database.Wal.Entry.{WalEntry, WalEntryType, put_type, delete_type}
use qc_database.Wal.Log
use qc_database.Wal.Log.{Wal, new_wal}
use qc_database.SsTable
use qc_database.SsTable.{SsTable, Disk}

-- `sstables` has the oldest table first. The statistics are 64 bits wide.
pub record Engine : Type 0 where
  pub data_dir : Str
  pub memtable : MemTable
  pub immutable_memtable : Option MemTable
  pub sstables : List SsTable
  pub wal : Guarded Wal
  pub disk : Disk
  pub is_open : Bool
  pub total_reads : ℕ
  pub cache_hits : ℕ
  pub max_sstables : ℕ

-- LSMTreeEngine::LSMTreeEngine, over what the disk holds; `configured` is the number under
-- "max_sstables". No other setting is used.
unfoldable pub new_engine : Str → Option ℕ → Option Str → Disk → Engine
new_engine data_dir configured log disk = record {
  data_dir = data_dir;
  memtable = empty;
  immutable_memtable = none;
  sstables = [];
  wal = at_rest (new_wal log);
  disk = disk;
  is_open = false;
  total_reads = 0;
  cache_hits = 0;
  max_sstables = elim configured [ none ↦ 10 | some n ↦ n ];
}

module _ {A : Type 0} where
  abbrev with_wal : Guarded Engine → Outcome (A × Guarded Wal) → Outcome (A × Guarded Engine)
  with_wal g (returns (a, w)) = returns (a, record g { value = record g.value { wal = w } })
  with_wal g undefined = undefined

  -- A call of the log.
  abbrev pub on_wal : Method Wal A → Method Engine A
  on_wal call g = with_wal g (call g.value.wal)

  -- Return an error, or go on.
  abbrev pub if_ok : Result (Unit {0}) → Method Engine (Result A) → Method Engine (Result A)
  if_ok (ok u) rest = rest
  if_ok (error s) rest = pure (error s)

  -- Every operation but open and close begins with this test.
  abbrev pub when_open : Method Engine (Result A) → Method Engine (Result A)
  when_open rest g = if g.value.is_open then rest g else returns (error storage_error, g)

-- The entry has sequence number 0.
abbrev pub log : WalEntryType → MultiLevelKey → DataEntry → Method Engine (Result (Unit {0}))
log type key entry =
    on_wal (Log.append (record { type = type; key = key; payload = entry; sequence_number = 0 }))

abbrev pub count : ℕ → ℕ
count n = (n + 1) % 2 ^ 64

abbrev read_older :
    List SsTable → Outcome (Result DataEntry × SsTable) → Outcome (Result DataEntry × List SsTable)
read_older newer (returns (r, t)) = returns (r, t ∷ newer)
read_older newer undefined = undefined

-- How a lookup goes on behind the tables that are newer.
abbrev pub or_older :
    MultiLevelKey
    → Disk
    → SsTable
    → Outcome (Result DataEntry × List SsTable)
    → Outcome (Result DataEntry × List SsTable)
or_older key d t undefined = undefined
or_older key d t (returns (ok entry, newer)) = returns (ok entry, t ∷ newer)
or_older key d t (returns (error s, newer)) = read_older newer (SsTable.read key t d)

unfoldable pub read_tables :
    MultiLevelKey → Disk → List SsTable → Outcome (Result DataEntry × List SsTable)
read_tables key d [] = returns (error not_found, [])
read_tables key d (t ∷ newer) = or_older key d t (read_tables key d newer)

abbrev found_or_missing : Result DataEntry → Result DataEntry
found_or_missing (ok entry) = ok entry
found_or_missing (error s) = error not_found

after_tables :
    Guarded Engine
    → Outcome (Result DataEntry × List SsTable)
    → Outcome (Result DataEntry × Guarded Engine)
after_tables g undefined = undefined
after_tables g (returns (r, tables)) =
    returns (found_or_missing r, record g { value = record g.value { sstables = tables } })

-- The tables, from the newest to the oldest.
unfoldable pub get_from_sstables : MultiLevelKey → Method Engine (Result DataEntry)
unfolding after_tables
get_from_sstables key g = after_tables g (read_tables key g.value.disk g.value.sstables)

-- What a memtable found, which is counted, or the rest of the lookup.
abbrev or_else :
    Result DataEntry → Method Engine (Result DataEntry) → Method Engine (Result DataEntry)
or_else (ok entry) rest = body λ e. (ok entry, record e { cache_hits = count e.cache_hits })
or_else (error s) rest = rest

get_from_immutable : MultiLevelKey → Option MemTable → Method Engine (Result DataEntry)
get_from_immutable key none = get_from_sstables key
get_from_immutable key (some t) = or_else (MemTable.get t key) (get_from_sstables key)

look_up : MultiLevelKey → Method Engine (Result DataEntry)
unfolding get_from_immutable
look_up key g =
    or_else (MemTable.get g.value.memtable key) (get_from_immutable key g.value.immutable_memtable)
      g

unfoldable pub get : MultiLevelKey → Method Engine (Result DataEntry)
unfolding look_up
get key =
    with_shared
      (when_open (do _ ← modify λ e. record e { total_reads = count e.total_reads }; look_up key))

put_memtable : MultiLevelKey → DataEntry → Method Engine (Result (Unit {0}))
put_memtable key entry =
    body λ e. let (t, r) = MemTable.put e.memtable key entry in (r, record e { memtable = t })

unfoldable pub put : MultiLevelKey → DataEntry → Method Engine (Result (Unit {0}))
unfolding put_memtable
put key entry =
    with_unique
      (when_open (do logged ← log put_type key entry; if_ok logged (put_memtable key entry)))

matched : MultiLevelKey → DataEntry → ℕ → Result DataEntry → Method Engine (Result (Unit {0}))
matched key entry expected (ok current) =
    if current.version == expected
    then put key (record entry { version = (expected + 1) % 2 ^ 64 })
    else pure (error version_conflict)
matched key entry expected (error s) =
    if expected == 0
    then put key (record entry { version = (expected + 1) % 2 ^ 64 })
    else pure (error version_conflict)

unfoldable pub put_if_version_match :
    MultiLevelKey → DataEntry → ℕ → Method Engine (Result (Unit {0}))
unfolding matched
put_if_version_match key entry expected =
    with_unique (when_open (do current ← get key; matched key entry expected current))

remove_memtable : MultiLevelKey → ℕ → Method Engine (Result (Unit {0}))
remove_memtable key now =
    body λ e. let (t, r) = MemTable.remove e.memtable key now in (r, record e { memtable = t })

unfoldable pub remove : MultiLevelKey → ℕ → ℕ → Method Engine (Result (Unit {0}))
unfolding remove_memtable
remove key now later = with_unique (
    when_open (do
      logged ← log delete_type key (record (default_entry now) { deleted = true })
      if_ok logged (remove_memtable key later)))

remove_matched :
    MultiLevelKey → (now later expected : ℕ) → Result DataEntry → Method Engine (Result (Unit {0}))
remove_matched key now later expected (error s) = pure (error not_found)
remove_matched key now later expected (ok current) =
    if current.version == expected then remove key now later else pure (error version_conflict)

unfoldable pub remove_if_version_match :
    MultiLevelKey → (now later expected : ℕ) → Method Engine (Result (Unit {0}))
unfolding remove_matched
remove_if_version_match key now later expected =
    with_unique (when_open (do current ← get key; remove_matched key now later expected current))
