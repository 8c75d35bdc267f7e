-- ===== src/Lsm/Lifecycle.antt =====
-- src/storage/lsm_tree.cpp, open, close and recovery, and what size and memory_usage count. No other
-- thread is modelled: close waits for the background thread with the mutex released.
pub mod Redo
pub mod Recovery
use qc_database.Prelude.{
  ℕ, ◌+◌, ◌%◌, ◌^◌, ◌==◌, Bool, true, false, Option, none, some, List, [], ◌∷◌, ◌++◌, if◌then◌else◌,
}
use qc_database.Std.Bytes.{Str}
use qc_database.Std.Method.{
  Outcome, returns, undefined, Guarded, Method, ◌>>=◌, pure, body, modify, with_unique, with_shared,
  gets,
}
use qc_database.Types.{Result, ok, error, storage_error, default_entry}
use qc_database.MemTable
use qc_database.MemTable.{MemTable}
use qc_database.Wal.Entry.{WalEntry, put_type, delete_type}
use qc_database.Wal.Log
use qc_database.SsTable
use qc_database.SsTable.{SsTable, Disk, new_table}
use qc_database.Lsm.{Engine, on_wal, if_ok}
use qc_database.Lsm.Tables.{flush_memtable}

-- What recovery does with one entry of the log. The status of a put is not looked at.
unfoldable pub redo : ℕ → MemTable → WalEntry → MemTable
redo now t e =
    if e.type == put_type
    then (MemTable.put t e.key e.payload).0
    else if e.type == delete_type
    then (MemTable.remove t e.key now).0
    else t

unfoldable pub redo_all : ℕ → MemTable → List WalEntry → MemTable
redo_all now t [] = t
redo_all now t (e ∷ es) = redo_all now (redo now t e) es

recovered : ℕ → Result (List WalEntry) → Engine → Result (Unit {0}) × Engine
recovered now (ok es) e = (ok tt, record e { memtable = redo_all now e.memtable es })
recovered now (error s) e = (error s, e)

unfoldable pub recover_from_wal : ℕ → Method Engine (Result (Unit {0}))
unfolding recovered
recover_from_wal now = do replayed ← on_wal (Log.replay_from now 0); body (recovered now replayed)

kept : Outcome (Result (Unit {0}) × SsTable) → Outcome (List SsTable) → Outcome (List SsTable)
kept undefined rest = undefined
kept (returns (r, t)) undefined = undefined
kept (returns (ok u, t)) (returns ts) = returns (t ∷ ts)
kept (returns (error s, t)) (returns ts) = returns ts

-- The files are in the order of their names, as they are after the sort.
unfoldable pub load_files : (Str → Bool) → Disk → (files : Disk) → Outcome (List SsTable)
unfolding kept
load_files is_table d [] = returns []
load_files is_table d ((name, bytes) ∷ files) =
    let rest = load_files is_table d files in
    if is_table name then kept (SsTable.load_index (new_table name) d) rest else rest

loaded_files :
    Guarded Engine → Outcome (List SsTable) → Outcome (Result (Unit {0}) × Guarded Engine)
loaded_files g undefined = undefined
loaded_files g (returns ts) =
    returns (ok tt, record g { value = record g.value { sstables = g.value.sstables ++ ts } })

-- `is_table` tells the regular files of the data directory whose extension is ".sst". A file that
-- cannot be loaded is left out.
unfoldable pub load_sstables : (Str → Bool) → Method Engine (Result (Unit {0}))
unfolding loaded_files
load_sstables is_table g = loaded_files g (load_files is_table g.value.disk g.value.disk)

-- The part of open that runs on an engine that is not open. `directories` and `creatable` are those
-- of the log; a directory that cannot be made is an exception.
start_up : Bool → Bool → (Str → Bool) → ℕ → Method Engine (Result (Unit {0}))
start_up directories creatable is_table now =
    if directories
    then (do
      opened ← on_wal (Log.open_wal directories creatable)
      if_ok opened (do
        replayed ← recover_from_wal now
        if_ok replayed (do
          loaded ← load_sstables is_table
          if_ok loaded (body λ e. (ok tt, record e { is_open = true })))))
    else pure (error storage_error)

unfoldable pub open_engine : Bool → Bool → (Str → Bool) → ℕ → Method Engine (Result (Unit {0}))
unfolding start_up
open_engine directories creatable is_table now = with_unique λ g.
    if g.value.is_open then returns (ok tt, g) else start_up directories creatable is_table now g

-- The results of the flush and of closing the log are not looked at.
unfoldable pub close_engine :
    (Str → Bool) → (older stamp : Str) → ℕ → Method Engine (Result (Unit {0}))
close_engine creatable older stamp now = with_unique λ g.
    if g.value.is_open
    then (do
      _ ← flush_memtable creatable older stamp now
      _ ← on_wal Log.close_wal
      body λ e. (ok tt, record e { is_open = false }))
        g
    else returns (ok tt, g)

abbrev of_immutable : (MemTable → ℕ) → Option MemTable → ℕ
of_immutable f none = 0
of_immutable f (some t) = f t

abbrev sizes : List SsTable → ℕ
sizes [] = 0
sizes (t ∷ ts) = t.size + sizes ts

-- size: an entry counts once for each table that holds its key.
unfoldable pub size : Method Engine ℕ
size = with_shared (
    gets λ e.
      (MemTable.size e.memtable
        + of_immutable MemTable.size e.immutable_memtable
        + sizes e.sstables)
      % 2 ^ 64)

unfoldable pub memory_usage : Method Engine ℕ
memory_usage = with_shared (
    gets λ e.
      (e.memtable.memory_usage + of_immutable (λ t. t.memory_usage) e.immutable_memtable) % 2 ^ 64)
