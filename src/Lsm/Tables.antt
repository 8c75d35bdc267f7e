-- ===== src/Lsm/Tables.antt =====
-- src/storage/lsm_tree.cpp, flush and compact: memtables turned into tables. `creatable` tells which
-- files can be opened for writing, and a `stamp` is the local time as put_time prints it.
pub mod Flush
pub mod Compaction
use qc_database.Prelude.{
  ℕ, ◌+◌, ◌==◌, Bool, true, false, Option, none, some, List, [], ◌∷◌, ◌++◌, if◌then◌else◌, length,
  ltb,
}
use qc_database.Std.Bytes.{Str, str_order}
use qc_database.Std.OrderedMap.{erase}
use qc_database.Std.Method.{Method, ◌>>=◌, ◌>>◌, pure, gets, body, modify, with_unique, returns}
use qc_database.Types.{MultiLevelKey, Result, ok, error, default_entry}
use qc_database.MemTable
use qc_database.MemTable.{MemTable, Entries, empty}
use qc_database.Wal.Entry.{checkpoint_type}
use qc_database.Wal.Log
use qc_database.SsTable
use qc_database.SsTable.{SsTable, Disk, new_table}
use qc_database.Lsm.{Engine, on_wal, if_ok, when_open, log}

-- "/sstable_"
abbrev name_prefix : Str
name_prefix = b'/' ∷ b's' ∷ b's' ∷ b't' ∷ b'a' ∷ b'b' ∷ b'l' ∷ b'e' ∷ b'_' ∷ []

-- ".sst"
abbrev pub extension : Str
extension = b'.' ∷ b's' ∷ b's' ∷ b't' ∷ []

unfoldable pub generate_sstable_filename : Str → Str → Str
generate_sstable_filename data_dir stamp = data_dir ++ (name_prefix ++ (stamp ++ extension))

-- MultiLevelKey()
abbrev no_key : MultiLevelKey
no_key = record { primary_key = []; secondary_key = [] }

-- push_back of a table that was written.
placed : Engine → Result (Unit {0}) × SsTable × Disk → Result (Unit {0}) × Engine
placed e (ok u, t, d) = (ok tt, record e { sstables = e.sstables ++ t ∷ []; disk = d })
placed e (error s, t, d) = (error s, e)

-- The new table becomes the oldest, and the files of the two old ones are removed.
merged :
    SsTable
    → SsTable
    → List SsTable
    → Engine
    → Result (Unit {0}) × SsTable × Disk
    → Result (Unit {0}) × Engine
merged oldest second newer e (error s, t, d) = (error s, record e { sstables = newer })
merged oldest second newer e (ok u, t, d) = (
  ok tt,
  record e { sstables = t ∷ newer; disk = erase second.filename (erase oldest.filename d) },
)

module _ (creatable : Str → Bool) where
  unfoldable pub save_table : Str → Entries → Engine → Result (Unit {0}) × Engine
  unfolding placed
  save_table stamp m e =
      let name = generate_sstable_filename e.data_dir stamp in
      placed e (SsTable.write (creatable name) m (new_table name) e.disk)

  flush_immutable : Str → Method Engine (Result (Unit {0}))
  flush_immutable stamp = body λ e. elim e.immutable_memtable [
    | none ↦ (ok tt, e)
    | some t ↦ save_table stamp (MemTable.get_all_data t) e
  ]

  retire : Engine → Engine
  retire e = record e { immutable_memtable = some e.memtable; memtable = empty }

  -- An immutable memtable that is still there is saved first, under the stamp `older`. That the
  -- checkpoint may not be logged is ignored.
  flush_entries : (empty : Bool) (older stamp : Str) → ℕ → Method Engine (Result (Unit {0}))
  unfolding flush_immutable retire
  flush_entries true older stamp now = pure (ok tt)
  flush_entries false older stamp now = do
    before ← flush_immutable older
    if_ok before (do
      _ ← modify retire
      saved ← flush_immutable stamp
      if_ok saved (do
        _ ← modify λ e. record e { immutable_memtable = none }
        _ ← log checkpoint_type no_key (default_entry now)
        pure (ok tt)))

  unfoldable pub flush_memtable : (older stamp : Str) → ℕ → Method Engine (Result (Unit {0}))
  unfolding flush_entries
  flush_memtable older stamp now g =
      flush_entries (MemTable.size g.value.memtable == 0) older stamp now g

  unfoldable pub flush : (older stamp : Str) → ℕ → Method Engine (Result (Unit {0}))
  flush older stamp now =
      with_unique
        (when_open (do flushed ← flush_memtable older stamp now; if_ok flushed (on_wal Log.sync)))

  merge_into : Str → SsTable → SsTable → List SsTable → Engine → Result (Unit {0}) × Engine
  unfolding merged
  merge_into stamp oldest second newer e =
      let name = generate_sstable_filename e.data_dir stamp in
      merged oldest second newer e (SsTable.write (creatable name) [] (new_table name) e.disk)

  compact_engine : Str → List SsTable → Engine → Result (Unit {0}) × Engine
  compact_engine stamp [] e = (ok tt, e)
  compact_engine stamp (t ∷ []) e = (ok tt, e)
  compact_engine stamp (oldest ∷ second ∷ newer) e = merge_into stamp oldest second newer e

  -- The two oldest tables leave the list before the new one is written, with what they hold: the
  -- data that is merged is empty.
  unfoldable pub compact_sstables : Str → Method Engine (Result (Unit {0}))
  unfolding compact_engine merge_into
  compact_sstables stamp = body λ e. compact_engine stamp e.sstables e

  unfoldable pub compact : Str → Method Engine (Result (Unit {0}))
  compact stamp = with_unique (when_open (compact_sstables stamp))

unfoldable pub need_compaction : Engine → Bool
need_compaction e = ltb e.max_sstables (length e.sstables)

-- One round of background_work, after its wait.
unfoldable pub background_round :
    (Str → Bool) → (older stamp merged : Str) → ℕ → Method Engine (Unit {0})
background_round creatable older stamp merged now = with_unique (do
  due ← gets λ e. MemTable.should_flush e.memtable
  _ ← if due then flush_memtable creatable older stamp now else pure (ok tt)
  full ← gets need_compaction
  _ ← if full then compact_sstables creatable merged else pure (ok tt)
  pure tt)
