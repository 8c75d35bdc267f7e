-- ===== src/Lsm/Tables/Flush.antt =====
-- src/storage/lsm_tree.cpp, flush and compact: what lookups answer after them.
use qc_database.Prelude.{
  ℕ, ◌≡◌, ◌≢◌, refl, ap, sym, ◌∙◌, Bool, true, false, none, some, List, [], ◌∷◌, ◌++◌, arith,
  length, ◌==◌,
}
use qc_database.Std.Bytes.{Str, str_order}
use qc_database.Std.OrderedMap.{insert, find}
use qc_database.Std.Method.{
  Outcome, returns, undefined, Guarded, at_rest, unique, unlocked, >>=-returns,
}
use qc_database.Types.{MultiLevelKey, DataEntry, Result, ok, error, default_entry}
use qc_database.MemTable
use qc_database.MemTable.{MemTable, empty, Entries}
use qc_database.Wal.Entry.{checkpoint_type}
use qc_database.Wal.Log
use qc_database.Wal.Log.{Wal}
use qc_database.Wal.Log.Appends.{logged}
use qc_database.SsTable
use qc_database.SsTable.{SsTable, Disk, new_table, file_bytes}
use qc_database.SsTable.Written.{Writable, written, write-Writable, written-Stores}
use qc_database.SsTable.Lookup.{read-Stores}
use qc_database.SsTable.OtherFiles.{find-insert_other, read-other_file}
use qc_database.Lsm.{Engine, if_ok, on_wal, read_tables, or_older}
use qc_database.Lsm.Tables.{
  generate_sstable_filename, save_table, flush_memtable, flush, flush_immutable, flush_entries,
  retire, no_key, placed,
}
use qc_database.Lsm.Answers.{answer, answer-eq, or_behind, in_tables-newest, found}
use qc_database.Lsm.Writes.{running}

-- No table has this file.
abbrev pub IsFresh : Str → List SsTable → Type 0
IsFresh name [] = Unit
IsFresh name (t ∷ ts) = (t.filename ≢ name) × IsFresh name ts

or_older-same :
    (key : MultiLevelKey) (t : SsTable) (d d' : Disk)
    (o : Outcome (Result DataEntry × List SsTable))
    → SsTable.read key t d' ≡ SsTable.read key t d
    → or_older key d' t o ≡ or_older key d t o
or_older-same key t d d' undefined e = refl
or_older-same key t d d' (returns (ok entry, newer)) e = refl
or_older-same key t d d' (returns (error s, newer)) e = rw e refl

read_tables-fresh :
    (key : MultiLevelKey) (name bytes : Str) (d : Disk) (ts : List SsTable)
    → IsFresh name ts
    → read_tables key (insert name bytes d) ts ≡ read_tables key d ts
unfolding read_tables
read_tables-fresh key name bytes d [] f = refl
read_tables-fresh key name bytes d (t ∷ ts) f =
    ap (or_older key (insert name bytes d) t) (read_tables-fresh key name bytes d ts f.1)
    ∙ or_older-same key t d _ _ (
        read-other_file key t d (insert name bytes d)
          (find-insert_other name t.filename bytes d f.0))

save_table-Writable :
    (creatable : Str → Bool) (stamp : Str) (m : Entries) (e : Engine)
    → creatable (generate_sstable_filename e.data_dir stamp) ≡ true
    → Writable m
    → save_table creatable stamp m e ≡ (
      ok tt,
      record e {
        sstables =
            e.sstables ++ written m (new_table (generate_sstable_filename e.data_dir stamp)) ∷ [];
        disk = insert (generate_sstable_filename e.data_dir stamp) (file_bytes m) e.disk;
      },
    )
unfolding save_table placed
save_table-Writable creatable stamp m e c w =
    let t = new_table (generate_sstable_filename e.data_dir stamp) in
    rw c (ap (placed e) (write-Writable m t e.disk w.not_empty))

-- The engine between two flushes: no immutable memtable.
abbrev pub settled : Engine → Wal → Engine
settled e w = record (running e w) { immutable_memtable = none }

-- The memtable as the newest table.
abbrev pub moved : Str → Engine → Engine
moved stamp e =
    let name = generate_sstable_filename e.data_dir stamp in
    record e {
      memtable = empty;
      sstables = e.sstables ++ written e.memtable.entries (new_table name) ∷ [];
      disk = insert name (file_bytes e.memtable.entries) e.disk;
    }

abbrev pub checkpointed : ℕ → Wal → Wal
checkpointed now w =
    logged
      (record {
        type = checkpoint_type;
        key = no_key;
        payload = default_entry now;
        sequence_number = 0;
      })
      (record w { is_open = true })

-- The engine after a flush.
abbrev pub flushed : Str → ℕ → Engine → Wal → Engine
flushed stamp now e w = settled (moved stamp e) (checkpointed now w)

flush_entries-settled :
    (creatable : Str → Bool) (older stamp : Str) (now : ℕ) (e : Engine) (w : Wal)
    → creatable (generate_sstable_filename e.data_dir stamp) ≡ true
    → Writable e.memtable.entries
    → flush_entries creatable false older stamp now (record { mutex = unique; value = settled e w })
      ≡ returns (ok tt, record { mutex = unique; value = flushed stamp now e w })
unfolding flush_entries flush_immutable retire MemTable.get_all_data Log.append
flush_entries-settled creatable older stamp now e w c m =
    let old : Engine = record (settled e w) {
      immutable_memtable = some e.memtable;
      memtable = empty;
    } in
    rw (save_table-Writable creatable stamp e.memtable.entries old c m) refl

pub flush-settled :
    (creatable : Str → Bool) (older stamp : Str) (now : ℕ) (e : Engine) (w : Wal)
    → creatable (generate_sstable_filename e.data_dir stamp) ≡ true
    → Writable e.memtable.entries
    → flush creatable older stamp now (at_rest (settled e w))
      ≡ returns (ok tt, at_rest (flushed stamp now e w))
unfolding flush flush_memtable MemTable.size Log.sync
flush-settled creatable older stamp now e w c m =
    let not_empty : (length e.memtable.entries == 0) ≡ false = ground (arith, m.not_empty) in
    let locked : Guarded Engine = record { mutex = unique; value = settled e w } in
    let flushing : flush_memtable creatable older stamp now locked
        ≡ returns (ok tt, record { mutex = unique; value = flushed stamp now e w }) =
      ap (λ b. flush_entries creatable b older stamp now locked) not_empty
      ∙ flush_entries-settled creatable older stamp now e w c m in
    ap unlocked (
      >>=-returns (flush_memtable creatable older stamp now) (λ r. if_ok r (on_wal Log.sync)) locked
        flushing)

-- The new table answers for the memtable.
pub answer-flushed :
    (stamp : Str) (now : ℕ) (e : Engine) (w : Wal) (key : MultiLevelKey)
    → IsFresh (generate_sstable_filename e.data_dir stamp) e.sstables
    → Writable e.memtable.entries
    → answer key (flushed stamp now e w) ≡ answer key (settled e w)
unfolding MemTable.get find read_tables
answer-flushed stamp now e w key f m =
    let name = generate_sstable_filename e.data_dir stamp in
    let d = insert name (file_bytes e.memtable.entries) e.disk in
    let t = written e.memtable.entries (new_table name) in
    answer-eq key (flushed stamp now e w) refl
    ∙ in_tables-newest key d e.sstables t t _ (
        read-Stores key t d e.memtable.entries
          (written-Stores e.memtable.entries (new_table name) e.disk m))
    ∙ ap (or_behind (MemTable.get e.memtable key))
        (ap found (read_tables-fresh key name (file_bytes e.memtable.entries) e.disk e.sstables f))
    ∙ sym (answer-eq key (settled e w) refl)

-- A flush moves the memtable to disk and changes no answer. On an open engine with an open log and no
-- immutable memtable, whose memtable holds something that can be written, if the new file can be
-- created and no table has its name, flush returns OK, and every lookup answers what it answered
-- before; the memtable is then empty.
pub answer-flush :
    (creatable : Str → Bool) (older stamp : Str) (now : ℕ) (e : Engine) (w : Wal)
    → creatable (generate_sstable_filename e.data_dir stamp) ≡ true
    → IsFresh (generate_sstable_filename e.data_dir stamp) e.sstables
    → Writable e.memtable.entries
    → (e' : Engine) × (flush creatable older stamp now (at_rest (settled e w))
        ≡ returns (ok tt, at_rest e'))
      × (e'.memtable ≡ empty)
      × ((key : MultiLevelKey) → answer key e' ≡ answer key (settled e w))
answer-flush creatable older stamp now e w c f m = (
  flushed stamp now e w,
  flush-settled creatable older stamp now e w c m,
  refl,
  λ key. answer-flushed stamp now e w key f m,
)

-- With an empty memtable a flush only syncs the log.
pub flush-empty :
    (creatable : Str → Bool) (older stamp : Str) (now : ℕ) (e : Engine) (w : Wal)
    → length e.memtable.entries ≡ 0
    → flush creatable older stamp now (at_rest (settled e w))
      ≡ returns (ok tt, at_rest (settled e w))
unfolding flush flush_memtable flush_entries MemTable.size Log.sync
flush-empty creatable older stamp now e w h =
    let locked : Guarded Engine = record { mutex = unique; value = settled e w } in
    let is_empty : (length e.memtable.entries == 0) ≡ true = ground arith in
    ap unlocked (
      >>=-returns (flush_memtable creatable older stamp now) (λ r. if_ok r (on_wal Log.sync)) locked
        (ap (λ b. flush_entries creatable b older stamp now locked) is_empty))
