-- ===== src/SsTable/Written.antt =====
-- src/storage/sstable.cpp, write: what a table that was just written answers.
use qc_database.Prelude.{◌≡◌, ◌≢◌, refl, true, [], ◌∷◌, ℕ, length}
use qc_database.Std.Bytes.{str_order, le_bytes}
use qc_database.Std.OrderedMap.{find-insert_self, IsSorted, insert}
use qc_database.Std.Method.{returns}
use qc_database.Types.{MultiLevelKey, ok, RangeQuery, key_order}
use qc_database.MemTable
use qc_database.MemTable.{MemTable, Entries}
use qc_database.SsTable.{
  SsTable, Disk, write, read, range_scan, header, index_from, file_bytes, data_offset,
}
use qc_database.SsTable.Indexed.{AllStorable, index_from-Indexes}
use qc_database.SsTable.Lookup.{Stores, read-Stores, range_scan-Stores, scanned}

-- What can be written: some entries, in order, that fit into the fields of a record.
pub record Writable (m : Entries) : Type 0 where
  pub not_empty : length m ≢ 0
  pub sorted : IsSorted m
  pub storable : AllStorable m

-- The table after it has written.
abbrev pub written : Entries → SsTable → SsTable
written m t = record t { index = index_from data_offset m; size = length m }

pub length-header : (n : ℕ) → length (header n) ≡ data_offset
unfolding header le_bytes
length-header n = refl

pub write-Writable :
    (m : Entries) (t : SsTable) (d : Disk)
    → length m ≢ 0
    → write true m t d ≡ (ok tt, written m t, insert t.filename (file_bytes m) d)
unfolding write
write-Writable [] t d ne = absurd (ne refl)
write-Writable (x ∷ m) t d ne = refl

pub written-Stores :
    (m : Entries) (t : SsTable) (d : Disk)
    → Writable m
    → Stores (written m t) (insert t.filename (file_bytes m) d) m
unfolding file_bytes index_from header le_bytes
written-Stores m t d w = record {
  bytes = file_bytes m;
  stored = find-insert_self t.filename (file_bytes m) d;
  index = index_from-Indexes (header (length m)) _ m;
  not_empty = w.not_empty;
  sorted = w.sorted;
  storable = w.storable;
}

-- A memtable with these entries.
abbrev pub memtable : Entries → MemTable
memtable m = record { entries = m; memory_usage = 0 }

-- A table on disk is as good as the memtable it was written from: a write of entries in order that
-- fit into the fields of a record returns OK, and then every lookup returns what get returns on a
-- memtable with these entries and every scan what its scan returns, undefined where that is; none
-- of them changes the table.
pub write-refines :
    (m : Entries) (t : SsTable) (d : Disk)
    → Writable m
    → (t' : SsTable) × (d' : Disk) × (write true m t d ≡ (ok tt, t', d'))
      × ((key : MultiLevelKey) → read key t' d' ≡ returns (MemTable.get (memtable m) key, t'))
      × ((q : RangeQuery) → range_scan q t' d' ≡ scanned t' (MemTable.range_scan (memtable m) q))
unfolding MemTable.get
write-refines m t d w =
    let s = written-Stores m t d w in
    (
      written m t,
      insert t.filename (file_bytes m) d,
      write-Writable m t d w.not_empty,
      (λ key. read-Stores key _ _ m s),
      (λ q. range_scan-Stores q _ _ m 0 s),
    )
