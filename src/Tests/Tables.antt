-- ===== src/Tests/Tables.antt =====
-- src/storage/sstable.cpp at small inputs.
use qc_database.Prelude.{◌≡◌, ◌≢◌, refl, true, false, [], ◌∷◌, arith}
use qc_database.Std.Bytes.{Str, le_bytes, of_le_bytes}
use qc_database.Std.OrderedMap.{find}
use qc_database.Std.Method.{returns}
use qc_database.Types.{
  MultiLevelKey, DataEntry, RangeQuery, ok, error, storage_error, key_order, to_string,
}
use qc_database.MemTable
use qc_database.MemTable.{MemTable, Entries, empty}
use qc_database.SsTable
use qc_database.SsTable.{
  SsTable, Disk, new_table, write, load_index, data_bytes, magic_number, payload_bytes, sized,
}
use qc_database.SsTable.Written.{Writable, memtable, write-refines}
use qc_database.SsTable.Lookup.{scanned}
use qc_database.SsTable.Reload.{AllPlain}
use qc_database.SsTable.Reopened.{reopen-refines, colon_never_found, load_index-refused}

abbrev pub key_a : MultiLevelKey
key_a = record { primary_key = b'a' ∷ []; secondary_key = [] }

abbrev pub key_b : MultiLevelKey
key_b = record { primary_key = b'b' ∷ []; secondary_key = b'x' ∷ [] }

abbrev pub live_entry : DataEntry
live_entry = record { value = 7 ∷ 8 ∷ []; version = 3; timestamp = 300; deleted = false }

abbrev pub tombstone : DataEntry
tombstone = record { value = []; version = 0; timestamp = 9; deleted = true }

abbrev pub two_entries : Entries
two_entries = (key_a, live_entry) ∷ (key_b, tombstone) ∷ []

abbrev pub name : Str
name = b't' ∷ []

pub two_entries-Writable : Writable two_entries
unfolding to_string
two_entries-Writable = record {
  not_empty = λ e. absurd (omega arith);
  sorted = ((refl, tt), (tt, tt));
  storable = (
    record {
      key_size = omega arith;
      value_size = omega arith;
      version = omega arith;
      timestamp = omega arith;
    },
    (
      record {
        key_size = omega arith;
        value_size = omega arith;
        version = omega arith;
        timestamp = omega arith;
      },
      tt,
    ),
  );
}

two_entries-AllPlain : AllPlain two_entries
two_entries-AllPlain = (((λ e. absurd (omega arith)), tt), (((λ e. absurd (omega arith)), tt), tt))

write-refines_example :
    (t : SsTable) × (d : Disk) × (write true two_entries (new_table name) [] ≡ (ok tt, t, d))
    × ((key : MultiLevelKey)
        → SsTable.read key t d ≡ returns (MemTable.get (memtable two_entries) key, t))
    × ((q : RangeQuery)
        → SsTable.range_scan q t d ≡ scanned t (MemTable.range_scan (memtable two_entries) q))
write-refines_example = write-refines two_entries (new_table name) [] two_entries-Writable

reopen-refines_example :
    (t : SsTable) × (d : Disk) × (write true two_entries (new_table name) [] ≡ (ok tt, t, d))
    × (SsTable.read key_a (new_table name) d ≡ returns (ok live_entry, t))
unfolding MemTable.get find data_bytes payload_bytes sized le_bytes to_string
reopen-refines_example =
    reopen-refines two_entries (new_table name) [] key_a two_entries-Writable two_entries-AllPlain
      (omega arith) (omega arith)

abbrev key_colon : MultiLevelKey
key_colon = record { primary_key = b'a' ∷ b':' ∷ []; secondary_key = [] }

colon_never_found_example :
    SsTable.read key_colon (new_table name) ((name, 1 ∷ 2 ∷ []) ∷ [])
    ≢ returns (ok live_entry, new_table name)
colon_never_found_example =
    colon_never_found name ((name, 1 ∷ 2 ∷ []) ∷ []) key_colon live_entry (new_table name)
      (λ h. h.1.0 refl)

load_index-refused_example :
    load_index (new_table name) ((name, 1 ∷ 2 ∷ 3 ∷ 4 ∷ 1 ∷ 0 ∷ 0 ∷ 0 ∷ 5 ∷ []) ∷ [])
    ≡ returns (error storage_error, new_table name)
unfolding find of_le_bytes
load_index-refused_example =
    load_index-refused (new_table name) ((name, 1 ∷ 2 ∷ 3 ∷ 4 ∷ 1 ∷ 0 ∷ 0 ∷ 0 ∷ 5 ∷ []) ∷ [])
      (1 ∷ 2 ∷ 3 ∷ 4 ∷ []) (1 ∷ 0 ∷ 0 ∷ 0 ∷ []) (5 ∷ []) refl refl refl refl
