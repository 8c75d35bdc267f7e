-- ===== src/Tests/Storage.antt =====
-- src/storage/memtable.cpp and src/crc32c.cpp at small inputs.
use qc_database.Prelude.{◌≡◌, refl, true, false, [], ◌∷◌, arith, ℕ}
use qc_database.Std.Method.{returns}
use qc_database.Std.OrderedMap.{IsSorted}
use qc_database.Types.{MultiLevelKey, DataEntry, RangeQuery, ok, error, not_found, key_order}
use qc_database.MemTable.{MemTable, empty, put, get, range_scan}
use qc_database.MemTable.Laws.{get-put}
use qc_database.MemTable.Usage.{run, run-IsValid, empty-IsValid, puts, removes, IsValid}
use qc_database.MemTable.Scan.{range_scan_lem}
use qc_database.Crc32c.Detection.{crc32c-one_byte}

abbrev key_a : MultiLevelKey
key_a = record { primary_key = b'a' ∷ []; secondary_key = [] }

abbrev key_b : MultiLevelKey
key_b = record { primary_key = b'b' ∷ []; secondary_key = [] }

abbrev key_c : MultiLevelKey
key_c = record { primary_key = b'c' ∷ []; secondary_key = [] }

abbrev entry_of : ℕ → DataEntry
entry_of x = record { value = x ∷ []; version = 1; timestamp = 7; deleted = false }

abbrev two_entries : MemTable
two_entries = record {
  entries = (key_a, entry_of 1) ∷ (key_b, entry_of 2) ∷ [];
  memory_usage = 118;
}

abbrev query : MultiLevelKey → MultiLevelKey → RangeQuery
query start end_ = record {
  start_key = start;
  end_key = end_;
  limit = 10;
  inclusive_start = true;
  inclusive_end = false;
}

two_entries-IsSorted : IsSorted two_entries.entries
two_entries-IsSorted = ((refl, tt), (tt, tt))

get-put_example :
    ((put empty key_a (entry_of 1)).1 ≡ ok tt)
    × (get (put empty key_a (entry_of 1)).0 key_a ≡ ok (entry_of 1))
unfolding qc_database.Types.to_string
get-put_example = get-put empty key_a (entry_of 1) key_a

run-IsValid_example :
    IsValid (run empty (puts key_b (entry_of 2) ∷ puts key_a (entry_of 1) ∷ removes key_b 9 ∷ []))
run-IsValid_example =
    run-IsValid empty (puts key_b (entry_of 2) ∷ puts key_a (entry_of 1) ∷ removes key_b 9 ∷ [])
      empty-IsValid

range_scan_lem_example :
    range_scan two_entries (query key_a key_b)
    ≡ returns ((key_a, entry_of 1) ∷ (key_b, entry_of 2) ∷ [])
range_scan_lem_example = range_scan_lem two_entries (query key_a key_b) two_entries-IsSorted refl

crc32c-one_byte_example : ◌≡◌ {A = ℕ} 3 3
crc32c-one_byte_example =
    crc32c-one_byte (1 ∷ []) (2 ∷ []) 3 3 (omega arith, tt) (omega arith) (omega arith) refl
