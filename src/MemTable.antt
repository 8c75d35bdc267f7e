-- ===== src/MemTable.antt =====
-- src/storage/memtable.cpp: the table in memory. No method calls another one that locks, so each
-- runs as one step and the mutex is left out. Sums of sizes wrap as size_t does.
pub mod Laws
pub mod Usage
pub mod Scan
use qc_database.Prelude.{
  ℕ, ◌+◌, ◌-◌, ◌%◌, ◌^◌, Bool, true, false, not, ◌&&◌, Option, none, some, List, [], ◌∷◌, ltb, leb,
  ◌==◌, if◌then◌else◌, length,
}
use qc_database.Std.OrderedMap.{OrderedMap, find, insert, lower_bound, upper_bound}
use qc_database.Std.Method.{Outcome, returns, undefined}
use qc_database.Types.{
  MultiLevelKey, DataEntry, Result, ok, error, not_found, invalid_argument, RangeQuery, to_string,
  default_entry, max_key_size, max_value_size, memtable_size_limit, key_order, key_beq,
}

pub record MemTable : Type 0 where
  pub entries : OrderedMap MultiLevelKey DataEntry
  pub memory_usage : ℕ

abbrev pub empty : MemTable
empty = record { entries = []; memory_usage = 0 }

abbrev pub size_mod : ℕ
size_mod = 2 ^ 64

-- += and -= on a std::atomic<size_t>
abbrev pub add_size : ℕ → ℕ → ℕ
add_size a b = (a + b) % size_mod

abbrev pub sub_size : ℕ → ℕ → ℕ
sub_size a b = (a + size_mod - b % size_mod) % size_mod

-- sizeof(DataEntry), with a std::string of 32 bytes
abbrev pub entry_overhead : ℕ
entry_overhead = 56

abbrev pub entry_size : MultiLevelKey → DataEntry → ℕ
entry_size key entry = length (to_string key) + length entry.value + entry_overhead

abbrev pub live_or_missing : Option DataEntry → Result DataEntry
live_or_missing none = error not_found
live_or_missing (some entry) = if entry.deleted then error not_found else ok entry

unfoldable pub get : MemTable → MultiLevelKey → Result DataEntry
get t key = live_or_missing (find key t.entries)

abbrev old_size : MultiLevelKey → Option DataEntry → ℕ
old_size key none = 0
old_size key (some entry) = entry_size key entry

unfoldable pub put : MemTable → MultiLevelKey → DataEntry → MemTable × Result (Unit {0})
put t key entry =
    if ltb max_key_size (length (to_string key))
    then (t, error invalid_argument)
    else if ltb max_value_size (length entry.value)
    then (t, error invalid_argument)
    else (
      record {
        entries = insert key entry t.entries;
        memory_usage =
            sub_size (add_size t.memory_usage (entry_size key entry))
              (old_size key (find key t.entries));
      },
      ok tt,
    )

bury : MemTable → MultiLevelKey → ℕ → Option DataEntry → MemTable
bury t key now none = record {
  entries = insert key (record (default_entry now) { deleted = true }) t.entries;
  memory_usage = add_size t.memory_usage (length (to_string key) + entry_overhead);
}
bury t key now (some entry) = record t {
  entries = insert key (record entry { deleted = true; timestamp = now }) t.entries;
}

-- `now` is the clock's reading. The status is always OK.
unfoldable pub remove : MemTable → MultiLevelKey → ℕ → MemTable × Result (Unit {0})
unfolding bury
remove t key now = (bury t key now (find key t.entries), ok tt)

abbrev pub Entries : Type 0
Entries = OrderedMap MultiLevelKey DataEntry

abbrev pub emit : MultiLevelKey × DataEntry → Outcome Entries → Outcome Entries
emit x (returns xs) = returns (if x.1.deleted then xs else x ∷ xs)
emit x undefined = undefined

-- The loop from `it` to the iterator that has `stop` entries ahead of it.
unfoldable pub scan : (stop limit count : ℕ) (it : Entries) → Outcome Entries
scan stop limit count [] =
    if 0 == stop then returns [] else if ltb count limit then undefined else returns []
scan stop limit count (x ∷ it) =
    let rest = scan stop limit (count + 1) it in
    if length it + 1 == stop
    then returns []
    else if ltb count limit
    then emit x rest
    else returns []

-- `++it` if the flag is set, `it` is not the end and it points at the key.
unfoldable pub step_over :
    {V : Type 0} → Bool → MultiLevelKey → OrderedMap MultiLevelKey V → OrderedMap MultiLevelKey V
step_over flag key [] = []
step_over flag key ((k, e) ∷ it) = if flag && key_beq k key then it else (k, e) ∷ it

unfoldable pub range_scan : MemTable → RangeQuery → Outcome Entries
range_scan t q =
    scan (length (step_over q.inclusive_end q.end_key (upper_bound q.end_key t.entries))) q.limit 0
      (step_over (not q.inclusive_start) q.start_key (lower_bound q.start_key t.entries))

unfoldable pub size : MemTable → ℕ
size t = length t.entries

unfoldable pub should_flush : MemTable → Bool
should_flush t = leb memtable_size_limit t.memory_usage

unfoldable pub get_all_data : MemTable → Entries
get_all_data t = t.entries

unfoldable pub clear : MemTable → MemTable
clear t = empty
