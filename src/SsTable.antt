-- ===== src/SsTable.antt =====
-- src/storage/sstable.cpp: a sorted table in a file. No method calls another one that locks, so
-- each runs as one step and the mutex is left out. Memory that runs out is not modelled.
pub mod Records
pub mod Indexed
pub mod Lookup
pub mod Written
pub mod Reload
pub mod Reopened
pub mod OtherFiles
use qc_database.Prelude.{
  ℕ, zero, suc, ◌+◌, ◌%◌, ◌^◌, Bool, true, false, not, ◌==◌, ◌&&◌, ltb, if◌then◌else◌, Option, none,
  some, List, [], ◌∷◌, ◌++◌, length, take, list_beq, nat_eq,
}
use qc_database.Std.Bytes.{str_order, Str, le_bytes, of_le_bytes}
use qc_database.Std.Fstream.{Fstream, open_file, read as read_bytes}
use qc_database.Std.OrderedMap.{OrderedMap, find, insert, lower_bound, upper_bound}
use qc_database.Std.Method.{Outcome, returns, undefined}
use qc_database.Std.Ifstream.{
  Reader, ◌>>=◌, ◌>>◌, pure, result, read_uint, read_string, seek_to, skip, seek_from_end,
}
use qc_database.Types.{
  MultiLevelKey, DataEntry, Result, ok, error, not_found, invalid_argument, storage_error,
  RangeQuery, to_string, key_order, key_lt, key_beq, colon,
}
use qc_database.MemTable.{Entries, step_over}

-- Where a record lies in the file: an IndexEntry without its key.
pub record Place : Type 0 where
  pub offset : ℕ
  pub size : ℕ

-- The vector of IndexEntry. A lookup relies on its keys to rise, but nothing ensures it.
abbrev pub Index : Type 0
Index = OrderedMap MultiLevelKey Place

pub record SsTable : Type 0 where
  pub filename : Str
  pub index : Index
  pub size : ℕ

-- The files, by name.
abbrev pub Disk : Type 0
Disk = OrderedMap Str Str

-- SSTable::SSTable
abbrev pub new_table : Str → SsTable
new_table filename = record { filename = filename; index = []; size = 0 }

abbrev pub magic_number : ℕ
magic_number = 0x5354414C

-- A size as a uint32_t, and that many bytes of the string.
unfoldable pub sized : Str → Str
sized s = let n = length s % 2 ^ 32 in le_bytes 4 n ++ take n s

-- A record from its value on.
unfoldable pub payload_bytes : DataEntry → Str
payload_bytes entry =
    sized entry.value
    ++ (le_bytes 8 entry.version
        ++ (le_bytes 8 entry.timestamp ++ le_bytes 1 (if entry.deleted then 1 else 0)))

abbrev pub record_bytes : MultiLevelKey → DataEntry → Str
record_bytes key entry = sized (to_string key) ++ payload_bytes entry

unfoldable pub data_bytes : Entries → Str
data_bytes [] = []
data_bytes ((key, entry) ∷ m) = record_bytes key entry ++ data_bytes m

-- The index of the records from an offset on.
unfoldable pub index_from : ℕ → Entries → Index
index_from offset [] = []
index_from offset ((key, entry) ∷ m) =
    let length_of_record = length (record_bytes key entry) in
    (key, record { offset = offset; size = length_of_record % 2 ^ 32 })
    ∷ index_from (offset + length_of_record) m

unfoldable pub index_bytes : Index → Str
index_bytes [] = []
index_bytes ((key, place) ∷ m) =
    sized (to_string key) ++ (le_bytes 8 place.offset ++ (le_bytes 4 place.size ++ index_bytes m))

unfoldable pub header : ℕ → Str
header count = le_bytes 4 magic_number ++ (le_bytes 4 1 ++ le_bytes 4 count)

-- The position behind the header.
abbrev pub data_offset : ℕ
data_offset = 12

unfoldable pub file_bytes : Entries → Str
file_bytes m =
    header (length m)
    ++ (data_bytes m
        ++ (le_bytes 4 (length m)
            ++ (index_bytes (index_from data_offset m)
                ++ le_bytes 8 (data_offset + length (data_bytes m)))))

-- write: `opens` tells whether the directory could be made and the file opened.
unfoldable pub write : Bool → Entries → SsTable → Disk → Result (Unit {0}) × SsTable × Disk
write opens [] t d = (error invalid_argument, t, d)
write opens (x ∷ m) t d =
    if opens
    then (
      ok tt,
      record t { index = index_from data_offset (x ∷ m); size = length (x ∷ m) },
      insert t.filename (file_bytes (x ∷ m)) d,
    )
    else (error storage_error, t, d)

-- The two parts of a string at its first colon.
unfoldable pub parse_key : Str → MultiLevelKey
parse_key [] = record { primary_key = []; secondary_key = [] }
parse_key (x ∷ xs) =
    if x == colon
    then record { primary_key = []; secondary_key = xs }
    else (let key = parse_key xs in record key { primary_key = x ∷ key.primary_key })

-- The loop over the entries of the index.
unfoldable pub read_entries : ℕ → Reader Index
read_entries zero = pure []
read_entries (suc n) = do
  key_size ← read_uint 4
  key_str ← read_string key_size
  offset ← read_uint 8
  size ← read_uint 4
  rest ← read_entries n
  pure ((parse_key key_str, record { offset = offset; size = size }) ∷ rest)

unfoldable pub read_index : Reader Index
read_index = do
  seek_from_end 8
  index_offset ← read_uint 8
  seek_to index_offset
  index_size ← read_uint 4
  read_entries index_size

-- A number of the header against what it must be: a wrong one is an error, one that was not read
-- in full is indeterminate.
unfoldable pub checked :
    Str
    → ℕ
    → SsTable
    → Outcome (Result (Unit {0}) × SsTable)
    → Outcome (Result (Unit {0}) × SsTable)
checked bytes expected t rest =
    if ltb (length bytes) 4
    then undefined
    else if of_le_bytes bytes == expected
    then rest
    else returns (error storage_error, t)

indexed : SsTable → Outcome (Index × Fstream) → Outcome (Result (Unit {0}) × SsTable)
indexed t (returns (index, f)) = returns (ok tt, record t { index = index; size = length index })
indexed t undefined = undefined

load_file : SsTable → Option Str → Outcome (Result (Unit {0}) × SsTable)
unfolding indexed
load_file t none = returns (error storage_error, t)
load_file t (some bytes) =
    let (magic, f1) = read_bytes 4 (open_file bytes) in
    let (version, f2) = read_bytes 4 f1 in
    let (entry_count, f3) = read_bytes 4 f2 in
    checked magic magic_number t (checked version 1 t (indexed t (read_index f3)))

unfoldable pub load_index : SsTable → Disk → Outcome (Result (Unit {0}) × SsTable)
unfolding load_file
load_index t d = load_file t (find t.filename d)

-- The index is loaded where it is empty.
unfoldable pub ensure_index : SsTable → Disk → Outcome (Result (Unit {0}) × SsTable)
ensure_index t d = if length t.index == 0 then load_index t d else returns (ok tt, t)

unfoldable pub read_payload : Reader DataEntry
read_payload = do
  value_size ← read_uint 4
  value ← read_string value_size
  version ← read_uint 8
  timestamp ← read_uint 8
  deleted ← read_uint 1
  pure (record {
    value = value;
    version = version;
    timestamp = timestamp;
    deleted = not (deleted == 0);
  })

unfoldable pub read_record : MultiLevelKey → Place → Reader (Result DataEntry)
read_record key place = do
  seek_to place.offset
  key_size ← read_uint 4
  read_key ← read_string key_size
  if list_beq read_key (to_string key)
      then (do entry ← read_payload; pure (if entry.deleted then error not_found else ok entry))
      else pure (error storage_error)

fetch : MultiLevelKey → Place → Option Str → Outcome (Result DataEntry)
fetch key place none = returns (error storage_error)
fetch key place (some bytes) = result (read_record key place (open_file bytes))

-- No key passes the test.
abbrev pub none_of : (MultiLevelKey → Bool) → Index → Bool
none_of p [] = true
none_of p ((k, place) ∷ m) = if p k then false else none_of p m

-- What std::lower_bound and std::upper_bound require: no key that passes stands behind one that
-- does not.
abbrev pub is_partitioned : (MultiLevelKey → Bool) → Index → Bool
is_partitioned p [] = true
is_partitioned p ((k, place) ∷ m) = if p k then is_partitioned p m else none_of p m

with_table : {A : Type 0} → SsTable → Outcome (Result A) → Outcome (Result A × SsTable)
with_table t (returns r) = returns (r, t)
with_table t undefined = undefined

read_found : MultiLevelKey → SsTable → Disk → Index → Outcome (Result DataEntry)
unfolding fetch
read_found key t d [] = returns (error not_found)
read_found key t d ((k, place) ∷ it) =
    if key_beq k key then fetch key place (find t.filename d) else returns (error not_found)

read_indexed :
    MultiLevelKey
    → Disk
    → Outcome (Result (Unit {0}) × SsTable)
    → Outcome (Result DataEntry × SsTable)
unfolding read_found with_table
read_indexed key d undefined = undefined
read_indexed key d (returns (error s, t)) = returns (error s, t)
read_indexed key d (returns (ok u, t)) =
    if is_partitioned (λ k. key_lt k key) t.index
    then with_table t (read_found key t d (lower_bound key t.index))
    else undefined

unfoldable pub read : MultiLevelKey → SsTable → Disk → Outcome (Result DataEntry × SsTable)
unfolding read_indexed
read key t d = read_indexed key d (ensure_index t d)

-- The loop from `it` to the iterator that has `stop` entries ahead of it.
unfoldable pub scan_index : (stop limit count : ℕ) (it : Index) → Reader Entries
scan_index stop limit count [] =
    if 0 == stop then pure [] else if ltb count limit then (λ f. undefined) else pure []
scan_index stop limit count ((key, place) ∷ it) =
    if length it + 1 == stop
    then pure []
    else if ltb count limit
    then (do
      seek_to place.offset
      key_size ← read_uint 4
      skip key_size
      entry ← read_payload
      rest ← scan_index stop limit (count + 1) it
      pure (if entry.deleted then rest else (key, entry) ∷ rest))
    else pure []

-- With inclusive_end the end is moved to one past its predecessor, which is where it is.
scan_file : RangeQuery → Index → Option Str → Outcome (Result Entries)
scan_file q index none = returns (error storage_error)
scan_file q index (some bytes) =
    if is_partitioned (λ k. key_lt k q.start_key) index
      && is_partitioned (λ k. not (key_lt q.end_key k)) index
    then result (
        (do
          found ←
              scan_index (length (upper_bound q.end_key index)) q.limit 0
                (step_over (not q.inclusive_start) q.start_key (lower_bound q.start_key index))
          pure (ok found))
          (open_file bytes))
    else undefined

scan_indexed :
    RangeQuery → Disk → Outcome (Result (Unit {0}) × SsTable) → Outcome (Result Entries × SsTable)
unfolding scan_file with_table
scan_indexed q d undefined = undefined
scan_indexed q d (returns (error s, t)) = returns (error s, t)
scan_indexed q d (returns (ok u, t)) = with_table t (scan_file q t.index (find t.filename d))

unfoldable pub range_scan : RangeQuery → SsTable → Disk → Outcome (Result Entries × SsTable)
unfolding scan_indexed
range_scan q t d = scan_indexed q d (ensure_index t d)
