-- ===== src/MemTable/Laws.antt =====
-- src/storage/memtable.cpp: what get returns after put and remove.
use qc_database.Prelude.{
  ℕ, ◌≡◌, Bool, ◌&&◌, true, Option, none, some, arith, leb, length, if◌then◌else◌,
}
use qc_database.Std.OrderedMap.{
  find, insert, find-insert, find-insert_self, IsSorted, insert-IsSorted,
}
use qc_database.Types.{
  MultiLevelKey, DataEntry, ok, error, not_found, invalid_argument, to_string, max_key_size,
  max_value_size, key_order, key_beq, key_beq_iff, key_lt_connex, key_lt_irrefl, default_entry,
}
use qc_database.MemTable.{MemTable, get, put, remove, bury}

-- What a put must satisfy to be stored.
abbrev pub fits : MultiLevelKey → DataEntry → Bool
fits key entry =
    leb (length (to_string key)) max_key_size && leb (length entry.value) max_value_size

find-insert_key :
    (j k : MultiLevelKey) (entry : DataEntry) (t : MemTable)
    → find j (insert k entry t.entries) ≡ (if key_beq k j then some entry else find j t.entries)
find-insert_key j k entry t = ground (
  arith,
  find-insert j k entry t.entries,
  find-insert_self k entry t.entries,
  key_beq_iff k j,
  key_lt_connex k j,
  key_lt_irrefl k,
)

-- A put whose key and value are within the limits returns OK and any other put INVALID_ARGUMENT.
-- After it, a read of a stored key returns the entry, or NOT_FOUND if the entry is a tombstone; a
-- read of any other key, and every read after a refused put, returns what it returned before.
pub get-put :
    (t : MemTable) (key : MultiLevelKey) (entry : DataEntry) (j : MultiLevelKey)
    → ((put t key entry).1 ≡ (if fits key entry then ok tt else error invalid_argument))
      × (get (put t key entry).0 j ≡ (
          if fits key entry && key_beq key j
          then (if entry.deleted then error not_found else ok entry)
          else get t j))
unfolding get put
get-put t key entry j = (ground arith, ground (arith, find-insert_key j key entry t))

get-bury :
    (t : MemTable) (key : MultiLevelKey) (now : ℕ) (j : MultiLevelKey) (old : Option DataEntry)
    → get (bury t key now old) j ≡ (if key_beq key j then error not_found else get t j)
unfolding get bury
get-bury t key now j none =
    ground (arith, find-insert_key j key (record (default_entry now) { deleted = true }) t)
get-bury t key now j (some old) =
    ground (arith, find-insert_key j key (record old { deleted = true; timestamp = now }) t)

-- After a remove a read of the key returns NOT_FOUND, whether the key was there or not, and a read
-- of any other key returns what it returned before.
pub get-remove :
    (t : MemTable) (key : MultiLevelKey) (now : ℕ) (j : MultiLevelKey)
    → get (remove t key now).0 j ≡ (if key_beq key j then error not_found else get t j)
unfolding remove
get-remove t key now j = get-bury t key now j (find key t.entries)

bury-IsSorted :
    (t : MemTable) (key : MultiLevelKey) (now : ℕ) (old : Option DataEntry)
    → IsSorted t.entries
    → IsSorted (bury t key now old).entries
unfolding bury
bury-IsSorted t key now none s = insert-IsSorted key _ t.entries s
bury-IsSorted t key now (some entry) s = insert-IsSorted key _ t.entries s

pub remove-IsSorted :
    (t : MemTable) (key : MultiLevelKey) (now : ℕ)
    → IsSorted t.entries
    → IsSorted (remove t key now).0.entries
unfolding remove
remove-IsSorted t key now s = bury-IsSorted t key now (find key t.entries) s

pub put-IsSorted :
    (t : MemTable) (key : MultiLevelKey) (entry : DataEntry)
    → IsSorted t.entries
    → IsSorted (put t key entry).0.entries
unfolding put
put-IsSorted t key entry s = ground (arith, insert-IsSorted key entry t.entries s)
