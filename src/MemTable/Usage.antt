-- ===== src/MemTable/Usage.antt =====
-- src/storage/memtable.cpp: the account of memory, and the invariant of a table under its calls.
use qc_database.MemTable.Laws.{remove-IsSorted, put-IsSorted}
use qc_database.Prelude.{none, some, refl, ℕ, ◌+◌, ◌≡◌, inl, inr, [], ◌∷◌, arith, Bool-cases, ◌%◌}
use qc_database.Std.OrderedMap.{find, insert, IsSorted}
use qc_database.Types.{MultiLevelKey, DataEntry, key_order, key_lt, key_lt_connex}
use qc_database.MemTable.{
  Entries, entry_size, old_size, bury, put, empty, MemTable, List, remove, Option, clear, size_mod,
  default_entry, true,
}

unfoldable pub total : Entries → ℕ
total [] = 0
total ((k, e) ∷ m) = entry_size k e + total m

total-insert :
    (key : MultiLevelKey) (entry : DataEntry) (m : Entries)
    → total (insert key entry m) + old_size key (find key m) ≡ total m + entry_size key entry
unfolding total insert find
total-insert key entry [] = omega arith
total-insert key entry ((j, e) ∷ m) = elim (Bool-cases (key_lt j key)) [
  | inl below ↦ rw (below, insert, find) (omega (arith, total-insert key entry m))
  | inr above ↦ elim (Bool-cases (key_lt key j)) [
    | inl here ↦ rw (above, here, insert, find) (omega arith)
    | inr same ↦ rw (above, same, insert, find) (rw (key_lt_connex j key above same) (omega arith))
  ]
]

-- The keys rise, and the account is the size of what is stored, as size_t holds it.
pub record IsValid (t : MemTable) : Type 0 where
  pub sorted : IsSorted t.entries
  pub account : t.memory_usage ≡ total t.entries % size_mod

put-account :
    (t : MemTable) (key : MultiLevelKey) (entry : DataEntry)
    → t.memory_usage ≡ total t.entries % size_mod
    → (put t key entry).0.memory_usage ≡ total (put t key entry).0.entries % size_mod
unfolding put
put-account t key entry h = ground (arith, total-insert key entry t.entries)

bury-account :
    (t : MemTable) (key : MultiLevelKey) (now : ℕ) (old : Option DataEntry)
    → find key t.entries ≡ old
    → t.memory_usage ≡ total t.entries % size_mod
    → (bury t key now old).memory_usage ≡ total (bury t key now old).entries % size_mod
unfolding bury
bury-account t key now none e h =
    let entry : DataEntry = record (default_entry now) { deleted = true } in
    ground (arith, total-insert key entry t.entries)
bury-account t key now (some old) e h =
    let entry : DataEntry = record old { deleted = true; timestamp = now } in
    ground (arith, total-insert key entry t.entries)

pub data Call : Type 0 where
  puts : MultiLevelKey → DataEntry → Call
  removes : MultiLevelKey → ℕ → Call
  clears : Call

pub run : MemTable → List Call → MemTable
run t [] = t
run t (puts key entry ∷ calls) = run (put t key entry).0 calls
run t (removes key now ∷ calls) = run (remove t key now).0 calls
run t (clears ∷ calls) = run (clear t) calls

pub empty-IsValid : IsValid empty
unfolding total
empty-IsValid = record { sorted = tt; account = omega arith }

pub put-IsValid :
    (t : MemTable) (key : MultiLevelKey) (entry : DataEntry)
    → IsValid t
    → IsValid (put t key entry).0
put-IsValid t key entry v = record {
  sorted = put-IsSorted t key entry v.sorted;
  account = put-account t key entry v.account;
}

pub remove-IsValid :
    (t : MemTable) (key : MultiLevelKey) (now : ℕ) → IsValid t → IsValid (remove t key now).0
remove-IsValid t key now v = record {
  sorted = remove-IsSorted t key now v.sorted;
  account = unfold remove in bury-account t key now (find key t.entries) refl v.account;
}

-- From a valid table, any calls of put, remove and clear leave a table whose keys rise strictly and
-- whose memory_usage is the total size of the stored entries, modulo 2^64.
pub run-IsValid : (t : MemTable) (calls : List Call) → IsValid t → IsValid (run t calls)
unfolding run
run-IsValid t [] v = v
run-IsValid t (puts key entry ∷ calls) v =
    run-IsValid (put t key entry).0 calls (put-IsValid t key entry v)
run-IsValid t (removes key now ∷ calls) v =
    run-IsValid (remove t key now).0 calls (remove-IsValid t key now v)
run-IsValid t (clears ∷ calls) v = run-IsValid (clear t) calls (unfold clear in empty-IsValid)
