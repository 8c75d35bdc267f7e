-- ===== src/Lsm/Writes.antt =====
-- src/storage/lsm_tree.cpp, put and remove: what lookups answer after them.
use qc_database.Prelude.{
  ℕ, ◌≡◌, refl, ap, sym, ◌∙◌, true, false, ◌&&◌, if◌then◌else◌, inl, inr, Bool-cases,
}
use qc_database.Std.Method.{returns, undefined, at_rest}
use qc_database.Types.{
  MultiLevelKey, DataEntry, ok, error, invalid_argument, key_beq, default_entry,
}
use qc_database.MemTable
use qc_database.MemTable.{MemTable}
use qc_database.MemTable.Laws.{fits, get-put, get-remove}
use qc_database.Wal.Entry.{WalEntry, WalEntryType, put_type, delete_type}
use qc_database.Wal.Log
use qc_database.Wal.Log.{Wal}
use qc_database.Wal.Log.Appends.{logged}
use qc_database.Lsm.{
  Engine, get, put, remove, put_if_version_match, remove_if_version_match, put_memtable,
  remove_memtable,
}
use qc_database.Lsm.Answers.{answer, answer-eq, behind, or_behind}

-- An open engine over an open log, neither of them locked.
abbrev pub running : Engine → Wal → Engine
running e w = record e { is_open = true; wal = at_rest (record w { is_open = true }) }

abbrev pub entry_of : WalEntryType → MultiLevelKey → DataEntry → WalEntry
entry_of type key entry = record { type = type; key = key; payload = entry; sequence_number = 0 }

pub put-running :
    (key : MultiLevelKey) (entry : DataEntry) (e : Engine) (w : Wal)
    → put key entry (at_rest (running e w))
      ≡ returns (
        (MemTable.put e.memtable key entry).1,
        at_rest (
            running
              (record e { memtable = (MemTable.put e.memtable key entry).0 })
              (logged (entry_of put_type key entry) (record w { is_open = true }))),
      )
unfolding put put_memtable Log.append
put-running key entry e w = refl

-- The engine after a put.
abbrev pub after_put : MultiLevelKey → DataEntry → Engine → Wal → Engine
after_put key entry e w =
    running (record e { memtable = (MemTable.put e.memtable key entry).0 })
      (logged (entry_of put_type key entry) (record w { is_open = true }))

pub answer-after_put :
    (key : MultiLevelKey) (entry : DataEntry) (e : Engine) (w : Wal) (j : MultiLevelKey)
    → entry.deleted ≡ false
    → answer j (after_put key entry e w)
      ≡ (if fits key entry && key_beq key j then returns (ok entry) else answer j (running e w))
answer-after_put key entry e w j live =
    answer-eq j (after_put key entry e w) refl
    ∙ ap (λ r. or_behind r (behind j e.immutable_memtable e.disk e.sstables))
        (get-put e.memtable key entry j).1
    ∙ elim (Bool-cases (fits key entry && key_beq key j)) [
      | inl stored ↦ rw (stored, live) refl
      | inr other ↦ rw other (sym (answer-eq j (running e w) refl))
    ]

-- A put on an open engine with an open log returns OK if the key and the value are within the
-- limits, else INVALID_ARGUMENT. After a put that was accepted a lookup of its key answers the entry,
-- which is not a tombstone; a lookup of any other key, and every lookup after a refused put, answers
-- what it answered before.
pub answer-put :
    (key : MultiLevelKey) (entry : DataEntry) (e : Engine) (w : Wal)
    → entry.deleted ≡ false
    → (e' : Engine) × (put key entry (at_rest (running e w))
        ≡ returns (if fits key entry then ok tt else error invalid_argument, at_rest e'))
      × ((j : MultiLevelKey)
          → answer j e' ≡ (
              if fits key entry && key_beq key j
              then returns (ok entry)
              else answer j (running e w)))
answer-put key entry e w live = (
  after_put key entry e w,
  put-running key entry e w
      ∙ ap (λ r. returns (r, at_rest (after_put key entry e w)))
          (get-put e.memtable key entry key).0,
  λ j. answer-after_put key entry e w j live,
)

-- After a remove on an open engine with an open log, which returns OK, a lookup of the key answers
-- what the immutable memtable or a table still holds under it, and a lookup of any other key what it
-- answered before.
pub answer-remove :
    (key : MultiLevelKey) (now later : ℕ) (e : Engine) (w : Wal)
    → (e' : Engine) × (remove key now later (at_rest (running e w)) ≡ returns (ok tt, at_rest e'))
      × ((j : MultiLevelKey)
          → answer j e' ≡ (
              if key_beq key j
              then behind j e.immutable_memtable e.disk e.sstables
              else answer j (running e w)))
unfolding remove remove_memtable Log.append
answer-remove key now later e w =
    let e' : Engine =
      running (record e { memtable = (MemTable.remove e.memtable key later).0 })
        (logged (entry_of delete_type key (record (default_entry now) { deleted = true }))
          (record w { is_open = true })) in
    (
      e',
      unfold MemTable.remove in refl,
      λ j.
          answer-eq j e' refl
          ∙ ap (λ r. or_behind r (behind j e.immutable_memtable e.disk e.sstables))
              (get-remove e.memtable key later j)
          ∙ elim (Bool-cases (key_beq key j)) [
            | inl removed ↦ rw removed refl
            | inr other ↦ rw other (sym (answer-eq j (running e w) refl))
          ],
    )

-- On an open engine that nobody has locked neither put_if_version_match nor remove_if_version_match
-- returns: each locks the mutex, and then get locks it again.
pub version_match_undefined :
    (key : MultiLevelKey) (entry : DataEntry) (now later expected : ℕ) (e : Engine)
    → e.is_open ≡ true
    → (put_if_version_match key entry expected (at_rest e) ≡ undefined)
      × (remove_if_version_match key now later expected (at_rest e) ≡ undefined)
unfolding put_if_version_match remove_if_version_match get
version_match_undefined key entry now later expected e o = (rw o refl, rw o refl)
