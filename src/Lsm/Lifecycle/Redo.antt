-- ===== src/Lsm/Lifecycle/Redo.antt =====
-- src/storage/lsm_tree.cpp, recover_from_wal: what the logged entries make of the lookups in memory.
use qc_database.Prelude.{ℕ, ◌≡◌, refl, ap, ◌∙◌, List, [], ◌∷◌, arith, ◌&&◌, ◌==◌, if◌then◌else◌}
use qc_database.Types.{MultiLevelKey, DataEntry, Result, ok, error, not_found, key_beq, key_order}
use qc_database.MemTable
use qc_database.MemTable.{MemTable, empty}
use qc_database.MemTable.Laws.{fits, get-put, get-remove}
use qc_database.Wal.Entry.{WalEntry, put_type, delete_type}
use qc_database.Lsm.Lifecycle.{redo, redo_all}

-- What a lookup of `j` in memory finds after one more logged entry, if it found `r` before: a put
-- within the limits answers for its key, a tombstone among them with NOT_FOUND, and so does a remove.
unfoldable pub after_entry : WalEntry → MultiLevelKey → Result DataEntry → Result DataEntry
after_entry e j r =
    if e.type == put_type && fits e.key e.payload && key_beq e.key j
    then (if e.payload.deleted then error not_found else ok e.payload)
    else if e.type == delete_type && key_beq e.key j
    then error not_found
    else r

-- The same after all the logged entries.
unfoldable pub after_log : List WalEntry → MultiLevelKey → Result DataEntry → Result DataEntry
after_log [] j r = r
after_log (e ∷ es) j r = after_log es j (after_entry e j r)

get-redo :
    (now : ℕ) (t : MemTable) (e : WalEntry) (j : MultiLevelKey)
    → MemTable.get (redo now t e) j ≡ after_entry e j (MemTable.get t j)
unfolding redo after_entry
get-redo now t e j = ground (arith, (get-put t e.key e.payload j).1, get-remove t e.key now j)

pub get-redo_all :
    (now : ℕ) (t : MemTable) (es : List WalEntry) (j : MultiLevelKey)
    → MemTable.get (redo_all now t es) j ≡ after_log es j (MemTable.get t j)
unfolding redo_all after_log
get-redo_all now t [] j = refl
get-redo_all now t (e ∷ es) j =
    get-redo_all now (redo now t e) es j ∙ ap (after_log es j) (get-redo now t e j)

pub get-empty : (j : MultiLevelKey) → MemTable.get empty j ≡ error not_found
unfolding MemTable.get qc_database.Std.OrderedMap.find
get-empty j = refl
