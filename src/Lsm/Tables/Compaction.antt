-- ===== src/Lsm/Tables/Compaction.antt =====
-- src/storage/lsm_tree.cpp, compact: what a compaction leaves.
use qc_database.Prelude.{◌≡◌, refl, Bool, true, none, List, ◌∷◌}
use qc_database.Std.Bytes.{Str}
use qc_database.Std.Method.{returns, at_rest}
use qc_database.Types.{MultiLevelKey, error, invalid_argument}
use qc_database.MemTable
use qc_database.MemTable.{MemTable, live_or_missing}
use qc_database.SsTable
use qc_database.SsTable.{SsTable}
use qc_database.Lsm.{Engine}
use qc_database.Lsm.Tables.{compact, compact_sstables, merge_into, compact_engine, merged}
use qc_database.Lsm.Answers.{answer, answer-eq, or_behind, in_tables}

-- An open engine with these tables and no immutable memtable.
abbrev pub with_tables : List SsTable → Engine → Engine
with_tables ts e = record e { is_open = true; immutable_memtable = none; sstables = ts }

-- A compaction loses data. On an open engine with two tables or more and no immutable memtable, that
-- nobody has locked, compact fails with INVALID_ARGUMENT, and then every lookup answers what the
-- memtable and the tables other than the two oldest hold.
pub compact-loses :
    (creatable : Str → Bool) (stamp : Str) (oldest second : SsTable) (newer : List SsTable)
    (e : Engine)
    → (e' : Engine) × (compact creatable stamp (at_rest (with_tables (oldest ∷ second ∷ newer) e))
        ≡ returns (error invalid_argument, at_rest e'))
      × ((key : MultiLevelKey)
          → answer key e' ≡ or_behind (MemTable.get e.memtable key) (in_tables key e.disk newer))
unfolding compact compact_sstables compact_engine merge_into merged SsTable.write
compact-loses creatable stamp oldest second newer e =
    (with_tables newer e, refl, λ key. answer-eq key (with_tables newer e) refl)
