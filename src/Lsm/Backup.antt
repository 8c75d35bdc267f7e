-- ===== src/Lsm/Backup.antt =====
-- src/storage/lsm_tree.cpp, backup and restore: copies of the files. `directory` tells whether the
-- directory could be made; a copy that fails is an exception, which ends the operation where it is.
use qc_database.Prelude.{Bool, Option, none, some, List, [], ◌∷◌, if◌then◌else◌}
use qc_database.Std.Bytes.{Str, str_order}
use qc_database.Std.OrderedMap.{find, insert}
use qc_database.Std.Fstream.{contents}
use qc_database.Std.Method.{Method, gets, body, with_shared, with_unique}
use qc_database.Types.{Result, ok, error, storage_error}
use qc_database.Wal.Log.{Wal}
use qc_database.SsTable.{SsTable, Disk}
use qc_database.Lsm.{Engine}

-- The bytes in the log's file.
abbrev pub log_file : Wal → Option Str
log_file w = if w.is_open then some (contents w.file) else w.stored

-- copy_file, with overwrite_existing, of a file that may not be there.
unfoldable pub copy_file : Option Str → Str → Disk → Result (Unit {0}) × Disk
copy_file none target d = (error storage_error, d)
copy_file (some bytes) target d = (ok tt, insert target bytes d)

-- The tables in order, up to the first whose file is not there. `target_of` is where a file goes.
unfoldable pub copy_tables : (Str → Str) → List SsTable → Disk → Disk → Result (Unit {0}) × Disk
copy_tables target_of [] source d = (ok tt, d)
copy_tables target_of (t ∷ ts) source d = elim (find t.filename source) [
  | none ↦ (error storage_error, d)
  | some bytes ↦ copy_tables target_of ts source (insert (target_of t.filename) bytes d)
]

copied_log : (Str → Str) → List SsTable → Disk → Result (Unit {0}) × Disk → Result (Unit {0}) × Disk
copied_log target_of ts source (ok u, d) = copy_tables target_of ts source d
copied_log target_of ts source (error s, d) = (error s, d)

-- backup, into a directory that holds `d`: what it returns, and what the directory then holds.
unfoldable pub backup :
    Bool → (log_target : Str) → (Str → Str) → Disk → Method Engine (Result (Unit {0}) × Disk)
unfolding copied_log
backup directory log_target target_of d = with_shared (
    gets λ e.
      if e.is_open
      then (if directory
          then copied_log target_of e.sstables e.disk
              (copy_file (log_file e.wal.value) log_target d)
          else (error storage_error, d))
      else (error storage_error, d))

-- The files of a backup under the names that they get: the tables, and the log if it is there.
pub record Copies : Type 0 where
  pub tables : Disk
  pub log : Option Str

-- restore: first everything in the data directory is removed. A backup that cannot be read is
-- `none`. The tables that the engine has in memory stay.
unfoldable pub restore : Option Copies → Method Engine (Result (Unit {0}))
restore copies = with_unique (
    body λ e.
      if e.is_open
      then (error storage_error, e)
      else (let cleared : Engine = record e {
        disk = [];
        wal = record e.wal { value = record e.wal.value { stored = none } };
      } in
          elim copies [
            | none ↦ (error storage_error, cleared)
            | some c ↦ (
              ok tt,
              record cleared {
                disk = c.tables;
                wal = record e.wal { value = record e.wal.value { stored = c.log } };
              },
            )
          ]))
