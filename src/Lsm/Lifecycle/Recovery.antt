-- ===== src/Lsm/Lifecycle/Recovery.antt =====
-- src/storage/lsm_tree.cpp, open: what an engine recovers from the log, and what it logs from then on.
use mathlib.Core.Path.{subst}
use mathlib.Core.List.{append-nil}
use qc_database.Prelude.{ℕ, ◌≡◌, refl, ap, sym, ◌∙◌, Bool, true, Option, some, List, [], ◌∷◌, arith}
use qc_database.Std.Bytes.{Str}
use qc_database.Std.Fstream.{Fstream, contents, open_file, seek_end}
use qc_database.Std.Method.{
  Outcome, returns, Guarded, Method, ◌>>=◌, at_rest, body, >>=-returns, unique, unlocked,
}
use qc_database.Types.{MultiLevelKey, Result, ok, error, not_found, key_order}
use qc_database.MemTable
use qc_database.MemTable.{MemTable, Entries, empty}
use qc_database.Wal.Entry.{WalEntry, put_type}
use qc_database.Wal.Log.{Wal, new_wal, open_wal, replay_from}
use qc_database.Wal.Log.Replay.{frames, kept, AllLoggable}
use qc_database.Wal.Log.Recovery.{Holds, replay_from-frames}
use qc_database.Wal.Log.Appends.{logged, write_frame-failed}
use qc_database.SsTable.{SsTable, Disk}
use qc_database.Lsm.{Engine, new_engine, put, with_wal, on_wal, if_ok}
use qc_database.Lsm.Scan.{multi_put}
use qc_database.Lsm.Lifecycle.{
  open_engine, load_files, start_up, recovered, recover_from_wal, load_sstables, redo_all,
  loaded_files,
}
use qc_database.Lsm.Lifecycle.Redo.{after_log, get-redo_all, get-empty}
use qc_database.Lsm.Answers.{answer, answer-eq, or_behind, in_tables}
use qc_database.Lsm.Writes.{running, put-running, entry_of}

-- An engine that is new, over a log of these entries.
abbrev pub stopped : Str → Option ℕ → List WalEntry → Disk → Engine
stopped data_dir configured es d = new_engine data_dir configured (some (frames es)) d

-- The log that has been opened, and then replayed to the stream `f`.
abbrev reopened : List WalEntry → Fstream → Wal
reopened es f = record { file = f; stored = some (frames es); is_open = true; sequence_number = 0 }

open_wal-frames :
    (creatable : Bool) (es : List WalEntry)
    → open_wal true creatable (at_rest (new_wal (some (frames es))))
      ≡ returns (ok tt, at_rest (reopened es (seek_end (open_file (frames es)))))
unfolding open_wal new_wal
open_wal-frames creatable es = refl

reopened-Holds :
    (es : List WalEntry)
    → AllLoggable es
    → Holds (reopened es (seek_end (open_file (frames es)))) es []
unfolding seek_end
reopened-Holds es l = record { is_open = refl; not_failed = refl; loggable = l; bytes = refl }

-- The engine after it has opened.
abbrev pub opened : Str → Option ℕ → List WalEntry → Disk → ℕ → List SsTable → Fstream → Engine
opened data_dir configured es d now ts f = record (stopped data_dir configured es d) {
  memtable = redo_all now empty (kept now 0 es);
  sstables = ts;
  wal = at_rest (reopened es f);
  is_open = true;
}

open_engine-opened :
    (creatable : Bool) (is_table : Str → Bool) (now : ℕ) (data_dir : Str) (configured : Option ℕ)
    (es : List WalEntry) (d : Disk) (ts : List SsTable)
    → AllLoggable es
    → load_files is_table d d ≡ returns ts
    → (f : Fstream) × (contents f ≡ frames es)
      × (f.failbit ≡ true)
      × (open_engine true creatable is_table now (at_rest (stopped data_dir configured es d))
          ≡ returns (ok tt, at_rest (opened data_dir configured es d now ts f)))
unfolding open_engine start_up recover_from_wal recovered load_sstables new_engine
open_engine-opened creatable is_table now data_dir configured es d ts l t =
    let (f, replayed, same, deaf) =
      replay_from-frames now 0 (reopened es (seek_end (open_file (frames es)))) es []
        (reopened-Holds es l) (omega arith) in
    let e0 : Engine = stopped data_dir configured es d in
    let e1 : Engine = record e0 {
      wal = at_rest (reopened es (seek_end (open_file (frames es))));
    } in
    let e2 : Engine = record e0 {
      wal = at_rest (reopened es f);
      memtable = redo_all now empty (kept now 0 es);
    } in
    let e3 : Engine = record e2 { sstables = ts } in
    let held : Engine → Guarded Engine = λ e. record { mutex = unique; value = e } in
    let last : Method Engine (Result (Unit {0})) = body λ e. (ok tt, record e { is_open = true }) in
    let load : Method Engine (Result (Unit {0})) =
      load_sstables is_table >>= λ loaded. if_ok loaded last in
    let recover : Method Engine (Result (Unit {0})) =
      recover_from_wal now >>= λ replayed. if_ok replayed load in
    let recovering : recover_from_wal now (held e1) ≡ returns (ok tt, held e2) =
      >>=-returns (on_wal (replay_from now 0)) (λ r. body (recovered now r)) (held e1)
        (ap (with_wal (held e1)) replayed) in
    (
      f,
      same ∙ unfold seek_end in append-nil (frames es),
      deaf,
      ap unlocked (
          >>=-returns (on_wal (open_wal true creatable)) (λ opened. if_ok opened recover) (held e0)
            (ap (with_wal (held e0)) (open_wal-frames creatable es))
          ∙ >>=-returns (recover_from_wal now) (λ r. if_ok r load) (held e1) recovering
          ∙ >>=-returns (load_sstables is_table) (λ r. if_ok r last) (held e2)
              (ap (loaded_files (held e2)) t)),
    )

-- Opening a new engine over a file of whole records recovers them: if the directory can be made and
-- the table files load, open returns OK, and every lookup then answers the last logged put of its key
-- that is within the limits, as it is read back, unless a logged remove of the key follows it; where
-- there is no such put it answers what the tables say. The log's file holds the same bytes, and its
-- stream is left failed.
pub open_engine-frames :
    (creatable : Bool) (is_table : Str → Bool) (now : ℕ) (data_dir : Str) (configured : Option ℕ)
    (es : List WalEntry) (d : Disk) (ts : List SsTable)
    → AllLoggable es
    → load_files is_table d d ≡ returns ts
    → (e : Engine) × (open_engine true creatable is_table now
          (at_rest (stopped data_dir configured es d))
        ≡ returns (ok tt, at_rest e))
      × (contents e.wal.value.file ≡ frames es)
      × (e.wal.value.file.failbit ≡ true)
      × ((j : MultiLevelKey)
          → answer j e
            ≡ or_behind (after_log (kept now 0 es) j (error not_found)) (in_tables j d ts))
unfolding new_engine
open_engine-frames creatable is_table now data_dir configured es d ts l t =
    let (f, same, deaf, up) =
      open_engine-opened creatable is_table now data_dir configured es d ts l t in
    let e : Engine = opened data_dir configured es d now ts f in
    (
      e,
      up,
      same,
      deaf,
      λ j.
          answer-eq j e refl
          ∙ ap (λ r. or_behind r (in_tables j d ts))
              (get-redo_all now empty (kept now 0 es) j
                ∙ ap (after_log (kept now 0 es) j) (get-empty j)),
    )

-- The engine and its log run on, and the log's file has these bytes.
abbrev pub RunsOver : Str → Outcome (Result (Unit {0}) × Guarded Engine) → Type 0
RunsOver bytes o =
    (r : Result (Unit {0})) × (e : Engine) × (w : Wal) × (o ≡ returns (r, at_rest (running e w)))
    × (contents w.file ≡ bytes)

if_ok-RunsOver :
    (bytes : Str) (r : Result (Unit {0})) (rest : Method Engine (Result (Unit {0}))) (e : Engine)
    (w : Wal)
    → contents w.file ≡ bytes
    → RunsOver bytes (rest (at_rest (running e w)))
    → RunsOver bytes (if_ok r rest (at_rest (running e w)))
if_ok-RunsOver bytes (ok u) rest e w c h = h
if_ok-RunsOver bytes (error s) rest e w c h = (error s, e, w, refl, c)

multi_put-failed :
    (m : Entries) (e : Engine) (w : Wal)
    → w.file.failbit ≡ true
    → RunsOver (contents w.file) (multi_put m (at_rest (running e w)))
unfolding multi_put
multi_put-failed [] e w h = (ok tt, e, w, refl, refl)
multi_put-failed ((key, entry) ∷ m) e w h =
    let stored = MemTable.put e.memtable key entry in
    let e1 : Engine = record e { memtable = stored.0 } in
    let w1 : Wal = logged (entry_of put_type key entry) (record w { is_open = true }) in
    let lost = write_frame-failed (entry_of put_type key entry) w.file h in
    let rest = multi_put-failed m e1 w1 lost.1 in
    let runs =
      if_ok-RunsOver (contents w.file) stored.1 (multi_put m) e1 w1 lost.0
        (subst (λ b. RunsOver b (multi_put m (at_rest (running e1 w1)))) lost.0 rest) in
    subst (RunsOver (contents w.file))
      (sym (
        >>=-returns (put key entry) (λ r. if_ok r (multi_put m)) (at_rest (running e w))
          (put-running key entry e w)))
      runs

-- No put is durable before a flush: after a new engine has opened over a log of whole records, a call
-- of multi_put leaves the log's bytes as they were, whether it returns OK or an error. The directory
-- can be made and the table files load.
pub open_then_lost :
    (creatable : Bool) (is_table : Str → Bool) (now : ℕ) (data_dir : Str) (configured : Option ℕ)
    (es : List WalEntry) (d : Disk) (ts : List SsTable) (m : Entries)
    → AllLoggable es
    → load_files is_table d d ≡ returns ts
    → RunsOver (frames es) (
        (open_engine true creatable is_table now >>= λ _. multi_put m)
          (at_rest (stopped data_dir configured es d)))
unfolding new_engine
open_then_lost creatable is_table now data_dir configured es d ts m l t =
    let (f, same, deaf, up) =
      open_engine-opened creatable is_table now data_dir configured es d ts l t in
    subst (RunsOver (frames es))
      (sym (>>=-returns (open_engine true creatable is_table now) (λ _. multi_put m) _ up))
      (subst (λ b. RunsOver b (multi_put m (at_rest (opened data_dir configured es d now ts f))))
        same (multi_put-failed m (opened data_dir configured es d now ts f) (reopened es f) deaf))
