-- ===== src/Tests/Engines.antt =====
-- src/storage/lsm_tree.cpp at small inputs.
use qc_database.Std.Bytes.{Str}
use qc_database.SsTable.Records.{Storable}
use qc_database.Prelude.{
  get_or, ap, ◌≡◌, refl, true, none, [], ◌∷◌, if◌then◌else◌, List, arith, ℕ, ◌<◌, ◌^◌, ◌≢◌,
}
use qc_database.Std.Fstream.{contents}
use qc_database.Std.Method.{returns, undefined, at_rest, ◌>>=◌}
use qc_database.Types.{
  MultiLevelKey, ok, error, not_found, invalid_argument, key_order, to_string, key_beq,
}
use qc_database.MemTable
use qc_database.MemTable.{MemTable, Entries, empty}
use qc_database.SsTable.{new_table}
use qc_database.Wal.Log.{new_wal, Wal}
use qc_database.Wal.Log.Replay.{frames, kept}
use qc_database.Wal.Entry.RoundTrip.{stripped}
use qc_database.Lsm.Histories.{Step, puts, flushes, Allowed, run, shown, view_after, run-refines}
use qc_database.Tests.Log.{logged, logged-all}
use qc_database.Lsm.{Engine, new_engine, put, remove, put_if_version_match, remove_if_version_match}
use qc_database.Lsm.Answers.{answer, behind, or_behind, in_tables}
use qc_database.Lsm.Writes.{running, answer-put, answer-remove, version_match_undefined}
use qc_database.Lsm.Tables.{flush, compact, generate_sstable_filename}
use qc_database.Lsm.Tables.Flush.{settled, answer-flush}
use qc_database.Lsm.Tables.Compaction.{with_tables, compact-loses}
use qc_database.Lsm.Lifecycle.{open_engine, load_files}
use qc_database.Lsm.Lifecycle.Redo.{after_log, after_entry}
use qc_database.Lsm.Lifecycle.Recovery.{stopped, RunsOver, open_engine-frames, open_then_lost}
use qc_database.Lsm.Scan.{multi_put}
use qc_database.Tests.Tables.{key_a, live_entry, two_entries, two_entries-Writable, name}

abbrev engine : Engine
engine = new_engine name none none []

-- With the entry of `key_a` in memory, and `key_b` removed.
abbrev filled : Engine
filled = record engine { memtable = record { entries = two_entries; memory_usage = 120 } }

answer-put_example :
    (e' : Engine) × (put key_a live_entry (at_rest (running engine (new_wal none)))
      ≡ returns (ok tt, at_rest e'))
    × ((j : MultiLevelKey)
        → answer j e' ≡ (
            if key_beq key_a j
            then returns (ok live_entry)
            else answer j (running engine (new_wal none))))
unfolding to_string
answer-put_example = answer-put key_a live_entry engine (new_wal none) refl

answer-remove_example :
    (e' : Engine) × (remove key_a 5 6 (at_rest (running filled (new_wal none)))
      ≡ returns (ok tt, at_rest e'))
    × ((j : MultiLevelKey)
        → answer j e' ≡ (
            if key_beq key_a j
            then behind j none [] []
            else answer j (running filled (new_wal none))))
unfolding new_engine
answer-remove_example = answer-remove key_a 5 6 filled (new_wal none)

version_match_undefined_example :
    (put_if_version_match key_a live_entry 0 (at_rest (running engine (new_wal none))) ≡ undefined)
    × (remove_if_version_match key_a 5 6 0 (at_rest (running engine (new_wal none))) ≡ undefined)
version_match_undefined_example =
    version_match_undefined key_a live_entry 5 6 0 (running engine (new_wal none)) refl

answer-flush_example :
    (e' : Engine) × (flush (λ file. true) [] (b'1' ∷ []) 9 (at_rest (settled filled (new_wal none)))
      ≡ returns (ok tt, at_rest e'))
    × (e'.memtable ≡ empty)
    × ((key : MultiLevelKey) → answer key e' ≡ answer key (settled filled (new_wal none)))
unfolding new_engine
answer-flush_example =
    answer-flush (λ file. true) [] (b'1' ∷ []) 9 filled (new_wal none) refl tt two_entries-Writable

compact-loses_example :
    (e' : Engine) × (compact
        (λ file. true)
        []
        (at_rest (with_tables (new_table name ∷ new_table [] ∷ []) filled))
      ≡ returns (error invalid_argument, at_rest e'))
    × ((key : MultiLevelKey)
        → answer key e' ≡ or_behind (MemTable.get filled.memtable key) (in_tables key [] []))
unfolding new_engine
compact-loses_example = compact-loses (λ file. true) [] (new_table name) (new_table []) [] filled

open_engine-frames_example :
    (e : Engine) × (open_engine true true
        (λ file. true)
        9
        (at_rest (stopped name none (logged ∷ []) []))
      ≡ returns (ok tt, at_rest e))
    × (contents e.wal.value.file ≡ frames (logged ∷ []))
    × (e.wal.value.file.failbit ≡ true)
    × ((j : MultiLevelKey)
        → answer j e
          ≡ or_behind (after_log (kept 9 0 (logged ∷ [])) j (error not_found)) (in_tables j [] []))
open_engine-frames_example =
    open_engine-frames true (λ file. true) 9 name none (logged ∷ []) [] [] logged-all
      (unfold load_files in refl)

-- The logged put is what a lookup of its key finds.
logged_found :
    after_log (kept 9 0 (logged ∷ [])) logged.key (error not_found) ≡ ok (stripped 9 logged).payload
unfolding after_log after_entry to_string
logged_found = refl

open_then_lost_example : RunsOver (frames (logged ∷ [])) (
    (open_engine true true (λ file. true) 9 >>= λ _. multi_put two_entries)
      (at_rest (stopped name none (logged ∷ []) [])))
open_then_lost_example =
    open_then_lost true (λ file. true) 9 name none (logged ∷ []) [] [] two_entries logged-all
      (unfold load_files in refl)

-- Two puts under one key, each flushed, and a second flush that finds nothing.
abbrev history : List Step
history =
    puts key_a live_entry
    ∷ flushes (b'1' ∷ [])
    ∷ puts key_a (record live_entry { version = 4 })
    ∷ flushes (b'2' ∷ [])
    ∷ flushes (b'3' ∷ [])
    ∷ []

differ : (s t : Str) (i : ℕ) → get_or s i 0 ≢ get_or t i 0 → s ≢ t
differ s t i n e = n (ap (λ x. get_or x i 0) e)

key_a-Storable : (n : ℕ) → n < 2 ^ 64 → Storable key_a (record live_entry { version = n })
unfolding to_string
key_a-Storable n h = record {
  key_size = omega arith;
  value_size = omega arith;
  version = omega arith;
  timestamp = omega arith;
}

history-Allowed : Allowed (λ file. true) [] [] history
unfolding Allowed generate_sstable_filename to_string
history-Allowed = (
  key_a-Storable 3 (omega arith),
  refl,
  (
    refl,
    tt,
    (
      key_a-Storable 4 (omega arith),
      refl,
      (
        refl,
        (differ _ _ 9 (λ d. absurd (omega arith)), tt),
        (
          refl,
          (
            differ _ _ 9 (λ d. absurd (omega arith)),
            (differ _ _ 9 (λ d. absurd (omega arith)), tt),
          ),
          tt,
        ),
      ),
    ),
  ),
)

run-refines_example :
    (e' : Engine) × (w' : Wal) × (run
        (λ file. true)
        9
        history
        (at_rest (settled (new_engine [] none none []) (new_wal none)))
      ≡ returns (tt, at_rest (settled e' w')))
    × ((j : MultiLevelKey)
        → answer j (settled e' w') ≡ returns (shown (view_after history (λ _. none) j)))
run-refines_example = run-refines (λ file. true) 9 [] none (new_wal none) history history-Allowed
