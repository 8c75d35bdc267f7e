-- ===== src/Lsm/Histories.antt =====
-- src/storage/lsm_tree.cpp: an engine through any history of puts and flushes, as a map.
use mathlib.Core.Path.{subst}
use qc_database.Prelude.{
  ℕ, ◌≡◌, ◌≢◌, refl, sym, ◌∙◌, Bool, true, false, ◌&&◌, ◌==◌, Option, none, some, List, [], ◌∷◌,
  ◌++◌, arith, if◌then◌else◌, inl, inr, Bool-cases, length,
}
use qc_database.Std.Bytes.{Str, str_order}
use qc_database.Std.OrderedMap.{IsSorted, insert, find}
use qc_database.Std.Method.{Outcome, returns, Method, Guarded, at_rest, ◌>>=◌, pure, >>=-returns}
use qc_database.Types.{
  MultiLevelKey, DataEntry, Result, ok, error, not_found, key_order, key_beq, key_lt, key_lt_connex,
}
use qc_database.MemTable
use qc_database.MemTable.{MemTable, Entries}
use qc_database.MemTable.Laws.{fits, put-IsSorted}
use qc_database.Wal.Log.{Wal}
use qc_database.Wal.Log.Appends.{logged}
use qc_database.Wal.Entry.{put_type}
use qc_database.SsTable.{SsTable}
use qc_database.SsTable.Records.{Storable}
use qc_database.SsTable.Indexed.{AllStorable}
use qc_database.SsTable.Written.{Writable}
use qc_database.Lsm.{Engine, new_engine, put, read_tables}
use qc_database.Lsm.Tables.{flush, generate_sstable_filename}
use qc_database.Lsm.Tables.Flush.{
  settled, IsFresh, flush-settled, flush-empty, answer-flushed, moved, checkpointed,
}
use qc_database.Lsm.Answers.{answer, answer-eq}
use qc_database.Lsm.Writes.{put-running, answer-after_put, entry_of}

pub data Step : Type 0 where
  puts : MultiLevelKey → DataEntry → Step
  flushes : Str → Step

perform : (Str → Bool) → ℕ → Step → Method Engine (Result (Unit {0}))
perform creatable now (puts key entry) = put key entry
perform creatable now (flushes stamp) = flush creatable [] stamp now

-- The calls one after the other, whatever they return.
unfoldable pub run : (Str → Bool) → ℕ → List Step → Method Engine (Unit {0})
unfolding perform
run creatable now [] = pure tt
run creatable now (s ∷ ss) = perform creatable now s >>= λ _. run creatable now ss

-- The map: what was put last under a key, of what was accepted.
abbrev pub View : Type 0
View = MultiLevelKey → Option DataEntry

abbrev apply : Step → View → View
apply (puts key entry) v j = if fits key entry && key_beq key j then some entry else v j
apply (flushes stamp) v j = v j

unfoldable pub view_after : List Step → View → View
view_after [] v = v
view_after (s ∷ ss) v = view_after ss (apply s v)

abbrev pub shown : Option DataEntry → Result DataEntry
shown none = error not_found
shown (some entry) = ok entry

abbrev Unused : Str → List Str → Type 0
Unused name [] = Unit
Unused name (n ∷ ns) = (n ≢ name) × Unused name ns

-- What a history must satisfy: entries are no tombstones and fit into a record, and every flush
-- writes to a file that can be created and that no flush before it has named.
unfoldable pub Allowed : (Str → Bool) → Str → List Str → List Step → Type 0
Allowed creatable dir used [] = Unit
Allowed creatable dir used (puts key entry ∷ ss) =
    Storable key entry × (entry.deleted ≡ false) × Allowed creatable dir used ss
Allowed creatable dir used (flushes stamp ∷ ss) =
    let name = generate_sstable_filename dir stamp in
    (creatable name ≡ true) × Unused name used × Allowed creatable dir (name ∷ used) ss

-- An engine that stands for a map.
record Stands (used : List Str) (e : Engine) (w : Wal) (v : View) : Type 0 where
  sorted : IsSorted e.memtable.entries
  storable : AllStorable e.memtable.entries
  fresh : (name : Str) → Unused name used → IsFresh name e.sstables
  answers : (j : MultiLevelKey) → answer j (settled e w) ≡ returns (shown (v j))

insert-AllStorable :
    (key : MultiLevelKey) (entry : DataEntry) (m : Entries)
    → Storable key entry
    → AllStorable m
    → AllStorable (insert key entry m)
unfolding insert
insert-AllStorable key entry [] s a = (s, tt)
insert-AllStorable key entry ((k, x) ∷ m) s a = elim (Bool-cases (key_lt k key)) [
  | inl below ↦ rw below (a.0, insert-AllStorable key entry m s a.1)
  | inr above ↦ elim (Bool-cases (key_lt key k)) [
    | inl here ↦ rw (above, here) (s, a)
    | inr same ↦
        rw (above, same) (subst (λ i. Storable i entry) (key_lt_connex key k same above) s, a.1)
  ]
]

put-AllStorable :
    (key : MultiLevelKey) (entry : DataEntry) (t : MemTable)
    → Storable key entry
    → AllStorable t.entries
    → AllStorable (MemTable.put t key entry).0.entries
unfolding MemTable.put
put-AllStorable key entry t s a = ground (arith, insert-AllStorable key entry t.entries s a)

-- What a put leaves.
abbrev stored : MultiLevelKey → DataEntry → Engine → Engine
stored key entry e = record e { memtable = (MemTable.put e.memtable key entry).0 }

abbrev put_logged : MultiLevelKey → DataEntry → Wal → Wal
put_logged key entry w = logged (entry_of put_type key entry) (record w { is_open = true })

after-put :
    (used : List Str) (key : MultiLevelKey) (entry : DataEntry) (e : Engine) (w : Wal) (v : View)
    → Storable key entry
    → entry.deleted ≡ false
    → Stands used e w v
    → Stands used (stored key entry e) (put_logged key entry w) (apply (puts key entry) v)
after-put used key entry e w v s live h = record {
  sorted = put-IsSorted e.memtable key entry h.sorted;
  storable = put-AllStorable key entry e.memtable s h.storable;
  fresh = h.fresh;
  answers = λ j.
      answer-after_put key entry (record e { immutable_memtable = none }) w j live
      ∙ elim (Bool-cases (fits key entry && key_beq key j)) [
        | inl here ↦ rw here refl
        | inr other ↦ rw other (h.answers j)
      ];
}

IsFresh-append :
    (name : Str) (ts : List SsTable) (t : SsTable)
    → IsFresh name ts
    → t.filename ≢ name
    → IsFresh name (ts ++ t ∷ [])
IsFresh-append name [] t f n = (n, tt)
IsFresh-append name (s ∷ ts) t f n = (f.0, IsFresh-append name ts t f.1 n)

after-flush :
    (used : List Str) (stamp : Str) (now : ℕ) (e : Engine) (w : Wal) (v : View)
    → Unused (generate_sstable_filename e.data_dir stamp) used
    → Writable e.memtable.entries
    → Stands used e w v
    → Stands
        (generate_sstable_filename e.data_dir stamp ∷ used)
        (moved stamp e)
        (checkpointed now w)
        v
after-flush used stamp now e w v u m h = record {
  sorted = tt;
  storable = tt;
  fresh = λ name n. IsFresh-append name e.sstables _ (h.fresh name n.1) n.0;
  answers = λ j. answer-flushed stamp now e w j (h.fresh _ u) m ∙ h.answers j;
}

-- Where a history leads from an engine that stands for a map.
LeadsTo : Outcome (Unit {0} × Guarded Engine) → View → Type 0
LeadsTo o v =
    (e : Engine) × (w : Wal) × (o ≡ returns (tt, at_rest (settled e w)))
    × ((j : MultiLevelKey) → answer j (settled e w) ≡ returns (shown (v j)))

run-Stands :
    (creatable : Str → Bool) (now : ℕ) (ss : List Step) (used : List Str) (e : Engine) (w : Wal)
    (v : View)
    → Stands used e w v
    → Allowed creatable e.data_dir used ss
    → LeadsTo (run creatable now ss (at_rest (settled e w))) (view_after ss v)
unfolding run perform view_after Allowed LeadsTo
run-Stands creatable now [] used e w v h a = (e, w, refl, h.answers)
run-Stands creatable now (puts key entry ∷ ss) used e w v h a =
    subst (λ o. LeadsTo o (view_after ss (apply (puts key entry) v)))
      (sym (
        >>=-returns (put key entry) (λ _. run creatable now ss) (at_rest (settled e w))
          (put-running key entry (record e { immutable_memtable = none }) w)))
      (run-Stands creatable now ss used (stored key entry e) (put_logged key entry w) _
        (after-put used key entry e w v a.0 a.1 h) a.2)
run-Stands creatable now (flushes stamp ∷ ss) used e w v h a =
    let name = generate_sstable_filename e.data_dir stamp in
    elim (Bool-cases (length e.memtable.entries == 0)) [
      | inl nothing ↦
          let wider : Stands (name ∷ used) e w v = record {
            sorted = h.sorted;
            storable = h.storable;
            fresh = λ n u. h.fresh n u.1;
            answers = h.answers;
          } in
          subst (λ o. LeadsTo o (view_after ss v))
            (sym (
              >>=-returns (flush creatable [] stamp now) (λ _. run creatable now ss)
                (at_rest (settled e w)) (flush-empty creatable [] stamp now e w (ground arith))))
            (run-Stands creatable now ss (name ∷ used) e w v wider a.2)
      | inr something ↦
          let writable : Writable e.memtable.entries = record {
            not_empty = ground arith;
            sorted = h.sorted;
            storable = h.storable;
          } in
          subst (λ o. LeadsTo o (view_after ss v))
            (sym (
              >>=-returns (flush creatable [] stamp now) (λ _. run creatable now ss)
                (at_rest (settled e w)) (flush-settled creatable [] stamp now e w a.0 writable)))
            (run-Stands creatable now ss (name ∷ used) (moved stamp e) (checkpointed now w) v
              (after-flush used stamp now e w v a.1 writable h) a.2)
    ]

-- The engine is a map. From an open engine without entries, over an open log, every history of puts
-- and flushes runs to the end, and then every lookup answers what the map says, which keeps for each
-- key the last entry that was accepted, or NOT_FOUND. The entries are no tombstones and fit into a
-- record, and every flush writes to a new file that can be created.
pub run-refines :
    (creatable : Str → Bool) (now : ℕ) (data_dir : Str) (configured : Option ℕ) (w : Wal)
    (ss : List Step)
    → Allowed creatable data_dir [] ss
    → (e' : Engine) × (w' : Wal) × (run creatable now ss
          (at_rest (settled (new_engine data_dir configured none []) w))
        ≡ returns (tt, at_rest (settled e' w')))
      × ((j : MultiLevelKey)
          → answer j (settled e' w') ≡ returns (shown (view_after ss (λ _. none) j)))
unfolding LeadsTo new_engine
run-refines creatable now data_dir configured w ss a =
    run-Stands creatable now ss [] (new_engine data_dir configured none []) w (λ _. none) start a
  where
    start : Stands [] (new_engine data_dir configured none []) w (λ _. none)
    start = record {
      sorted = tt;
      storable = tt;
      fresh = λ name u. tt;
      answers = λ j. answer-eq j _ refl ∙ (unfold MemTable.get find read_tables in refl);
    }
