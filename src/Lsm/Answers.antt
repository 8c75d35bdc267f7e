-- ===== src/Lsm/Answers.antt =====
-- src/storage/lsm_tree.cpp, get: what a lookup answers, memtable by memtable and table by table.
use qc_database.Prelude.{◌≡◌, refl, ap, ◌∙◌, true, Option, none, some, List, [], ◌∷◌, ◌++◌}
use qc_database.Std.Bytes.{str_order}
use qc_database.Std.Method.{Outcome, returns, undefined, Guarded, Method, shared, unlocked, at_rest}
use qc_database.Types.{MultiLevelKey, DataEntry, Result, ok, error}
use qc_database.MemTable
use qc_database.MemTable.{MemTable}
use qc_database.SsTable
use qc_database.SsTable.{SsTable, Disk}
use qc_database.Lsm.{
  Engine, get, read_tables, or_older, read_older, found_or_missing, get_from_sstables, after_tables,
  or_else, get_from_immutable, look_up, count,
}

module _ {A B : Type 0} where
  abbrev pub value_of : Outcome (A × B) → Outcome A
  value_of (returns (a, b)) = returns a
  value_of undefined = undefined

-- What get returns on an engine that nobody has locked.
abbrev pub answer : MultiLevelKey → Engine → Outcome (Result DataEntry)
answer key e = value_of (get key (at_rest e))

abbrev pub or_behind : Result DataEntry → Outcome (Result DataEntry) → Outcome (Result DataEntry)
or_behind (ok entry) behind = returns (ok entry)
or_behind (error s) behind = behind

-- What the tables answer.
abbrev pub found : Outcome (Result DataEntry × List SsTable) → Outcome (Result DataEntry)
found (returns (r, ts)) = returns (found_or_missing r)
found undefined = undefined

abbrev pub in_tables : MultiLevelKey → Disk → List SsTable → Outcome (Result DataEntry)
in_tables key d ts = found (read_tables key d ts)

-- What is answered when the memtable has no live entry.
abbrev pub behind :
    MultiLevelKey → Option MemTable → Disk → List SsTable → Outcome (Result DataEntry)
behind key none d ts = in_tables key d ts
behind key (some t) d ts = or_behind (MemTable.get t key) (in_tables key d ts)

value_of-unlocked :
    {A : Type 0} (o : Outcome (A × Guarded Engine)) → value_of (unlocked o) ≡ value_of o
value_of-unlocked (returns (a, g)) = refl
value_of-unlocked undefined = refl

value_of-after_tables :
    (g : Guarded Engine) (o : Outcome (Result DataEntry × List SsTable))
    → value_of (after_tables g o) ≡ found o
unfolding after_tables
value_of-after_tables g (returns (r, ts)) = refl
value_of-after_tables g undefined = refl

value_of-or_else :
    (r : Result DataEntry) (rest : Method Engine (Result DataEntry)) (g : Guarded Engine)
    → value_of (or_else r rest g) ≡ or_behind r (value_of (rest g))
value_of-or_else (ok entry) rest g = refl
value_of-or_else (error s) rest g = refl

value_of-get_from_immutable :
    (key : MultiLevelKey) (old : Option MemTable) (g : Guarded Engine)
    → value_of (get_from_immutable key old g) ≡ behind key old g.value.disk g.value.sstables
unfolding get_from_immutable get_from_sstables
value_of-get_from_immutable key none g = value_of-after_tables g _
value_of-get_from_immutable key (some t) g =
    value_of-or_else (MemTable.get t key) _ g
    ∙ ap (or_behind (MemTable.get t key)) (value_of-after_tables g _)

-- A lookup asks the memtable, then the immutable one, then the tables.
pub answer-eq :
    (key : MultiLevelKey) (e : Engine)
    → e.is_open ≡ true
    → answer key e
      ≡ or_behind (MemTable.get e.memtable key) (behind key e.immutable_memtable e.disk e.sstables)
unfolding get look_up
answer-eq key e o =
    let counted : Engine = record e { is_open = true; total_reads = count e.total_reads } in
    let locked : Guarded Engine = record { mutex = shared; value = counted } in
    rw o (
      value_of-unlocked _
      ∙ value_of-or_else (MemTable.get e.memtable key) _ locked
      ∙ ap (or_behind (MemTable.get e.memtable key))
          (value_of-get_from_immutable key e.immutable_memtable locked))

-- A lookup behind newer tables only needs what they found.
found-or_older :
    (key : MultiLevelKey) (d : Disk) (t : SsTable) (o p : Outcome (Result DataEntry × List SsTable))
    → found o ≡ found p
    → found (or_older key d t o) ≡ found (or_older key d t p)
found-or_older key d t undefined undefined e = refl
found-or_older key d t undefined (returns (r, ps)) e = cc
found-or_older key d t (returns (r, os)) undefined e = cc
found-or_older key d t (returns (ok x, os)) (returns (ok y, ps)) e = e
found-or_older key d t (returns (ok x, os)) (returns (error s, ps)) e = cc
found-or_older key d t (returns (error s, os)) (returns (ok y, ps)) e = cc
found-or_older key d t (returns (error r, os)) (returns (error s, ps)) e =
    older (SsTable.read key t d)
  where
    older :
        (o : Outcome (Result DataEntry × SsTable))
        → found (read_older os o) ≡ found (read_older ps o)
    older (returns (r, t')) = refl
    older undefined = refl

-- With one more table, the newest, that answers `r`.
pub in_tables-newest :
    (key : MultiLevelKey) (d : Disk) (ts : List SsTable) (t t' : SsTable) (r : Result DataEntry)
    → SsTable.read key t d ≡ returns (r, t')
    → in_tables key d (ts ++ t ∷ []) ≡ or_behind r (in_tables key d ts)
unfolding read_tables
in_tables-newest key d [] t t' (ok entry) e = rw e refl
in_tables-newest key d [] t t' (error s) e = rw e refl
in_tables-newest key d (s ∷ ts) t t' (ok entry) e =
    found-or_older key d s (read_tables key d (ts ++ t ∷ [])) (returns (ok entry, []))
      (in_tables-newest key d ts t t' (ok entry) e)
in_tables-newest key d (s ∷ ts) t t' (error x) e =
    found-or_older key d s _ _ (in_tables-newest key d ts t t' (error x) e)
