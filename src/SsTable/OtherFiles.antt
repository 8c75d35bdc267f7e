-- ===== src/SsTable/OtherFiles.antt =====
-- src/storage/sstable.cpp: a table looks at its own file only.
use qc_database.Prelude.{
  ◌≡◌, ◌≢◌, refl, ap, ◌∙◌, Option, none, some, [], ◌∷◌, ◌==◌, length, if◌then◌else◌, arith, inl,
  inr, Bool-cases, ℕ,
}
use qc_database.Std.Bytes.{Str, str_order, str_lt_connex, str_lt}
use qc_database.Std.Fstream.{Fstream}
use qc_database.Std.OrderedMap.{find, insert, find-insert, lower_bound}
use qc_database.Std.Method.{Outcome, returns, undefined}
use qc_database.Types.{MultiLevelKey, Result, ok, error, key_lt, key_order}
use qc_database.SsTable.{
  SsTable, Disk, Index, read, load_index, load_file, ensure_index, checked, indexed, read_indexed,
  read_found, is_partitioned, with_table,
}

pub find-insert_other :
    (name other : Str) (bytes : Str) (d : Disk)
    → other ≢ name
    → find other (insert name bytes d) ≡ find other d
find-insert_other name other bytes d ne =
    find-insert other name bytes d ∙ elim (Bool-cases (str_lt name other)) [
      | inl above ↦ rw above refl
      | inr not_above ↦ elim (Bool-cases (str_lt other name)) [
        | inl below ↦ rw (not_above, below) refl
        | inr same ↦ absurd (ne (str_lt_connex other name same not_above))
      ]
    ]

-- The table keeps its name.
Named : Str → Outcome (Result (Unit {0}) × SsTable) → Type 0
Named name (returns (r, t)) = t.filename ≡ name
Named name undefined = Unit

checked-Named :
    (name bytes : Str) (n : ℕ) (t : SsTable) (rest : Outcome (Result (Unit {0}) × SsTable))
    → t.filename ≡ name
    → Named name rest
    → Named name (checked bytes n t rest)
unfolding checked Named
checked-Named name bytes n t rest e h = ground arith

load_file-Named : (t : SsTable) (file : Option Str) → Named t.filename (load_file t file)
unfolding load_file
load_file-Named t none = unfold Named in refl
load_file-Named t (some bytes) =
    checked-Named t.filename _ _ t _ refl (checked-Named t.filename _ 1 t _ refl (named _))
  where
    named : (o : Outcome (Index × Fstream)) → Named t.filename (indexed t o)
    named (returns (index, f)) = unfold Named indexed in refl
    named undefined = unfold Named indexed in tt

ensure_index-Named : (t : SsTable) (d : Disk) → Named t.filename (ensure_index t d)
unfolding ensure_index load_index
ensure_index-Named t d = elim (Bool-cases (length t.index == 0)) [
  | inl empty ↦ rw empty (load_file-Named t (find t.filename d))
  | inr loaded ↦ rw loaded (unfold Named in refl)
]

read_found-same :
    (key : MultiLevelKey) (t : SsTable) (d d' : Disk) (it : Index)
    → find t.filename d' ≡ find t.filename d
    → read_found key t d' it ≡ read_found key t d it
unfolding read_found
read_found-same key t d d' [] e = refl
read_found-same key t d d' ((k, place) ∷ it) e = rw e refl

read_indexed-same :
    (key : MultiLevelKey) (d d' : Disk) (name : Str) (o : Outcome (Result (Unit {0}) × SsTable))
    → find name d' ≡ find name d
    → Named name o
    → read_indexed key d' o ≡ read_indexed key d o
unfolding read_indexed Named
read_indexed-same key d d' name undefined e n = refl
read_indexed-same key d d' name (returns (error s, t)) e n = refl
read_indexed-same key d d' name (returns (ok u, t)) e n =
    let same : find t.filename d' ≡ find t.filename d = rw n e in
    ap (λ r. if is_partitioned (λ k. key_lt k key) t.index then with_table t r else undefined)
      (read_found-same key t d d' (lower_bound key t.index) same)

-- A lookup does not depend on the other files.
pub read-other_file :
    (key : MultiLevelKey) (t : SsTable) (d d' : Disk)
    → find t.filename d' ≡ find t.filename d
    → read key t d' ≡ read key t d
unfolding read
read-other_file key t d d' e =
    ap (read_indexed key d') loaded
    ∙ read_indexed-same key d d' t.filename _ e (ensure_index-Named t d)
  where
    loaded : ensure_index t d' ≡ ensure_index t d
    loaded = unfold ensure_index load_index in rw e refl
