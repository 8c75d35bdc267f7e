-- ===== src/SsTable/Reopened.antt =====
-- src/storage/sstable.cpp, read and load_index: a table opened again from its file.
use mathlib.Core.Path.{subst}
use qc_database.Prelude.{
  ℕ, zero, suc, ◌+◌, ◌<◌, ◌^◌, ◌≡◌, ◌≢◌, refl, sym, ap, ◌∙◌, true, false, Option, none, some, inl,
  inr, Bool-cases, [], ◌∷◌, ◌==◌, arith, length, ◌++◌, ◌&&◌,
}
use qc_database.Std.Bytes.{Str, str_order, of_le_bytes}
use qc_database.Std.Fstream.{Fstream}
use qc_database.Std.OrderedMap.{find, insert, lower_bound}
use qc_database.Std.Method.{Outcome, returns, undefined}
use qc_database.Std.Ifstream.Laws.{read-between}
use qc_database.Std.Ifstream.{and_then, Reader, seek_from_end, read_uint, seek_to, read_string}
use qc_database.Types.{
  MultiLevelKey, DataEntry, Result, ok, error, not_found, storage_error, key_order, colon, key_beq,
  key_beq_iff, key_lt,
}
use qc_database.MemTable
use qc_database.MemTable.{Entries}
use qc_database.SsTable.{
  Index, SsTable, Disk, new_table, write, read, load_index, ensure_index, parse_key, read_entries,
  read_index, data_bytes, data_offset, checked, file_bytes, magic_number, load_file, read_found,
  indexed, read_indexed, with_table, is_partitioned,
}
use qc_database.SsTable.Written.{Writable, memtable, written, write-Writable, written-Stores}
use qc_database.SsTable.Lookup.{ensure_index-Stores, read-Stores}
use qc_database.SsTable.Reload.{HasNoColon, AllPlain, load_index-written}

-- A table that was written can be opened again: with no colon in a primary key, fewer than 2^32
-- entries and a file below 2^64 bytes, a new table of that name answers every lookup in the file as
-- get does on the memtable that was written, and then holds the index and the size of the writer.
pub reopen-refines :
    (m : Entries) (t : SsTable) (d : Disk) (key : MultiLevelKey)
    → Writable m
    → AllPlain m
    → length m < 2 ^ 32
    → data_offset + length (data_bytes m) < 2 ^ 64
    → (t' : SsTable) × (d' : Disk) × (write true m t d ≡ (ok tt, t', d'))
      × (read key (new_table t.filename) d' ≡ returns (MemTable.get (memtable m) key, t'))
unfolding MemTable.get read ensure_index
reopen-refines m t d key w plain count size =
    let s = written-Stores m t d w in
    let loaded = load_index-written m (new_table t.filename) d w.storable plain count size in
    (
      written m t,
      insert t.filename (file_bytes m) d,
      write-Writable m t d w.not_empty,
      rw loaded (
          ap (read_indexed key (insert t.filename (file_bytes m) d))
            (sym (ensure_index-Stores (written m t) _ m s))
          ∙ read-Stores key (written m t) _ m s),
    )

-- Of a file of eight bytes or more, load_index accepts only the magic number and version 1: any
-- other pair is refused with STORAGE_ERROR, and the table stays as it was.
pub load_index-refused :
    (t : SsTable) (d : Disk) (magic version rest : Str)
    → find t.filename d ≡ some (magic ++ (version ++ rest))
    → length magic ≡ 4
    → length version ≡ 4
    → (of_le_bytes magic == magic_number && of_le_bytes version == 1) ≡ false
    → load_index t d ≡ returns (error storage_error, t)
unfolding load_index checked
load_index-refused t d magic version rest e hm hv wrong =
    rw
      (
        e,
        read-between 4 [] magic (version ++ rest) hm,
        read-between 4 magic version rest hv,
        hm,
        hv,
      )
      (ground arith)

AllParsed : Index → Type 0
AllParsed [] = Unit
AllParsed ((key, place) ∷ index) = HasNoColon key.primary_key × AllParsed index

parse_key-HasNoColon : (s : Str) → HasNoColon (parse_key s).primary_key
unfolding parse_key
parse_key-HasNoColon [] = tt
parse_key-HasNoColon (x ∷ xs) = elim (Bool-cases (x == colon)) [
  | inl here ↦ rw here tt
  | inr other ↦ rw other ((λ e. absurd (ground arith)), parse_key-HasNoColon xs)
]

-- What a reader of an index returns, if it returns.
Yields : Outcome (Index × Fstream) → Type 0
unfolding AllParsed
Yields (returns (index, f)) = AllParsed index
Yields undefined = Unit

Yields-and_then :
    {A : Type 0} (k : A → Reader Index)
    → ((a : A) (f : Fstream) → Yields (k a f))
    → (o : Outcome (A × Fstream)) → Yields (and_then o k)
Yields-and_then k h (returns (a, f)) = h a f
Yields-and_then k h undefined = unfold Yields in tt

Yields-then :
    (k : Index → Reader Index)
    → ((index : Index) (f : Fstream) → AllParsed index → Yields (k index f))
    → (o : Outcome (Index × Fstream)) → Yields o
    → Yields (and_then o k)
unfolding Yields
Yields-then k h (returns (index, f)) y = h index f y
Yields-then k h undefined y = tt

read_entries-Yields : (n : ℕ) (f : Fstream) → Yields (read_entries n f)
unfolding read_entries Yields
read_entries-Yields zero f = tt
read_entries-Yields (suc n) f =
    Yields-and_then _
      (λ size f1.
        Yields-and_then _
          (λ key_str f2.
            Yields-and_then _
              (λ offset f3.
                Yields-and_then _
                  (λ extent f4.
                    Yields-then _ (λ rest f5 y. (parse_key-HasNoColon key_str, y))
                      (read_entries n f4) (read_entries-Yields n f4))
                  (read_uint 4 f3))
              (read_uint 8 f2))
          (read_string size f1))
      (read_uint 4 f)

read_index-Yields : (f : Fstream) → Yields (read_index f)
unfolding read_index
read_index-Yields f =
    Yields-and_then _
      (λ u f1.
        Yields-and_then _
          (λ offset f2.
            Yields-and_then _
              (λ v f3. Yields-and_then _ (λ size f4. read_entries-Yields size f4) (read_uint 4 f3))
              (seek_to offset f2))
          (read_uint 8 f1))
      (seek_from_end 8 f)

-- The result of opening holds no key with a colon in its primary part.
Opens : Outcome (Result (Unit {0}) × SsTable) → Type 0
Opens (returns (r, t)) = AllParsed t.index
Opens undefined = Unit

checked-Opens :
    (bytes : Str) (n : ℕ) (t : SsTable) (rest : Outcome (Result (Unit {0}) × SsTable))
    → AllParsed t.index
    → Opens rest
    → Opens (checked bytes n t rest)
unfolding checked Opens
checked-Opens bytes n t rest p o = ground arith

indexed-Opens : (t : SsTable) (o : Outcome (Index × Fstream)) → Yields o → Opens (indexed t o)
unfolding indexed Opens Yields
indexed-Opens t (returns (index, f)) y = y
indexed-Opens t undefined y = tt

load_file-Opens : (filename : Str) (file : Option Str) → Opens (load_file (new_table filename) file)
unfolding load_file
load_file-Opens filename none = unfold Opens AllParsed in tt
load_file-Opens filename (some bytes) =
    let t = new_table filename in
    let empty : AllParsed [] = unfold AllParsed in tt in
    checked-Opens _ magic_number t _ empty
      (checked-Opens _ 1 t _ empty (indexed-Opens t _ (read_index-Yields _)))

lower_bound-AllParsed :
    (key : MultiLevelKey) (index : Index) → AllParsed index → AllParsed (lower_bound key index)
unfolding lower_bound AllParsed
lower_bound-AllParsed key [] p = tt
lower_bound-AllParsed key ((k, place) ∷ index) p =
    ground (arith, lower_bound-AllParsed key index p.1)

-- A lookup that finds nothing.
Misses : Outcome (Result DataEntry × SsTable) → Type 0
Misses (returns (ok entry, t)) = ⊥
Misses (returns (error s, t)) = Unit
Misses undefined = Unit

read_found-missing :
    (key : MultiLevelKey) (t : SsTable) (d : Disk) (it : Index)
    → ¬ HasNoColon key.primary_key
    → AllParsed it
    → read_found key t d it ≡ returns (error not_found)
unfolding read_found AllParsed
read_found-missing key t d [] c p = refl
read_found-missing key t d ((k, place) ∷ it) c p = elim (Bool-cases (key_beq k key)) [
  | inl same ↦
      let e = (key_beq_iff k key).0 same in absurd (c (subst (λ j. HasNoColon j.primary_key) e p.0))
  | inr other ↦ rw other refl
]

read_indexed-Misses :
    (key : MultiLevelKey) (d : Disk) (o : Outcome (Result (Unit {0}) × SsTable))
    → ¬ HasNoColon key.primary_key
    → Opens o
    → Misses (read_indexed key d o)
unfolding read_indexed with_table Opens Misses
read_indexed-Misses key d undefined c p = tt
read_indexed-Misses key d (returns (error s, t)) c p = tt
read_indexed-Misses key d (returns (ok u, t)) c p =
    elim (Bool-cases (is_partitioned (λ k. key_lt k key) t.index)) [
      | inl split ↦
          rw (split, read_found-missing key t d _ c (lower_bound-AllParsed key t.index p)) tt
      | inr mixed ↦ rw mixed tt
    ]

-- A key whose primary part holds a colon is never found by the first lookup in a table that is
-- opened from its file, whatever the file holds.
pub colon_never_found :
    (filename : Str) (d : Disk) (key : MultiLevelKey) (entry : DataEntry) (t : SsTable)
    → ¬ HasNoColon key.primary_key
    → read key (new_table filename) d ≢ returns (ok entry, t)
unfolding read ensure_index load_index
colon_never_found filename d key entry t c e =
    let misses = read_indexed-Misses key d _ c (load_file-Opens filename (find filename d)) in
    unfold Misses in subst Misses e misses
