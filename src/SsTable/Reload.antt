-- ===== src/SsTable/Reload.antt =====
-- src/storage/sstable.cpp, load_index: the index read back from the file.
use mathlib.Core.List.{append_assoc, append-nil}
use qc_database.Prelude.{
  ℕ, suc, ◌+◌, ◌^◌, ◌<◌, ◌≡◌, ◌≢◌, refl, sym, ap, ◌∙◌, [], ◌∷◌, ◌++◌, arith, length, length-append,
}
use qc_database.Std.Bytes.{Str, str_order, le_bytes, length-le_bytes, of_le_bytes-le_bytes}
use qc_database.Std.Fstream.{Fstream}
use qc_database.Std.OrderedMap.{insert, find-insert_self}
use qc_database.Std.Method.{Outcome, returns}
use qc_database.Std.Ifstream.{Reader, ◌>>=◌, ◌>>◌, seek_from_end, read_uint, seek_to}
use qc_database.Std.Ifstream.Laws.{
  between, >>=-found, read-between, seek_to-between, seek_from_end-between,
}
use qc_database.Types.{MultiLevelKey, Result, colon, to_string, ok}
use qc_database.MemTable.{Entries}
use qc_database.SsTable.{
  Index, SsTable, Disk, sized, parse_key, read_entries, read_index, load_index, header, data_bytes,
  index_from, index_bytes, file_bytes, data_offset, magic_number, checked, record_bytes, indexed,
}
use qc_database.SsTable.Records.{then_uint, then_sized}
use qc_database.SsTable.Indexed.{AllStorable}
use qc_database.SsTable.Written.{written, length-header}

abbrev pub HasNoColon : Str → Type 0
HasNoColon [] = Unit
HasNoColon (x ∷ xs) = (x ≢ colon) × HasNoColon xs

-- The string of a key is parsed to the key, if its primary part has no colon.
pub parse_key-to_string :
    (key : MultiLevelKey) → HasNoColon key.primary_key → parse_key (to_string key) ≡ key
unfolding to_string parse_key
parse_key-to_string key h = go key.primary_key key.secondary_key h
  where
    go :
        (xs ys : Str)
        → HasNoColon xs
        → parse_key (xs ++ colon ∷ ys) ≡ record { primary_key = xs; secondary_key = ys }
    go [] ys n = refl
    go (x ∷ xs) ys n = ground (arith, n.0, go xs ys n.1)

-- What fits into an entry of the index in the file.
abbrev AllNamed : Index → Type 0
AllNamed [] = Unit
AllNamed ((key, place) ∷ index) =
    HasNoColon key.primary_key
    × (length (to_string key) < 2 ^ 32)
    × (place.offset < 2 ^ 64)
    × (place.size < 2 ^ 32)
    × AllNamed index

read_entries-between :
    (index : Index) (pre ys : Str)
    → AllNamed index
    → read_entries (length index) (between pre (index_bytes index ++ ys))
      ≡ returns (index, between (pre ++ index_bytes index) ys)
unfolding read_entries index_bytes
read_entries-between [] pre ys n = rw (append-nil pre) refl
read_entries-between ((key, place) ∷ index) pre ys (plain, size, offset, extent, n) =
    let k = sized (to_string key) in
    let o = le_bytes 8 place.offset in
    let s = le_bytes 4 place.size in
    let i = index_bytes index in
    ap (λ b. read_entries (suc (length index)) (between pre b))
      (rw (append_assoc k (o ++ (s ++ i)) ys, append_assoc o (s ++ i) ys, append_assoc s i ys) refl)
    ∙ then_sized pre (to_string key) (o ++ (s ++ (i ++ ys))) _ size
    ∙ then_uint 8 place.offset (pre ++ k) (s ++ (i ++ ys)) _ (omega arith)
    ∙ then_uint 4 place.size ((pre ++ k) ++ o) (i ++ ys) _ (omega arith)
    ∙ >>=-found (read_entries (length index)) _ _
        (read_entries-between index (((pre ++ k) ++ o) ++ s) ys n)
    ∙ rw
        (
          parse_key-to_string key plain,
          append_assoc ((pre ++ k) ++ o) s i,
          append_assoc (pre ++ k) o (s ++ i),
          append_assoc pre k (o ++ (s ++ i)),
        )
        refl

abbrev pub AllPlain : Entries → Type 0
AllPlain [] = Unit
AllPlain ((key, entry) ∷ m) = HasNoColon key.primary_key × AllPlain m

index_from-AllNamed :
    (offset : ℕ) (m : Entries)
    → AllStorable m
    → AllPlain m
    → offset + length (data_bytes m) < 2 ^ 64
    → AllNamed (index_from offset m)
unfolding data_bytes index_from
index_from-AllNamed offset [] s p h = tt
index_from-AllNamed offset ((key, entry) ∷ m) s p h =
    let split = length-append (record_bytes key entry) (data_bytes m) in
    (
      p.0,
      s.0.key_size,
      omega arith,
      omega arith,
      index_from-AllNamed (offset + length (record_bytes key entry)) m s.1 p.1 (omega arith),
    )

length-index_from : (m : Entries) (offset : ℕ) → length (index_from offset m) ≡ length m
unfolding index_from
length-index_from [] offset = refl
length-index_from ((key, entry) ∷ m) offset = ap suc (length-index_from m _)

indexed-eq :
    (t : SsTable) {o : Outcome (Index × Fstream)} {index : Index} {f : Fstream}
    → o ≡ returns (index, f)
    → indexed t o ≡ returns (ok tt, record t { index = index; size = length index })
unfolding indexed
indexed-eq t e = rw e refl

read_index-written :
    (m : Entries)
    → AllStorable m
    → AllPlain m
    → length m < 2 ^ 32
    → data_offset + length (data_bytes m) < 2 ^ 64
    → (pre ys : Str) → pre ++ ys ≡ file_bytes m
    → (pre' : Str) × (ys' : Str) × (read_index (between pre ys)
        ≡ returns (index_from data_offset m, between pre' ys'))
unfolding read_index file_bytes
read_index-written m s p count size pre ys e =
    let h = header (length m) in
    let d = data_bytes m in
    let n = le_bytes 4 (length m) in
    let i = index_bytes (index_from data_offset m) in
    let offset = data_offset + length d in
    let front = (h ++ d) ++ (n ++ i) in
    let sized_part : Reader Index = read_uint 4 >>= read_entries in
    let o = le_bytes 8 offset in
    let split : pre ++ ys ≡ ((h ++ d) ++ (n ++ i)) ++ o =
      e
      ∙ rw (append_assoc (h ++ d) (n ++ i) o, append_assoc n i o, append_assoc h d (n ++ (i ++ o)))
          refl in
    let split' : (((h ++ d) ++ (n ++ i)) ++ o) ++ [] ≡ (h ++ d) ++ (n ++ (i ++ o)) =
      rw (append-nil, append_assoc (h ++ d) (n ++ i) o, append_assoc n i o) refl in
    (
      _,
      _,
      >>=-found (seek_from_end 8) _ _
            (seek_from_end-between 8 pre ys front o split (length-le_bytes 8 offset))
          ∙ ap (λ b. (read_uint 8 >>= λ at. seek_to at >> sized_part) (between front b))
              (sym (append-nil o))
          ∙ then_uint 8 offset front [] (λ at. seek_to at >> sized_part) (omega arith)
          ∙ >>=-found (seek_to offset) (λ _. sized_part) _
              (seek_to-between offset (front ++ o) [] (h ++ d) (n ++ (i ++ o)) split'
                (length-append h d ∙ ap (λ k. k + length d) (length-header (length m))))
          ∙ then_uint 4 (length m) (h ++ d) (i ++ o) read_entries (omega arith)
          ∙ ap (λ k. read_entries k (between ((h ++ d) ++ n) (i ++ o)))
              (sym (length-index_from m data_offset))
          ∙ read_entries-between (index_from data_offset m) ((h ++ d) ++ n) o
              (index_from-AllNamed data_offset m s p size),
    )

checked-right :
    (n : ℕ) (t : SsTable) (rest : Outcome (Result (Unit {0}) × SsTable))
    → n < 2 ^ 32
    → checked (le_bytes 4 n) n t rest ≡ rest
unfolding checked
checked-right n t rest h =
    rw (length-le_bytes 4 n, of_le_bytes-le_bytes 4 n (omega arith)) (ground arith)

-- The index that load_index reads is the one that write left in memory: with no colon in a primary
-- key, fewer than 2^32 entries and a file below 2^64 bytes, loading a written file returns OK and
-- gives any table of that name the index and the size that the writer has.
pub load_index-written :
    (m : Entries) (t : SsTable) (d : Disk)
    → AllStorable m
    → AllPlain m
    → length m < 2 ^ 32
    → data_offset + length (data_bytes m) < 2 ^ 64
    → load_index t (insert t.filename (file_bytes m) d) ≡ returns (ok tt, written m t)
unfolding load_index file_bytes header
load_index-written m t d s p count size =
    let a = le_bytes 4 magic_number in
    let b = le_bytes 4 1 in
    let c = le_bytes 4 (length m) in
    let rest =
      data_bytes m
      ++ (c
          ++ (index_bytes (index_from data_offset m)
              ++ le_bytes 8 (data_offset + length (data_bytes m)))) in
    let joined : ([] ++ a ++ (b ++ c)) ++ rest ≡ file_bytes m = refl in
    let (pre, ys, found) =
      read_index-written m s p count size (((a ++ b) ++ c)) rest (rw (append_assoc a b c) refl) in
    rw
      (
        find-insert_self t.filename (file_bytes m) d,
        append_assoc a (b ++ c) rest,
        append_assoc b c rest,
        read-between 4 [] a (b ++ (c ++ rest)) (length-le_bytes 4 magic_number),
        read-between 4 a b (c ++ rest) (length-le_bytes 4 1),
        read-between 4 (a ++ b) c rest (length-le_bytes 4 (length m)),
      )
      (checked-right magic_number t _ (omega arith)
        ∙ checked-right 1 t _ (omega arith)
        ∙ indexed-eq t found
        ∙ rw (length-index_from m data_offset) refl)
