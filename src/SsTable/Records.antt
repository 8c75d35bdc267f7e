-- ===== src/SsTable/Records.antt =====
-- src/storage/sstable.cpp: a record read back from where the index says it lies.
use mathlib.Core.List.{append_assoc}
use qc_database.Prelude.{
  ℕ, ◌^◌, ◌<◌, ◌≡◌, refl, ap, ◌∙◌, sym, true, false, [], ◌∷◌, ◌++◌, ◌==◌, not, if◌then◌else◌, arith,
  length, take, ◌%◌, list_beq_iff, nat_eq, Bool,
}
use qc_database.Std.Bytes.{Str, le_bytes}
use qc_database.Std.Method.{returns}
use qc_database.Std.Ifstream.{Reader, ◌>>=◌, ◌>>◌, read_uint, read_string, seek_to, skip}
use qc_database.Std.Ifstream.Laws.{
  between, read_uint-between, read_string-between, seek_to-between, skip-between, >>=-found,
}
use qc_database.Types.{MultiLevelKey, DataEntry, Result, ok, error, not_found, to_string}
use qc_database.SsTable.{
  Place, sized, payload_bytes, record_bytes, read_payload, read_record, result,
}

take_all : (xs : Str) → take (length xs) xs ≡ xs
take_all [] = refl
take_all (x ∷ xs) = ap (◌∷◌ x) (take_all xs)

pub sized-eq : (s : Str) → length s < 2 ^ 32 → sized s ≡ le_bytes 4 (length s) ++ s
unfolding sized
sized-eq s h = let e : length s % 2 ^ 32 ≡ length s = omega arith in rw (e, take_all s)

sized_end : (pre s : Str) → length s < 2 ^ 32 → (pre ++ le_bytes 4 (length s)) ++ s ≡ pre ++ sized s
sized_end pre s h = rw (sized-eq s h) (append_assoc pre (le_bytes 4 (length s)) s)

module _ {B : Type 0} where
  pub then_uint :
      (k n : ℕ) (pre ys : Str) (rest : ℕ → Reader B)
      → n < 256 ^ k
      → (read_uint k >>= rest) (between pre (le_bytes k n ++ ys))
        ≡ rest n (between (pre ++ le_bytes k n) ys)
  then_uint k n pre ys rest h = >>=-found (read_uint k) rest _ (read_uint-between k n pre ys h)

  sized_start :
      (pre s ys : Str) (rest : ℕ → Reader B)
      → length s < 2 ^ 32
      → (read_uint 4 >>= rest) (between pre (sized s ++ ys))
        ≡ rest (length s) (between (pre ++ le_bytes 4 (length s)) (s ++ ys))
  sized_start pre s ys rest h =
      ap (λ t. (read_uint 4 >>= rest) (between pre t))
        (ap (λ t. t ++ ys) (sized-eq s h) ∙ append_assoc (le_bytes 4 (length s)) s ys)
      ∙ then_uint 4 (length s) pre (s ++ ys) rest (omega arith)

  -- The size and the bytes of a string, read one after the other.
  pub then_sized :
      (pre s ys : Str) (rest : Str → Reader B)
      → length s < 2 ^ 32
      → (read_uint 4 >>= λ n. read_string n >>= rest) (between pre (sized s ++ ys))
        ≡ rest s (between (pre ++ sized s) ys)
  then_sized pre s ys rest h =
      sized_start pre s ys _ h
      ∙ >>=-found (read_string (length s)) rest _ (read_string-between (length s) _ s ys refl)
      ∙ ap (λ t. rest s (between t ys)) (sized_end pre s h)

  pub then_skip_field :
      (pre s ys : Str) (rest : Reader B)
      → length s < 2 ^ 32
      → (read_uint 4 >>= λ n. skip n >> rest) (between pre (sized s ++ ys))
        ≡ rest (between (pre ++ sized s) ys)
  then_skip_field pre s ys rest h =
      sized_start pre s ys _ h
      ∙ >>=-found (skip (length s)) (λ _. rest) _ (skip-between (length s) _ s ys refl)
      ∙ ap (λ t. rest (between t ys)) (sized_end pre s h)

-- What fits into the fields of a record.
pub record Storable (key : MultiLevelKey) (entry : DataEntry) : Type 0 where
  pub key_size : length (to_string key) < 2 ^ 32
  pub value_size : length entry.value < 2 ^ 32
  pub version : entry.version < 2 ^ 64
  pub timestamp : entry.timestamp < 2 ^ 64

abbrev flag : Bool → ℕ
flag deleted = if deleted then 1 else 0

flag-read : (deleted : Bool) → not (flag deleted == 0) ≡ deleted
flag-read false = refl
flag-read true = refl

pub read_payload-between :
    (pre ys : Str) (key : MultiLevelKey) (entry : DataEntry)
    → Storable key entry
    → read_payload (between pre (payload_bytes entry ++ ys))
      ≡ returns (entry, between (pre ++ payload_bytes entry) ys)
unfolding read_payload payload_bytes
read_payload-between pre ys key entry h =
    let v = sized entry.value in
    let n = le_bytes 8 entry.version in
    let t = le_bytes 8 entry.timestamp in
    let d = le_bytes 1 (flag entry.deleted) in
    ap (λ b. read_payload (between pre b))
      (rw (append_assoc v (n ++ (t ++ d)) ys, append_assoc n (t ++ d) ys, append_assoc t d ys) refl)
    ∙ then_sized pre entry.value (n ++ (t ++ (d ++ ys))) _ h.value_size
    ∙ then_uint 8 entry.version (pre ++ v) (t ++ (d ++ ys)) _ (omega (arith, h.version))
    ∙ then_uint 8 entry.timestamp ((pre ++ v) ++ n) (d ++ ys) _ (omega (arith, h.timestamp))
    ∙ then_uint 1 (flag entry.deleted) (((pre ++ v) ++ n) ++ t) ys _ (ground arith)
    ∙ rw
        (
          flag-read entry.deleted,
          append_assoc ((pre ++ v) ++ n) t d,
          append_assoc (pre ++ v) n (t ++ d),
          append_assoc pre v (n ++ (t ++ d)),
        )
        refl

-- A record of these bytes lies there in the file.
abbrev pub Within : Str → MultiLevelKey × Place → DataEntry → Type 0
Within bytes (key, place) entry =
    (pre : Str) × (post : Str) × (length pre ≡ place.offset)
    × (bytes ≡ pre ++ (record_bytes key entry ++ post))

abbrev pub live_entry : DataEntry → Result DataEntry
live_entry entry = if entry.deleted then error not_found else ok entry

-- The stream stands behind the key.
seek_to-Within :
    {B : Type 0} (pre ys pre' post : Str) (n : ℕ) (rest : Reader B)
    → length pre' ≡ n
    → pre ++ ys ≡ pre' ++ post
    → (seek_to n >> rest) (between pre ys) ≡ rest (between pre' post)
seek_to-Within pre ys pre' post n rest h e =
    >>=-found (seek_to n) (λ _. rest) _ (seek_to-between n pre ys pre' post e h)

pub read_record-Within :
    (pre ys : Str) (key : MultiLevelKey) (place : Place) (entry : DataEntry)
    → Storable key entry
    → Within (pre ++ ys) (key, place) entry
    → result (read_record key place (between pre ys)) ≡ returns (live_entry entry)
unfolding read_record
read_record-Within pre ys key place entry h (pre', post, o, e) =
    let k = sized (to_string key) in
    let p = payload_bytes entry in
    let same = (list_beq_iff (to_string key) (to_string key)).1 refl in
    let found : read_record key place (between pre ys)
        ≡ returns (live_entry entry, between ((pre' ++ k) ++ p) post) =
      seek_to-Within pre ys pre' (k ++ (p ++ post)) place.offset _ o
        (e ∙ ap (λ t. pre' ++ t) (append_assoc k p post))
      ∙ then_sized pre' (to_string key) (p ++ post) _ h.key_size
      ∙ rw same (>>=-found read_payload _ _ (read_payload-between (pre' ++ k) post key entry h)) in
    ap result found

-- What the loop of a scan does at one entry.
pub scan_record-Within :
    {B : Type 0} (pre ys : Str) (key : MultiLevelKey) (place : Place) (entry : DataEntry)
    (rest : DataEntry → Reader B)
    → Storable key entry
    → Within (pre ++ ys) (key, place) entry
    → (pre' : Str) × (ys' : Str) × (pre' ++ ys' ≡ pre ++ ys)
      × ((seek_to place.offset >> (read_uint 4 >>= λ n. skip n >> (read_payload >>= rest)))
            (between pre ys)
          ≡ rest entry (between pre' ys'))
scan_record-Within pre ys key place entry rest h (pre', post, o, e) =
    let k = sized (to_string key) in
    let p = payload_bytes entry in
    let there : pre ++ ys ≡ pre' ++ (k ++ (p ++ post)) =
      e ∙ ap (λ t. pre' ++ t) (append_assoc k p post) in
    (
      (pre' ++ k) ++ p,
      post,
      append_assoc (pre' ++ k) p post ∙ append_assoc pre' k (p ++ post) ∙ sym there,
      seek_to-Within pre ys pre' (k ++ (p ++ post)) place.offset _ o there
          ∙ then_skip_field pre' (to_string key) (p ++ post) _ h.key_size
          ∙ >>=-found read_payload _ _ (read_payload-between (pre' ++ k) post key entry h),
    )
