-- ===== src/Wal/Entry/RoundTrip.antt =====
-- src/storage/wal.cpp, WALEntry: serialize and deserialize undo each other.
use mathlib.Core.List.{length-take}
use qc_database.Prelude.{
  ℕ, zero, suc, ◌^◌, ◌<◌, ◌≡◌, ◌≢◌, refl, ap, ◌∙◌, Option, none, some, [], ◌∷◌, ◌++◌, arith, ltb,
  ◌==◌, length, length-append, take, drop, Bool-cases, Option-cases, inl, inr, take-append-drop,
  take-append, drop-append,
}
use qc_database.Std.Bytes.{
  Str, IsBytes, le_bytes, of_le_bytes, length-le_bytes, of_le_bytes-le_bytes, le_bytes-of_le_bytes,
}
use qc_database.Types.{ok, default_entry}
use qc_database.Wal.Entry.{WalEntry, serialize, deserialize, cut_at_nul, read_keys, read_value}

-- No byte is NUL.
abbrev pub HasNoNul : Str → Type 0
HasNoNul [] = Unit {0}
HasNoNul (x ∷ xs) = (x ≢ 0) × HasNoNul xs

cut_at_nul-append : (xs ys : Str) → HasNoNul xs → cut_at_nul (xs ++ 0 ∷ ys) ≡ some (xs, ys)
unfolding cut_at_nul
cut_at_nul-append [] ys h = refl
cut_at_nul-append (x ∷ xs) ys h = rw (cut_at_nul-append xs ys h.1) (ground (arith, h.0))

append-cut_at_nul : (zs xs ys : Str) → cut_at_nul zs ≡ some (xs, ys) → zs ≡ xs ++ 0 ∷ ys
unfolding cut_at_nul
append-cut_at_nul [] xs ys h = cc
append-cut_at_nul (z ∷ zs) xs ys h = elim (Bool-cases (z == 0)) [
  | inl nul ↦ ground arith
  | inr more ↦ elim (Option-cases (cut_at_nul zs)) [
    | inl e ↦ ground arith
    | inr (p, e) ↦ ground (arith, append-cut_at_nul zs p.0 p.1 e)
  ]
]

-- What of an entry comes back: not the version, the time or the tombstone mark of its data.
abbrev pub stripped : ℕ → WalEntry → WalEntry
stripped now e = record e { payload = record (default_entry now) { value = e.payload.value } }

-- What an entry must satisfy to be read back.
pub record IsLoggable (e : WalEntry) : Type 0 where
  pub sequence_fits : e.sequence_number < 2 ^ 64
  pub primary : HasNoNul e.key.primary_key
  pub secondary : HasNoNul e.key.secondary_key

-- An entry whose sequence number is a 64-bit word and whose keys hold no NUL is read back from its
-- bytes, with its type, key, sequence number and value; its version is 0, its time that of the
-- reading, and it is not marked as deleted.
pub deserialize-serialize :
    (now : ℕ) (e : WalEntry) → IsLoggable e → deserialize now (serialize e) ≡ ok (stripped now e)
unfolding deserialize serialize
deserialize-serialize now e l =
    let tail : Str = e.key.primary_key ++ 0 ∷ (e.key.secondary_key ++ 0 ∷ e.payload.value) in
    let n : length (le_bytes 8 e.sequence_number) ≡ 8 = length-le_bytes 8 e.sequence_number in
    rw
      (
        take-append 8 (le_bytes 8 e.sequence_number) tail n,
        drop-append 8 (le_bytes 8 e.sequence_number) tail n,
        of_le_bytes-le_bytes 8 e.sequence_number l.sequence_fits,
        cut_at_nul-append e.key.primary_key (e.key.secondary_key ++ 0 ∷ e.payload.value) l.primary,
        cut_at_nul-append e.key.secondary_key e.payload.value l.secondary,
      )
      (ground (arith, length-append (le_bytes 8 e.sequence_number) tail))

serialize-read_value :
    (now type seq : ℕ) (primary rest : Str) (cut : Option (Str × Str)) (e : WalEntry)
    → cut_at_nul rest ≡ cut
    → read_value now type seq primary cut ≡ ok e
    → serialize e ≡ type ∷ (le_bytes 8 seq ++ (primary ++ 0 ∷ rest))
unfolding read_value serialize
serialize-read_value now type seq primary rest none e c h = cc
serialize-read_value now type seq primary rest (some (secondary, value)) e c h =
    ground (arith, append-cut_at_nul rest secondary value c)

serialize-read_keys :
    (now type seq : ℕ) (rest : Str) (cut : Option (Str × Str)) (e : WalEntry)
    → cut_at_nul rest ≡ cut
    → read_keys now type seq cut ≡ ok e
    → serialize e ≡ type ∷ (le_bytes 8 seq ++ rest)
unfolding read_keys
serialize-read_keys now type seq rest none e c h = cc
serialize-read_keys now type seq rest (some (primary, behind)) e c h =
    rw (append-cut_at_nul rest primary behind c)
      (serialize-read_value now type seq primary behind (cut_at_nul behind) e refl h)

take-IsBytes : (n : ℕ) (xs : Str) → IsBytes xs → IsBytes (take n xs)
take-IsBytes zero xs b = tt
take-IsBytes (suc n) [] b = tt
take-IsBytes (suc n) (x ∷ xs) b = (b.0, take-IsBytes n xs b.1)

-- Bytes that are read as an entry are the bytes of that entry.
pub serialize-deserialize :
    (now : ℕ) (bytes : Str) (e : WalEntry)
    → IsBytes bytes
    → deserialize now bytes ≡ ok e
    → serialize e ≡ bytes
unfolding deserialize
serialize-deserialize now [] e b h = cc
serialize-deserialize now (type ∷ rest) e b h = elim (Bool-cases (ltb (length rest) 8)) [
  | inl short ↦ ground arith
  | inr long ↦
      let n : length (take 8 rest) ≡ 8 = ground (arith, length-take 8 rest) in
      let seq : le_bytes 8 (of_le_bytes (take 8 rest)) ≡ take 8 rest =
        rw n at (le_bytes-of_le_bytes (take 8 rest) (take-IsBytes 8 rest b.1)) in
      let parsed : read_keys now type (of_le_bytes (take 8 rest)) (cut_at_nul (drop 8 rest))
          ≡ ok e =
        rw long at h in
      serialize-read_keys now type _ (drop 8 rest) (cut_at_nul (drop 8 rest)) e refl parsed
      ∙ ap (λ t. type ∷ (t ++ drop 8 rest)) seq
      ∙ ap (◌∷◌ type) (take-append-drop 8 rest)
]
