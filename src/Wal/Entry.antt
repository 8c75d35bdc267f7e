-- ===== src/Wal/Entry.antt =====
-- src/storage/wal.cpp, WALEntry: a log entry and its bytes. The checksum is no part of the bytes; it
-- is the result of calculate_checksum here, and an argument of verify_checksum.
pub mod RoundTrip
use qc_database.Prelude.{
  ℕ, Bool, Option, none, some, List, [], ◌∷◌, ◌++◌, ltb, ◌==◌, length, take, drop, if◌then◌else◌,
}
use qc_database.Std.Bytes.{Str, le_bytes, of_le_bytes}
use qc_database.Types.{MultiLevelKey, DataEntry, Result, ok, error, invalid_argument, default_entry}
use qc_database.Crc32c.{crc32c}

-- An enum over uint8_t holds any byte; these are the named ones.
abbrev pub WalEntryType : Type 0
WalEntryType = ℕ

abbrev pub put_type : WalEntryType
put_type = 1

abbrev pub delete_type : WalEntryType
delete_type = 2

abbrev pub flush_type : WalEntryType
flush_type = 3

abbrev pub checkpoint_type : WalEntryType
checkpoint_type = 4

pub record WalEntry : Type 0 where
  pub type : WalEntryType
  pub key : MultiLevelKey
  pub payload : DataEntry
  pub sequence_number : ℕ

unfoldable pub serialize : WalEntry → Str
serialize e =
    e.type
    ∷ (le_bytes 8 e.sequence_number
        ++ (e.key.primary_key ++ 0 ∷ (e.key.secondary_key ++ 0 ∷ e.payload.value)))

unfoldable pub calculate_checksum : WalEntry → ℕ
calculate_checksum e = crc32c (serialize e)

unfoldable pub verify_checksum : WalEntry → ℕ → Bool
verify_checksum e checksum = crc32c (serialize e) == checksum

abbrev prepend : ℕ → Option (Str × Str) → Option (Str × Str)
prepend x none = none
prepend x (some (before, behind)) = some (x ∷ before, behind)

-- find('\0'), with the two substrings that it separates
unfoldable pub cut_at_nul : Str → Option (Str × Str)
cut_at_nul [] = none
cut_at_nul (x ∷ xs) = if x == 0 then some ([], xs) else prepend x (cut_at_nul xs)

read_value : ℕ → ℕ → ℕ → Str → Option (Str × Str) → Result WalEntry
read_value now type seq primary none = error invalid_argument
read_value now type seq primary (some (secondary, value)) = ok (record {
  type = type;
  key = record { primary_key = primary; secondary_key = secondary };
  payload = record (default_entry now) { value = value };
  sequence_number = seq;
})

read_keys : ℕ → ℕ → ℕ → Option (Str × Str) → Result WalEntry
unfolding read_value cut_at_nul
read_keys now type seq none = error invalid_argument
read_keys now type seq (some (primary, rest)) = read_value now type seq primary (cut_at_nul rest)

-- `now` is the time that DataEntry() reads.
unfoldable pub deserialize : ℕ → Str → Result WalEntry
unfolding read_keys
deserialize now [] = error invalid_argument
deserialize now (type ∷ rest) =
    if ltb (length rest) 8
    then error invalid_argument
    else read_keys now type (of_le_bytes (take 8 rest)) (cut_at_nul (drop 8 rest))
