-- ===== src/Crc32c.antt =====
-- include/crc32c/crc32c.h and src/crc32c.cpp: the checksum of a run of bytes. The lookup table is
-- computed once by the source; here each entry is computed where it is read. `x & 1`, `x & 0xFF`
-- and `x >> k` are written as remainders and quotients by powers of two.
pub mod Detection
use Prim.Native.Nat.{bit_xor, bit_and}
use qc_database.Prelude.{
  ℕ, zero, suc, ◌+◌, ◌/◌, ◌%◌, ◌^◌, ◌<◌, ◌≡◌, refl, sym, ap, ◌∙◌, List, [], ◌∷◌, ◌++◌, arith, ◌==◌,
  if◌then◌else◌,
}
use qc_database.Std.Bytes.{Str, IsBytes}
use qc_database.Std.Bits.{bit_xor-cancel, bit_xor-lt-pow}

abbrev crc32c_poly : ℕ
crc32c_poly = 0x82F63B78

abbrev all_ones : ℕ
all_ones = 0xFFFFFFFF

-- One round of the loop over j in init_table.
table_round : ℕ → ℕ
table_round crc = if crc % 2 == 1 then bit_xor (crc / 2) crc32c_poly else crc / 2

rounds : ℕ → ℕ → ℕ
unfolding table_round
rounds zero crc = crc
rounds (suc n) crc = rounds n (table_round crc)

-- crc32c_table[i]
table_entry : ℕ → ℕ
unfolding rounds
table_entry i = rounds 8 i

-- The body of the loop over the bytes.
feed : ℕ → ℕ → ℕ
unfolding table_entry
feed crc byte = bit_xor (table_entry (bit_xor crc byte % 2 ^ 8)) (crc / 2 ^ 8)

feed_all : ℕ → Str → ℕ
unfolding feed
feed_all crc [] = crc
feed_all crc (byte ∷ bytes) = feed_all (feed crc byte) bytes

-- Crc32c
unfoldable pub crc32c : Str → ℕ
unfolding feed_all
crc32c bytes = bit_xor (feed_all all_ones bytes) all_ones

-- Extend
unfoldable pub extend : ℕ → Str → ℕ
unfolding feed_all
extend crc bytes = bit_xor (feed_all (bit_xor crc all_ones) bytes) all_ones

-- The check value of CRC-32C: the checksum of "123456789".
check_value :
    crc32c (b'1' ∷ b'2' ∷ b'3' ∷ b'4' ∷ b'5' ∷ b'6' ∷ b'7' ∷ b'8' ∷ b'9' ∷ []) ≡ 0xE3069283
unfolding crc32c
check_value = refl

feed_all-append : (crc : ℕ) (xs ys : Str) → feed_all crc (xs ++ ys) ≡ feed_all (feed_all crc xs) ys
unfolding feed_all
feed_all-append crc [] ys = refl
feed_all-append crc (x ∷ xs) ys = feed_all-append (feed crc x) xs ys

-- A checksum can be computed in pieces: extending the checksum of a prefix by the rest gives the
-- checksum of the whole, and extending 0 by a run of bytes gives the checksum of that run.
pub extend-crc32c :
    (xs ys : Str) → (extend (crc32c xs) ys ≡ crc32c (xs ++ ys)) × (extend 0 ys ≡ crc32c ys)
unfolding extend crc32c
extend-crc32c xs ys =
    (rw (bit_xor-cancel (feed_all all_ones xs) all_ones, feed_all-append all_ones xs ys), refl)
