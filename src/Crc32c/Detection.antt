-- ===== src/Crc32c/Detection.antt =====
-- src/crc32c.cpp: which damage to a run of bytes the checksum shows.
use qc_database.Prelude.{ℕ, zero, suc, ◌&&◌, not, Bool, true, ◌==◌, refl, ◌≡◌, ◌/◌, ◌^◌, ◌<◌, arith}
use qc_database.Std.Bytes.{Str, IsBytes}
use qc_database.Std.Bits.{
  bit_xor-div, bit_xor-zero, bit_xor-left_injective, bit_xor-right_injective, bit_xor-lt-pow,
}
use qc_database.Crc32c.{all_ones, table_entry, feed, feed_all, crc32c, feed_all-append}
use qc_database.Prelude.{ap, sym, ◌∙◌, ltb, [], ◌∷◌, ◌++◌, ◌%◌}
use Prim.Native.Nat.{bit_xor}

all_below : ℕ → (ℕ → Bool) → Bool
all_below zero p = true
all_below (suc n) p = p n && all_below n p

all_below_lem : (n : ℕ) (p : ℕ → Bool) (x : ℕ) → all_below n p ≡ true → x < n → p x ≡ true
unfolding all_below
all_below_lem zero p x h lt = absurd (omega arith)
all_below_lem (suc n) p x h lt = ground (arith, all_below_lem n p x)

top : ℕ → ℕ
top i = table_entry i / 2 ^ 24

top_table : all_below 256 (λ i. let t = top i in all_below i (λ j. not (top j == t))) ≡ true
unfolding all_below top table_entry
top_table = refl

words_table : all_below 256 (λ i. ltb (table_entry i) (2 ^ 32)) ≡ true
unfolding all_below table_entry
words_table = refl

table_entry-lt : (i : ℕ) → i < 256 → table_entry i < 2 ^ 32
table_entry-lt i h =
    ground (arith, all_below_lem 256 (λ i. ltb (table_entry i) (2 ^ 32)) i words_table h)

-- The top byte of a table entry tells which entry it is.
top-injective : (i j : ℕ) → i < 256 → j < 256 → top i ≡ top j → i ≡ j
top-injective i j hi hj e = ground (
  arith,
  all_below_lem 256 _ i top_table,
  all_below_lem 256 _ j top_table,
  all_below_lem i (λ k. not (top k == top i)) j,
  all_below_lem j (λ k. not (top k == top j)) i,
)

top-feed : (crc byte : ℕ) → crc < 2 ^ 32 → feed crc byte / 2 ^ 24 ≡ top (bit_xor crc byte % 2 ^ 8)
unfolding feed top
top-feed crc byte h =
    let e : crc / 2 ^ 8 / 2 ^ 24 ≡ 0 = omega arith in
    let t = table_entry (bit_xor crc byte % 2 ^ 8) in
    bit_xor-div 24 t (crc / 2 ^ 8) ∙ ap (bit_xor (t / 2 ^ 24)) e ∙ bit_xor-zero (t / 2 ^ 24)

-- What a state and a byte lead to, when two steps lead to the same state.
module _ (c d x y : ℕ) (hc : c < 2 ^ 32) (hd : d < 2 ^ 32) (e : feed c x ≡ feed d y) where
  same_index : bit_xor c x % 2 ^ 8 ≡ bit_xor d y % 2 ^ 8
  same_index =
      top-injective _ _ (omega arith) (omega arith)
        (sym (top-feed c x hc) ∙ ap (λ t. t / 2 ^ 24) e ∙ top-feed d y hd)

  same_high : c / 2 ^ 8 ≡ d / 2 ^ 8
  unfolding feed
  same_high =
      bit_xor-left_injective (table_entry (bit_xor c x % 2 ^ 8)) _ _
        (e ∙ ap (λ i. bit_xor (table_entry i) (d / 2 ^ 8)) (sym same_index))

  same_sum : x < 256 → y < 256 → bit_xor c x ≡ bit_xor d y
  same_sum hx hy =
      let ex : x / 2 ^ 8 ≡ 0 = omega arith in
      let ey : y / 2 ^ 8 ≡ 0 = omega arith in
      omega (
        arith,
        same_index,
        bit_xor-div 8 c x ∙ ap (bit_xor (c / 2 ^ 8)) ex ∙ bit_xor-zero (c / 2 ^ 8),
        bit_xor-div 8 d y ∙ ap (bit_xor (d / 2 ^ 8)) ey ∙ bit_xor-zero (d / 2 ^ 8),
        same_high,
      )

feed-lt : (crc byte : ℕ) → crc < 2 ^ 32 → feed crc byte < 2 ^ 32
unfolding feed
feed-lt crc byte h =
    bit_xor-lt-pow 32 _ _ (table_entry-lt (bit_xor crc byte % 2 ^ 8) (omega arith)) (omega arith)

feed_all-injective :
    (c d : ℕ) (bytes : Str)
    → c < 2 ^ 32
    → d < 2 ^ 32
    → IsBytes bytes
    → feed_all c bytes ≡ feed_all d bytes
    → c ≡ d
unfolding feed_all
feed_all-injective c d [] hc hd b e = e
feed_all-injective c d (x ∷ bytes) hc hd b e = bit_xor-right_injective x c d (
    same_sum c d x x hc hd
      (feed_all-injective (feed c x) (feed d x) bytes (feed-lt c x hc) (feed-lt d x hd) b.1 e) b.0
      b.0)

feed_all-lt : (crc : ℕ) (bytes : Str) → crc < 2 ^ 32 → feed_all crc bytes < 2 ^ 32
unfolding feed_all
feed_all-lt crc [] h = h
feed_all-lt crc (x ∷ bytes) h = feed_all-lt (feed crc x) bytes (feed-lt crc x h)

-- A checksum is a 32-bit word.
pub crc32c-lt : (bytes : Str) → crc32c bytes < 2 ^ 32
unfolding crc32c
crc32c-lt bytes = bit_xor-lt-pow 32 _ _ (feed_all-lt all_ones bytes (omega arith)) (omega arith)

feed_all-middle :
    (crc : ℕ) (before behind : Str) (x : ℕ)
    → feed_all crc (before ++ x ∷ behind) ≡ feed_all (feed (feed_all crc before) x) behind
unfolding feed_all
feed_all-middle crc before behind x = feed_all-append crc before (x ∷ behind)

-- Two runs of bytes that differ in one byte only have different checksums: whatever stands before
-- and behind the byte, equal checksums mean equal bytes.
pub crc32c-one_byte :
    (before behind : Str) (x y : ℕ)
    → IsBytes behind
    → x < 256
    → y < 256
    → crc32c (before ++ x ∷ behind) ≡ crc32c (before ++ y ∷ behind)
    → x ≡ y
unfolding crc32c
crc32c-one_byte before behind x y hb hx hy e = bit_xor-left_injective c x y (
    same_sum c c x y hc hc
      (feed_all-injective (feed c x) (feed c y) behind (feed-lt c x hc) (feed-lt c y hc) hb same) hx
      hy)
  where
    c : ℕ
    c = feed_all all_ones before

    hc : c < 2 ^ 32
    hc = feed_all-lt all_ones before (omega arith)

    same : feed_all (feed c x) behind ≡ feed_all (feed c y) behind
    same =
        sym (feed_all-middle all_ones before behind x)
        ∙ bit_xor-right_injective all_ones _ _ e
        ∙ feed_all-middle all_ones before behind y
