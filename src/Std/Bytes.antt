-- ===== src/Std/Bytes.antt =====
-- std::string as the list of its bytes, each below 256, and its operators.
use native.Mathlib.Nat.{pow-suc}
use qc_database.Prelude.{
  zero, suc, ℕ, ◌<◌, ◌≡◌, refl, Bool, true, false, List, [], ◌∷◌, arith, ltb, if◌then◌else◌, length,
  ◌^◌, ◌+◌, suc, ap, ◌*◌, ◌%◌, ◌/◌,
}
use qc_database.Std.OrderedMap.{StrictOrder}

abbrev pub Str : Type 0
Str = List ℕ

-- operator<: the first byte that differs decides, and a proper prefix is smaller.
abbrev pub str_lt : Str → Str → Bool
str_lt [] [] = false
str_lt [] (y ∷ ys) = true
str_lt (x ∷ xs) [] = false
str_lt (x ∷ xs) (y ∷ ys) = if ltb x y then true else if ltb y x then false else str_lt xs ys

pub str_lt_irrefl : (xs : Str) → str_lt xs xs ≡ false
str_lt_irrefl [] = refl
str_lt_irrefl (x ∷ xs) = ground (arith, str_lt_irrefl xs)

pub str_lt_trans :
    (xs ys zs : Str) → str_lt xs ys ≡ true → str_lt ys zs ≡ true → str_lt xs zs ≡ true
str_lt_trans [] [] zs h k = cc
str_lt_trans [] (y ∷ ys) [] h k = cc
str_lt_trans [] (y ∷ ys) (z ∷ zs) h k = refl
str_lt_trans (x ∷ xs) [] zs h k = cc
str_lt_trans (x ∷ xs) (y ∷ ys) [] h k = cc
str_lt_trans (x ∷ xs) (y ∷ ys) (z ∷ zs) h k = ground (arith, str_lt_trans xs ys zs)

pub str_lt_connex : (xs ys : Str) → str_lt xs ys ≡ false → str_lt ys xs ≡ false → xs ≡ ys
str_lt_connex [] [] h k = refl
str_lt_connex [] (y ∷ ys) h k = cc
str_lt_connex (x ∷ xs) [] h k = cc
str_lt_connex (x ∷ xs) (y ∷ ys) h k = ground (arith, str_lt_connex xs ys)

-- Strings order the keys of a std::map.
instance abbrev pub str_order : StrictOrder Str
str_order = record {
  lt = str_lt;
  lt_irrefl = str_lt_irrefl;
  lt_trans = str_lt_trans;
  lt_connex = str_lt_connex;
}

-- Every byte is in range.
abbrev pub IsBytes : Str → Type 0
IsBytes [] = Unit {0}
IsBytes (x ∷ xs) = (x < 256) × IsBytes xs

-- The low `k` bytes of a number, lowest first: an unsigned integer as it lies in memory.
unfoldable pub le_bytes : ℕ → ℕ → Str
le_bytes zero n = []
le_bytes (suc k) n = (n % 256) ∷ le_bytes k (n / 256)

unfoldable pub of_le_bytes : Str → ℕ
of_le_bytes [] = 0
of_le_bytes (x ∷ xs) = x + 256 * of_le_bytes xs

pub length-le_bytes : (k n : ℕ) → length (le_bytes k n) ≡ k
unfolding le_bytes
length-le_bytes zero n = refl
length-le_bytes (suc k) n = ap suc (length-le_bytes k (n / 256))

pub le_bytes-IsBytes : (k n : ℕ) → IsBytes (le_bytes k n)
unfolding le_bytes
le_bytes-IsBytes zero n = tt
le_bytes-IsBytes (suc k) n = (omega arith, le_bytes-IsBytes k (n / 256))

pub of_le_bytes-le_bytes : (k n : ℕ) → n < 256 ^ k → of_le_bytes (le_bytes k n) ≡ n
unfolding le_bytes of_le_bytes
of_le_bytes-le_bytes zero n h = omega arith
of_le_bytes-le_bytes (suc k) n h =
    omega (arith, of_le_bytes-le_bytes k (n / 256) (omega (arith, pow-suc 256 k)))

pub le_bytes-of_le_bytes : (xs : Str) → IsBytes xs → le_bytes (length xs) (of_le_bytes xs) ≡ xs
unfolding le_bytes of_le_bytes
le_bytes-of_le_bytes [] b = refl
le_bytes-of_le_bytes (x ∷ xs) b =
    let low : (x + 256 * of_le_bytes xs) % 256 ≡ x = omega arith in
    let high : (x + 256 * of_le_bytes xs) / 256 ≡ of_le_bytes xs = omega arith in
    rw (low, high, le_bytes-of_le_bytes xs b.1)
