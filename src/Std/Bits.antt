-- ===== src/Std/Bits.antt =====
-- Bitwise exclusive or on words: its lowest digit, and that it undoes itself.
use Prim.Native.Nat.{bit_xor, bit_xor-bitwise, differ, digits}
use native.Mathlib.Nat.{le_refl, pow-suc, div-div-eq-div-mul, div-one}
use qc_database.Prelude.{ℕ, zero, suc, ◌+◌, ◌*◌, ◌/◌, ◌%◌, ◌≤◌, ◌<◌, ◌≡◌, refl, arith, ◌^◌, ap, ◌∙◌}

differ_digits : ℕ → ℕ → ℕ → ℕ
differ_digits n a b = digits (λ b. b) differ n a b

differ_digits_fuel : (n m a b : ℕ) → a ≤ n → a ≤ m → differ_digits n a b ≡ differ_digits m a b
unfolding differ_digits
differ_digits_fuel zero zero a b p q = refl
differ_digits_fuel zero (suc m) zero b p q = refl
differ_digits_fuel zero (suc m) (suc a) b p q = absurd (omega arith)
differ_digits_fuel (suc n) zero zero b p q = refl
differ_digits_fuel (suc n) zero (suc a) b p q = absurd (omega arith)
differ_digits_fuel (suc n) (suc m) zero b p q = refl
differ_digits_fuel (suc n) (suc m) (suc a) b p q =
    omega (arith, differ_digits_fuel n m (suc a / 2) (b / 2) (omega arith) (omega arith))

zero-bit_xor : (b : ℕ) → bit_xor 0 b ≡ b
zero-bit_xor b = bit_xor-bitwise 0 b

differ_lem : (x y : ℕ) → x < 2 → y < 2 → differ x y ≡ (x + y) % 2
differ_lem zero y h k = omega arith
differ_lem (suc zero) zero h k = refl
differ_lem (suc zero) (suc zero) h k = refl
differ_lem (suc zero) (suc (suc y)) h k = absurd (omega arith)
differ_lem (suc (suc x)) y h k = absurd (omega arith)

-- The lowest digit, and the rest.
pub bit_xor_step : (a b : ℕ) → bit_xor a b ≡ bit_xor (a / 2) (b / 2) * 2 + (a + b) % 2
unfolding differ_digits
bit_xor_step zero b = omega (arith, zero-bit_xor b, zero-bit_xor (b / 2))
bit_xor_step (suc a) b = omega (
  arith,
  bit_xor-bitwise (suc a) b,
  bit_xor-bitwise (suc a / 2) (b / 2),
  differ_digits_fuel a (suc a / 2) (suc a / 2) (b / 2) (omega arith) (omega arith),
  differ_lem (suc a % 2) (b % 2) (omega arith) (omega arith),
)

bit_xor-cancel_fuel : (n a b : ℕ) → a + b ≤ n → bit_xor (bit_xor a b) b ≡ a
bit_xor-cancel_fuel zero a b h =
    let ea : a ≡ 0 = omega arith in let eb : b ≡ 0 = omega arith in rw (ea, eb)
bit_xor-cancel_fuel (suc n) a b h =
    let half : bit_xor a b / 2 ≡ bit_xor (a / 2) (b / 2) = omega (arith, bit_xor_step a b) in
    omega (
      arith,
      bit_xor_step a b,
      bit_xor_step (bit_xor a b) b,
      ap (λ t. bit_xor t (b / 2)) half,
      bit_xor-cancel_fuel n (a / 2) (b / 2) (omega arith),
    )

-- The same mask twice changes nothing.
pub bit_xor-cancel : (a b : ℕ) → bit_xor (bit_xor a b) b ≡ a
bit_xor-cancel a b = bit_xor-cancel_fuel (a + b) a b (le_refl _)

pub bit_xor-lt-pow : (k a b : ℕ) → a < 2 ^ k → b < 2 ^ k → bit_xor a b < 2 ^ k
bit_xor-lt-pow zero a b h g =
    let ea : a ≡ 0 = omega arith in let eb : b ≡ 0 = omega arith in rw (ea, eb) (omega arith)
bit_xor-lt-pow (suc k) a b h g = omega (
  arith,
  pow-suc 2 k,
  bit_xor_step a b,
  bit_xor-lt-pow k (a / 2) (b / 2) (omega (arith, pow-suc 2 k)) (omega (arith, pow-suc 2 k)),
)

bit_xor_comm_fuel : (n a b : ℕ) → a + b ≤ n → bit_xor a b ≡ bit_xor b a
bit_xor_comm_fuel zero a b h =
    let ea : a ≡ 0 = omega arith in let eb : b ≡ 0 = omega arith in rw (ea, eb)
bit_xor_comm_fuel (suc n) a b h =
    omega
      (arith, bit_xor_step a b, bit_xor_step b a, bit_xor_comm_fuel n (a / 2) (b / 2) (omega arith))

pub bit_xor_comm : (a b : ℕ) → bit_xor a b ≡ bit_xor b a
bit_xor_comm a b = bit_xor_comm_fuel (a + b) a b (le_refl _)

pub bit_xor-zero : (a : ℕ) → bit_xor a 0 ≡ a
bit_xor-zero a = bit_xor_comm a 0 ∙ zero-bit_xor a

pub bit_xor-left_injective : (a b c : ℕ) → bit_xor a b ≡ bit_xor a c → b ≡ c
bit_xor-left_injective a b c e = omega (
  arith,
  bit_xor-cancel b a,
  bit_xor-cancel c a,
  ap (λ t. bit_xor t a) (bit_xor_comm b a ∙ e ∙ bit_xor_comm a c),
)

pub bit_xor-right_injective : (a b c : ℕ) → bit_xor b a ≡ bit_xor c a → b ≡ c
bit_xor-right_injective a b c e =
    bit_xor-left_injective a b c (bit_xor_comm a b ∙ e ∙ bit_xor_comm c a)

-- The high digits.
pub bit_xor-div : (k a b : ℕ) → bit_xor a b / 2 ^ k ≡ bit_xor (a / 2 ^ k) (b / 2 ^ k)
bit_xor-div zero a b = simp div-one
bit_xor-div (suc k) a b =
    rw (pow-suc, ← div-div-eq-div-mul (bit_xor a b), ← div-div-eq-div-mul a, ← div-div-eq-div-mul b)
      (omega (arith, ap (λ t. t / 2) (bit_xor-div k a b), bit_xor_step (a / 2 ^ k) (b / 2 ^ k)))
