-- ===== src/Std/Ifstream.antt =====
-- std::ifstream: positions, and reads into variables that had no value. A number that a short read
-- left partly unset is indeterminate, and to use it is `undefined`.
pub mod Laws
use qc_database.Prelude.{
  ℕ, ◌-◌, List, [], ◌∷◌, ◌++◌, ◌==◌, if◌then◌else◌, length, take, drop, ltb, replicate, true, false,
}
use qc_database.Std.Bytes.{Str, of_le_bytes}
use qc_database.Std.Fstream.{Fstream, contents, read}
use qc_database.Std.Method.{Outcome, returns, undefined}

abbrev pub Reader {ℓ} : Type ℓ → Type ℓ
Reader A = Fstream → Outcome (A × Fstream)

module _ {ℓ} {A : Type ℓ} where
  abbrev pub pure : A → Reader A
  pure a f = returns (a, f)

  -- What a reader returns, when the stream goes out of scope.
  abbrev pub result : Outcome (A × Fstream) → Outcome A
  result (returns (a, f)) = returns a
  result undefined = undefined

module _ {ℓ κ} {A : Type ℓ} {B : Type κ} where
  abbrev pub and_then : Outcome (A × Fstream) → (A → Reader B) → Outcome (B × Fstream)
  and_then (returns (a, f)) k = k a f
  and_then undefined k = undefined

  infixl 5 ◌>>=◌
  abbrev pub ◌>>=◌ : Reader A → (A → Reader B) → Reader B
  ◌>>=◌ m k f = and_then (m f) k

module _ {ℓ} {A : Type ℓ} where
  infixl 5 ◌>>◌
  abbrev pub ◌>>◌ : Reader (Unit {0}) → Reader A → Reader A
  m >> n = m >>= λ _. n

number : ℕ → Str × Fstream → Outcome (ℕ × Fstream)
number k (bytes, f) = if length bytes == k then returns (of_le_bytes bytes, f) else undefined

-- An unsigned integer of `k` bytes, that the program uses.
unfoldable pub read_uint : ℕ → Reader ℕ
unfolding number
read_uint k f = number k (read k f)

padded : ℕ → Str × Fstream → Str × Fstream
padded n (bytes, f) = (bytes ++ replicate (n - length bytes) 0, f)

-- A std::string of n zero bytes, over which n bytes are read.
unfoldable pub read_string : ℕ → Reader Str
unfolding padded
read_string n f = returns (padded n (read n f))

-- seekg(n): a position beyond the end is no failure, until a read there.
unfoldable pub seek_to : ℕ → Reader (Unit {0})
seek_to n f = returns (
  tt,
  if f.failbit then record f { eofbit = false } else record {
    passed = take n (contents f);
    ahead = drop n (contents f);
    eofbit = false;
    failbit = false;
  },
)

-- seekg(n, cur)
unfoldable pub skip : ℕ → Reader (Unit {0})
skip n f = returns (
  tt,
  if f.failbit then record f { eofbit = false } else record {
    passed = f.passed ++ take n f.ahead;
    ahead = drop n f.ahead;
    eofbit = false;
    failbit = false;
  },
)

back_from_end : ℕ → Fstream → Fstream
back_from_end n f =
    if ltb (length (contents f)) n
    then record f { eofbit = false; failbit = true }
    else (let at = length (contents f) - n in
        record {
          passed = take at (contents f);
          ahead = drop at (contents f);
          eofbit = false;
          failbit = false;
        })

-- seekg(-n, end), which fails in front of the first byte
unfoldable pub seek_from_end : ℕ → Reader (Unit {0})
unfolding back_from_end
seek_from_end n f =
    returns (tt, if f.failbit then record f { eofbit = false } else back_from_end n f)
