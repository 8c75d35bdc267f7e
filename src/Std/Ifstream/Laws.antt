-- ===== src/Std/Ifstream/Laws.antt =====
-- std::ifstream: what a reader finds on a good stream whose bytes ahead are known.
use qc_database.Prelude.{
  ℕ, ◌-◌, ◌^◌, ◌<◌, ◌≡◌, refl, ap, false, ◌++◌, arith, length, length-append, take-append,
  drop-append,
}
use mathlib.Core.List.{append-nil}
use qc_database.Std.Bytes.{Str, le_bytes, length-le_bytes, of_le_bytes-le_bytes}
use qc_database.Std.Fstream.{Fstream, good, read}
use qc_database.Std.Fstream.Laws.{read-ahead}
use qc_database.Std.Method.{returns}
use qc_database.Std.Ifstream.{
  Reader, ◌>>=◌, read_uint, read_string, seek_to, skip, seek_from_end, and_then,
}

-- A good stream between these bytes.
abbrev pub between : Str → Str → Fstream
between xs ys = record { passed = xs; ahead = ys; eofbit = false; failbit = false }

pub read-between :
    (n : ℕ) (pre xs ys : Str)
    → length xs ≡ n
    → read n (between pre (xs ++ ys)) ≡ (xs, between (pre ++ xs) ys)
read-between n pre xs ys h =
    read-ahead n (between pre (xs ++ ys)) xs ys (unfold good in refl) refl h

pub read_uint-between :
    (k n : ℕ) (pre ys : Str)
    → n < 256 ^ k
    → read_uint k (between pre (le_bytes k n ++ ys)) ≡ returns (n, between (pre ++ le_bytes k n) ys)
unfolding read_uint
read_uint-between k n pre ys h =
    rw
      (
        read-between k pre (le_bytes k n) ys (length-le_bytes k n),
        length-le_bytes k n,
        of_le_bytes-le_bytes k n h,
      )
      (ground arith)

module _ {ℓ κ} {A : Type ℓ} {B : Type κ} where
  -- A reader that returns goes on with what follows it.
  pub >>=-found :
      (m : Reader A) (k : A → Reader B) (f : Fstream) {a : A} {f' : Fstream}
      → m f ≡ returns (a, f')
      → (m >>= k) f ≡ k a f'
  >>=-found m k f e = ap (λ o. and_then o k) e

pub read_string-between :
    (n : ℕ) (pre xs ys : Str)
    → length xs ≡ n
    → read_string n (between pre (xs ++ ys)) ≡ returns (xs, between (pre ++ xs) ys)
unfolding read_string
read_string-between n pre xs ys h =
    let e : n - n ≡ 0 = omega arith in rw (read-between n pre xs ys h, h, e, append-nil xs)

pub seek_to-between :
    (n : ℕ) (pre ys xs zs : Str)
    → pre ++ ys ≡ xs ++ zs
    → length xs ≡ n
    → seek_to n (between pre ys) ≡ returns (tt, between xs zs)
unfolding seek_to
seek_to-between n pre ys xs zs e h = rw (e, take-append n xs zs h, drop-append n xs zs h)

pub skip-between :
    (n : ℕ) (pre xs ys : Str)
    → length xs ≡ n
    → skip n (between pre (xs ++ ys)) ≡ returns (tt, between (pre ++ xs) ys)
unfolding skip
skip-between n pre xs ys h = rw (take-append n xs ys h, drop-append n xs ys h)

pub seek_from_end-between :
    (n : ℕ) (pre ys xs zs : Str)
    → pre ++ ys ≡ xs ++ zs
    → length zs ≡ n
    → seek_from_end n (between pre ys) ≡ returns (tt, between xs zs)
unfolding seek_from_end
seek_from_end-between n pre ys xs zs e h =
    let split = length-append xs zs in
    let at : length (xs ++ zs) - n ≡ length xs = omega arith in
    rw (e, at, take-append (length xs) xs zs refl, drop-append (length xs) xs zs refl)
      (ground arith)
