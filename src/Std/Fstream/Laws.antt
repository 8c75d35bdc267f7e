-- ===== src/Std/Fstream/Laws.antt =====
-- std::fstream: what reads and writes do to the contents and to the error bits.
use mathlib.Core.List.{append_assoc, append-nil}
use qc_database.Prelude.{
  ℕ, ◌<◌, ◌≡◌, true, [], ◌++◌, arith, length, length-append, take, drop, take-append, drop-append,
  take-append-drop, drop-nil,
}
use qc_database.Std.Bytes.{Str}
use qc_database.Std.Fstream.{Fstream, contents, good, read, write}

-- The stream after reading `xs` off what lies ahead.
abbrev pub past : Fstream → Str → Str → Fstream
past f xs ys = record f { passed = f.passed ++ xs; ahead = ys }

-- The stream after a read that met the end.
abbrev pub at_end : Fstream → Fstream
at_end f = record { passed = contents f; ahead = []; eofbit = true; failbit = true }

pub read-ahead :
    (n : ℕ) (f : Fstream) (xs ys : Str)
    → good f ≡ true
    → f.ahead ≡ xs ++ ys
    → length xs ≡ n
    → read n f ≡ (xs, past f xs ys)
unfolding read
read-ahead n f xs ys g a h =
    rw (g, a, take-append n xs ys h, drop-append n xs ys h) (ground (arith, length-append xs ys))

pub read-short :
    (n : ℕ) (f : Fstream) → good f ≡ true → length f.ahead < n → read n f ≡ (f.ahead, at_end f)
unfolding read
read-short n f g h = rw g (ground arith)

-- What a read can do: take its bytes, or set the failbit.
pub contents-read : (n : ℕ) (f : Fstream) → contents (read n f).1 ≡ contents f
unfolding read
contents-read n f = ground (
  arith,
  append-nil (contents f),
  append_assoc f.passed (take n f.ahead) (drop n f.ahead),
  take-append-drop n f.ahead,
)

pub write-failed :
    (bytes : Str) (f : Fstream)
    → f.failbit ≡ true
    → (contents (write bytes f) ≡ contents f) × ((write bytes f).failbit ≡ true)
unfolding write
write-failed bytes f h = (ground arith, ground arith)

pub write-at_end :
    (bytes : Str) (f : Fstream)
    → good f ≡ true
    → f.ahead ≡ []
    → write bytes f ≡ record f { passed = f.passed ++ bytes; ahead = [] }
unfolding write
write-at_end bytes f g h = rw (g, h, drop-nil (length bytes))
