-- ===== src/Std/Fstream.antt =====
-- std::fstream on a file opened for reading and writing. The two lists are the bytes before and
-- behind its one position. A device that fails is not modelled, and a flush needs no model: the
-- contents are those that the program sees.
pub mod Laws
use qc_database.Prelude.{
  ℕ, Bool, true, false, not, ◌&&◌, List, [], ◌++◌, length, take, drop, ltb, if◌then◌else◌,
}
use qc_database.Std.Bytes.{Str}

pub record Fstream : Type 0 where
  pub passed : Str
  pub ahead : Str
  pub eofbit : Bool
  pub failbit : Bool

abbrev pub contents : Fstream → Str
contents f = f.passed ++ f.ahead

-- open(in | out) on a file with these contents
abbrev pub open_file : Str → Fstream
open_file bytes = record { passed = []; ahead = bytes; eofbit = false; failbit = false }

unfoldable pub good : Fstream → Bool
good f = not f.eofbit && not f.failbit

-- read: the bytes that were read, whose number is gcount(). A short read sets both bits, and a
-- stream that is not good reads nothing.
unfoldable pub read : ℕ → Fstream → Str × Fstream
unfolding good
read n f =
    if good f
    then (if ltb (length f.ahead) n
        then (f.ahead, record { passed = contents f; ahead = []; eofbit = true; failbit = true })
        else (
          take n f.ahead,
          record f { passed = f.passed ++ take n f.ahead; ahead = drop n f.ahead },
        ))
    else ([], record f { failbit = true })

-- write: over what lies ahead, and beyond the end. A stream that is not good writes nothing.
unfoldable pub write : Str → Fstream → Fstream
unfolding good
write bytes f =
    if good f
    then record f { passed = f.passed ++ bytes; ahead = drop (length bytes) f.ahead }
    else record f { failbit = true }

-- seekg(0): clears eofbit, then moves unless the stream has failed
unfoldable pub rewind : Fstream → Fstream
rewind f =
    if f.failbit
    then record f { eofbit = false }
    else record { passed = []; ahead = contents f; eofbit = false; failbit = false }

-- seekp(0, end)
unfoldable pub seek_end : Fstream → Fstream
seek_end f = if f.failbit then f else record f { passed = contents f; ahead = [] }
