-- ===== src/Wal/Log/Frames.antt =====
-- src/storage/wal.cpp, WAL: a frame that was appended is read back.
use mathlib.Core.List.{append_assoc, take-append-drop, take, length-take, drop, length-drop}
use qc_database.Prelude.{
  ◌==◌, ℕ, ◌≤◌, ◌<◌, ◌≡◌, refl, sym, ◌∙◌, inl, inr, true, ◌++◌, arith, ltb, length, if◌then◌else◌,
  Bool-cases,
}
use qc_database.Std.Bytes.{Str, le_bytes, of_le_bytes, length-le_bytes, of_le_bytes-le_bytes}
use qc_database.Std.Fstream.{Fstream, good}
use qc_database.Std.Fstream.Laws.{past, at_end, read-ahead, read-short}
use qc_database.Crc32c.{crc32c}
use qc_database.Crc32c.Detection.{crc32c-lt}
use qc_database.Wal.Entry.{deserialize}
use qc_database.Wal.Log.{finished, failed, read_frame, decoded, max_record}

-- Three reads take a size, a checksum and as many bytes as the size says.
module _ (now : ℕ) (f : Fstream) (size crc bytes rest : Str) (g : good f ≡ true) where
  second : Fstream
  second = past f size (crc ++ (bytes ++ rest))

  third : Fstream
  third = past second crc (bytes ++ rest)

  past-past : past third bytes rest ≡ past f (size ++ (crc ++ bytes)) rest
  unfolding second third
  past-past = rw (append_assoc f.passed, append_assoc f.passed, append_assoc size)

  read_frame-fields :
      f.ahead ≡ size ++ (crc ++ (bytes ++ rest))
      → length size ≡ 4
      → length crc ≡ 4
      → of_le_bytes size ≡ length bytes
      → length bytes ≤ max_record
      → read_frame now f ≡ (
        (if crc32c bytes == of_le_bytes crc then decoded (deserialize now bytes) else failed),
        past f (size ++ (crc ++ bytes)) rest,
      )
  unfolding read_frame second third good
  read_frame-fields a hs hc hn small =
      rw
        (
          read-ahead 4 f size (crc ++ (bytes ++ rest)) g a hs,
          read-ahead 4 second crc (bytes ++ rest) g refl hc,
          hn,
          read-ahead (length bytes) third bytes rest g refl refl,
          ← past-past,
        )
        (ground arith)

-- The bytes of a frame over the bytes of an entry.
abbrev pub frame : Str → Str
frame bytes = le_bytes 4 (length bytes) ++ (le_bytes 4 (crc32c bytes) ++ bytes)

-- What stands in a frame whose body was replaced by one of the same length.
abbrev pub altered_frame : Str → Str → Str
altered_frame bytes body = le_bytes 4 (length bytes) ++ (le_bytes 4 (crc32c bytes) ++ body)

pub read_frame-altered_frame :
    (now : ℕ) (f : Fstream) (bytes body rest : Str)
    → good f ≡ true
    → f.ahead ≡ altered_frame bytes body ++ rest
    → length body ≡ length bytes
    → length bytes ≤ max_record
    → read_frame now f ≡ (
      (if crc32c body == crc32c bytes then decoded (deserialize now body) else failed),
      past f (altered_frame bytes body) rest,
    )
read_frame-altered_frame now f bytes body rest g a n small =
    let size_back : of_le_bytes (le_bytes 4 (length bytes)) ≡ length bytes =
      of_le_bytes-le_bytes 4 (length bytes) (omega arith) in
    let crc_back : of_le_bytes (le_bytes 4 (crc32c bytes)) ≡ crc32c bytes =
      of_le_bytes-le_bytes 4 (crc32c bytes) (crc32c-lt bytes) in
    let regroup : altered_frame bytes body ++ rest
        ≡ le_bytes 4 (length bytes) ++ (le_bytes 4 (crc32c bytes) ++ (body ++ rest)) =
      rw (append_assoc (le_bytes 4 (length bytes)), append_assoc (le_bytes 4 (crc32c bytes))) in
    rw crc_back at (
      read_frame-fields now f (le_bytes 4 (length bytes)) (le_bytes 4 (crc32c bytes)) body rest g
        (a ∙ regroup) (length-le_bytes 4 (length bytes)) (length-le_bytes 4 (crc32c bytes))
        (size_back ∙ sym n) (rw n small))

pub read_frame-frame :
    (now : ℕ) (f : Fstream) (bytes rest : Str)
    → good f ≡ true
    → f.ahead ≡ frame bytes ++ rest
    → length bytes ≤ max_record
    → read_frame now f ≡ (decoded (deserialize now bytes), past f (frame bytes) rest)
read_frame-frame now f bytes rest g a small =
    read_frame-altered_frame now f bytes bytes rest g a refl small ∙ ground arith

-- Fewer than eight bytes end the loop, and leave the stream failed with the same contents.
pub read_frame-torn_header :
    (now : ℕ) (f : Fstream)
    → good f ≡ true
    → length f.ahead < 8
    → read_frame now f ≡ (finished, at_end f)
unfolding read_frame
read_frame-torn_header now f g h = elim (Bool-cases (ltb (length f.ahead) 4)) [
  | inl short ↦ rw (read-short 4 f g (ground arith)) (ground arith)
  | inr long ↦
      let whole = take-append-drop 4 f.ahead in
      let four : length (take 4 f.ahead) ≡ 4 = ground (arith, length-take 4 f.ahead) in
      let left : length (drop 4 f.ahead) < 4 = ground (arith, length-drop 4 f.ahead) in
      let f' = past f (take 4 f.ahead) (drop 4 f.ahead) in
      rw (read-ahead 4 f (take 4 f.ahead) (drop 4 f.ahead) g (sym whole) four) (
        rw (read-short 4 f' (unfold good in g) left)
          (ground (arith, append_assoc f.passed (take 4 f.ahead) (drop 4 f.ahead), whole)))
]

-- A body with fewer bytes than its size says ends the replay with an error.
pub read_frame-torn_body :
    (now : ℕ) (f : Fstream) (size crc bytes : Str)
    → good f ≡ true
    → f.ahead ≡ size ++ (crc ++ bytes)
    → length size ≡ 4
    → length crc ≡ 4
    → length bytes < of_le_bytes size
    → of_le_bytes size ≤ max_record
    → read_frame now f ≡ (failed, at_end f)
unfolding read_frame good
read_frame-torn_body now f size crc bytes g a hs hc torn small =
    let second : Fstream = past f size (crc ++ bytes) in
    let third : Fstream = past second crc bytes in
    rw
      (
        read-ahead 4 f size (crc ++ bytes) g a hs,
        read-ahead 4 second crc bytes g refl hc,
        read-short (of_le_bytes size) third g torn,
        a,
        append_assoc f.passed,
        append_assoc f.passed,
        append_assoc size,
      )
      (ground arith)
