-- ===== src/Wal/Log.antt =====
-- src/storage/wal.cpp, WAL: the log file under its mutex. A frame in the file is the length of an
-- entry's bytes, their checksum, and the bytes.
pub mod Appends
pub mod Frames
pub mod Recovery
pub mod Termination
pub mod Replay
use qc_database.Prelude.{
  ℕ, zero, suc, ◌+◌, ◌*◌, ◌%◌, ◌^◌, Bool, true, false, not, Option, none, some, List, [], ◌∷◌, ◌++◌,
  ltb, leb, ◌==◌, length, if◌then◌else◌, ◌||◌,
}
use qc_database.Std.Bytes.{Str, le_bytes, of_le_bytes}
use qc_database.Std.Fstream.{Fstream, contents, open_file, good, read, write, rewind, seek_end}
use qc_database.Std.Method.{
  Outcome, returns, undefined, Guarded, Method, ◌>>=◌, pure, gets, body, modify, with_unique,
}
use qc_database.Types.{Result, ok, error, storage_error}
use qc_database.Crc32c.{crc32c}
use qc_database.Wal.Entry.{WalEntry, serialize, deserialize}

-- `stored` is the file on disk while the log is closed, and `file` the open stream.
pub record Wal : Type 0 where
  pub file : Fstream
  pub stored : Option Str
  pub is_open : Bool
  pub sequence_number : ℕ

-- WAL::WAL, over what the disk holds under the file's name
unfoldable pub new_wal : Option Str → Wal
new_wal stored = record {
  file = open_file [];
  stored = stored;
  is_open = false;
  sequence_number = 0;
}

found_or_created : Bool → Option Str → Option Str
found_or_created creatable (some bytes) = some bytes
found_or_created creatable none = if creatable then some [] else none

opened : Wal → Option Str → Result (Unit {0}) × Wal
opened w none = (error storage_error, w)
opened w (some bytes) = (ok tt, record w { file = seek_end (open_file bytes); is_open = true })

-- open: `directories` tells whether the directories could be made, `creatable` whether a missing
-- file could be created.
unfoldable pub open_wal : Bool → Bool → Method Wal (Result (Unit {0}))
unfolding found_or_created opened
open_wal directories creatable = with_unique (
    body λ w.
      if w.is_open
      then (ok tt, w)
      else if directories
      then opened w (found_or_created creatable w.stored)
      else (error storage_error, w))

unfoldable pub close_wal : Method Wal (Result (Unit {0}))
close_wal = with_unique (
    body λ w.
      if w.is_open
      then (ok tt, record w { stored = some (contents w.file); is_open = false })
      else (ok tt, w))

-- The three writes of a frame.
unfoldable pub write_frame : WalEntry → Fstream → Fstream
write_frame e f =
    write (serialize e)
      (write (le_bytes 4 (crc32c (serialize e))) (write (le_bytes 4 (length (serialize e))) f))

unfoldable pub append : WalEntry → Method Wal (Result (Unit {0}))
append e = with_unique (
    body λ w.
      if w.is_open
      then (
        ok tt,
        record w {
          file = write_frame e w.file;
          sequence_number = (w.sequence_number + 1) % 2 ^ 64;
        },
      )
      else (error storage_error, w))

unfoldable pub sync : Method Wal (Result (Unit {0}))
sync = with_unique (body λ w. if w.is_open then (ok tt, w) else (error storage_error, w))

-- How one round of the loop in replay_from ends.
pub data Round : Type 0 where
  finished failed : Round
  entry : WalEntry → Round

abbrev pub max_record : ℕ
max_record = 1024 * 1024

pub decoded : Result WalEntry → Round
decoded (ok e) = entry e
decoded (error s) = failed

check_record : ℕ → ℕ → ℕ → Str × Fstream → Round × Fstream
unfolding decoded
check_record now size crc (bytes, f) =
    if not (length bytes == size)
    then (failed, f)
    else if crc32c bytes == crc
    then (decoded (deserialize now bytes), f)
    else (failed, f)

read_body : ℕ → ℕ → Str × Fstream → Round × Fstream
unfolding check_record
read_body now size (crc, f) =
    if not (length crc == 4)
    then (finished, f)
    else if ltb max_record size
    then (failed, f)
    else check_record now size (of_le_bytes crc) (read size f)

read_header : ℕ → Str × Fstream → Round × Fstream
unfolding read_body
read_header now (size, f) =
    if not (length size == 4) then (finished, f) else read_body now (of_le_bytes size) (read 4 f)

unfoldable pub read_frame : ℕ → Fstream → Round × Fstream
unfolding read_header
read_frame now f = read_header now (read 4 f)

-- push_back, for entries from the sequence number on
abbrev pub keep_from : ℕ → WalEntry → List WalEntry → List WalEntry
keep_from from e entries = if leb from e.sequence_number then entries ++ e ∷ [] else entries

-- The loop while the stream is good; `none` means that the fuel ran out.
unfoldable pub replay_loop :
    ℕ → ℕ → ℕ → List WalEntry → Fstream → Option (Result (List WalEntry) × Fstream)
replay_loop zero now from entries f = none
replay_loop (suc fuel) now from entries f = elim (good f) [
  | false ↦ some (ok entries, f)
  | true ↦
      let (r, f') = read_frame now f in
      elim r [
        | finished ↦ some (ok entries, f')
        | failed ↦ some (error storage_error, f')
        | entry e ↦ replay_loop fuel now from (keep_from from e entries) f'
      ]
]

finish_replay :
    Guarded Wal
    → Option (Result (List WalEntry) × Fstream)
    → Outcome (Result (List WalEntry) × Guarded Wal)
finish_replay g none = undefined
finish_replay g (some (r, f)) = returns (r, record g { value = record g.value { file = f } })

-- `now` is the time at which the entries are read.
unfoldable pub replay_from : ℕ → ℕ → Method Wal (Result (List WalEntry))
unfolding finish_replay
replay_from now from = with_unique λ g.
    if g.value.is_open
    then finish_replay g
        (replay_loop (suc (length (contents g.value.file))) now from [] (rewind g.value.file))
    else returns (error storage_error, g)

write_frames : List WalEntry → Fstream → Fstream
write_frames [] f = f
write_frames (e ∷ es) f = write_frames es (write_frame e f)

-- A stream that has no file: its writes fail.
abbrev closed_stream : Fstream
closed_stream = record { passed = []; ahead = []; eofbit = false; failbit = true }

reopened : Bool → Str → Wal → Result (Unit {0}) × Wal
reopened true bytes w = (ok tt, record w { file = seek_end (open_file bytes); stored = some bytes })
reopened false bytes w =
    (error storage_error, record w { file = closed_stream; stored = some bytes })

rewrite_file : Bool → Bool → Result (List WalEntry) → Wal → Result (Unit {0}) × Wal
unfolding reopened write_frames
rewrite_file rewritable reopens (error s) w = (error storage_error, w)
rewrite_file rewritable reopens (ok es) w =
    if rewritable
    then reopened reopens (contents (write_frames es (open_file []))) w
    else (error storage_error, record w { file = closed_stream; stored = some (contents w.file) })

-- truncate: `rewritable` and `reopens` tell whether the two openings of the file succeed.
unfoldable pub truncate : Bool → Bool → ℕ → ℕ → Method Wal (Result (Unit {0}))
unfolding rewrite_file
truncate rewritable reopens now from = with_unique λ g.
    if g.value.is_open
    then (do kept ← replay_from now from; body (rewrite_file rewritable reopens kept)) g
    else returns (error storage_error, g)

-- file_size: tellp() is -1 on a stream that has failed.
unfoldable pub file_size : Method Wal ℕ
file_size =
    with_unique (body λ w. (if not w.is_open || w.file.failbit then 0 else length w.file.passed, w))
