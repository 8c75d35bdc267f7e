-- ===== src/Tests/Log.antt =====
-- src/storage/wal.cpp at small inputs.
use qc_database.Prelude.{◌≡◌, refl, true, false, none, [], ◌∷◌, arith, ◌++◌, List}
use qc_database.Std.Bytes.{Str, IsBytes, of_le_bytes}
use qc_database.Std.Fstream.{Fstream, contents, good}
use qc_database.Std.Method.{returns, at_rest, ◌>>=◌}
use qc_database.Types.{Result, ok, error, storage_error}
use qc_database.Wal.Entry.{WalEntry, serialize, deserialize}
use qc_database.Wal.Entry.RoundTrip.{IsLoggable, stripped, deserialize-serialize}
use qc_database.Wal.Log.{Wal, append, replay_from}
use qc_database.Wal.Log.Frames.{altered_frame}
use qc_database.Wal.Log.Replay.{frames, kept, AllLoggable}
use qc_database.Wal.Log.Termination.{replay_from-returns}
use qc_database.Wal.Log.Recovery.{Holds, replay_from-frames, replay_from-damaged}
use qc_database.Wal.Log.Appends.{append_all, append_after_replay_lost, replay_after_appends}

abbrev pub logged : WalEntry
logged = record {
  type = 1;
  key = record { primary_key = b'a' ∷ []; secondary_key = [] };
  payload = record { value = b'v' ∷ []; version = 4; timestamp = 5; deleted = false };
  sequence_number = 3;
}

logged-IsLoggable : IsLoggable logged
logged-IsLoggable = record {
  sequence_fits = omega arith;
  primary = (omega arith, tt);
  secondary = tt;
}

pub logged-all : AllLoggable (logged ∷ [])
unfolding serialize qc_database.Std.Bytes.le_bytes
logged-all = (logged-IsLoggable, omega arith, tt)

-- An open log whose file holds these bytes, at the start of the file.
abbrev holding : Str → Wal
holding bytes = record {
  file = record { passed = []; ahead = bytes; eofbit = false; failbit = false };
  stored = none;
  is_open = true;
  sequence_number = 0;
}

holding-Holds :
    (es : List WalEntry) (tail : Str) → AllLoggable es → Holds (holding (frames es ++ tail)) es tail
holding-Holds es tail all = record {
  is_open = refl;
  not_failed = refl;
  loggable = all;
  bytes = refl;
}

deserialize-serialize_example : deserialize 9 (serialize logged) ≡ ok (stripped 9 logged)
deserialize-serialize_example = deserialize-serialize 9 logged logged-IsLoggable

replay_from-returns_example :
    (r : Result (List WalEntry)) × (w' : Wal) × (replay_from 9 0 (at_rest (holding (1 ∷ 2 ∷ [])))
      ≡ returns (r, at_rest w'))
replay_from-returns_example = replay_from-returns 9 0 (holding (1 ∷ 2 ∷ []))

replay_from-frames_example :
    (f : Fstream) × (replay_from 9 0 (at_rest (holding (frames (logged ∷ []) ++ [])))
      ≡ returns (
        ok (kept 9 0 (logged ∷ [])),
        at_rest (record (holding (frames (logged ∷ []) ++ [])) { file = f }),
      ))
    × (contents f ≡ contents (holding (frames (logged ∷ []) ++ [])).file)
    × (f.failbit ≡ true)
replay_from-frames_example =
    replay_from-frames 9 0 (holding (frames (logged ∷ []) ++ [])) (logged ∷ []) []
      (holding-Holds (logged ∷ []) [] logged-all) (omega arith)

replay_from-damaged_example :
    (f : Fstream) × (replay_from 9 0
        (at_rest (holding ([] ++ (altered_frame (7 ∷ 1 ∷ []) (7 ∷ 2 ∷ []) ++ []))))
      ≡ returns (
        error storage_error,
        at_rest
            (record (holding ([] ++ (altered_frame (7 ∷ 1 ∷ []) (7 ∷ 2 ∷ []) ++ []))) { file = f }),
      ))
replay_from-damaged_example =
    replay_from-damaged 9 0 (holding ([] ++ (altered_frame (7 ∷ 1 ∷ []) (7 ∷ 2 ∷ []) ++ []))) []
      (7 ∷ []) [] [] 1 2 (holding-Holds [] (altered_frame (7 ∷ 1 ∷ []) (7 ∷ 2 ∷ []) ++ []) tt) tt
      (omega arith) (omega arith) (omega arith) (omega arith)

append_after_replay_lost_example :
    (w' : Wal) × ((replay_from 9 0 >>= λ _. append logged)
        (at_rest (holding (frames (logged ∷ []) ++ [])))
      ≡ returns (ok tt, at_rest w'))
    × (contents w'.file ≡ contents (holding (frames (logged ∷ []) ++ [])).file)
append_after_replay_lost_example =
    append_after_replay_lost 9 0 (holding (frames (logged ∷ []) ++ [])) (logged ∷ []) [] logged
      (holding-Holds (logged ∷ []) [] logged-all) (omega arith)

replay_after_appends_example :
    (w' : Wal) × ((append_all (logged ∷ []) >>= λ _. replay_from 9 0) (at_rest (holding []))
      ≡ returns (ok (stripped 9 logged ∷ []), at_rest w'))
unfolding good
replay_after_appends_example =
    replay_after_appends 9 0 (holding []) [] (logged ∷ []) (holding-Holds [] [] tt) refl refl
      logged-all
