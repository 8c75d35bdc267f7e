-- ===== src/Wal/Log/Recovery.antt =====
-- src/storage/wal.cpp, WAL: logging and recovery of whole, torn and damaged files.
use mathlib.Core.List.{append-nil}
use qc_database.Prelude.{
  ℕ, suc, ◌+◌, ◌-◌, ◌≤◌, ◌<◌, ◌≡◌, ◌≢◌, refl, ap, sym, ◌∙◌, inl, inr, true, false, List, [], ◌∷◌,
  ◌++◌, arith, ◌==◌, ==_iff, length, length-append, Bool-cases, some,
}
use qc_database.Std.Bytes.{Str, IsBytes, length-le_bytes, le_bytes, of_le_bytes}
use qc_database.Std.Fstream.{Fstream, contents, good, rewind}
use qc_database.Std.Fstream.Laws.{past, at_end}
use qc_database.Std.Method.{returns, at_rest}
use qc_database.Types.{Result, ok, error, storage_error}
use qc_database.Crc32c.{crc32c}
use qc_database.Crc32c.Detection.{crc32c-one_byte}
use qc_database.Wal.Entry.{WalEntry, serialize}
use qc_database.Wal.Log.{Wal, failed, max_record, replay_from, replay_loop, read_frame}
use qc_database.Wal.Log.Frames.{
  frame, altered_frame, read_frame-altered_frame, read_frame-torn_header, read_frame-torn_body,
}
use qc_database.Wal.Log.Replay.{
  frames, kept, AllLoggable, replay_loop-frames, replay_loop-finished, replay_loop-failed,
}

length-frames : (es : List WalEntry) → length es ≤ length (frames es)
length-frames [] = omega arith
length-frames (e ∷ es) = omega (
  arith,
  length-frames es,
  length-append (frame (serialize e)) (frames es),
  length-append (le_bytes 4 (length (serialize e)))
      (le_bytes 4 (crc32c (serialize e)) ++ serialize e),
  length-le_bytes 4 (length (serialize e)),
)

-- A log whose file holds whole frames of these entries and then a tail.
pub record Holds (w : Wal) (es : List WalEntry) (tail : Str) : Type 0 where
  pub is_open : w.is_open ≡ true
  pub not_failed : w.file.failbit ≡ false
  pub loggable : AllLoggable es
  pub bytes : contents w.file ≡ frames es ++ tail

-- The stream behind the whole frames.
abbrev behind : List WalEntry → Str → Fstream
behind es tail = record { passed = frames es; ahead = tail; eofbit = false; failbit = false }

-- A replay goes through the whole frames, and ends as the loop does behind them.
replay_from-Holds :
    (now from : ℕ) (w : Wal) (es : List WalEntry) (tail : Str) (r : Result (List WalEntry))
    (f : Fstream)
    → Holds w es tail
    → ((fuel : ℕ)
        → replay_loop (suc fuel) now from (kept now from es) (behind es tail) ≡ some (r, f))
    → replay_from now from (at_rest w) ≡ returns (r, at_rest (record w { file = f }))
unfolding replay_from
replay_from-Holds now from w es tail r f h ends =
    let start : Fstream = record {
      passed = [];
      ahead = contents w.file;
      eofbit = false;
      failbit = false;
    } in
    let rewound : rewind w.file ≡ start = unfold rewind in rw h.not_failed in
    let enough : length es ≤ length (contents w.file) =
      omega (arith, length-frames es, ap length h.bytes, length-append (frames es) tail) in
    let fuel = length (contents w.file) - length es in
    let split : suc (length (contents w.file)) ≡ length es + suc fuel = omega arith in
    rw (h.is_open, rewound, split)
      (rw
        (
          replay_loop-frames (suc fuel) now from es [] start tail (unfold good in refl) h.bytes
              h.loggable,
          ends fuel,
        )
        refl)

-- A file of whole frames, with fewer than eight further bytes, is replayed in full: OK, with the
-- entries from the given sequence number on in the order in which they were logged. The log must be
-- open and its stream not failed. The stream is left failed, and its contents are unchanged.
pub replay_from-frames :
    (now from : ℕ) (w : Wal) (es : List WalEntry) (tail : Str)
    → Holds w es tail
    → length tail < 8
    → (f : Fstream) × (replay_from now from (at_rest w)
        ≡ returns (ok (kept now from es), at_rest (record w { file = f })))
      × (contents f ≡ contents w.file)
      × (f.failbit ≡ true)
replay_from-frames now from w es tail h torn = (
  at_end (behind es tail),
  replay_from-Holds now from w es tail _ _ h (λ fuel.
      replay_loop-finished fuel now from (kept now from es) (behind es tail) _ (unfold good in refl)
        (read_frame-torn_header now (behind es tail) (unfold good in refl) torn)),
  append-nil (frames es ++ tail) ∙ sym h.bytes,
  refl,
)

-- A record whose body was changed in one byte is not replayed: after whole frames, a frame whose
-- checksum is of other bytes of the same length makes the replay of an open log fail with
-- STORAGE_ERROR. The record is no longer than a megabyte.
pub replay_from-damaged :
    (now from : ℕ) (w : Wal) (es : List WalEntry) (before after rest : Str) (x y : ℕ)
    → Holds w es (altered_frame (before ++ x ∷ after) (before ++ y ∷ after) ++ rest)
    → IsBytes after
    → x < 256
    → y < 256
    → x ≢ y
    → length (before ++ x ∷ after) ≤ max_record
    → (f : Fstream) × (replay_from now from (at_rest w)
        ≡ returns (error storage_error, at_rest (record w { file = f })))
replay_from-damaged now from w es before after rest x y h b hx hy ne small = (
  _,
  replay_from-Holds now from w es _ _ _ h
      (λ fuel. replay_loop-failed fuel now from _ _ _ (unfold good in refl) damaged),
)
  where
    old : Str
    old = before ++ x ∷ after

    new : Str
    new = before ++ y ∷ after

    tail : Str
    tail = altered_frame old new ++ rest

    same_length : length new ≡ length old
    same_length = omega (arith, length-append before (x ∷ after), length-append before (y ∷ after))

    differ : (crc32c new == crc32c old) ≡ false
    differ = elim (Bool-cases (crc32c new == crc32c old)) [
      | inl same ↦
          absurd (ne (sym (crc32c-one_byte before after y x b hy hx ((==_iff _ _).0 same))))
      | inr other ↦ other
    ]

    damaged :
        read_frame now (behind es tail)
        ≡ (failed, past (behind es tail) (altered_frame old new) rest)
    damaged =
        read_frame-altered_frame now (behind es tail) old new rest (unfold good in refl) refl
          same_length small
        ∙ rw differ

-- A last record that was cut off after its header makes the replay of an open log fail with
-- STORAGE_ERROR, whatever whole records stand before it.
pub replay_from-torn_body :
    (now from : ℕ) (w : Wal) (es : List WalEntry) (size crc bytes : Str)
    → Holds w es (size ++ (crc ++ bytes))
    → length size ≡ 4
    → length crc ≡ 4
    → length bytes < of_le_bytes size
    → of_le_bytes size ≤ max_record
    → (f : Fstream) × (replay_from now from (at_rest w)
        ≡ returns (error storage_error, at_rest (record w { file = f })))
replay_from-torn_body now from w es size crc bytes h hs hc torn small = (
  _,
  replay_from-Holds now from w es _ _ _ h (λ fuel.
      replay_loop-failed fuel now from _ _ _ (unfold good in refl) (
        read_frame-torn_body now (behind es (size ++ (crc ++ bytes))) size crc bytes
          (unfold good in refl) refl hs hc torn small)),
)
