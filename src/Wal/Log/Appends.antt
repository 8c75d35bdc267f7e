-- ===== src/Wal/Log/Appends.antt =====
-- src/storage/wal.cpp, WAL::append: what appends add to the file, before and after a replay.
use mathlib.Core.List.{append_assoc, append-nil}
use qc_database.Prelude.{
  Bool, if◌then◌else◌, ℕ, ◌+◌, ◌%◌, ◌^◌, ◌<◌, ◌≡◌, refl, ap, sym, ◌∙◌, true, false, List, [], ◌∷◌,
  ◌++◌, arith, length,
}
use qc_database.Std.Bytes.{Str, le_bytes}
use qc_database.Std.Fstream.{Fstream, contents, good, write}
use qc_database.Std.Fstream.Laws.{write-failed, write-at_end}
use qc_database.Std.Method.{undefined, returns, at_rest, Method, ◌>>=◌, pure, >>=-returns}
use qc_database.Types.{error, storage_error, ok}
use qc_database.Crc32c.{crc32c}
use qc_database.Wal.Entry.{WalEntry, serialize}
use qc_database.Wal.Log.{truncate, Wal, append, replay_from, write_frame}
use qc_database.Wal.Log.Frames.{frame}
use qc_database.Wal.Log.Replay.{frames, kept, AllLoggable}
use qc_database.Wal.Log.Recovery.{Holds, replay_from-frames}

pub write_frame-failed :
    (e : WalEntry) (f : Fstream)
    → f.failbit ≡ true
    → (contents (write_frame e f) ≡ contents f) × ((write_frame e f).failbit ≡ true)
unfolding write_frame
write_frame-failed e f h =
    let size = le_bytes 4 (length (serialize e)) in
    let crc = le_bytes 4 (crc32c (serialize e)) in
    let one = write-failed size f h in
    let two = write-failed crc (write size f) one.1 in
    let three = write-failed (serialize e) (write crc (write size f)) two.1 in
    (three.0 ∙ two.0 ∙ one.0, three.1)

pub write_frame-at_end :
    (e : WalEntry) (f : Fstream)
    → good f ≡ true
    → f.ahead ≡ []
    → write_frame e f ≡ record f { passed = f.passed ++ frame (serialize e); ahead = [] }
unfolding write_frame good
write_frame-at_end e f g h =
    let size = le_bytes 4 (length (serialize e)) in
    let crc = le_bytes 4 (crc32c (serialize e)) in
    let one : Fstream = record f { passed = f.passed ++ size; ahead = [] } in
    let two : Fstream = record one { passed = one.passed ++ crc; ahead = [] } in
    rw (write-at_end size f g h, write-at_end crc one g refl, write-at_end (serialize e) two g refl)
      (rw (append_assoc f.passed, append_assoc f.passed, append_assoc size) refl)

not_failed_of_good : (f : Fstream) → good f ≡ true → f.failbit ≡ false
unfolding good
not_failed_of_good f g = ground arith

-- The log after an append.
abbrev pub logged : WalEntry → Wal → Wal
logged e w = record w {
  file = write_frame e w.file;
  sequence_number = (w.sequence_number + 1) % 2 ^ 64;
}

pub append-open :
    (e : WalEntry) (w : Wal)
    → w.is_open ≡ true
    → append e (at_rest w) ≡ returns (ok tt, at_rest (logged e w))
unfolding append
append-open e w o = rw o

-- Recovery reads the log and then leaves it deaf: after a replay of a whole file on an open log
-- whose stream has not failed, an append reports OK and the file's contents are what they were.
pub append_after_replay_lost :
    (now from : ℕ) (w : Wal) (es : List WalEntry) (tail : Str) (e : WalEntry)
    → Holds w es tail
    → length tail < 8
    → (w' : Wal) × ((replay_from now from >>= λ _. append e) (at_rest w)
        ≡ returns (ok tt, at_rest w'))
      × (contents w'.file ≡ contents w.file)
append_after_replay_lost now from w es tail e h torn =
    let (f, replayed, same, deaf) = replay_from-frames now from w es tail h torn in
    let w' : Wal = record w { file = f } in
    (
      logged e w',
      >>=-returns (replay_from now from) (λ _. append e) (at_rest w) replayed
          ∙ append-open e w' h.is_open,
      (write_frame-failed e f deaf).0 ∙ same,
    )

-- Successive calls of append.
pub append_all : List WalEntry → Method Wal (Unit {0})
append_all [] = pure tt
append_all (e ∷ es) = append e >>= λ _. append_all es

append_all-frames :
    (es : List WalEntry) (w : Wal)
    → w.is_open ≡ true
    → good w.file ≡ true
    → w.file.ahead ≡ []
    → (w' : Wal) × (append_all es (at_rest w) ≡ returns (tt, at_rest w'))
      × (w'.is_open ≡ true)
      × (good w'.file ≡ true)
      × (contents w'.file ≡ contents w.file ++ frames es)
unfolding append_all good
append_all-frames [] w o g a = (w, refl, o, g, sym (append-nil (contents w.file)))
append_all-frames (e ∷ es) w o g a =
    let file : Fstream = record w.file {
      passed = w.file.passed ++ frame (serialize e);
      ahead = [];
    } in
    let written : write_frame e w.file ≡ file = write_frame-at_end e w.file g a in
    let (w', rest, open', good', grown) =
      append_all-frames es (record (logged e w) { file = file }) o g refl in
    (
      w',
      >>=-returns (append e) (λ _. append_all es) (at_rest w) (append-open e w o)
          ∙ ap (λ f. append_all es (at_rest (record (logged e w) { file = f }))) written
          ∙ rest,
      open',
      good',
      grown ∙ rw (a, append-nil, append-nil, append_assoc w.file.passed) refl,
    )

frames-append : (es ds : List WalEntry) → frames (es ++ ds) ≡ frames es ++ frames ds
frames-append [] ds = refl
frames-append (e ∷ es) ds =
    rw (frames-append es ds, append_assoc (frame (serialize e)) (frames es) (frames ds))

AllLoggable-append :
    (es ds : List WalEntry) → AllLoggable es → AllLoggable ds → AllLoggable (es ++ ds)
AllLoggable-append [] ds h k = k
AllLoggable-append (e ∷ es) ds h k = (h.0, h.1, AllLoggable-append es ds h.2 k)

-- What is logged is recovered. On an open log whose good stream stands at the end of a file of whole
-- frames, appending any entries and then replaying returns OK with the old entries and the new ones,
-- in order, from the given sequence number on. Each entry can be logged: no NUL in its keys, a
-- 64-bit sequence number, and at most a megabyte.
pub replay_after_appends :
    (now from : ℕ) (w : Wal) (old new : List WalEntry)
    → Holds w old []
    → good w.file ≡ true
    → w.file.ahead ≡ []
    → AllLoggable new
    → (w' : Wal) × ((append_all new >>= λ _. replay_from now from) (at_rest w)
        ≡ returns (ok (kept now from (old ++ new)), at_rest w'))
replay_after_appends now from w old new h g a l =
    let (w', appended, open', good', grown) = append_all-frames new w h.is_open g a in
    let whole : contents w'.file ≡ frames (old ++ new) ++ [] =
      grown
      ∙ ap (λ t. t ++ frames new) (h.bytes ∙ append-nil (frames old))
      ∙ sym (append-nil (frames (old ++ new)) ∙ frames-append old new) in
    let holds : Holds w' (old ++ new) [] = record {
      is_open = open';
      not_failed = not_failed_of_good w'.file good';
      loggable = AllLoggable-append old new h.loggable l;
      bytes = whole;
    } in
    let (f, replayed, same, deaf) =
      replay_from-frames now from w' (old ++ new) [] holds (omega arith) in
    (
      record w' { file = f },
      >>=-returns (append_all new) (λ _. replay_from now from) (at_rest w) appended ∙ replayed,
    )

-- On an open log truncate locks its own mutex again through replay_from, which is undefined; on a
-- closed one it fails with STORAGE_ERROR and changes nothing.
pub truncate_lem :
    (rewritable reopens : Bool) (now from : ℕ) (w : Wal)
    → truncate rewritable reopens now from (at_rest w)
      ≡ (if w.is_open then undefined else returns (error storage_error, at_rest w))
unfolding truncate replay_from
truncate_lem rewritable reopens now from w = ground arith
