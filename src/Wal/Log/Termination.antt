-- ===== src/Wal/Log/Termination.antt =====
-- src/storage/wal.cpp, WAL::replay_from: each round takes bytes off the file, so the loop ends.
use qc_database.Prelude.{
  ℕ, zero, suc, ◌+◌, ◌≤◌, ◌<◌, ◌≡◌, refl, ◌∙◌, inl, inr, true, List, [], arith, length,
  length-append, length-take, length-drop, Bool-cases, some,
}
use qc_database.Std.Bytes.{Str, of_le_bytes}
use qc_database.Std.Fstream.{Fstream, contents, good, read, rewind}
use qc_database.Std.Method.{returns, at_rest}
use qc_database.Types.{Result, ok, error, storage_error}
use qc_database.Wal.Entry.{WalEntry}
use qc_database.Wal.Log.Replay.{replay_loop-entry, replay_loop-finished, replay_loop-failed}
use qc_database.Wal.Log.{
  Wal, Round, finished, failed, entry, read_frame, read_header, read_body, check_record, keep_from,
  replay_loop, replay_from,
}

length-read :
    (n : ℕ) (f : Fstream) → length (read n f).0 + length (read n f).1.ahead ≤ length f.ahead
unfolding read
length-read n f = ground (arith, length-take n f.ahead, length-drop n f.ahead)

check_record-shorter :
    (now size crc : ℕ) (r : Str × Fstream) (e : WalEntry) (f' : Fstream)
    → check_record now size crc r ≡ (entry e, f')
    → f' ≡ r.1
unfolding check_record
check_record-shorter now size crc (bytes, f) e f' h = ground arith

read_body-shorter :
    (now size : ℕ) (r : Str × Fstream) (e : WalEntry) (f' : Fstream)
    → read_body now size r ≡ (entry e, f')
    → length f'.ahead ≤ length r.1.ahead
unfolding read_body
read_body-shorter now size (crc, f) e f' h =
    ground (
      arith,
      check_record-shorter now size (of_le_bytes crc) (read size f) e f',
      length-read size f,
    )

read_header-shorter :
    (now : ℕ) (r : Str × Fstream) (e : WalEntry) (f' : Fstream)
    → read_header now r ≡ (entry e, f')
    → length f'.ahead + 4 ≤ length r.0 + length r.1.ahead
unfolding read_header
read_header-shorter now (size, f) e f' h =
    ground (arith, read_body-shorter now (of_le_bytes size) (read 4 f) e f', length-read 4 f)

read_frame-shorter :
    (now : ℕ) (f : Fstream) (e : WalEntry) (f' : Fstream)
    → read_frame now f ≡ (entry e, f')
    → length f'.ahead < length f.ahead
unfolding read_frame
read_frame-shorter now f e f' h =
    omega (arith, read_header-shorter now (read 4 f) e f' h, length-read 4 f)

-- The loop has a result from these entries and this stream.
abbrev Ends : ℕ → ℕ → ℕ → List WalEntry → Fstream → Type 0
Ends fuel now from entries f =
    (r : Result (List WalEntry) × Fstream) × (replay_loop fuel now from entries f ≡ some r)

Ends-round :
    (fuel now from : ℕ) (entries : List WalEntry) (f : Fstream) (p : Round × Fstream)
    → good f ≡ true
    → read_frame now f ≡ p
    → ((e : WalEntry) → p.0 ≡ entry e → Ends fuel now from (keep_from from e entries) p.1)
    → Ends (suc fuel) now from entries f
Ends-round fuel now from entries f (finished, f') g r rest =
    (_, replay_loop-finished fuel now from entries f f' g r)
Ends-round fuel now from entries f (failed, f') g r rest =
    (_, replay_loop-failed fuel now from entries f f' g r)
Ends-round fuel now from entries f (entry e, f') g r rest =
    let (result, ends) = rest e refl in
    (result, replay_loop-entry fuel now from entries f f' e g r ∙ ends)

replay_loop-Ends :
    (fuel now from : ℕ) (entries : List WalEntry) (f : Fstream)
    → length f.ahead < fuel
    → Ends fuel now from entries f
unfolding replay_loop
replay_loop-Ends zero now from entries f h = absurd (omega arith)
replay_loop-Ends (suc fuel) now from entries f h = elim (Bool-cases (good f)) [
  | inl g ↦ Ends-round fuel now from entries f (read_frame now f) g refl (λ e r.
      replay_loop-Ends fuel now from (keep_from from e entries) (read_frame now f).1
        (omega (arith, read_frame-shorter now f e (read_frame now f).1 (ground (arith, r)))))
  | inr g ↦ rw (g, replay_loop) ((ok entries, f), refl)
]

rewind-ahead-le : (f : Fstream) → length (rewind f).ahead ≤ length (contents f)
unfolding rewind
rewind-ahead-le f = ground (arith, length-append f.passed f.ahead)

-- On a log whose mutex is free a replay always returns, whatever the file holds.
pub replay_from-returns :
    (now from : ℕ) (w : Wal)
    → (r : Result (List WalEntry)) × (w' : Wal) × (replay_from now from (at_rest w)
        ≡ returns (r, at_rest w'))
unfolding replay_from
replay_from-returns now from w = elim (Bool-cases w.is_open) [
  | inl o ↦
      let ((r, f'), ends) =
        replay_loop-Ends (suc (length (contents w.file))) now from [] (rewind w.file)
          (omega (arith, rewind-ahead-le w.file)) in
      (r, record w { file = f' }, rw (o, ends))
  | inr c ↦ (error storage_error, w, rw c)
]
