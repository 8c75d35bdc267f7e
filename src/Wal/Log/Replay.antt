-- ===== src/Wal/Log/Replay.antt =====
-- src/storage/wal.cpp, WAL::replay_from: what a replay returns, and the stream that it leaves.
use native.Mathlib.Nat.{zero-add, suc-add}
use mathlib.Core.List.{append_assoc, append-nil}
use qc_database.Prelude.{
  ℕ, suc, ◌+◌, ◌≤◌, ◌≡◌, refl, ap, ◌∙◌, inl, inr, true, List, [], ◌∷◌, ◌++◌, leb, length,
  if◌then◌else◌, Bool-cases, some,
}
use qc_database.Std.Bytes.{Str}
use qc_database.Std.Fstream.{Fstream, good}
use qc_database.Std.Fstream.Laws.{past}
use qc_database.Types.{ok, error, storage_error}
use qc_database.Wal.Entry.{WalEntry, serialize}
use qc_database.Wal.Entry.RoundTrip.{IsLoggable, stripped, deserialize-serialize}
use qc_database.Wal.Log.{
  decoded, Round, finished, failed, entry, read_frame, max_record, keep_from, replay_loop,
}
use qc_database.Wal.Log.Frames.{frame, read_frame-frame}

-- The file that appends of these entries make.
abbrev pub frames : List WalEntry → Str
frames [] = []
frames (e ∷ es) = frame (serialize e) ++ frames es

-- The entries from a sequence number on, as they are read back.
abbrev pub kept : ℕ → ℕ → List WalEntry → List WalEntry
kept now from [] = []
kept now from (e ∷ es) =
    if leb from e.sequence_number then stripped now e ∷ kept now from es else kept now from es

abbrev pub AllLoggable : List WalEntry → Type 0
AllLoggable [] = Unit {0}
AllLoggable (e ∷ es) = IsLoggable e × (length (serialize e) ≤ max_record) × AllLoggable es

keep_from-append :
    (now from : ℕ) (entries es : List WalEntry) (e : WalEntry)
    → keep_from from (stripped now e) entries ++ kept now from es
      ≡ entries ++ kept now from (e ∷ es)
keep_from-append now from entries es e = elim (Bool-cases (leb from e.sequence_number)) [
  | inl keep ↦ rw keep (append_assoc entries (stripped now e ∷ []) (kept now from es))
  | inr drop ↦ rw drop
]

-- One round of the loop, by what its reads found.
pub replay_loop-entry :
    (fuel now from : ℕ) (entries : List WalEntry) (f f' : Fstream) (e : WalEntry)
    → good f ≡ true
    → read_frame now f ≡ (entry e, f')
    → replay_loop (suc fuel) now from entries f
      ≡ replay_loop fuel now from (keep_from from e entries) f'
unfolding replay_loop
replay_loop-entry fuel now from entries f f' e g r =
    rw (g, replay_loop, r)
      (ap (λ (p : Round × Fstream). replay_loop fuel now from (keep_from from e entries) p.1) r)

pub replay_loop-finished :
    (fuel now from : ℕ) (entries : List WalEntry) (f f' : Fstream)
    → good f ≡ true
    → read_frame now f ≡ (finished, f')
    → replay_loop (suc fuel) now from entries f ≡ some (ok entries, f')
unfolding replay_loop
replay_loop-finished fuel now from entries f f' g r =
    rw (g, replay_loop, r) (ap (λ (p : Round × Fstream). some (ok entries, p.1)) r)

pub replay_loop-failed :
    (fuel now from : ℕ) (entries : List WalEntry) (f f' : Fstream)
    → good f ≡ true
    → read_frame now f ≡ (failed, f')
    → replay_loop (suc fuel) now from entries f ≡ some (error storage_error, f')
unfolding replay_loop
replay_loop-failed fuel now from entries f f' g r =
    rw (g, replay_loop, r) (ap (λ (p : Round × Fstream). some (error storage_error, p.1)) r)

past-nil : (f : Fstream) (tail : Str) → f.ahead ≡ tail → past f [] tail ≡ f
past-nil f tail a = rw (← a, append-nil)

-- The loop goes through whole frames one by one.
pub replay_loop-frames :
    (fuel now from : ℕ) (es entries : List WalEntry) (f : Fstream) (tail : Str)
    → good f ≡ true
    → f.ahead ≡ frames es ++ tail
    → AllLoggable es
    → replay_loop (length es + fuel) now from entries f
      ≡ replay_loop fuel now from (entries ++ kept now from es) (past f (frames es) tail)
unfolding decoded
replay_loop-frames fuel now from [] entries f tail g a l =
    rw (past-nil f tail a, append-nil, zero-add)
replay_loop-frames fuel now from (e ∷ es) entries f tail g a l =
    let step : Fstream = past f (frame (serialize e)) (frames es ++ tail) in
    let next : good step ≡ true = unfold good in g in
    let whole = a ∙ append_assoc (frame (serialize e)) (frames es) tail in
    let r : read_frame now f ≡ (entry (stripped now e), step) =
      rw
        (
          read_frame-frame now f (serialize e) (frames es ++ tail) g whole l.1,
          deserialize-serialize now e l.0,
        )
        refl in
    rw (suc-add, replay_loop-entry (length es + fuel) now from entries f step _ g r)
      (rw (replay_loop-frames fuel now from es _ step tail next refl l.2)
        (rw (keep_from-append now from entries es e, append_assoc f.passed)))
