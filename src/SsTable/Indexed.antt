-- ===== src/SsTable/Indexed.antt =====
-- src/storage/sstable.cpp: an index that stands for the entries of a memtable.
use mathlib.Core.Path.{subst}
use mathlib.Core.List.{append_assoc}
use qc_database.Prelude.{
  suc, ◌+◌, ◌≡◌, refl, ap, sym, ◌∙◌, true, false, not, Bool, inl, inr, Bool-cases, [], ◌∷◌, ◌++◌,
  arith, length, ◌&&◌, length-append,
}
use qc_database.Std.Bytes.{Str}
use qc_database.Std.OrderedMap.{lower_bound, upper_bound, IsSorted, Above}
use qc_database.Types.{MultiLevelKey, key_order, key_lt, key_beq, key_lt_trans}
use qc_database.MemTable.{Entries, step_over}
use qc_database.SsTable.{Index, record_bytes, data_bytes, index_from, is_partitioned, none_of}
use qc_database.SsTable.Records.{Storable, Within}

-- Every entry fits into a record.
abbrev pub AllStorable : Entries → Type 0
AllStorable [] = Unit
AllStorable ((key, entry) ∷ m) = Storable key entry × AllStorable m

-- Entry by entry, the index names the key and the place of its record in the file.
abbrev pub Indexes : Str → Index → Entries → Type 0
Indexes bytes [] [] = Unit
Indexes bytes [] (x ∷ m) = ⊥
Indexes bytes (i ∷ index) [] = ⊥
Indexes bytes ((k, place) ∷ index) ((key, entry) ∷ m) =
    (k ≡ key) × Within bytes (key, place) entry × Indexes bytes index m

pub index_from-Indexes :
    (pre post : Str) (m : Entries)
    → Indexes (pre ++ (data_bytes m ++ post)) (index_from (length pre) m) m
unfolding data_bytes index_from
index_from-Indexes pre post [] = tt
index_from-Indexes pre post ((key, entry) ∷ m) =
    let r = record_bytes key entry in
    let e : pre ++ ((r ++ data_bytes m) ++ post) ≡ pre ++ (r ++ (data_bytes m ++ post)) =
      ap (λ t. pre ++ t) (append_assoc r (data_bytes m) post) in
    (
      refl,
      (pre, data_bytes m ++ post, refl, e),
      subst (λ b. Indexes b (index_from (length pre + length r) m) m)
          (append_assoc pre r (data_bytes m ++ post) ∙ sym e)
          (subst (λ n. Indexes ((pre ++ r) ++ (data_bytes m ++ post)) (index_from n m) m)
            (length-append pre r) (index_from-Indexes (pre ++ r) post m)),
    )

pub length-Indexes :
    (bytes : Str) (index : Index) (m : Entries) → Indexes bytes index m → length index ≡ length m
length-Indexes bytes [] [] h = refl
length-Indexes bytes [] (x ∷ m) h = absurd h
length-Indexes bytes (i ∷ index) [] h = absurd h
length-Indexes bytes (i ∷ index) (x ∷ m) h = ap suc (length-Indexes bytes index m h.2)

pub lower_bound-Indexes :
    (bytes : Str) (key : MultiLevelKey) (index : Index) (m : Entries)
    → Indexes bytes index m
    → Indexes bytes (lower_bound key index) (lower_bound key m)
unfolding lower_bound
lower_bound-Indexes bytes key [] [] h = tt
lower_bound-Indexes bytes key [] (x ∷ m) h = absurd h
lower_bound-Indexes bytes key (i ∷ index) [] h = absurd h
lower_bound-Indexes bytes key ((k, place) ∷ index) ((j, entry) ∷ m) h =
    elim (Bool-cases (key_lt j key)) [
      | inl below ↦ rw (h.0, below) (lower_bound-Indexes bytes key index m h.2)
      | inr above ↦ rw (h.0, above) (refl, h.1, h.2)
    ]

pub upper_bound-Indexes :
    (bytes : Str) (key : MultiLevelKey) (index : Index) (m : Entries)
    → Indexes bytes index m
    → Indexes bytes (upper_bound key index) (upper_bound key m)
unfolding upper_bound
upper_bound-Indexes bytes key [] [] h = tt
upper_bound-Indexes bytes key [] (x ∷ m) h = absurd h
upper_bound-Indexes bytes key (i ∷ index) [] h = absurd h
upper_bound-Indexes bytes key ((k, place) ∷ index) ((j, entry) ∷ m) h =
    elim (Bool-cases (key_lt key j)) [
      | inl above ↦ rw (h.0, above) (refl, h.1, h.2)
      | inr below ↦ rw (h.0, below) (upper_bound-Indexes bytes key index m h.2)
    ]

pub step_over-Indexes :
    (bytes : Str) (flag : Bool) (key : MultiLevelKey) (index : Index) (m : Entries)
    → Indexes bytes index m
    → Indexes bytes (step_over flag key index) (step_over flag key m)
unfolding step_over
step_over-Indexes bytes flag key [] [] h = tt
step_over-Indexes bytes flag key [] (x ∷ m) h = absurd h
step_over-Indexes bytes flag key (i ∷ index) [] h = absurd h
step_over-Indexes bytes flag key ((k, place) ∷ index) ((j, entry) ∷ m) h =
    elim (Bool-cases (flag && key_beq j key)) [
      | inl here ↦ rw (h.0, here) h.2
      | inr other ↦ rw (h.0, other) (refl, h.1, h.2)
    ]

pub lower_bound-AllStorable :
    (key : MultiLevelKey) (m : Entries) → AllStorable m → AllStorable (lower_bound key m)
unfolding lower_bound
lower_bound-AllStorable key [] s = tt
lower_bound-AllStorable key ((j, entry) ∷ m) s = ground (arith, lower_bound-AllStorable key m s.1)

pub step_over-AllStorable :
    (flag : Bool) (key : MultiLevelKey) (m : Entries)
    → AllStorable m
    → AllStorable (step_over flag key m)
unfolding step_over
step_over-AllStorable flag key [] s = tt
step_over-AllStorable flag key ((j, entry) ∷ m) s = ground arith

-- The keys of an index that stands for sorted entries rise, so that a test which smaller keys pass
-- with a key splits it in two.
abbrev IsDownward : (MultiLevelKey → Bool) → Type 0
IsDownward p = (i j : MultiLevelKey) → key_lt i j ≡ true → p j ≡ true → p i ≡ true

none_of-Indexes :
    (bytes : Str) (p : MultiLevelKey → Bool) (i : MultiLevelKey) (index : Index) (m : Entries)
    → IsDownward p
    → p i ≡ false
    → Above i m
    → Indexes bytes index m
    → none_of p index ≡ true
none_of-Indexes bytes p i [] [] down f a h = refl
none_of-Indexes bytes p i [] (x ∷ m) down f a h = absurd h
none_of-Indexes bytes p i (j ∷ index) [] down f a h = absurd h
none_of-Indexes bytes p i ((k, place) ∷ index) ((j, entry) ∷ m) down f a h =
    rw h.0 (ground (arith, down i j a.0, none_of-Indexes bytes p i index m down f a.1 h.2))

pub is_partitioned-Indexes :
    (bytes : Str) (p : MultiLevelKey → Bool) (index : Index) (m : Entries)
    → IsDownward p
    → IsSorted m
    → Indexes bytes index m
    → is_partitioned p index ≡ true
is_partitioned-Indexes bytes p [] [] down s h = refl
is_partitioned-Indexes bytes p [] (x ∷ m) down s h = absurd h
is_partitioned-Indexes bytes p (j ∷ index) [] down s h = absurd h
is_partitioned-Indexes bytes p ((k, place) ∷ index) ((j, entry) ∷ m) down s h =
    elim (Bool-cases (p j)) [
      | inl passes ↦ rw (h.0, passes) (is_partitioned-Indexes bytes p index m down s.1 h.2)
      | inr fails ↦ rw (h.0, fails) (none_of-Indexes bytes p j index m down fails s.0 h.2)
    ]

pub below-IsDownward : (key : MultiLevelKey) → IsDownward (λ k. key_lt k key)
below-IsDownward key i j h g = key_lt_trans i j key h g

pub not_above-IsDownward : (key : MultiLevelKey) → IsDownward (λ k. not (key_lt key k))
not_above-IsDownward key i j h g = ground (arith, key_lt_trans key i j)
