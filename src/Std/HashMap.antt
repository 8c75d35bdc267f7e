-- ===== src/Std/HashMap.antt =====
-- std::unordered_map as an association list. The order of the entries stands for the order of
-- iteration, which the standard leaves open; a new key is appended.
use qc_database.Prelude.{
  ◌≡◌, refl, true, length, ◌+◌, inl, inr, Bool-cases, Option, none, some, List, [], ◌∷◌, arith,
  if◌then◌else◌, Eq, beq_refl,
}

abbrev pub HashMap {ℓ} : Type ℓ → Type ℓ → Type ℓ
HashMap K V = List (K × V)

module _ {ℓ} {K V : Type ℓ} ⦃e : Eq K⦄ where
  -- find(k), as the value it points at
  unfoldable pub find : K → HashMap K V → Option V
  find k [] = none
  find k ((j, v) ∷ m) = if e.beq j k then some v else find k m

  -- m[k] = v
  unfoldable pub insert : K → V → HashMap K V → HashMap K V
  insert k v [] = (k, v) ∷ []
  insert k v ((j, w) ∷ m) = if e.beq j k then (j, v) ∷ m else (j, w) ∷ insert k v m

  -- erase(k)
  unfoldable pub erase : K → HashMap K V → HashMap K V
  erase k [] = []
  erase k ((j, w) ∷ m) = let rest = erase k m in if e.beq j k then rest else (j, w) ∷ rest

  pub find-insert :
      (j k : K) (v : V) (m : HashMap K V)
      → find j (insert k v m) ≡ (if e.beq k j then some v else find j m)
  unfolding find insert
  find-insert j k v [] = refl
  find-insert j k v ((i, w) ∷ m) =
      ground (arith, e.beq_iff i k, e.beq_iff i j, e.beq_iff k j, find-insert j k v m)

  pub find-erase :
      (j k : K) (m : HashMap K V) → find j (erase k m) ≡ (if e.beq k j then none else find j m)
  unfolding find erase
  find-erase j k [] = ground arith
  find-erase j k ((i, w) ∷ m) =
      ground (arith, e.beq_iff i k, e.beq_iff i j, e.beq_iff k j, find-erase j k m)

  -- A map has no key twice.
  abbrev pub Distinct : HashMap K V → Type ℓ
  Distinct [] = Unit
  Distinct ((k, v) ∷ m) = (find k m ≡ none) × Distinct m

  pub insert-Distinct : (k : K) (v : V) (m : HashMap K V) → Distinct m → Distinct (insert k v m)
  unfolding find insert
  insert-Distinct k v [] d = (refl, tt)
  insert-Distinct k v ((j, w) ∷ m) d = elim (Bool-cases (e.beq j k)) [
    | inl here ↦ rw here d
    | inr other ↦ rw other (
      ground (arith, find-insert j k v m, e.beq_iff k j, e.beq_iff j k, d.0),
      insert-Distinct k v m d.1,
    )
  ]

  pub erase-Distinct : (k : K) (m : HashMap K V) → Distinct m → Distinct (erase k m)
  unfolding find erase
  erase-Distinct k [] d = tt
  erase-Distinct k ((j, w) ∷ m) d = elim (Bool-cases (e.beq j k)) [
    | inl here ↦ rw here (erase-Distinct k m d.1)
    | inr other ↦ rw other (ground (arith, find-erase j k m, d.0), erase-Distinct k m d.1)
  ]

  pub erase-missing : (k : K) (m : HashMap K V) → find k m ≡ none → erase k m ≡ m
  unfolding find erase
  erase-missing k [] missing = refl
  erase-missing k ((j, w) ∷ m) missing = ground (arith, erase-missing k m)

  -- size() after an erase
  pub length-erase :
      (k : K) (v : V) (m : HashMap K V)
      → Distinct m
      → find k m ≡ some v
      → length m ≡ length (erase k m) + 1
  unfolding find erase
  length-erase k v [] d found = cc
  length-erase k v ((j, w) ∷ m) d found =
      ground (arith, e.beq_iff j k, erase-missing k m, length-erase k v m d.1, d.0)

pub ruleset hash_map_laws = (find-insert, find-erase, beq_refl)
