-- ===== src/Std/OrderedMap.antt =====
-- std::map as the list of its entries in the order of iteration. The key type gives operator<.
pub mod Ranges
use qc_database.Prelude.{
  ◌≡◌, Bool, true, false, Option, none, some, List, [], ◌∷◌, arith, if◌then◌else◌, Bool-cases, inl,
  inr,
}

-- What std::map requires of operator<, and that equivalent keys are equal.
pub record StrictOrder {ℓ} (K : Type ℓ) : Type ℓ where
  pub lt : K → K → Bool
  pub lt_irrefl : (a : K) → lt a a ≡ false
  pub lt_trans : (a b c : K) → lt a b ≡ true → lt b c ≡ true → lt a c ≡ true
  pub lt_connex : (a b : K) → lt a b ≡ false → lt b a ≡ false → a ≡ b

abbrev pub OrderedMap {ℓ} : Type ℓ → Type ℓ → Type ℓ
OrderedMap K V = List (K × V)

module _ {ℓ} {K V : Type ℓ} ⦃o : StrictOrder K⦄ where
  -- find(k), as the value it points at: the first key that is not below k, if k is not below it
  unfoldable pub find : K → OrderedMap K V → Option V
  find k [] = none
  find k ((j, v) ∷ m) = if o.lt j k then find k m else if o.lt k j then none else some v

  -- m[k] = v
  unfoldable pub insert : K → V → OrderedMap K V → OrderedMap K V
  insert k v [] = (k, v) ∷ []
  insert k v ((j, w) ∷ m) =
      if o.lt j k
      then (j, w) ∷ insert k v m
      else if o.lt k j
      then (k, v) ∷ (j, w) ∷ m
      else (j, v) ∷ m

  -- erase(k)
  unfoldable pub erase : K → OrderedMap K V → OrderedMap K V
  erase k [] = []
  erase k ((j, v) ∷ m) = if o.lt j k then (j, v) ∷ erase k m else if o.lt k j then (j, v) ∷ m else m

  -- An iterator is the rest of the entries from where it points; end() is the empty list.
  unfoldable pub lower_bound : K → OrderedMap K V → OrderedMap K V
  lower_bound k [] = []
  lower_bound k ((j, v) ∷ m) = if o.lt j k then lower_bound k m else (j, v) ∷ m

  unfoldable pub upper_bound : K → OrderedMap K V → OrderedMap K V
  upper_bound k [] = []
  upper_bound k ((j, v) ∷ m) = if o.lt k j then (j, v) ∷ m else upper_bound k m

  -- Keys rise along the list.
  abbrev pub Above : K → OrderedMap K V → Type ℓ
  Above k [] = Unit
  Above k ((j, v) ∷ m) = (o.lt k j ≡ true) × Above k m

  abbrev pub IsSorted : OrderedMap K V → Type ℓ
  IsSorted [] = Unit
  IsSorted ((j, v) ∷ m) = Above j m × IsSorted m

  pub find-insert :
      (j k : K) (v : V) (m : OrderedMap K V)
      → find j (insert k v m)
        ≡ (if o.lt k j then find j m else if o.lt j k then find j m else some v)
  unfolding find insert
  find-insert j k v [] = ground arith
  find-insert j k v ((i, w) ∷ m) = ground (
    arith,
    find-insert j k v m,
    o.lt_connex i k,
    o.lt_connex k j,
    o.lt_connex i j,
    o.lt_trans i k j,
    o.lt_trans j k i,
    o.lt_trans k j i,
    o.lt_trans i j k,
    o.lt_irrefl k,
    o.lt_irrefl i,
    o.lt_irrefl j,
  )

  pub find-insert_self : (k : K) (v : V) (m : OrderedMap K V) → find k (insert k v m) ≡ some v
  find-insert_self k v m = rw (find-insert k k v m, o.lt_irrefl k)

  Above-insert :
      (i k : K) (v : V) (m : OrderedMap K V) → o.lt i k ≡ true → Above i m → Above i (insert k v m)
  unfolding insert
  Above-insert i k v [] h a = (h, tt)
  Above-insert i k v ((j, w) ∷ m) h a = elim (Bool-cases (o.lt j k)) [
    | inl below ↦ rw below (a.0, Above-insert i k v m h a.1)
    | inr above ↦ elim (Bool-cases (o.lt k j)) [
      | inl here ↦ rw (above, here) (h, a)
      | inr same ↦ rw (above, same) (a.0, a.1)
    ]
  ]

  Above-mono : (i k : K) (m : OrderedMap K V) → o.lt i k ≡ true → Above k m → Above i m
  Above-mono i k [] h a = tt
  Above-mono i k ((j, w) ∷ m) h a = (o.lt_trans i k j h a.0, Above-mono i k m h a.1)

  pub insert-IsSorted : (k : K) (v : V) (m : OrderedMap K V) → IsSorted m → IsSorted (insert k v m)
  unfolding insert
  insert-IsSorted k v [] s = (tt, tt)
  insert-IsSorted k v ((j, w) ∷ m) s = elim (Bool-cases (o.lt j k)) [
    | inl below ↦ rw below (Above-insert j k v m below s.0, insert-IsSorted k v m s.1)
    | inr above ↦ elim (Bool-cases (o.lt k j)) [
      | inl here ↦ rw (above, here) ((here, Above-mono k j m here s.0), s)
      | inr same ↦ rw (above, same) s
    ]
  ]
