-- ===== src/Std/HashSet.antt =====
-- std::unordered_set as a list with no element twice, in an order that the standard leaves open.
use qc_database.Prelude.{
  ◌++◌, ◌≡◌, refl, inl, inr, Bool, false, ◌||◌, List, [], ◌∷◌, arith, if◌then◌else◌, Eq, Bool-cases,
}

abbrev pub HashSet {ℓ} : Type ℓ → Type ℓ
HashSet A = List A

module _ {ℓ} {A : Type ℓ} ⦃e : Eq A⦄ where
  -- find(a) != end()
  unfoldable pub contains : A → HashSet A → Bool
  contains a [] = false
  contains a (x ∷ s) = e.beq x a || contains a s

  -- insert(a)
  unfoldable pub insert : A → HashSet A → HashSet A
  insert a s = if contains a s then s else a ∷ s

  -- erase(a), and std::remove of every element equal to a
  unfoldable pub erase : A → HashSet A → HashSet A
  erase a [] = []
  erase a (x ∷ s) = let rest = erase a s in if e.beq x a then rest else x ∷ rest

  pub contains-insert :
      (b a : A) (s : HashSet A) → contains b (insert a s) ≡ (e.beq a b || contains b s)
  unfolding contains insert
  contains-insert b a s = elim (Bool-cases (contains a s)) [
    | inl old ↦ rw old (ground (arith, e.beq_iff a b))
    | inr new ↦ rw new
  ]

  pub contains-erase :
      (b a : A) (s : HashSet A)
      → contains b (erase a s) ≡ (if e.beq a b then false else contains b s)
  unfolding contains erase
  contains-erase b a [] = ground arith
  contains-erase b a (x ∷ s) =
      ground (arith, e.beq_iff x a, e.beq_iff x b, e.beq_iff a b, contains-erase b a s)

  pub contains-append :
      (a : A) (s t : HashSet A) → contains a (s ++ t) ≡ (contains a s || contains a t)
  unfolding contains
  contains-append a [] t = refl
  contains-append a (x ∷ s) t = ground (arith, contains-append a s t)
