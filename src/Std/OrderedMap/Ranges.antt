-- ===== src/Std/OrderedMap/Ranges.antt =====
-- The entries between two iterators of a std::map, as a filter by the keys.
use qc_database.Prelude.{◌≡◌, refl, Bool, true, not, ◌&&◌, [], ◌∷◌, ◌++◌, arith, if◌then◌else◌}
use qc_database.Std.OrderedMap.{StrictOrder, OrderedMap, Above, IsSorted, lower_bound, upper_bound}

module _ {ℓ} {K V : Type ℓ} where
  -- The entries whose key passes a test.
  abbrev pub where_key : (K → Bool) → OrderedMap K V → OrderedMap K V
  where_key p [] = []
  where_key p ((k, v) ∷ m) = if p k then (k, v) ∷ where_key p m else where_key p m

  -- The first entry whose key passes a test, and all that follow.
  abbrev pub skip_to : (K → Bool) → OrderedMap K V → OrderedMap K V
  skip_to p [] = []
  skip_to p ((k, v) ∷ m) = if p k then (k, v) ∷ m else skip_to p m

module _ {ℓ} {K : Type ℓ} ⦃o : StrictOrder K⦄ where
  -- A test that all larger keys pass with a key.
  abbrev pub IsUpward : (K → Bool) → Type ℓ
  IsUpward p = (i j : K) → o.lt i j ≡ true → p i ≡ true → p j ≡ true

  pub lt-IsUpward : (k : K) → IsUpward (o.lt k)
  lt-IsUpward k i j h g = o.lt_trans k i j g h

  pub not_below-IsUpward : (k : K) → IsUpward (λ j. not (o.lt j k))
  not_below-IsUpward k i j h g = ground (arith, o.lt_trans i j k)

module _ {ℓ} {K V : Type ℓ} ⦃o : StrictOrder K⦄ where
  pub lower_bound-eq :
      (k : K) (m : OrderedMap K V) → lower_bound k m ≡ skip_to (λ j. not (o.lt j k)) m
  unfolding lower_bound
  lower_bound-eq k [] = refl
  lower_bound-eq k ((j, v) ∷ m) = ground (arith, lower_bound-eq k m)

  pub upper_bound-eq : (k : K) (m : OrderedMap K V) → upper_bound k m ≡ skip_to (o.lt k) m
  unfolding upper_bound
  upper_bound-eq k [] = refl
  upper_bound-eq k ((j, v) ∷ m) = ground (arith, upper_bound-eq k m)

  skip_to-Above :
      (p : K → Bool) (i : K) (m : OrderedMap K V)
      → IsUpward p
      → p i ≡ true
      → Above i m
      → skip_to p m ≡ m
  skip_to-Above p i [] up h a = refl
  skip_to-Above p i ((j, v) ∷ m) up h a = rw (up i j a.0 h)

  where_key-none :
      (p q : K → Bool) (i : K) (m : OrderedMap K V)
      → IsUpward q
      → q i ≡ true
      → Above i m
      → where_key (λ k. p k && not (q k)) m ≡ []
  where_key-none p q i [] up h a = refl
  where_key-none p q i ((j, v) ∷ m) up h a =
      ground (arith, up i j a.0 h, where_key-none p q i m up h a.1)

  -- From the first key that passes `p` on stand those that pass `p` and not `q`, then those that
  -- pass `q`.
  pub skip_to-split :
      (p q : K → Bool) (m : OrderedMap K V)
      → IsUpward p
      → IsUpward q
      → ((k : K) → q k ≡ true → p k ≡ true)
      → IsSorted m
      → skip_to p m ≡ where_key (λ k. p k && not (q k)) m ++ skip_to q m
  skip_to-split p q [] up uq sub s = refl
  skip_to-split p q ((j, v) ∷ m) up uq sub s = ground (
    arith,
    sub j,
    skip_to-split p q m up uq sub s.1,
    skip_to-Above p j m up,
    where_key-none p q j m uq,
  )
