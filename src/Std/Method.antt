-- ===== src/Std/Method.antt =====
-- Methods of an object that a non-recursive mutex guards, as one thread runs them. A std::mutex or
-- std::shared_mutex that its owner locks again is undefined behaviour (in practice the thread
-- waits for itself for ever), and so is an iterator that is moved past the end. Either outcome is
-- `undefined`.
use qc_database.Prelude.{◌≡◌}

pub data Outcome {ℓ} (A : Type ℓ) : Type ℓ where
  returns : A → Outcome A
  undefined : Outcome A

-- Who holds the mutex, as far as this thread can tell between two of its own steps.
pub data Hold : Type 0 where
  free shared unique : Hold

pub record Guarded (S : Type 0) : Type 0 where
  pub mutex : Hold
  pub value : S

abbrev pub Method : Type 0 → Type 0 → Type 0
Method S A = Guarded S → Outcome (A × Guarded S)

module _ {S A B : Type 0} where
  infixl 5 ◌>>=◌
  abbrev pub ◌>>=◌ : Method S A → (A → Method S B) → Method S B
  ◌>>=◌ m f g = elim (m g) [ returns (a, g') ↦ f a g' | undefined ↦ undefined ]

module _ {S A : Type 0} where
  infixl 5 ◌>>◌
  abbrev pub ◌>>◌ : Method S (Unit {0}) → Method S A → Method S A
  m >> n = m >>= λ _. n

  abbrev pub pure : A → Method S A
  pure a g = returns (a, g)

  abbrev pub gets : (S → A) → Method S A
  gets f g = returns (f g.value, g)

  -- A body that calls no method.
  abbrev pub body : (S → A × S) → Method S A
  body f g = let (a, s) = f g.value in returns (a, record g { value = s })

  abbrev pub unlocked : Outcome (A × Guarded S) → Outcome (A × Guarded S)
  unlocked (returns (a, g)) = returns (a, record g { mutex = free })
  unlocked undefined = undefined

  abbrev acquire : Hold → Hold → S → Method S A → Outcome (A × Guarded S)
  acquire free mode s body = unlocked (body (record { mutex = mode; value = s }))
  acquire shared mode s body = undefined
  acquire unique mode s body = undefined

  -- std::unique_lock or std::lock_guard over the body: released on every way out
  abbrev pub with_unique : Method S A → Method S A
  with_unique body g = acquire g.mutex unique g.value body

  -- std::shared_lock over the body
  abbrev pub with_shared : Method S A → Method S A
  with_shared body g = acquire g.mutex shared g.value body

module _ {S : Type 0} where
  abbrev pub modify : (S → S) → Method S (Unit {0})
  modify f g = returns (tt, record g { value = f g.value })

  -- An object that nobody has locked.
  abbrev pub at_rest : S → Guarded S
  at_rest s = record { mutex = free; value = s }

module _ {S A B : Type 0} where
  -- A step that returns goes on with what follows it.
  pub >>=-returns :
      (m : Method S A) (f : A → Method S B) (g : Guarded S) {a : A} {g' : Guarded S}
      → m g ≡ returns (a, g')
      → (m >>= f) g ≡ f a g'
  >>=-returns m f g e = rw (e, ◌>>=◌)

  pub >>=-undefined :
      (m : Method S A) (f : A → Method S B) (g : Guarded S)
      → m g ≡ undefined
      → (m >>= f) g ≡ undefined
  >>=-undefined m f g e = rw (e, ◌>>=◌)
