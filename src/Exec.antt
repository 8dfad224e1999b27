-- ===== src/Exec.antt =====
-- Methods that change an object and may fail: they take the object's state and return a result
-- with the state they leave. What was changed before a failure stays changed.
pub mod Post
use alog.Errors.{Err, wrap}

pub data Result {ℓ} (A : Type ℓ) : Type ℓ where
  ok : A → Result A
  err : Err → Result A

abbrev pub Exec {ℓ} : Type ℓ → Type ℓ → Type ℓ
Exec S A = S → Result A × S

abbrev pub Done : Type 0
Done = Unit {0}

module _ {ℓ} {S A : Type ℓ} where
  abbrev pub pure : A → Exec S A
  pure a s = (ok a, s)

  abbrev pub raise : Err → Exec S A
  raise e s = (err e, s)

  abbrev pub gets : (S → A) → Exec S A
  gets f s = (ok (f s), s)

  abbrev pub lift : Result A → Exec S A
  lift r s = (r, s)

  -- `err = …` with the error kept as a value.
  abbrev pub attempt : Exec S A → Exec S (Result A)
  attempt m s = let (r, s') = m s in (ok r, s')

module _ {ℓ} {S A B : Type ℓ} where
  abbrev pub after : Result A → (A → Exec S B) → Exec S B
  after (ok a) f s = f a s
  after (err e) f s = (err e, s)

  infixl 5 ◌>>=◌
  abbrev pub ◌>>=◌ : Exec S A → (A → Exec S B) → Exec S B
  ◌>>=◌ m f s = let (r, s') = m s in after r f s'

module _ {S B : Type 0} where
  infixl 5 ◌>>◌
  abbrev pub ◌>>◌ : Exec S Done → Exec S B → Exec S B
  m >> k = m >>= λ _. k

module _ {S : Type 0} where
  abbrev pub modify : (S → S) → Exec S Done
  modify f s = (ok tt, f s)

-- fmt.Errorf("…: %w", err) around the error of a step
abbrev pub wrap_result {ℓ} : {A : Type ℓ} → Result A → Result A
wrap_result (ok a) = ok a
wrap_result (err e) = err (wrap e)

abbrev pub wrapped {ℓ} : {S A : Type ℓ} → Exec S A → Exec S A
wrapped m s = let (r, s') = m s in (wrap_result r, s')

-- The value of a step that succeeded.
abbrev pub Succeeds {ℓ} : {A : Type ℓ} → Result A → Type 0
Succeeds (ok a) = Unit
Succeeds (err e) = ⊥
