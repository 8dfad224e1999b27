-- ===== src/Exec/Post.antt =====
-- What a method guarantees: `P` of its value and the state it leaves, or `Q` of the state in which
-- it failed; with a rule for each way to build a method.
use alog.Common.{◌≡◌, refl}
use alog.Errors.{Err}
use alog.Exec.{Result, ok, err, Exec, after, wrap_result, wrapped, attempt, ◌>>=◌}

abbrev pub Outcome : {S A : Type 0} → Result A × S → (A → S → Type 0) → (Err → S → Type 0) → Type 0
Outcome (ok a, s) P Q = P a s
Outcome (err e, s) P Q = Q e s

pub record Post {S A : Type 0} (x : Result A × S) (P : A → S → Type 0) (Q : Err → S → Type 0)
    : Type 0 where
  pub holds : Outcome x P Q

module _ {S A : Type 0} where
  pub Post_mono :
      (x : Result A × S) {P P' : A → S → Type 0} {Q Q' : Err → S → Type 0}
      → Post x P Q
      → ((a : A) (s : S) → P a s → P' a s)
      → ((e : Err) (s : S) → Q e s → Q' e s)
      → Post x P' Q'
  Post_mono (ok a, s) h p q = record { holds = p a s h.holds }
  Post_mono (err e, s) h p q = record { holds = q e s h.holds }

  -- What the method returns, and in which state
  pub Post-self : (x : Result A × S) → Post x (λ a s. x ≡ (ok a, s)) (λ e s. x ≡ (err e, s))
  Post-self (ok a, s) = record { holds = refl }
  Post-self (err e, s) = record { holds = refl }

  -- Two guarantees at once
  pub Post-and :
      (x : Result A × S) {P P' : A → S → Type 0} {Q Q' : Err → S → Type 0}
      → Post x P Q
      → Post x P' Q'
      → Post x (λ a s. P a s × P' a s) (λ e s. Q e s × Q' e s)
  Post-and (ok a, s) h k = record { holds = (h.holds, k.holds) }
  Post-and (err e, s) h k = record { holds = (h.holds, k.holds) }

  pub Post-wrapped :
      (m : Exec S A) (s : S) {P : A → S → Type 0} {Q : S → Type 0}
      → Post (m s) P (λ _. Q)
      → Post (wrapped m s) P (λ _. Q)
  Post-wrapped m s h = go (m s) h
    where
      go :
          (x : Result A × S) {P : A → S → Type 0} {Q : S → Type 0}
          → Post x P (λ _. Q)
          → Post (wrap_result x.0, x.1) P (λ _. Q)
      go (ok a, t) h = record { holds = h.holds }
      go (err e, t) h = record { holds = h.holds }

module _ {S A B : Type 0} where
  pub Post-bind :
      (m : Exec S A) (f : A → Exec S B) (s : S) {R : A → S → Type 0} {P : B → S → Type 0}
      {Q : Err → S → Type 0}
      → Post (m s) R Q
      → ((a : A) (t : S) → R a t → Post (f a t) P Q)
      → Post ((m >>= f) s) P Q
  Post-bind m f s h k = go (m s) h k
    where
      go :
          (x : Result A × S) {R : A → S → Type 0} {P : B → S → Type 0} {Q : Err → S → Type 0}
          → Post x R Q
          → ((a : A) (t : S) → R a t → Post (f a t) P Q)
          → Post (after x.0 f x.1) P Q
      go (ok a, t) h k = k a t h.holds
      go (err e, t) h k = record { holds = h.holds }

  -- A step whose error is kept as a value goes on in both cases.
  pub Post-attempt :
      (m : Exec S A) (f : Result A → Exec S B) (s : S) {R : A → S → Type 0} {T : Err → S → Type 0}
      {P : B → S → Type 0} {Q : Err → S → Type 0}
      → Post (m s) R T
      → ((a : A) (t : S) → R a t → Post (f (ok a) t) P Q)
      → ((e : Err) (t : S) → T e t → Post (f (err e) t) P Q)
      → Post ((attempt m >>= f) s) P Q
  Post-attempt m f s h k l = go (m s) h k l
    where
      go :
          (x : Result A × S) {R : A → S → Type 0} {T : Err → S → Type 0} {P : B → S → Type 0}
          {Q : Err → S → Type 0}
          → Post x R T
          → ((a : A) (t : S) → R a t → Post (f (ok a) t) P Q)
          → ((e : Err) (t : S) → T e t → Post (f (err e) t) P Q)
          → Post (f x.0 x.1) P Q
      go (ok a, t) h k l = k a t h.holds
      go (err e, t) h k l = l e t h.holds
