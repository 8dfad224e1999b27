-- ===== src/Log/Writer/Kept.antt =====
-- What each turn of the writer's loop keeps: the state of its timer, and the size of its batch.
use mathlib.Core.Path.{subst}
use alog.Common.{
  inl, if_both, Bool, inr, ◌&&◌, ℕ, ◌+◌, ◌≡◌, ◌⊎◌, refl, arith, List, [], ◌∷◌, ◌++◌, length, true,
  false,
}
use alog.Exec.{Exec}
use alog.Bytes.{Bytes}
use alog.Log.Timer
use alog.Log.Timer.{Timer}
use alog.Log.Writer.{receive, accept, expire, Request, Options, Writer, under, flush, write_batch}

abbrev pub total_size : List Request → ℕ
total_size [] = 0
total_size (r ∷ rs) = length r.payload + total_size rs

total_size-append :
    (rs : List Request) (r : Request) → total_size (rs ++ r ∷ []) ≡ total_size rs + length r.payload
total_size-append [] r = omega arith
total_size-append (q ∷ rs) r = omega (arith, total_size-append rs r)

-- The timer runs, or its channel holds a time, but not both.
abbrev pub IsArmed : Timer.Timer → Type 0
IsArmed t = ((t.active ≡ true) × (t.fired ≡ false)) ⊎ ((t.active ≡ false) × (t.fired ≡ true))

abbrev pub IsQuiet : Timer.Timer → Type 0
IsQuiet t = (t.active ≡ false) × (t.fired ≡ false)

-- A batch that is not empty has a timer and is below the limits, and its size is accounted for.
abbrev pub Waiting : Options → List Request → ℕ → Timer.Timer → Type 0
Waiting opts [] size t = (size ≡ 0) × IsQuiet t
Waiting opts (r ∷ rs) size t =
    (size ≡ total_size (r ∷ rs))
    × IsArmed t
    × (under size opts.max_size ≡ true)
    × (under (length (r ∷ rs)) opts.max_length ≡ true)

stop-IsQuiet : (t : Timer.Timer) → (IsArmed t ⊎ IsQuiet t) → IsQuiet (Timer.stop t)
unfolding Timer.stop
stop-IsQuiet t h = ground arith

start-IsArmed : (t : Timer.Timer) → IsQuiet t → IsArmed (Timer.start t)
unfolding Timer.start Timer.stop
start-IsArmed t h = ground arith

fire-IsArmed : (t : Timer.Timer) → t.active ≡ true → IsArmed t → IsArmed (Timer.fire t)
unfolding Timer.fire
fire-IsArmed t a h = ground arith

pub fire-fired : (t : Timer.Timer) → t.active ≡ true → (Timer.fire t).fired ≡ true
unfolding Timer.fire
fire-fired t a = ground arith

and-left : (a b : Bool) → a && b ≡ true → a ≡ true
and-left true b h = refl
and-left false b h = absurd (let e = h in cc)

and-right : (a b : Bool) → a && b ≡ true → b ≡ true
and-right true b h = h
and-right false b h = absurd (let e = h in cc)

-- A timer whose channel holds a time has ended.
quiet : (t : Timer.Timer) → t.fired ≡ true → (IsArmed t ⊎ IsQuiet t) → IsQuiet (Timer.receive t)
unfolding Timer.receive
quiet t f h = ground arith

module _ {L : Type 0} (append : List Bytes → Exec L ℕ) (opts : Options) where
  abbrev pub IsWatched : Writer L → Type 0
  IsWatched w = Waiting opts w.batch w.size w.timer

  pub flush-IsWatched :
      (w : Writer L)
      → (IsArmed w.timer ⊎ IsQuiet w.timer)
      → (w.batch ≡ [] → w.size ≡ 0)
      → IsWatched (flush append opts w)
  unfolding flush write_batch
  flush-IsWatched w t z = go w.batch refl
    where
      go : (b : List Request) → w.batch ≡ b → IsWatched (flush append opts w)
      go [] e = rw e (z e, stop-IsQuiet w.timer t)
      go (r ∷ rs) e = rw e (refl, stop-IsQuiet w.timer t)

  accept-IsArmed :
      (req : Request) (w : Writer L)
      → IsWatched w
      → IsArmed (accept req w).timer × ((accept req w).size ≡ total_size (accept req w).batch)
  accept-IsArmed req w h = go w.batch refl
    where
      go :
          (b : List Request)
          → w.batch ≡ b
          → IsArmed (accept req w).timer × ((accept req w).size ≡ total_size (accept req w).batch)
      go [] e =
          let k : (w.size ≡ 0) × IsQuiet w.timer = subst (λ b. Waiting opts b w.size w.timer) e h in
          rw e (start-IsArmed w.timer k.1, omega (arith, k.0))
      go (r ∷ rs) e =
          let k = subst (λ b. Waiting opts b w.size w.timer) e h in
          rw e (k.1, omega (arith, k.0, total_size-append (r ∷ rs) req))

  -- A batch with a request at its end
  Waiting-cons :
      (b : List Request) (req : Request) (size : ℕ) (t : Timer.Timer)
      → size ≡ total_size (b ++ req ∷ [])
      → IsArmed t
      → under size opts.max_size && under (length (b ++ req ∷ [])) opts.max_length ≡ true
      → Waiting opts (b ++ req ∷ []) size t
  Waiting-cons [] req size t e a u =
      (e, a, and-left _ _ u, and-right (under size opts.max_size) _ u)
  Waiting-cons (r ∷ rs) req size t e a u =
      (e, a, and-left _ _ u, and-right (under size opts.max_size) _ u)

  nonempty : (b : List Request) (req : Request) → b ++ req ∷ [] ≡ [] → ⊥
  nonempty [] req e = cc
  nonempty (r ∷ rs) req e = cc

  pub receive-IsWatched :
      (req : Request) (w : Writer L) → IsWatched w → IsWatched (receive append opts req w)
  unfolding receive
  receive-IsWatched req w h =
      let u : Writer L = accept req w in
      let (armed, counted) = accept-IsArmed req w h in
      if_both IsWatched (under u.size opts.max_size && under (length u.batch) opts.max_length)
        (λ q. Waiting-cons w.batch req u.size u.timer counted armed q)
        (λ _. flush-IsWatched u (inl armed) (λ e. absurd (nonempty w.batch req e)))

  pub IsArmed-or_IsQuiet : (w : Writer L) → IsWatched w → IsArmed w.timer ⊎ IsQuiet w.timer
  IsArmed-or_IsQuiet w h = go w.batch h
    where
      go : (b : List Request) → Waiting opts b w.size w.timer → IsArmed w.timer ⊎ IsQuiet w.timer
      go [] k = inr k.1
      go (r ∷ rs) k = inl k.1

  pub empty_size : (w : Writer L) → IsWatched w → w.batch ≡ [] → w.size ≡ 0
  empty_size w h e = (subst (λ b. Waiting opts b w.size w.timer) e h).0

  pub elapse-IsWatched :
      (w : Writer L)
      → w.timer.active ≡ true
      → IsWatched w
      → IsWatched (record w { timer = Timer.fire w.timer })
  elapse-IsWatched w a h = go w.batch h
    where
      go :
          (b : List Request)
          → Waiting opts b w.size w.timer
          → Waiting opts b w.size (Timer.fire w.timer)
      go [] k = absurd (let q = k.1.0 in cc)
      go (r ∷ rs) k = (k.0, fire-IsArmed w.timer a k.1, k.2, k.3)

  pub expire-IsWatched :
      (w : Writer L) → w.timer.fired ≡ true → IsWatched w → IsWatched (expire append opts w)
  unfolding expire Timer.receive
  expire-IsWatched w f h =
      flush-IsWatched (record w { timer = Timer.receive w.timer })
        (inr (quiet w.timer f (IsArmed-or_IsQuiet w h))) (λ e. empty_size w h e)
