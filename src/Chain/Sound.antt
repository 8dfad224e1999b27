-- ===== src/Chain/Sound.antt =====
-- The invariant of a chain: its segments follow on from each other, and `disk_size` accounts for
-- them.
use alog.Common.{ℕ, suc, ◌+◌, ◌≡◌, refl, sym, ap, ◌∙◌, arith, List, [], ◌∷◌, ◌++◌, length}
use alog.Errors.{Err}
use alog.Exec.{Result, ok, err, Exec}
use alog.Exec.Post.{Post}
use alog.Segment.State.{Segment, size, base_sequence, start_sequence, next_sequence}
use alog.Segment.Growth.{Grown}
use alog.Chain.State.{Chain, last_from, last_segment, set_last, on_fs}
use alog.Chain.Files.{FileSystem}

abbrev pub total : List Segment → ℕ
total [] = 0
total (s ∷ ss) = size s + total ss

-- The segments `ss` behind `s`
abbrev pub Follow : Segment → List Segment → Type 0
Follow s [] = Unit
Follow s (t ∷ ts) = (next_sequence s ≡ start_sequence t) × Follow t ts

abbrev pub Contiguous : List Segment → Type 0
Contiguous [] = ⊥
Contiguous (s ∷ ss) = Follow s ss

pub record Sound (c : Chain) : Type 0 where
  pub contiguous : Contiguous c.segments
  pub accounted : c.disk_size ≡ total c.segments

-- The limits of a chain never change.
pub record SameLimits (c d : Chain) : Type 0 where
  pub same_disk : d.max_disk_size ≡ c.max_disk_size
  pub same_count : d.max_segments ≡ c.max_segments
  pub same_segment : d.max_segment_size ≡ c.max_segment_size

pub SameLimits-refl : (c : Chain) → SameLimits c c
SameLimits-refl c = record { same_disk = refl; same_count = refl; same_segment = refl }

pub SameLimits-trans : (c d e : Chain) → SameLimits c d → SameLimits d e → SameLimits c e
SameLimits-trans c d e h k = record {
  same_disk = k.same_disk ∙ h.same_disk;
  same_count = k.same_count ∙ h.same_count;
  same_segment = k.same_segment ∙ h.same_segment;
}

-- The segments of a chain with one that has been added at its end, or that has grown.
pub Follow-append :
    (s : Segment) (ss : List Segment) (t : Segment)
    → Follow s ss
    → next_sequence (last_from s ss) ≡ start_sequence t
    → Follow s (ss ++ t ∷ [])
Follow-append s [] t h e = (e, tt)
Follow-append s (u ∷ us) t h e = (h.0, Follow-append u us t h.1 e)

pub last_from-append :
    (s : Segment) (ss : List Segment) (t : Segment) → last_from s (ss ++ t ∷ []) ≡ t
last_from-append s [] t = refl
last_from-append s (u ∷ us) t = last_from-append u us t

pub total-append : (ss : List Segment) (t : Segment) → total (ss ++ t ∷ []) ≡ total ss + size t
total-append [] t = omega arith
total-append (s ∷ ss) t = omega (arith, total-append ss t)

pub total-set_last :
    (s : Segment) (ss : List Segment) (t : Segment) (n : ℕ)
    → size t ≡ size (last_from s ss) + n
    → total (set_last t (s ∷ ss)) ≡ total (s ∷ ss) + n
total-set_last s [] t n h = omega (arith, h)
total-set_last s (u ∷ us) t n h = omega (arith, total-set_last u us t n h)

pub start-Grown : (n : ℕ) (s t : Segment) → Grown n s t → start_sequence t ≡ start_sequence s
unfolding start_sequence base_sequence
start-Grown n s t g = rw (g.same_header, g.same_start) refl

pub Contiguous-set_last :
    (s : Segment) (ss : List Segment) (t : Segment)
    → Follow s ss
    → start_sequence t ≡ start_sequence (last_from s ss)
    → Contiguous (set_last t (s ∷ ss))
Contiguous-set_last s [] t h e = tt
Contiguous-set_last s (u ∷ []) t h e = (h.0 ∙ sym e, tt)
Contiguous-set_last s (u ∷ v ∷ vs) t h e = (h.0, Contiguous-set_last u (v ∷ vs) t h.1 e)

pub length-set_last : (t : Segment) (ss : List Segment) → length (set_last t ss) ≡ length ss
length-set_last t [] = refl
length-set_last t (s ∷ []) = refl
length-set_last t (s ∷ u ∷ us) = ap suc (length-set_last t (u ∷ us))

pub last_segment-set_last :
    (t s : Segment) (ss : List Segment) → last_segment (set_last t (s ∷ ss)) ≡ ok t
last_segment-set_last t s [] = refl
last_segment-set_last t s (u ∷ []) = refl
last_segment-set_last t s (u ∷ v ∷ vs) = last_segment-set_last t u (v ∷ vs)

-- The same from the last segment as `last_segment` gives it
pub Contiguous-add :
    (ss : List Segment) (last t : Segment)
    → Contiguous ss
    → last_segment ss ≡ ok last
    → next_sequence last ≡ start_sequence t
    → Contiguous (ss ++ t ∷ [])
Contiguous-add [] last t h e k = absurd h
Contiguous-add (s ∷ ss) last t h e k =
    let same : last_from s ss ≡ last = cc in Follow-append s ss t h (ap next_sequence same ∙ k)

pub last_segment-add : (ss : List Segment) (t : Segment) → last_segment (ss ++ t ∷ []) ≡ ok t
last_segment-add [] t = refl
last_segment-add (s ∷ ss) t = ap ok (last_from-append s ss t)

pub Contiguous-Grown :
    (ss : List Segment) (last t : Segment) (n : ℕ)
    → Contiguous ss
    → last_segment ss ≡ ok last
    → Grown n last t
    → Contiguous (set_last t ss)
Contiguous-Grown [] last t n h e g = h
Contiguous-Grown (s ∷ ss) last t n h e g =
    let same : last_from s ss ≡ last = cc in
    Contiguous-set_last s ss t h (start-Grown n last t g ∙ ap start_sequence (sym same))

pub total-Grown :
    (ss : List Segment) (last t : Segment) (n : ℕ)
    → last_segment ss ≡ ok last
    → Grown n last t
    → total (set_last t ss) ≡ total ss + n
total-Grown [] last t n e g = absurd cc
total-Grown (s ∷ ss) last t n e g =
    let same : last_from s ss ≡ last = cc in
    total-set_last s ss t n (g.size_grown ∙ ap (λ (x : Segment). size x + n) (sym same))

pub last_segment-grown :
    (ss : List Segment) (last t : Segment)
    → last_segment ss ≡ ok last
    → last_segment (set_last t ss) ≡ ok t
last_segment-grown [] last t e = absurd cc
last_segment-grown (s ∷ ss) last t e = last_segment-set_last t s ss

-- A call of the file system changes nothing else.
pub on_fs-Post :
    {A : Type 0} (m : Exec FileSystem A) (c : Chain)
    → Post (on_fs m c) (λ _ d. d ≡ record c { fs = d.fs }) (λ _ d. d ≡ record c { fs = d.fs })
on_fs-Post m c = go (m c.fs)
  where
    go :
        {A : Type 0} (x : Result A × FileSystem)
        → Post
            (x.0, record c { fs = x.1 })
            (λ _ d. d ≡ record c { fs = d.fs })
            (λ _ d. d ≡ record c { fs = d.fs })
    go (ok a, fs) = record { holds = refl }
    go (err e, fs) = record { holds = refl }

-- With what the call itself guarantees
pub on_fs-with :
    {A : Type 0} (m : Exec FileSystem A) (c : Chain) {P : A → FileSystem → Type 0}
    {Q : Err → FileSystem → Type 0}
    → Post (m c.fs) P Q
    → Post
        (on_fs m c)
        (λ a d. (d ≡ record c { fs = d.fs }) × P a d.fs)
        (λ e d. (d ≡ record c { fs = d.fs }) × Q e d.fs)
on_fs-with m c h = go (m c.fs) h
  where
    go :
        {A : Type 0} (x : Result A × FileSystem) {P : A → FileSystem → Type 0}
        {Q : Err → FileSystem → Type 0}
        → Post x P Q
        → Post
            (x.0, record c { fs = x.1 })
            (λ a d. (d ≡ record c { fs = d.fs }) × P a d.fs)
            (λ e d. (d ≡ record c { fs = d.fs }) × Q e d.fs)
    go (ok a, fs) h = record { holds = (refl, h.holds) }
    go (err e, fs) h = record { holds = (refl, h.holds) }
