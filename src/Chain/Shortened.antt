-- ===== src/Chain/Shortened.antt =====
-- TruncateAfter, on the list of payloads that a chain holds.
use alog.Common.{
  ℕ, zero, suc, ◌-◌, ◌≤◌, ◌≡◌, refl, ap, ◌∙◌, arith, List, [], ◌∷◌, Option, none, some, take,
  get_elem?,
}
use alog.Errors.{Err}
use alog.Exec.{Result, ok, err, Exec, Done}
use alog.Exec.Post.{Post, Post_mono, Post-bind}
use alog.Segment.State.{Segment, size}
use alog.Segment.Write
use alog.Chain.State.{Chain, on_fs}
use alog.Chain.Files.{remove}
use alog.Chain.Sound.{on_fs-Post}
use alog.Chain.Truncate.{present, set_at, segment_at, put_back, on_segment, remove_range}

take-set_at :
    (j i : ℕ) (t : Segment) (ss : List Segment) → j ≤ i → take j (set_at i t ss) ≡ take j ss
take-set_at zero i t ss h = refl
take-set_at (suc j) i t [] h = refl
take-set_at (suc j) zero t (s ∷ ss) h = absurd (omega arith)
take-set_at (suc j) (suc i) t (s ∷ ss) h = ap (λ x. s ∷ x) (take-set_at j i t ss (omega arith))

pub get_elem?-set_at :
    (i : ℕ) (s t : Segment) (ss : List Segment)
    → get_elem? ss i ≡ some s
    → get_elem? (set_at i t ss) i ≡ some t
get_elem?-set_at i s t [] e = absurd cc
get_elem?-set_at zero s t (u ∷ us) e = refl
get_elem?-set_at (suc i) s t (u ∷ us) e = get_elem?-set_at i s t us e

-- A method of the segment in a place
pub on_segment-Post :
    {A : Type 0} (i : ℕ) (m : Exec Segment A) (c : Chain) (s : Segment) {P : A → Segment → Type 0}
    {Q : Err → Segment → Type 0}
    → get_elem? c.segments i ≡ some s
    → Post (m s) P Q
    → Post
        (on_segment i m c)
        (λ a d. (t : Segment) × P a t × (d ≡ record c { segments = set_at i t c.segments }))
        (λ e d. (t : Segment) × Q e t × (d ≡ record c { segments = set_at i t c.segments }))
on_segment-Post i m c s e h = rw (ap present e) (go (m s) h)
  where
    go :
        {A : Type 0} (x : Result A × Segment) {P : A → Segment → Type 0}
        {Q : Err → Segment → Type 0}
        → Post x P Q
        → Post
            (put_back i x c)
            (λ a d. (t : Segment) × P a t × (d ≡ record c { segments = set_at i t c.segments }))
            (λ e d. (t : Segment) × Q e t × (d ≡ record c { segments = set_at i t c.segments }))
    go (ok a, t) h = record { holds = (t, h.holds, refl) }
    go (err b, t) h = record { holds = (t, h.holds, refl) }

-- The segment in a place
pub segment_at-found : (i : ℕ) (c : Chain) → Post (segment_at i c) (λ s d. d ≡ c) (λ _ _. Unit)
segment_at-found i c = go (get_elem? c.segments i)
  where
    go : (o : Option Segment) → Post (present o, c) (λ s d. d ≡ c) (λ _ _. Unit)
    go none = record { holds = tt }
    go (some s) = record { holds = refl }

module _ (j : ℕ) where
  -- The segments before the place `j` are as they were.
  abbrev Front : Chain → Chain → Type 0
  Front c d = take j d.segments ≡ take j c.segments

  segment_at-Front : (i : ℕ) (c : Chain) → Post (segment_at i c) (λ _ d. Front c d) (λ _ _. Unit)
  segment_at-Front i c =
      Post_mono _ (segment_at-found i c) (λ _ d e. ap (λ (x : Chain). take j x.segments) e)
        (λ _ _ _. tt)

  put_back-Front :
      (i : ℕ) (x : Result Done × Segment) (c : Chain)
      → j ≤ i
      → Post (put_back i x c) (λ _ d. Front c d) (λ _ _. Unit)
  put_back-Front i (ok a, t) c h = record { holds = take-set_at j i t c.segments h }
  put_back-Front i (err e, t) c h = record { holds = tt }

  pub remove_range-Front :
      (n i : ℕ) (c : Chain) → j ≤ i → Post (remove_range n i c) (λ _ d. Front c d) (λ _ _. Unit)
  unfolding remove_range
  remove_range-Front zero i c h = record { holds = refl }
  remove_range-Front (suc n) i c h =
      Post-bind (segment_at i) _ c {R = λ _ d. Front c d} (segment_at-Front i c) λ s d a.
        Post-bind (on_segment i Write.close) _ d {R = λ _ u. Front c u}
          (Post-bind (segment_at i) (λ t. put_back i (Write.close t)) d {R = λ _ u. Front c u}
            (Post_mono _ (segment_at-Front i d) (λ _ u b. b ∙ a) (λ _ _ _. tt))
            λ t u b.
              Post_mono _ (put_back-Front i (Write.close t) u h) (λ _ v k. k ∙ b) (λ _ _ _. tt))
          λ _ u b.
            Post-bind (on_fs (remove s.file.name)) _ u {R = λ _ v. Front c v}
              (Post_mono _ (on_fs-Post (remove s.file.name) u)
                (λ _ v e. ap (λ (x : Chain). take j x.segments) e ∙ b) (λ _ _ _. tt))
              λ _ v k.
                Post_mono _
                  (remove_range-Front n (suc i) (record v { disk_size = v.disk_size - size s })
                    (omega arith))
                  (λ _ w l. l ∙ k) (λ _ _ _. tt)
