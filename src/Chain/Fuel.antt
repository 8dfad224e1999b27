-- ===== src/Chain/Fuel.antt =====
-- The end of the loop that makes room in a chain.
use alog.Common.{
  inr, Bool-cases, ◌⊎◌, inl, ◌∙◌, ℕ, suc, zero, ◌-◌, ◌≤◌, ◌<◌, ◌≡◌, refl, ap, arith, List, [], ◌∷◌,
  length, Bool, false, if◌then◌else◌, leb,
}
use alog.Errors.{segment_full, disk_full, Err, diverges}
use alog.Exec.{Result, ok, err, Exec, Done, after, raise, lift, ◌>>◌}
use alog.Exec.Post.{Post, Post_mono, Post-bind}
use alog.Segment.State.{Segment}
use alog.Segment.Write.{close}
use alog.Chain.Files.{remove}
use alog.Chain.State.{Chain, last_segment, head_segment, drop_oldest, reap_oldest, on_fs}
use alog.Chain.Append.{disk_exceeded, is_rotation, needs_reap, room_with, room_turn, make_room}
use alog.Chain.Sound.{on_fs-Post}

leb-lt : (n : ℕ) → leb n 1 ≡ false → 1 < n
leb-lt n h = ground arith

-- The loop as the code has it, without fuel: from the chain `c` on it ends with `x`. Either it leaves in
-- this turn, whatever would follow the removal of a segment; or this turn removes one, which fails; or
-- it goes on from the chain that the removal leaves.
pub data Loop (n : ℕ) : Chain → Result Bool × Chain → Type 0 where
  leaves :
      {c : Chain} {x : Result Bool × Chain} (r : Result Bool)
      → ((m : Exec Chain Bool) → room_turn n m c ≡ (r, c))
      → x ≡ (r, c)
      → Loop n c x
  fails :
      {c d : Chain} {e : Err} {x : Result Bool × Chain}
      → ((m : Exec Chain Bool) → room_turn n m c ≡ m c)
      → reap_oldest c ≡ (err e, d)
      → x ≡ (err e, d)
      → Loop n c x
  turns :
      {c d : Chain} {x : Result Bool × Chain}
      → ((m : Exec Chain Bool) → room_turn n m c ≡ m c)
      → reap_oldest c ≡ (ok tt, d)
      → Loop n d x
      → Loop n c x

Turn : ℕ → Chain → Type 0
Turn n c =
    ((r : Result Bool) × ((m : Exec Chain Bool) → room_turn n m c ≡ (r, c)))
    ⊎ ((1 < length c.segments) × ((m : Exec Chain Bool) → room_turn n m c ≡ m c))

-- Only the branch that removes a segment looks at what follows.
any-Turn : (n : ℕ) (c : Chain) → Turn n c
unfolding Turn room_turn
any-Turn n c = go (last_segment c.segments) refl
  where
    go : (r : Result Segment) → last_segment c.segments ≡ r → Turn n c
    go (err e) q = inl (err e, λ m. ap (λ r. room_with n m r c) q)
    go (ok last) q = elim (Bool-cases (needs_reap n (is_rotation n last c) c)) [
      | inr clear ↦
          inl (ok (is_rotation n last c), λ m. ap (λ r. room_with n m r c) q ∙ rw clear refl)
      | inl full ↦ elim (Bool-cases (leb (length c.segments) 1)) [
        | inl few ↦ inl (
          err (if disk_exceeded n (is_rotation n last c) c then disk_full else segment_full),
          λ m. ap (λ r. room_with n m r c) q ∙ rw (full, few) refl,
        )
        | inr more ↦ inr (
          leb-lt (length c.segments) more,
          λ m. ap (λ r. room_with n m r c) q ∙ rw (full, more) refl,
        )
      ]
    ]

drop_oldest-shorter :
    (s : Segment) (d : Chain) → length (drop_oldest s d).segments ≤ length d.segments - 1
unfolding drop_oldest
drop_oldest-shorter s d = go d.segments
  where
    go : (ss : List Segment) → length (elim ss [ [] ↦ [] | t ∷ ts ↦ ts ]) ≤ length ss - 1
    go [] = omega arith
    go (t ∷ ts) = omega arith

lifted :
    {P : Chain → Type 0} (r : Result Done) (d : Chain)
    → P d
    → Post (lift r d) (λ _ e. P e) (λ _ _. Unit)
lifted (ok x) d h = record { holds = h }
lifted (err e) d h = record { holds = tt }

pub reap_oldest-shorter :
    (c : Chain)
    → Post (reap_oldest c) (λ _ d. length d.segments ≤ length c.segments - 1) (λ _ _. Unit)
unfolding reap_oldest
reap_oldest-shorter c = go (head_segment c.segments)
  where
    go :
        (r : Result Segment)
        → Post
            (after r
              (λ oldest. on_fs (remove oldest.file.name) >> λ d.
                lift (close oldest).0 (drop_oldest oldest d))
              c)
            (λ _ d. length d.segments ≤ length c.segments - 1)
            (λ _ _. Unit)
    go (err e) = record { holds = tt }
    go (ok s) =
        Post-bind (on_fs (remove s.file.name)) _ c {R = λ _ d. d ≡ record c { fs = d.fs }}
          (Post_mono _ (on_fs-Post (remove s.file.name) c) (λ _ d x. x) (λ _ _ _. tt))
          λ _ d x.
            lifted {P = λ e. length e.segments ≤ length c.segments - 1} (close s).0
              (drop_oldest s d)
              (let same : length d.segments ≡ length c.segments =
                  ap (λ (y : Chain). length y.segments) x in
                omega (arith, drop_oldest-shorter s d))

-- The removal of a segment, and the rest of the loop
reaped :
    (n k : ℕ) (c : Chain) (x : Result Done × Chain)
    → reap_oldest c ≡ x
    → ((m : Exec Chain Bool) → room_turn n m c ≡ m c)
    → ((d : Chain) → length d.segments ≤ length c.segments - 1 → Loop n d (make_room k n d))
    → Post x (λ _ d. length d.segments ≤ length c.segments - 1) (λ _ _. Unit)
    → Loop n c (after x.0 (λ _. make_room k n) x.1)
reaped n k c (ok tt, d) e t h shorter = turns t e (h d shorter.holds)
reaped n k c (err a, d) e t h shorter = fails t e refl

-- The loop that makes room ends, whatever the calls of the file system return, and `make_room` gives
-- what it ends with, if the chain has at most one segment more than the fuel: so much fuel is enough.
pub make_room-Loop :
    (fuel n : ℕ) (c : Chain) → length c.segments ≤ suc fuel → Loop n c (make_room fuel n c)
unfolding make_room Turn
make_room-Loop zero n c h = elim (any-Turn n c) [
  | inl (r, out) ↦ leaves r out (out (raise diverges))
  | inr (more, t) ↦ absurd (omega arith)
]
make_room-Loop (suc k) n c h = elim (any-Turn n c) [
  | inl (r, out) ↦ leaves r out (out (reap_oldest >> make_room k n))
  | inr (more, t) ↦ rw (t (reap_oldest >> make_room k n)) (
      reaped n k c (reap_oldest c) refl t (λ d p. make_room-Loop k n d (omega arith))
        (reap_oldest-shorter c))
]

left : (r : Result Bool) (c : Chain) → Post (r, c) (λ _ d. d ≡ c) (λ _ d. d ≡ c)
left (ok b) c = record { holds = refl }
left (err e) c = record { holds = refl }

-- With one segment the loop leaves the chain as it is.
pub make_room-alone :
    (fuel n : ℕ) (c : Chain)
    → length c.segments ≤ 1
    → Post (make_room fuel n c) (λ _ d. d ≡ c) (λ _ d. d ≡ c)
unfolding make_room Turn
make_room-alone zero n c h = elim (any-Turn n c) [
  | inl (r, out) ↦ rw (out (raise diverges)) (left r c)
  | inr (more, t) ↦ absurd (omega arith)
]
make_room-alone (suc k) n c h = elim (any-Turn n c) [
  | inl (r, out) ↦ rw (out (reap_oldest >> make_room k n)) (left r c)
  | inr (more, t) ↦ absurd (omega arith)
]
