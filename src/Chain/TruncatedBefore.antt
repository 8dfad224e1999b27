-- ===== src/Chain/TruncatedBefore.antt =====
-- TruncateBefore, on the list of payloads that a chain holds.
use mathlib.Core.Path.{subst}
use alog.Common.{
  ℕ, ◌+◌, ◌-◌, ◌<◌, ◌≡◌, refl, sym, ap, arith, List, [], ◌∷◌, length, drop, All, Option, none, some,
  get_elem?, max, min, if_both, ltb, ltb→le,
}
use native.Mathlib.Decide.{dec_le}
use alog.Exec.{ok, Exec, Done}
use alog.Exec.Post.{Post, Post_mono}
use alog.Bytes.{Bytes}
use alog.Segment.State.{Segment, next_sequence}
use alog.Chain.State.{Chain}
use alog.Chain.Truncate.{
  keep_index, present, truncate_none_before, truncate_before, truncate_before_from,
}
use alog.Chain.Contents.{Lines, start_sequence-Sealed}
use alog.Chain.Cut.{get_elem?-PlaceOf}
use alog.Chain.Keep.{Contains, keep_index-Contains}
use alog.Chain.Places.{last-next, get_elem?-some}
use alog.Chain.Onward.{HasSlot, Onward-from}

module _ (c : Chain) (n : ℕ) (qs : List Bytes) (h : Lines c.segments n qs) (seq : ℕ) where
  -- Before the first number nothing is to be dropped.
  none_early :
      (s : Segment)
      → get_elem? c.segments (length c.segments - 1) ≡ some s
      → 0 < length c.segments
      → seq < n
      → Post (truncate_none_before seq c) (λ _ d. d ≡ c) (λ _ _. Unit)
  unfolding truncate_none_before
  none_early s here some_of early = rw (ap present here) (
      if_both (λ (m : Exec Chain Done). Post (m c) (λ _ d. d ≡ c) (λ _ _. Unit))
        (ltb seq (next_sequence s)) (λ _. record { holds = refl })
        (λ q. absurd (
          omega (
            arith,
            ltb→le seq (next_sequence s) q,
            last-next c.segments n qs (length c.segments - 1) s h here (omega (arith, some_of)),
            early,
          ))))

  early-from :
      (o : Option ℕ)
      → keep_index seq c.segments ≡ o
      → 0 < length c.segments
      → seq < n
      → Post (truncate_before_from seq o c) (λ _ d. d ≡ c) (λ _ _. Unit)
  early-from none e some_of early =
      let (s, here) = get_elem?-some c.segments (length c.segments - 1) (omega (arith, some_of)) in
      none_early s here some_of early
  early-from (some k) e some_of early =
      let at : Contains seq c.segments k = keep_index-Contains seq c.segments k e in
      let p = get_elem?-PlaceOf c.segments n qs k at.segment at.here h in
      absurd (
        omega (
          arith,
          p.starts,
          start_sequence-Sealed at.segment p.payloads p.holds,
          at.from_start,
          early,
        ))

  by_number :
      0 < length c.segments
      → All HasSlot c.segments
      → Post
          (truncate_before_from seq (keep_index seq c.segments) c)
          (λ _ d.
            Lines d.segments (max n (min seq (n + length qs))) (drop (seq - n) qs)
            × (0 < length d.segments))
          (λ _ _. Unit)
  by_number some_of slots = elim (dec_le n seq) [
    | yes low ↦
        let number : min seq (n + length qs) ≡ max n (min seq (n + length qs)) =
          omega (arith, low) in
        Post_mono _ (Onward-from c n qs h seq low slots (keep_index seq c.segments) refl some_of)
          (λ _ d (l, left).
            (subst (λ (m : ℕ). Lines d.segments m (drop (seq - n) qs)) number l, left))
          (λ _ _ _. tt)
    | no high ↦
        let number : n ≡ max n (min seq (n + length qs)) = omega arith in
        let all : qs ≡ drop (seq - n) qs =
          ap (λ (m : ℕ). drop m qs) (let z : 0 ≡ seq - n = omega arith in z) in
        Post_mono _ (early-from (keep_index seq c.segments) refl some_of (omega arith))
          (λ _ d same. (
            subst (λ (x : ℕ × List Bytes). Lines d.segments x.0 x.1) (λ i. (number i, all i))
                (subst (λ (x : Chain). Lines x.segments n qs) (sym same) h),
            omega (arith, ap (λ (x : Chain). length x.segments) same, some_of),
          ))
          (λ _ _ _. tt)
  ]

-- TruncateBefore at any number, on contiguous segments, one at least, whose readable payloads are `qs`,
-- numbered from `n` on: if it succeeds, the chain has a segment, and holds exactly those of `qs` with
-- numbers from `seq` on, numbered from there; all of them as they were, if `seq` is before the first;
-- and none, from the number behind their end on, if it is behind that. The files can be read and end
-- where their segments do, and the segments' slots have 16 bytes.
pub truncate_before-Lines :
    (c : Chain) (n : ℕ) (qs : List Bytes) (seq : ℕ)
    → Lines c.segments n qs
    → 0 < length c.segments
    → All HasSlot c.segments
    → Post
        (truncate_before seq c)
        (λ _ d.
          Lines d.segments (max n (min seq (n + length qs))) (drop (seq - n) qs)
          × (0 < length d.segments))
        (λ _ _. Unit)
unfolding truncate_before
truncate_before-Lines c n qs seq h some_of slots = by_segments c.segments refl
  where
    by_segments :
        (ss : List Segment)
        → c.segments ≡ ss
        → Post {S = Chain} {A = Done}
            (elim ss [
              | [] ↦ (ok tt, c)
              | s ∷ more ↦ truncate_before_from seq (keep_index seq c.segments) c
            ])
            (λ _ d.
              Lines d.segments (max n (min seq (n + length qs))) (drop (seq - n) qs)
              × (0 < length d.segments))
            (λ _ _. Unit)
    by_segments [] e = absurd (omega (arith, ap length e, some_of))
    by_segments (s ∷ ss) e = by_number c n qs h seq some_of slots
