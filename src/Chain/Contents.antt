-- ===== src/Chain/Contents.antt =====
-- The abstract view of a chain: the list of its readable payloads, with the number of the first.
use mathlib.Core.Path.{subst}
use alog.Common.{
  ℕ, ◌+◌, ◌^◌, ◌≤◌, ◌<◌, ◌≡◌, refl, sym, ap, ◌∙◌, arith, List, [], ◌∷◌, ◌++◌, length, drop,
  length-append, length-drop, drop-append,
}
use alog.Bytes.{Bytes}
use alog.Storage.{IsReadable}
use alog.Segment.State.{start_sequence, next_sequence, Segment, base_sequence}
use alog.Segment.Represents.{Represents}

-- The segment holds `ps`, and their numbers do not wrap round.
pub record Held (s : Segment) (ps : List Bytes) : Type 0 where
  pub rep : Represents s ps
  pub room : base_sequence s + length ps < 2 ^ 64

-- Moreover, its file can be read and has nothing behind them.
pub record Sealed (s : Segment) (ps : List Bytes) : Type 0 where
  pub rep : Represents s ps
  pub readable : IsReadable s.file
  pub whole : length s.file.bytes ≡ s.write_offset
  pub room : base_sequence s + length ps < 2 ^ 64

pub Sealed-Held : (s : Segment) (ps : List Bytes) → Sealed s ps → Held s ps
Sealed-Held s ps h = record { rep = h.rep; room = h.room }

-- Its numbers
pub start_sequence-Sealed :
    (s : Segment) (ps : List Bytes)
    → Sealed s ps
    → start_sequence s ≡ base_sequence s + s.start_index
unfolding start_sequence
start_sequence-Sealed s ps h = omega (arith, h.room, h.rep.start_bound)

pub next_sequence-Sealed :
    (s : Segment) (ps : List Bytes) → Sealed s ps → next_sequence s ≡ base_sequence s + length ps
unfolding next_sequence
next_sequence-Sealed s ps h = omega (arith, h.room, h.rep.count)

-- A segment whose readable payloads, numbered from `n` on, come first in `qs`; `More` is what holds
-- of the segments behind it.
pub record Line (S : Segment → List Bytes → Type 0) (More : ℕ → List Bytes → Type 0) (s : Segment)
    (n : ℕ) (qs : List Bytes) : Type 0 where
  pub payloads : List Bytes
  pub later : List Bytes
  pub sealed : S s payloads
  pub starts : n ≡ base_sequence s + s.start_index
  pub split : qs ≡ drop s.start_index payloads ++ later
  pub more : More (base_sequence s + length payloads) later

-- The readable payloads of contiguous segments are `qs`, numbered from `n` on; `S` is what holds of
-- each segment.
abbrev pub Contents : (Segment → List Bytes → Type 0) → List Segment → ℕ → List Bytes → Type 0
Contents S [] n qs = qs ≡ []
Contents S (s ∷ ss) n qs = Line S (λ m rs. Contents S ss m rs) s n qs

abbrev pub Lines : List Segment → ℕ → List Bytes → Type 0
Lines ss n qs = Contents Sealed ss n qs

pub Contents-weaken :
    (S T : Segment → List Bytes → Type 0)
    → ((s : Segment) (ps : List Bytes) → S s ps → T s ps)
    → (ss : List Segment) (n : ℕ) (qs : List Bytes) → Contents S ss n qs
    → Contents T ss n qs
Contents-weaken S T f [] n qs h = h
Contents-weaken S T f (s ∷ ss) n qs h = record {
  payloads = h.payloads;
  later = h.later;
  sealed = f s h.payloads h.sealed;
  starts = h.starts;
  split = h.split;
  more = Contents-weaken S T f ss (base_sequence s + length h.payloads) h.later h.more;
}

-- Without the first segment, its payloads are gone.
pub Contents-rest :
    (S : Segment → List Bytes → Type 0)
    → ((s : Segment) (ps : List Bytes) → S s ps → Held s ps)
    → (s : Segment) (ss : List Segment) (n : ℕ) (qs : List Bytes) → Contents S (s ∷ ss) n qs
    → (j : ℕ) × (j ≤ length qs) × Contents S ss (n + j) (drop j qs)
Contents-rest S f s ss n qs h =
    let front : List Bytes = drop s.start_index h.payloads in
    let bound : s.start_index ≤ length h.payloads = (f s h.payloads h.sealed).rep.start_bound in
    let size : length front + s.start_index ≡ length h.payloads =
      omega (arith, length-drop s.start_index h.payloads, bound) in
    let number : base_sequence s + length h.payloads ≡ n + length front =
      omega (arith, h.starts, size) in
    let rest : h.later ≡ drop (length front) qs =
      sym (ap (drop (length front)) h.split ∙ drop-append front h.later (length front) refl) in
    (
      length front,
      omega (arith, ap length h.split, length-append front h.later),
      subst (λ (x : ℕ × List Bytes). Contents S ss x.0 x.1) (λ i. (number i, rest i)) h.more,
    )
