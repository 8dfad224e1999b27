-- ===== src/Chain/Last.antt =====
-- The last segment of a chain, and what becomes of the chain's payloads with it.
use mathlib.Core.Path.{subst}
use alog.Common.{
  ℕ, ◌+◌, ◌≤◌, ◌≡◌, refl, sym, ap, ◌∙◌, arith, List, [], ◌∷◌, ◌++◌, length, drop, append-nil,
  append_assoc, length-append, length-drop, drop-append_le,
}
use alog.Exec.{ok}
use alog.Bytes.{Bytes}
use alog.Segment.State.{Segment, base_sequence}
use alog.Chain.State.{last_from, last_segment, set_last}
use alog.Chain.Contents.{Held, Contents}

-- The last segment, what it holds, and the chain with payloads added to it or with a segment behind
-- it.
pub record LastOf (S : Segment → List Bytes → Type 0) (ss : List Segment) (n : ℕ) (qs : List Bytes)
    (last : Segment) : Type 1 where
  pub payloads : List Bytes
  pub holds : S last payloads
  pub ends : n + length qs ≡ base_sequence last + length payloads
  pub grow :
      (T : Segment → List Bytes → Type 0)
      → ((s : Segment) (ps : List Bytes) → S s ps → T s ps)
      → (t : Segment) (bs : List Bytes) → T t (payloads ++ bs)
      → base_sequence t ≡ base_sequence last
      → t.start_index ≡ last.start_index
      → Contents T (set_last t ss) n (qs ++ bs)
  pub add :
      (t : Segment)
      → S t []
      → base_sequence t ≡ base_sequence last + length payloads
      → t.start_index ≡ 0
      → Contents S (ss ++ t ∷ []) n qs

module _ (S : Segment → List Bytes → Type 0)
    (f : (s : Segment) (ps : List Bytes) → S s ps → Held s ps) where
  single-LastOf :
      (s : Segment) (n : ℕ) (qs : List Bytes) → Contents S (s ∷ []) n qs → LastOf S (s ∷ []) n qs s
  single-LastOf s n qs h =
      let ps : List Bytes = h.payloads in
      let bound : s.start_index ≤ length ps = (f s ps h.sealed).rep.start_bound in
      let all : qs ≡ drop s.start_index ps =
        h.split ∙ ap (λ x. drop s.start_index ps ++ x) h.more ∙ append-nil _ in
      record {
        payloads = ps;
        holds = h.sealed;
        ends = omega (arith, ap length all, length-drop s.start_index ps, bound, h.starts);
        grow = λ T w t bs k e b. record {
          payloads = ps ++ bs;
          later = [];
          sealed = k;
          starts = omega (arith, h.starts, e, b);
          split =
              ap (λ x. x ++ bs) all
              ∙ sym (drop-append_le ps bs s.start_index bound)
              ∙ ap (λ (i : ℕ). drop i (ps ++ bs)) (sym b)
              ∙ sym (append-nil _);
          more = refl;
        };
        add = λ t k e b. record {
          payloads = ps;
          later = [];
          sealed = h.sealed;
          starts = h.starts;
          split = all ∙ sym (append-nil _);
          more = record {
            payloads = [];
            later = [];
            sealed = k;
            starts = omega (arith, e, b);
            split = ap (λ (i : ℕ). drop i [] ++ []) (sym b);
            more = refl;
          };
        };
      }

  pub last_from-LastOf :
      (s : Segment) (ss : List Segment) (n : ℕ) (qs : List Bytes)
      → Contents S (s ∷ ss) n qs
      → LastOf S (s ∷ ss) n qs (last_from s ss)
  last_from-LastOf s [] n qs h = single-LastOf s n qs h
  last_from-LastOf s (t ∷ ts) n qs h =
      let l = last_from-LastOf t ts (base_sequence s + length h.payloads) h.later h.more in
      let front : List Bytes = drop s.start_index h.payloads in
      let bound : s.start_index ≤ length h.payloads = (f s h.payloads h.sealed).rep.start_bound in
      record {
        payloads = l.payloads;
        holds = l.holds;
        ends = omega (
          arith,
          l.ends,
          ap length h.split,
          length-append front h.later,
          length-drop s.start_index h.payloads,
          bound,
          h.starts,
        );
        grow = λ T w u bs k e b. record {
          payloads = h.payloads;
          later = h.later ++ bs;
          sealed = w s h.payloads h.sealed;
          starts = h.starts;
          split = ap (λ x. x ++ bs) h.split ∙ append_assoc front h.later bs;
          more = l.grow T w u bs k e b;
        };
        add = λ u k e b. record {
          payloads = h.payloads;
          later = h.later;
          sealed = h.sealed;
          starts = h.starts;
          split = h.split;
          more = l.add u k e b;
        };
      }

  pub last_segment-LastOf :
      (ss : List Segment) (last : Segment) (n : ℕ) (qs : List Bytes)
      → last_segment ss ≡ ok last
      → Contents S ss n qs
      → LastOf S ss n qs last
  last_segment-LastOf [] last n qs e h = absurd cc
  last_segment-LastOf (s ∷ ss) last n qs e h =
      let same : last_from s ss ≡ last = cc in
      subst (LastOf S (s ∷ ss) n qs) same (last_from-LastOf s ss n qs h)
