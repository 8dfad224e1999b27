-- ===== src/Chain/Cut.antt =====
-- A segment of a chain by its place, and what becomes of the chain's payloads when the segment is cut
-- and those behind it go.
use mathlib.Core.Path.{subst}
use alog.Common.{
  ℕ, zero, suc, ◌+◌, ◌-◌, ◌≤◌, ◌≡◌, refl, sym, ap, ◌∙◌, arith, List, [], ◌∷◌, some, length, take,
  drop, get_elem?, append-nil, length-take, length-drop, take-append_le, take-append_ge, drop-take,
}
use alog.Exec.Post.{Post, Post_mono}
use alog.Bytes.{Bytes}
use alog.Storage.Changes.{IsReadable-SameHandle}
use alog.Segment.Header.{start_sequence}
use alog.Segment.State.{Segment, base_sequence}
use alog.Segment.Cut.{truncate_exact}
use alog.Segment.Write
use alog.Chain.Truncate.{set_at}
use alog.Chain.Contents.{Sealed, Lines}

pub record PlaceOf (ss : List Segment) (n : ℕ) (qs : List Bytes) (k : ℕ) (s : Segment)
    : Type 0 where
  pub payloads : List Bytes
  pub holds : Sealed s payloads
  pub before : ℕ
  pub starts : n + before ≡ base_sequence s + s.start_index
  pub cut :
      (t : Segment) (m : ℕ)
      → Sealed t (take m payloads)
      → base_sequence t ≡ base_sequence s
      → t.start_index ≡ s.start_index
      → s.start_index ≤ m
      → m ≤ length payloads
      → Lines (set_at k t (take (k + 1) ss)) n (take (before + (m - s.start_index)) qs)

first-PlaceOf :
    (s : Segment) (ss : List Segment) (n : ℕ) (qs : List Bytes)
    → Lines (s ∷ ss) n qs
    → PlaceOf (s ∷ ss) n qs 0 s
first-PlaceOf s ss n qs h = record {
  payloads = h.payloads;
  holds = h.sealed;
  before = 0;
  starts = omega (arith, h.starts);
  cut = λ t m k e b low high. record {
    payloads = take m h.payloads;
    later = [];
    sealed = k;
    starts = omega (arith, h.starts, e, b);
    split =
        let none_before : 0 + (m - s.start_index) ≡ m - s.start_index = omega arith in
        ap (λ (x : ℕ). take x qs) none_before
        ∙ ap (take (m - s.start_index)) h.split
        ∙ take-append_le (drop s.start_index h.payloads) h.later (m - s.start_index)
            (omega (arith, length-drop s.start_index h.payloads, high))
        ∙ sym (drop-take s.start_index m h.payloads)
        ∙ ap (λ (x : ℕ). drop x (take m h.payloads)) (sym b)
        ∙ sym (append-nil _);
    more = refl;
  };
}

pub get_elem?-PlaceOf :
    (ss : List Segment) (n : ℕ) (qs : List Bytes) (k : ℕ) (s : Segment)
    → get_elem? ss k ≡ some s
    → Lines ss n qs
    → PlaceOf ss n qs k s
get_elem?-PlaceOf [] n qs k s e h = absurd cc
get_elem?-PlaceOf (t ∷ ts) n qs zero s e h =
    let same : t ≡ s = cc in subst (PlaceOf (t ∷ ts) n qs 0) same (first-PlaceOf t ts n qs h)
get_elem?-PlaceOf (t ∷ ts) n qs (suc k) s e h =
    let p = get_elem?-PlaceOf ts (base_sequence t + length h.payloads) h.later k s e h.more in
    let front : List Bytes = drop t.start_index h.payloads in
    let bound : t.start_index ≤ length h.payloads = h.sealed.rep.start_bound in
    let size : length front + t.start_index ≡ length h.payloads =
      omega (arith, length-drop t.start_index h.payloads, bound) in
    record {
      payloads = p.payloads;
      holds = p.holds;
      before = length front + p.before;
      starts = omega (arith, p.starts, h.starts, size);
      cut = λ u m d a b low high.
          let z : suc k + 1 ≡ suc (k + 1) = omega arith in
          let more = p.before + (m - s.start_index) in
          subst
            (λ (x : ℕ).
              Lines (set_at (suc k) u (take x (t ∷ ts))) n
                (take (length front + p.before + (m - s.start_index)) qs))
            (sym z)
            (record {
              payloads = h.payloads;
              later = take more h.later;
              sealed = h.sealed;
              starts = h.starts;
              split =
                  ap (take (length front + p.before + (m - s.start_index))) h.split
                  ∙ take-append_ge front h.later (length front + p.before + (m - s.start_index))
                      more (omega arith);
              more = p.cut u m d a b low high;
            });
    }

-- A segment that Truncate has cut, on all that the segment holds
pub truncate-Sealed :
    (s : Segment) (ps : List Bytes) (seq : ℕ)
    → Sealed s ps
    → base_sequence s + s.start_index ≤ seq
    → seq ≤ base_sequence s + length ps
    → Post
        (Write.truncate seq s)
        (λ _ t.
          Sealed t (take (seq - base_sequence s) ps)
          × (base_sequence t ≡ base_sequence s)
          × (t.start_index ≡ s.start_index))
        (λ _ _. Unit)
unfolding base_sequence
truncate-Sealed s ps seq h low high =
    let k : ℕ = seq - base_sequence s in
    Post_mono _ (truncate_exact s ps seq h.rep h.readable h.room low high)
      (λ _ t (r, c). (
        record {
          rep = r;
          readable = IsReadable-SameHandle s.file t.file c.ends.handle h.readable;
          whole = c.ends.whole;
          room = omega (arith, length-take k ps, h.room, ap start_sequence c.same_header);
        },
        ap start_sequence c.same_header,
        c.same_start,
      ))
      (λ _ _ _. tt)
