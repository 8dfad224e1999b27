-- ===== src/Log/Sought.antt =====
-- Seek of the scanner of a log, and Range from there on.
use mathlib.Core.Path.{subst}
use alog.Common.{
  drop-get_some, ℕ, suc, ◌+◌, ◌-◌, ◌≤◌, ◌<◌, ◌≡◌, inl, inr, max, refl, sym, ap, ◌∙◌, arith, List,
  [], ◌∷◌, ◌++◌, none, length, take, drop, drop_all, drop_nil, drop-drop, drop-append_le,
  drop-append_ge, length-take, length-drop, length-append, take-append-drop, ltb, ltb→le, ltb→lt,
  if_both,
}
use alog.Bytes.{Bytes}
use alog.Exec.{Done, Exec}
use alog.Frame.Header.{max_uint32}
use alog.Segment.State.{Segment, append_size, base_sequence, start_sequence, next_sequence}
use alog.Segment.Layout.{offset_at}
use alog.Segment.Scanner
use alog.Segment.Scanner.{Scanner, new_scanner, placed}
use alog.Log.State.{Log}
use alog.Log.Scan.{LogScanner, new_limited_scanner, placed_at, seek_from, seek, stop_at}
use alog.Log.Consume.{all_bytes, range}
use alog.Log.Position.{Inside, At}
use alog.Chain.Seeking.{seek-Sealed}
use alog.Chain.Contents.{start_sequence-Sealed, next_sequence-Sealed, Sealed, Lines}
use alog.Log.Next.{each, range_loop-each}

-- The payloads of the segments take up bytes of their files.
Lines-bytes :
    (ss : List Segment) (n : ℕ) (qs : List Bytes) → Lines ss n qs → length qs ≤ all_bytes ss
Lines-bytes [] n qs l = omega (arith, ap length l)
Lines-bytes (s ∷ ss) n qs l = omega (
  arith,
  ap length l.split,
  length-append (drop s.start_index l.payloads) l.later,
  length-drop s.start_index l.payloads,
  l.sealed.whole,
  l.sealed.rep.end_offset,
  append_size-length l.payloads,
  Lines-bytes ss (base_sequence s + length l.payloads) l.later l.more,
)
  where
    append_size-length : (ps : List Bytes) → length ps ≤ append_size ps
    append_size-length [] = omega arith
    append_size-length (p ∷ ps) = omega (arith, append_size-length ps)

module _ (e start : ℕ) where
  -- In a segment that ends behind the number
  in_segment :
      (i : ℕ) (seg : Segment) (ss : List Segment) (n : ℕ) (qs : List Bytes) (s : LogScanner)
      → drop i s.segments ≡ seg ∷ ss
      → Lines (seg ∷ ss) n qs
      → s.pay_limit ≡ max_uint32
      → start < next_sequence seg
      → Inside e
          (stop_at e (
            placed_at i seg
              (Scanner.seek seg (max start (start_sequence seg)) (new_scanner seg s.pay_limit))
              s))
          (max start n)
          (drop (start - n) qs)
  unfolding stop_at new_scanner offset_at
  in_segment i seg ss n qs s d l limit below =
      let ps : List Bytes = l.payloads in
      let first : start_sequence seg ≡ base_sequence seg + seg.start_index =
        start_sequence-Sealed seg ps l.sealed in
      let end : next_sequence seg ≡ base_sequence seg + length ps =
        next_sequence-Sealed seg ps l.sealed in
      let bound : seg.start_index ≤ length ps = l.sealed.rep.start_bound in
      let seq : ℕ = max start (start_sequence seg) in
      let k : ℕ = seq - base_sequence seg in
      let count : length (take k ps) ≡ k =
        omega (arith, length-take k ps, first, end, bound, below) in
      let moved : seg.start_index + (start - n) ≡ k = omega (arith, first, l.starts) in
      subst (λ x. Inside e (stop_at e (placed_at i seg x s)) (max start n) (drop (start - n) qs))
        (sym (
          seek-Sealed seg ps seq (new_scanner seg s.pay_limit) l.sealed (omega (arith, first))
            (omega (arith, first, end, bound, below))))
        (record {
          sound = refl;
          bound = refl;
          unlimited = limit;
          segment = seg;
          scanner = record (new_scanner seg s.pay_limit) { index = k; offset = offset_at ps k };
          now = refl;
          here = (drop-get_some i s.segments seg ss d).0;
          front = take k ps;
          back = drop k ps;
          later = l.later;
          sealed = subst (Sealed seg) (sym (take-append-drop k ps)) l.sealed;
          readable_from = omega (arith, count, first);
          no_error = refl;
          limit = limit;
          index = sym count;
          offset = refl;
          number = omega (arith, count, first, l.starts);
          split =
              ap (drop (start - n)) l.split
              ∙ drop-append_le (drop seg.start_index ps) l.later (start - n)
                  (omega (arith, length-drop seg.start_index ps, l.starts, end, below))
              ∙ ap (λ x. x ++ l.later)
                  (drop-drop (start - n) seg.start_index ps ∙ ap (λ (j : ℕ). drop j ps) moved);
          more = rw ((drop-get_some i s.segments seg ss d).1, take-append-drop k ps) l.more;
        })

  pub seek_from-At :
      (i : ℕ) (segs : List Segment) (n : ℕ) (qs : List Bytes) (s : LogScanner)
      → drop i s.segments ≡ segs
      → Lines segs n qs
      → s.error ≡ none
      → s.current ≡ none
      → s.segment_index ≡ length s.segments
      → s.pay_limit ≡ max_uint32
      → At e (stop_at e (seek_from i segs start s)) (max start n) (drop (start - n) qs)
  unfolding seek_from stop_at
  seek_from-At i [] n qs s d l sound now last limit = inr (record {
    sound = sound;
    bound = refl;
    unlimited = limit;
    now = now;
    more =
        subst (λ x. Lines x (max start n) (drop (start - n) qs))
          (sym (drop_all s.segment_index s.segments (omega (arith, last))))
          (ap (drop (start - n)) l ∙ drop_nil (start - n));
  })
  seek_from-At i (seg ∷ segs) n qs s d l sound now last limit =
      let ps : List Bytes = l.payloads in
      let end : next_sequence seg ≡ base_sequence seg + length ps =
        next_sequence-Sealed seg ps l.sealed in
      let m : ℕ = base_sequence seg + length ps in
      if_both (λ x. At e (stop_at e x) (max start n) (drop (start - n) qs))
        (ltb start (next_sequence seg))
        (λ q. inl (in_segment i seg segs n qs s d l limit (ltb→lt start (next_sequence seg) q)))
        (λ q.
          let far : next_sequence seg ≤ start = ltb→le start (next_sequence seg) q in
          let same : max start m ≡ max start n =
            omega (arith, far, end, l.starts, l.sealed.rep.start_bound) in
          let rest : drop (start - m) l.later ≡ drop (start - n) qs = sym (
            ap (drop (start - n)) l.split
            ∙ drop-append_ge (drop seg.start_index ps) l.later (start - n) (start - m) (
                omega (
                  arith,
                  length-drop seg.start_index ps,
                  far,
                  end,
                  l.starts,
                  l.sealed.rep.start_bound,
                ))) in
          subst (λ (x : ℕ × List Bytes). At e (stop_at e (seek_from (i + 1) segs start s)) x.0 x.1)
            (λ j. (same j, rest j))
            (seek_from-At (i + 1) segs m l.later s (drop-get_some i s.segments seg segs d).1 l.more
              sound now last limit))

-- Range on contiguous segments whose readable payloads are `qs`, numbered from `n` on, calls `fn` with
-- each payload from the number `start` on and before the bound `end`, in order and with its number,
-- until one of the calls fails; it returns that error, and else none. The bound 0 is none. The files
-- can be read and end where their segments do, and the numbers do not wrap round 2 ^ 64.
pub range-each :
    {W : Type 0} (l : Log) (start end n : ℕ) (qs : List Bytes) (fn : ℕ → Bytes → Exec W Done)
    (w : W)
    → Lines l.chain.segments n qs
    → range l start end fn w ≡ each end fn (max start n) (drop (start - n) qs) w
unfolding range seek new_limited_scanner
range-each l start end n qs fn w h =
    let segments : List Segment = l.chain.segments in
    range_loop-each end fn (suc (all_bytes segments))
      (stop_at end (seek start (new_limited_scanner segments max_uint32))) (max start n)
      (drop (start - n) qs) w
      (seek_from-At end start 0 segments n qs
        (record {
          error = none;
          segments = segments;
          segment_index = length segments;
          current = none;
          borrowed = none;
          end_seq = 0;
          pay_limit = max_uint32;
        })
        refl h refl refl refl refl)
      (omega (arith, length-drop (start - n) qs, Lines-bytes segments n qs h))
