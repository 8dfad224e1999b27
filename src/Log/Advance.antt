-- ===== src/Log/Advance.antt =====
-- Next of the scanner of a log, over the payloads that are still to come.
use mathlib.Core.Path.{subst}
use alog.Common.{
  drop-get_some, ℕ, ◌+◌, ◌≤◌, ◌<◌, ◌≡◌, inl, inr, refl, sym, ap, ◌∙◌, arith, Bool, true, false,
  ◌&&◌, List, [], ◌∷◌, ◌++◌, none, some, ltb, leb, length, take, drop, append-nil, append_assoc,
  length-append, length-take, take-append-drop, if_both, if◌then◌else◌,
}
use alog.Bytes.{Bytes}
use alog.Exec.{ok}
use alog.Frame.Header.Laws.{index-new_header}
use alog.Frame.Read.Laws.{frame_of}
use alog.Segment.State.{Segment, append_size, base_sequence}
use alog.Segment.Layout.{offset_at}
use alog.Segment.Scanner
use alog.Segment.Scanner.{new_scanner}
use alog.Segment.Scan.{next_exact, next_end}
use alog.Log.Scan.{LogScanner, borrow, sequence_of, turned, reaped}
use alog.Log.Position.{is_past, Inside, Between, Moves}
use alog.Chain.Contents.{Sealed, Lines}

-- The numbers of a segment do not wrap round.
pub sequence_of-frame :
    (s : Segment) (ps : List Bytes) (k : ℕ) (p : Bytes)
    → Sealed s ps
    → k < length ps
    → sequence_of s (frame_of k p) ≡ base_sequence s + k
sequence_of-frame s ps k p h below =
    omega (arith, index-new_header k p (omega (arith, h.rep.small)), h.room)

-- What is past a number is past all that come after.
pub past_mono : (e m n : ℕ) → m ≤ n → is_past e m ≡ true → is_past e n ≡ true
past_mono e m n h p = ground arith

-- A scanner at the start of a segment, as if it were made there.
pub entered :
    (e : ℕ) (s : LogScanner) (n : ℕ) (qs : List Bytes) (seg : Segment) (ss : List Segment)
    → Between e s n qs
    → drop s.segment_index s.segments ≡ seg ∷ ss
    → Inside e (record s { current = some (seg, new_scanner seg s.pay_limit) }) n qs
unfolding new_scanner offset_at
entered e s n qs seg ss b d =
    let l = subst (λ x. Lines x n qs) d b.more in
    let k : ℕ = seg.start_index in
    let parts : take k l.payloads ++ drop k l.payloads ≡ l.payloads =
      take-append-drop k l.payloads in
    let count : length (take k l.payloads) ≡ k =
      omega (arith, length-take k l.payloads, l.sealed.rep.start_bound) in
    record {
      sound = b.sound;
      bound = b.bound;
      unlimited = b.unlimited;
      segment = seg;
      scanner = new_scanner seg s.pay_limit;
      now = refl;
      here = (drop-get_some s.segment_index s.segments seg ss d).0;
      front = take k l.payloads;
      back = drop k l.payloads;
      later = l.later;
      sealed = subst (Sealed seg) (sym parts) l.sealed;
      readable_from = omega arith;
      no_error = refl;
      limit = b.unlimited;
      index = sym count;
      offset = omega (arith, l.sealed.rep.start);
      number = omega (arith, l.starts);
      split = l.split;
      more = rw ((drop-get_some s.segment_index s.segments seg ss d).1, parts) l.more;
    }

module _ (e n : ℕ) (qs : List Bytes) (s : LogScanner) (i : Inside e s n qs) where
  -- The scanner of the segment behind the payload `p`, and that of the log
  beyond : Bytes → Scanner.Scanner
  beyond p = record i.scanner {
    borrowed = some (frame_of (length i.front) p);
    offset = 64 + append_size (i.front ++ p ∷ []);
    index = length (i.front ++ p ∷ []);
  }

  lending : Bytes → LogScanner
  unfolding beyond
  lending p = record s {
    current = some (i.segment, beyond p);
    borrowed = some (frame_of (length i.front) p);
  }

  module _ (p : Bytes) (back : List Bytes) (b : i.back ≡ p ∷ back) where
    joined : i.front ++ i.back ≡ (i.front ++ p ∷ []) ++ back
    joined = ap (λ x. i.front ++ x) b ∙ sym (append_assoc i.front (p ∷ []) back)

    passed : Inside e (lending p) (n + 1) (back ++ i.later)
    unfolding lending beyond
    passed = record {
      sound = i.sound;
      bound = i.bound;
      unlimited = i.unlimited;
      segment = i.segment;
      scanner = beyond p;
      now = refl;
      here = i.here;
      front = i.front ++ p ∷ [];
      back = back;
      later = i.later;
      sealed = subst (Sealed i.segment) joined i.sealed;
      readable_from = omega (arith, i.readable_from, length-append i.front (p ∷ []));
      no_error = i.no_error;
      limit = i.limit;
      index = refl;
      offset = refl;
      number = omega (arith, i.number, length-append i.front (p ∷ []));
      split = refl;
      more =
          subst
            (λ x.
              Lines (drop (s.segment_index + 1) s.segments) (base_sequence i.segment + length x)
                i.later)
            joined i.more;
    }

    sequence : sequence_of i.segment (frame_of (length i.front) p) ≡ n
    sequence =
        sequence_of-frame i.segment (i.front ++ i.back) (length i.front) p i.sealed (
          omega (
            arith,
            ap length joined,
            length-append (i.front ++ p ∷ []) back,
            length-append i.front (p ∷ []),
          ))
        ∙ sym i.number

    read_frame : Scanner.next i.segment i.scanner ≡ (true, beyond p)
    unfolding beyond
    read_frame =
        let sealed : Sealed i.segment (i.front ++ p ∷ back) =
          subst (λ x. Sealed i.segment (i.front ++ x)) b i.sealed in
        next_exact i.segment i.front p back sealed.rep sealed.readable i.scanner i.no_error i.limit
          i.index i.offset

    -- A frame has been read: the bound is looked at.
    lent_or_past :
        (later : LogScanner → Bool × LogScanner)
        → Moves e n qs (turned i.segment (Scanner.next i.segment i.scanner) later s)
    unfolding lending beyond borrow
    lent_or_past later =
        let looked : ℕ → ℕ → Bool × LogScanner = λ m o.
          if ltb 0 m && leb m o
          then (false, record (lending p) { borrowed = none })
          else (true, lending p) in
        subst (λ x. Moves e n qs (turned i.segment x later s)) (sym read_frame)
          (subst (λ o. Moves e n qs (looked s.end_seq o)) (sym sequence)
            (subst (λ m. Moves e n qs (looked m n)) (sym i.bound)
              (if_both (Moves e n qs) (is_past e n) (λ q. (i.sound, inr q))
                (λ q. record {
                  payload = p;
                  rest = back ++ i.later;
                  split = i.split ∙ ap (λ x. x ++ i.later) b;
                  before = q;
                  place = length i.front;
                  lent = ap (λ m. ok (m, frame_of (length i.front) p)) sequence;
                  after = inl passed;
                }))))

  -- The segment has no more: the next one is in front.
  crossed :
      i.back ≡ []
      → Between e (record s { segment_index = s.segment_index + 1; current = none }) n qs
  crossed b = record {
    sound = i.sound;
    bound = i.bound;
    unlimited = i.unlimited;
    now = refl;
    more =
        let count : base_sequence i.segment + length (i.front ++ i.back) ≡ n =
          omega (arith, i.number, length-append i.front i.back, ap length b) in
        let rest : i.later ≡ qs = sym (i.split ∙ ap (λ x. x ++ i.later) b) in
        subst (λ (x : ℕ × List Bytes). Lines (drop (s.segment_index + 1) s.segments) x.0 x.1)
          (λ j. (count j, rest j)) i.more;
  }

  exhausted : i.back ≡ [] → Scanner.next i.segment i.scanner ≡ (false, i.scanner)
  exhausted b =
      let front : i.front ++ i.back ≡ i.front = ap (λ x. i.front ++ x) b ∙ append-nil i.front in
      let sealed : Sealed i.segment i.front = subst (Sealed i.segment) front i.sealed in
      next_end i.segment i.front sealed.rep sealed.readable sealed.whole i.scanner i.no_error
        i.limit i.index i.offset

  pub turned-Moves :
      (later : LogScanner → Bool × LogScanner)
      → ((t : LogScanner)
          → t.segments ≡ s.segments
          → t.segment_index ≡ s.segment_index + 1
          → Between e t n qs
          → Moves e n qs (later t))
      → Moves e n qs (turned i.segment (Scanner.next i.segment i.scanner) later s)
  turned-Moves later k = go i.back refl
    where
      go :
          (back : List Bytes)
          → i.back ≡ back
          → Moves e n qs (turned i.segment (Scanner.next i.segment i.scanner) later s)
      go [] b =
          subst (λ x. Moves e n qs (turned i.segment x later s)) (sym (exhausted b))
            (subst
              (λ x. Moves e n qs (elim x [
                | some d ↦ (
                  false,
                  record s { current = some (i.segment, i.scanner); error = some (reaped d) },
                )
                | none ↦ later (record s { segment_index = s.segment_index + 1; current = none })
              ]))
              (sym i.no_error) (k _ refl refl (crossed b)))
      go (p ∷ back) b = lent_or_past p back b later
