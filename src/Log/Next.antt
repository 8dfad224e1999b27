-- ===== src/Log/Next.antt =====
-- Next of the scanner of a log from wherever it stands, and the loop of Range.
use mathlib.Core.Path.{subst}
use alog.Common.{
  drop-get, ℕ, suc, zero, ◌+◌, ◌<◌, ◌≡◌, ◌⊎◌, inl, inr, refl, sym, ap, ◌∙◌, arith, Bool, true,
  false, List, [], ◌∷◌, ◌++◌, Option, none, some, length, drop, get_elem?, get_elem?-lt, ◌-◌,
  if_both, if◌then◌else◌,
}
use alog.Bytes.{Bytes}
use alog.Errors.{Err}
use alog.Exec.{Result, Done, Exec, ok, err}
use alog.Segment.State.{Segment, base_sequence, start_sequence}
use alog.Segment.Scanner
use alog.Segment.Scanner.{new_scanner}
use alog.Log.Scan.{LogScanner, turned, scanner_of, turn, next_loop, next}
use alog.Log.Consume.{called, given, visit, range_loop}
use alog.Log.Position.{is_past, Inside, Between, At, Moves}
use alog.Chain.Contents.{start_sequence-Sealed, Lines}
use alog.Log.Advance.{entered, turned-Moves, past_mono}

-- Range, as one goes through a list of payloads, numbered from `n` on, up to the bound `e`.
abbrev pub each : {W : Type 0} → ℕ → (ℕ → Bytes → Exec W Done) → ℕ → List Bytes → Exec W Done
each e fn n [] w = (ok tt, w)
each e fn n (q ∷ qs) w =
    if is_past e n then (ok tt, w) else called (each e fn (n + 1) qs) (fn n q w)

-- Each turn sets `current`, whatever it was.
turned-current :
    (seg : Segment) (x : Bool × Scanner.Scanner) (later : LogScanner → Bool × LogScanner)
    (s : LogScanner) (c : Option (Segment × Scanner.Scanner))
    → turned seg x later (record s { current = c }) ≡ turned seg x later s
turned-current seg (true, sc) later s c = refl
turned-current seg (false, sc) later s c = refl

module _ (e n : ℕ) (qs : List Bytes) where
  -- A turn of the loop at a segment, whose scanner may just have been made
  turn-Moves :
      (s : LogScanner) (c : Option (Segment × Scanner.Scanner))
      (i : Inside e (record s { current = c }) n qs) (later : LogScanner → Bool × LogScanner)
      → scanner_of i.segment s ≡ (i.segment, i.scanner)
      → ((u : LogScanner)
          → u.segments ≡ s.segments
          → u.segment_index ≡ s.segment_index + 1
          → Between e u n qs
          → Moves e n qs (later u))
      → Moves e n qs (turn later (some i.segment) s)
  turn-Moves s c i later made k =
      let start : start_sequence i.segment ≡ base_sequence i.segment + i.segment.start_index =
        start_sequence-Sealed i.segment (i.front ++ i.back) i.sealed in
      if_both (Moves e n qs) (is_past s.end_seq (start_sequence i.segment))
        (λ q. (
          i.sound,
          inr (
              past_mono e (start_sequence i.segment) n (omega (arith, i.number, i.readable_from))
                (ap (λ m. is_past m (start_sequence i.segment)) (sym i.bound) ∙ q)),
        ))
        (λ _.
          subst
            (λ (x : Segment × Scanner.Scanner).
              Moves e n qs (turned x.0 (Scanner.next x.0 x.1) later s))
            (sym made)
            (subst (Moves e n qs)
              (turned-current i.segment (Scanner.next i.segment i.scanner) later s c)
              (turned-Moves e n qs (record s { current = c }) i later k)))

  enter-Moves :
      (s : LogScanner) (later : LogScanner → Bool × LogScanner) (ss : List Segment)
      → Between e s n qs
      → drop s.segment_index s.segments ≡ ss
      → (s.segment_index < length s.segments
          → (u : LogScanner) → u.segments ≡ s.segments
          → u.segment_index ≡ s.segment_index + 1
          → Between e u n qs
          → Moves e n qs (later u))
      → Moves e n qs (turn later (get_elem? s.segments s.segment_index) s)
  enter-Moves s later [] b d k =
      rw (drop-get s.segment_index s.segments d) (b.sound, inl (subst (λ x. Lines x n qs) d b.more))
  enter-Moves s later (seg ∷ ss) b d k =
      let i = entered e s n qs seg ss b d in
      let made : (seg, new_scanner seg s.pay_limit) ≡ (i.segment, i.scanner) =
        let now = i.now in cc in
      let scanner : new_scanner i.segment s.pay_limit ≡ i.scanner =
        ap (λ (x : Segment × Scanner.Scanner). new_scanner x.0 s.pay_limit) (sym made)
        ∙ ap (λ (x : Segment × Scanner.Scanner). x.1) made in
      rw i.here (
        turn-Moves s (some (seg, new_scanner seg s.pay_limit)) i later
          (ap (λ o. elim o [ some p ↦ p | none ↦ (i.segment, new_scanner i.segment s.pay_limit) ])
              b.now
            ∙ ap (λ x. (i.segment, x)) scanner)
          (k (get_elem?-lt s.segments s.segment_index i.segment i.here)))

  next_loop-Moves :
      (fuel : ℕ) (s : LogScanner)
      → Between e s n qs
      → length s.segments - s.segment_index < fuel
      → Moves e n qs (next_loop fuel s)
  unfolding next_loop
  next_loop-Moves zero s b f = absurd (omega arith)
  next_loop-Moves (suc fuel) s b f =
      enter-Moves s (next_loop fuel) (drop s.segment_index s.segments) b refl (λ room u same step c.
        next_loop-Moves fuel u c (omega (arith, f, room, ap length same, step)))

  Begun : LogScanner → Option Err → Type 0
  Begun s o =
      Moves e n qs (elim o [ some d ↦ (false, s) | none ↦ next_loop (suc (length s.segments)) s ])

  pub next-Moves : (s : LogScanner) → At e s n qs → Moves e n qs (next s)
  unfolding next next_loop Begun
  next-Moves s (inr b) =
      subst (Begun s) (sym b.sound) (next_loop-Moves (suc (length s.segments)) s b (omega arith))
  next-Moves s (inl i) =
      let made : scanner_of i.segment s ≡ (i.segment, i.scanner) =
        ap (λ o. elim o [ some p ↦ p | none ↦ (i.segment, new_scanner i.segment s.pay_limit) ])
          i.now in
      let last : s.segment_index < length s.segments =
        get_elem?-lt s.segments s.segment_index i.segment i.here in
      subst (Begun s) (sym i.sound) (
        subst (λ o. Moves e n qs (turn (next_loop (length s.segments)) o s)) (sym i.here)
          (turn-Moves s s.current i (next_loop (length s.segments)) made (λ u same step c.
            next_loop-Moves (length s.segments) u c (omega (arith, last, ap length same, step)))))

-- The calls of the callback, with the same to follow
called_cong :
    {W : Type 0} (f g : W → Result Done × W) (x : Result Done × W)
    → ((w : W) → f w ≡ g w)
    → called f x ≡ called g x
called_cong f g (ok a, w) h = h w
called_cong f g (err d, w) h = refl

module _ {W : Type 0} (e : ℕ) (fn : ℕ → Bytes → Exec W Done) where
  stopped :
      (n : ℕ) (qs : List Bytes) (w : W)
      → ((qs ≡ []) ⊎ (is_past e n ≡ true))
      → each e fn n qs w ≡ (ok tt, w)
  stopped n [] w h = refl
  stopped n (q ∷ qs) w (inl h) = absurd cc
  stopped n (q ∷ qs) w (inr h) = rw h refl

  first :
      (n : ℕ) (qs : List Bytes) (q : Bytes) (rs : List Bytes) (w : W)
      → qs ≡ q ∷ rs
      → is_past e n ≡ false
      → each e fn n qs w ≡ called (each e fn (n + 1) rs) (fn n q w)
  first n qs q rs w split before =
      ap (λ x. each e fn n x w) split
      ∙ ap (λ b. if b then (ok tt, w) else called (each e fn (n + 1) rs) (fn n q w)) before

  pub range_loop-each :
      (fuel : ℕ) (s : LogScanner) (n : ℕ) (qs : List Bytes) (w : W)
      → At e s n qs
      → length qs < fuel
      → range_loop fuel fn s w ≡ each e fn n qs w
  unfolding range_loop
  range_loop-each zero s n qs w h f = absurd (omega arith)
  range_loop-each (suc fuel) s n qs w h f =
      go (next s) (next-Moves e n qs s h) (λ t m rs v a b. range_loop-each fuel t m rs v a b)
    where
      go :
          (x : Bool × LogScanner)
          → Moves e n qs x
          → ((t : LogScanner) (m : ℕ) (rs : List Bytes) (v : W)
              → At e t m rs
              → length rs < fuel
              → range_loop fuel fn t v ≡ each e fn m rs v)
          → visit (λ t. range_loop fuel fn t) fn x w ≡ each e fn n qs w
      go (false, t) m k = rw m.0 (sym (stopped n qs w m.1))
      go (true, t) m k =
          ap (λ o. given (range_loop fuel fn t) fn o w) m.lent
          ∙ called_cong (range_loop fuel fn t) (each e fn (n + 1) m.rest) (fn n m.payload w)
              (λ v. k t (n + 1) m.rest v m.after (omega (arith, f, ap length m.split)))
          ∙ sym (first n qs m.payload m.rest w m.split m.before)
