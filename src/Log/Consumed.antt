-- ===== src/Log/Consumed.antt =====
-- Consume: which payloads it passes to the callback, and where its cursor goes.
use mathlib.Core.Path.{subst}
use alog.Common.{
  zero, suc, true, false, Bool, ltb→le, ==_iff, ltb→le, false, Bool, true, ==_iff, suc, ℕ, ◌+◌, ◌-◌,
  ◌%◌, ◌^◌, ◌≤◌, ◌<◌, ◌≡◌, max, refl, sym, ap, ◌∙◌, arith, List, [], ◌∷◌, length, length-drop, drop,
  ltb, ◌==◌, if_both,
}
use alog.Bytes.{Bytes}
use alog.Errors.{Err, join}
use alog.Exec.{Result, Done, Exec, ok, err}
use alog.Segment.State.{Segment}
use alog.Chain.Truncate
use alog.Log.State.{Log, head, truncate_before}
use alog.Log.Consume.{called, noted, noting, range, consume_start, joined, consumed, consume}
use alog.Chain.Contents.{start_sequence-Sealed, Lines}
use alog.Log.Next.{each}
use alog.Log.Sought.{range-each}

-- How many payloads the callback takes before the first that it fails for
abbrev pub count_from : {W : Type 0} → (W → ℕ) → Result Done × W → ℕ
count_from later (ok x, w) = later w + 1
count_from later (err e, w) = 0

abbrev pub accepted : {W : Type 0} → (ℕ → Bytes → Exec W Done) → ℕ → List Bytes → W → ℕ
accepted fn n [] w = 0
accepted fn n (q ∷ qs) w = count_from (accepted fn (n + 1) qs) (fn n q w)

module _ {W : Type 0} (fn : ℕ → Bytes → Exec W Done) where
  each-noting :
      (n : ℕ) (qs : List Bytes) (w : W)
      → n + length qs < 2 ^ 64
      → each 0 (noting fn) n qs (n, w)
        ≡ ((each 0 fn n qs w).0, (n + accepted fn n qs w, (each 0 fn n qs w).1))
  each-noting n [] w h = ap (λ (m : ℕ). (ok tt, (m, w))) (let z : n ≡ n + 0 = omega arith in z)
  each-noting n (q ∷ qs) w h = go (fn n q w) (λ v. each-noting (n + 1) qs v (omega (arith, h)))
    where
      go :
          (x : Result Done × W)
          → ((v : W)
              → each 0 (noting fn) (n + 1) qs (n + 1, v) ≡ (
                (each 0 fn (n + 1) qs v).0,
                (n + 1 + accepted fn (n + 1) qs v, (each 0 fn (n + 1) qs v).1),
              ))
          → called (each 0 (noting fn) (n + 1) qs) (noted n n x) ≡ (
            (called (each 0 fn (n + 1) qs) x).0,
            (n + count_from (accepted fn (n + 1) qs) x, (called (each 0 fn (n + 1) qs) x).1),
          )
      go (ok tt, v) k =
          let fits : (n + 1) % 2 ^ 64 ≡ n + 1 = omega (arith, h) in
          let a : ℕ = accepted fn (n + 1) qs v in
          ap (λ (m : ℕ). each 0 (noting fn) (n + 1) qs (m, v)) fits
          ∙ k v
          ∙ ap (λ (m : ℕ). ((each 0 fn (n + 1) qs v).0, (m, (each 0 fn (n + 1) qs v).1)))
              (let z : n + 1 + a ≡ n + (a + 1) = omega arith in z)
      go (err e, v) k = ap (λ (m : ℕ). (err e, (m, v))) (let z : n ≡ n + 0 = omega arith in z)

-- Whether payloads have been taken since the cursor, when the callback has taken `a` from `start` on
abbrev pub moves : Result Done → ℕ → ℕ → ℕ → Bool
moves (ok x) old start zero = false
moves (ok x) old start (suc a) = true
moves (err e) old start a = ltb old (start + a)

-- Where the cursor then is: it stays only if there was nothing to take.
abbrev pub cursor_after : Result Done → ℕ → ℕ → ℕ → ℕ
cursor_after (ok x) old start zero = old
cursor_after (ok x) old start (suc a) = start + suc a
cursor_after (err e) old start a = start + a

-- What is returned, by the callback's result and that of the truncation
abbrev pub reported : Result Done → Result Done → Result Done
reported (ok x) cut = cut
reported (err e) (ok x) = err e
reported (err e) (err d) = err (join e d)

-- What Consume leaves of the log, and what it returns
pub record Settled (r : Result Done) (start a : ℕ) (l : Log) (x : Result Done × Log) : Type 0 where
  pub cursor : x.1.next_consume_seq ≡ cursor_after r l.next_consume_seq start a
  pub dropped :
      moves r l.next_consume_seq start a ≡ true
      → (x.1.chain ≡ (Truncate.truncate_before (start + a) l.chain).1)
        × (x.0 ≡ reported r (Truncate.truncate_before (start + a) l.chain).0)
  pub kept : moves r l.next_consume_seq start a ≡ false → (x.1.chain ≡ l.chain) × (x.0 ≡ r)

joined-reported : (e : Err) (d : Result Done) → joined e d ≡ reported (err e) d
joined-reported e (ok x) = refl
joined-reported e (err d) = refl

consumed-Settled :
    (start : ℕ) (r : Result Done) (a : ℕ) (l : Log)
    → l.next_consume_seq ≤ start
    → Settled r start a l (consumed start r (start + a) l)
unfolding truncate_before
consumed-Settled start (ok x) zero l h =
    rw ((==_iff (start + 0) start).1 (omega arith))
      (record { cursor = refl; dropped = λ q. absurd (let e = q in cc); kept = λ _. (refl, refl) })
consumed-Settled start (ok x) (suc a) l h =
    let other : (start + suc a == start) ≡ false = ground arith in
    rw other
      (record { cursor = refl; dropped = λ _. (refl, refl); kept = λ q. absurd (let e = q in cc) })
consumed-Settled start (err e) a l h =
    if_both (Settled (err e) start a l) (ltb l.next_consume_seq (start + a))
      (λ q. record {
        cursor = refl;
        dropped = λ _. (refl, joined-reported e _);
        kept = λ p. absurd cc;
      })
      (λ q. record {
        cursor = omega (arith, h, ltb→le l.next_consume_seq (start + a) q);
        dropped = λ p. absurd cc;
        kept = λ _. (refl, refl);
      })

consume_start-head : (l : Log) (from_seq : ℕ) → head l ≤ consume_start l from_seq
consume_start-head l from_seq = ground arith

consume_start-cursor : (l : Log) (from_seq : ℕ) → l.next_consume_seq ≤ consume_start l from_seq
consume_start-cursor l from_seq = ground arith

pub head-Lines :
    (l : Log) (s : Segment) (ss : List Segment) (n : ℕ) (qs : List Bytes)
    → l.chain.segments ≡ s ∷ ss
    → Lines (s ∷ ss) n qs
    → head l ≡ n
unfolding head
head-Lines l s ss n qs e h = rw e (start_sequence-Sealed s h.payloads h.sealed ∙ sym h.starts)

-- Consume on contiguous segments whose readable payloads are `qs`, numbered from `n` on: the callback
-- gets what Range would give it from `consume_start` on, up to its first error. The cursor then goes to
-- the number of the first payload that the callback has not taken, whether or not the truncation fails,
-- and stays only if the callback had nothing to take and no error. If that number is beyond the cursor,
-- or payloads were taken, the chain is truncated before it, and the result is the callback's error
-- joined with that of the truncation, or the one that there is; else the chain stays, and the result is
-- that of the callback. The numbers do not wrap round 2 ^ 64.
pub consume-cursor :
    {W : Type 0} (l : Log) (s : Segment) (ss : List Segment) (n : ℕ) (qs : List Bytes)
    (from_seq : ℕ) (fn : ℕ → Bytes → Exec W Done) (w : W)
    → l.chain.segments ≡ s ∷ ss
    → Lines (s ∷ ss) n qs
    → consume_start l from_seq + length qs < 2 ^ 64
    → let start = consume_start l from_seq in
      let rest = drop (start - n) qs in
      let x = consume from_seq fn (l, w) in
      (x.1.1 ≡ (each 0 fn start rest w).1)
      × Settled (each 0 fn start rest w).0 start (accepted fn start rest w) l (x.0, x.1.0)
unfolding consume
consume-cursor l s ss n qs from_seq fn w e h room =
    let start : ℕ = consume_start l from_seq in
    let rest : List Bytes = drop (start - n) qs in
    let above : max start n ≡ start =
      omega (arith, consume_start-head l from_seq, head-Lines l s ss n qs e h) in
    let ran : range l start 0 (noting fn) (start, w) ≡ (
      (each 0 fn start rest w).0,
      (start + accepted fn start rest w, (each 0 fn start rest w).1),
    ) =
      range-each l start 0 n qs (noting fn) (start, w) (subst (λ x. Lines x n qs) (sym e) h)
      ∙ ap (λ (m : ℕ). each 0 (noting fn) m rest (start, w)) above
      ∙ each-noting fn start rest w (omega (arith, room, length-drop (start - n) qs)) in
    let goes =
      consumed-Settled start (each 0 fn start rest w).0 (accepted fn start rest w) l
        (consume_start-cursor l from_seq) in
    rw ran (refl, goes)
