-- ===== src/Chain/Dropped.antt =====
-- The segments of a chain from a place on, and what they hold.
use mathlib.Core.Path.{subst}
use alog.Common.{
  drop_nil, ℕ, zero, suc, ◌+◌, ◌-◌, ◌≤◌, ◌<◌, ◌≡◌, refl, sym, ap, ◌∙◌, arith, List, [], ◌∷◌, ◌++◌,
  length, drop, drop-drop, drop-append_le, length-drop,
}
use alog.Exec.{Result, ok, err, Done}
use alog.Exec.Post.{Post, Post_mono, Post-bind}
use alog.Bytes.{Bytes}
use alog.Segment.State.{Segment, size, base_sequence}
use alog.Segment.Write
use alog.Segment.Write.{set_read_offset}
use alog.Chain.State.{Chain, on_fs}
use alog.Chain.Files.{remove}
use alog.Chain.Sound.{on_fs-Post}
use alog.Chain.Truncate.{set_at, segment_at, put_back, on_segment, remove_range}
use alog.Chain.Contents.{Sealed, Sealed-Held, Lines, Line, Contents-rest}
use alog.Chain.Restarted.{From}
use alog.Chain.Shortened.{segment_at-found}

drop-set_at :
    (j i : ℕ) (t : Segment) (ss : List Segment) → i < j → drop j (set_at i t ss) ≡ drop j ss
drop-set_at zero i t ss h = absurd (omega arith)
drop-set_at (suc j) i t [] h = refl
drop-set_at (suc j) zero t (s ∷ ss) h = refl
drop-set_at (suc j) (suc i) t (s ∷ ss) h = drop-set_at j i t ss (omega arith)

module _ (j : ℕ) where
  -- The segments from the place `j` on are as they were.
  abbrev Back : Chain → Chain → Type 0
  Back c d = drop j d.segments ≡ drop j c.segments

  put_back-Back :
      (i : ℕ) (x : Result Done × Segment) (c : Chain)
      → i < j
      → Post (put_back i x c) (λ _ d. Back c d) (λ _ _. Unit)
  put_back-Back i (ok a, t) c h = record { holds = drop-set_at j i t c.segments h }
  put_back-Back i (err e, t) c h = record { holds = tt }

  pub remove_range-Back :
      (n i : ℕ) (c : Chain) → i + n ≤ j → Post (remove_range n i c) (λ _ d. Back c d) (λ _ _. Unit)
  unfolding remove_range
  remove_range-Back zero i c h = record { holds = refl }
  remove_range-Back (suc n) i c h =
      Post-bind (segment_at i) _ c {R = λ _ d. d ≡ c} (segment_at-found i c) λ s d a.
        Post-bind (on_segment i Write.close) _ d {R = λ _ u. Back c u}
          (Post-bind (segment_at i) (λ t. put_back i (Write.close t)) d {R = λ _ u. Back c u}
            (Post_mono _ (segment_at-found i d)
              (λ _ u b. ap (λ (x : Chain). drop j x.segments) (b ∙ a)) (λ _ _ _. tt))
            λ t u b.
              Post_mono _ (put_back-Back i (Write.close t) u (omega (arith, h))) (λ _ v k. k ∙ b)
                (λ _ _ _. tt))
          λ _ u b.
            Post-bind (on_fs (remove s.file.name)) _ u {R = λ _ v. Back c v}
              (Post_mono _ (on_fs-Post (remove s.file.name) u)
                (λ _ v e. ap (λ (x : Chain). drop j x.segments) e ∙ b) (λ _ _ _. tt))
              λ _ v k.
                Post_mono _
                  (remove_range-Back n (suc i) (record v { disk_size = v.disk_size - size s })
                    (omega (arith, h)))
                  (λ _ w l. l ∙ k) (λ _ _ _. tt)

-- The payloads from a segment on
pub Lines-drop :
    (k : ℕ) (ss : List Segment) (n : ℕ) (qs : List Bytes)
    → Lines ss n qs
    → k ≤ length ss
    → (j : ℕ) × (j ≤ length qs) × Lines (drop k ss) (n + j) (drop j qs)
Lines-drop zero ss n qs h le =
    let z : n ≡ n + 0 = omega arith in (0, omega arith, subst (λ m. Lines ss m qs) z h)
Lines-drop (suc k) [] n qs h le = absurd (omega arith)
Lines-drop (suc k) (s ∷ ss) n qs h le =
    let (i, a, l) = Contents-rest Sealed Sealed-Held s ss n qs h in
    let (j, b, m) = Lines-drop k ss (n + i) (drop i qs) l (omega arith) in
    let number : n + i + j ≡ n + (i + j) = omega arith in
    (
      i + j,
      omega (arith, a, b, length-drop i qs),
      subst (λ (x : ℕ × List Bytes). Lines (drop k ss) x.0 x.1)
          (λ r. (number r, drop-drop j i qs r)) m,
    )

-- The first segment, readable from a later number on
pub Lines-From :
    (s t : Segment) (ss : List Segment) (n : ℕ) (qs : List Bytes) (seq : ℕ)
    → (h : Line Sealed (λ m rs. Lines ss m rs) s n qs) → n ≤ seq
    → seq ≤ base_sequence s + length h.payloads
    → From s h.payloads (seq - base_sequence s) t
    → Lines (t ∷ ss) seq (drop (seq - n) qs)
Lines-From s t ss n qs seq h low high f =
    let front : List Bytes = drop s.start_index h.payloads in
    let moved : s.start_index + (seq - n) ≡ t.start_index = omega (arith, f.start, h.starts, low) in
    record {
      payloads = h.payloads;
      later = h.later;
      sealed = f.sealed;
      starts = omega (arith, f.base, f.start, h.starts, low);
      split =
          ap (drop (seq - n)) h.split
          ∙ drop-append_le front h.later (seq - n)
              (omega (arith, length-drop s.start_index h.payloads, h.starts, high))
          ∙ ap (λ x. x ++ h.later)
              (drop-drop (seq - n) s.start_index h.payloads
                ∙ ap (λ (k : ℕ). drop k h.payloads) moved);
      more =
          subst (λ (m : ℕ). Lines ss m h.later) (ap (λ (m : ℕ). m + length h.payloads) (sym f.base))
            h.more;
    }

pub set_at-drop :
    (k : ℕ) (t s : Segment) (ss rest : List Segment)
    → drop k ss ≡ s ∷ rest
    → drop k (set_at k t ss) ≡ t ∷ rest
set_at-drop k t s [] rest e = absurd (let z = drop_nil {A = Segment} k in cc)
set_at-drop zero t s (u ∷ us) rest e = let same : us ≡ rest = cc in ap (λ x. t ∷ x) same
set_at-drop (suc k) t s (u ∷ us) rest e = set_at-drop k t s us rest e
