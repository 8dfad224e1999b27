-- ===== src/Segment/Layout.antt =====
-- The bytes of a list of payloads in a segment file, the offsets of its frames, and the checkpoints
-- that are right about them.
use alog.Common.{
  take-append, ==_iff, ℕ, suc, ◌+◌, ◌%◌, ◌≤◌, ◌≡◌, refl, sym, ap, ◌∙◌, arith, List, [], ◌∷◌, ◌++◌,
  some, length, take, append_assoc, length-append, take_all, take-append_le, ◌==◌, if_both, not,
}
use alog.Bytes.{Bytes}
use alog.Frame.Header.{max_uint32}
use alog.Frame.Read.Laws.{encode, length-encode}
use alog.Index.{OffsetIndex, set, sparse_set}
use alog.Index.Laws.{Holds, Holds-set}
use alog.Index.Order.{IsOrdered, lookup, set-IsOrdered, set_update}
use alog.Segment.State.{append_size}

-- A payload that a frame can carry.
abbrev pub Fits : Bytes → Type 0
Fits p = length p ≤ max_uint32

-- The frames of payloads, numbered from `i` on.
abbrev pub frames : ℕ → List Bytes → Bytes
frames i [] = []
frames i (p ∷ ps) = encode i p ++ frames (i + 1) ps

-- The offset of the frame with index `k`, or of the end.
unfoldable pub offset_at : List Bytes → ℕ → ℕ
offset_at ps k = 64 + append_size (take k ps)

pub append_size-append :
    (ps qs : List Bytes) → append_size (ps ++ qs) ≡ append_size ps + append_size qs
append_size-append [] qs = omega arith
append_size-append (p ∷ ps) qs = omega (arith, append_size-append ps qs)

pub length-frames : (i : ℕ) (ps : List Bytes) → length (frames i ps) ≡ append_size ps
length-frames i [] = refl
length-frames i (p ∷ ps) =
    length-append (encode i p) (frames (i + 1) ps)
    ∙ omega (arith, length-encode i p, length-frames (i + 1) ps)

pub frames-append :
    (i : ℕ) (ps qs : List Bytes) → frames i (ps ++ qs) ≡ frames i ps ++ frames (i + length ps) qs
frames-append i [] qs = ap (λ (k : ℕ). frames k qs) (let e : i ≡ i + 0 = omega arith in e)
frames-append i (p ∷ ps) qs =
    let e : i + 1 + length ps ≡ i + suc (length ps) = omega arith in
    ap (λ r. encode i p ++ r)
      (frames-append (i + 1) ps qs ∙ ap (λ (k : ℕ). frames (i + 1) ps ++ frames k qs) e)
    ∙ sym (append_assoc (encode i p) (frames (i + 1) ps) (frames (i + suc (length ps)) qs))

pub offset_at-zero : (ps : List Bytes) → offset_at ps 0 ≡ 64
unfolding offset_at
offset_at-zero ps = refl

pub offset_at-length :
    (ps : List Bytes) (k : ℕ) → k ≡ length ps → offset_at ps k ≡ 64 + append_size ps
unfolding offset_at
offset_at-length ps k e = ap (λ t. 64 + append_size t) (take_all k ps (omega arith))

pub offset_at-split :
    (all front rest : List Bytes) (k : ℕ)
    → all ≡ front ++ rest
    → k ≡ length front
    → offset_at all k ≡ 64 + append_size front
unfolding offset_at
offset_at-split all front rest k e h =
    ap (λ t. 64 + append_size t) (ap (take k) e ∙ take-append front rest k h)

pub offset_at-append :
    (ps qs : List Bytes) (k : ℕ) → k ≤ length ps → offset_at (ps ++ qs) k ≡ offset_at ps k
unfolding offset_at
offset_at-append ps qs k h = ap (λ t. 64 + append_size t) (take-append_le ps qs k h)

-- A checkpoint of the frame `i`, or of the end, at its offset.
abbrev pub Accurate : List Bytes → ℕ → ℕ → Type 0
Accurate ps i o = (i ≤ length ps) × (o ≡ offset_at ps i)

-- An ordered index of accurate checkpoints that has one of the first frame.
pub record IsIndexOf (ps : List Bytes) (ix : OffsetIndex) : Type 0 where
  pub ordered : IsOrdered ix
  pub accurate : Holds (Accurate ps) ix
  pub anchor : lookup 0 ix ≡ some 64

pub set-IsIndexOf :
    (ps : List Bytes) (i o : ℕ) (ix : OffsetIndex)
    → IsIndexOf ps ix
    → Accurate ps i o
    → IsIndexOf ps (set i o ix)
set-IsIndexOf ps i o ix h a = record {
  ordered = set-IsOrdered i o ix h.ordered;
  accurate = Holds-set (Accurate ps) i o ix h.accurate a;
  anchor =
      (set_update i o ix h.ordered).1 0
      ∙ if_both (λ t. t ≡ some 64) (i == 0)
          (λ t. let z : i ≡ 0 = (==_iff i 0).0 t in ap some (a.1 ∙ rw z (offset_at-zero ps)))
          (λ _. h.anchor);
}

pub sparse_set-IsIndexOf :
    (ps : List Bytes) (i o : ℕ) (ix : OffsetIndex)
    → IsIndexOf ps ix
    → Accurate ps i o
    → IsIndexOf ps (sparse_set i o ix)
unfolding sparse_set
sparse_set-IsIndexOf ps i o ix h a =
    if_both (IsIndexOf ps) (not (i % 256 == 0)) (λ _. h) (λ _. set-IsIndexOf ps i o ix h a)

-- More frames behind leave an index right.
Holds-more :
    (ps qs : List Bytes) (ix : OffsetIndex)
    → Holds (Accurate ps) ix
    → Holds (Accurate (ps ++ qs)) ix
Holds-more ps qs [] h = tt
Holds-more ps qs (e ∷ es) ((small, exact), h) = (
  (omega (arith, length-append ps qs), exact ∙ sym (offset_at-append ps qs e.index small)),
  Holds-more ps qs es h,
)

pub IsIndexOf-append :
    (ps qs : List Bytes) (ix : OffsetIndex) → IsIndexOf ps ix → IsIndexOf (ps ++ qs) ix
IsIndexOf-append ps qs ix h = record {
  ordered = h.ordered;
  accurate = Holds-more ps qs ix h.accurate;
  anchor = h.anchor;
}
