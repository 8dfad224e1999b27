-- ===== src/Segment/Cut.antt =====
-- Truncate and SetReadOffset on a segment that holds `ps`.
use alog.Common.{
  le→ltb, ℕ, ◌+◌, ◌-◌, ◌^◌, ◌≤◌, ◌<◌, ◌≡◌, refl, sym, ap, ◌∙◌, arith, List, [], ◌∷◌, length, take,
  drop, some, leb, if_both, All-take, length-take, take-append-drop, take-take,
}
use alog.Exec.{ok}
use alog.Segment.Sealing.{CutEnds, truncate-CutEnds}
use alog.Exec.Post.{Post-and, Post, Post-bind, Post_mono}
use alog.Bytes.{Bytes}
use alog.Storage
use alog.Storage.{File, IsReadable, resize}
use alog.Storage.Changes.{truncate-Post}
use alog.Index.{Entry, OffsetIndex, truncate_after}
use alog.Index.Laws.{Holds, Holds-truncate_after}
use native.Mathlib.Decide.{dec_lt}
use alog.Index.Order.{Above-mono, IsOrdered, lookup}
use alog.Index.Cut.{lookup-below, truncate_after_exact}
use alog.Segment.State.{on_file, Segment, append_size, base_sequence, anchor_sparse_index, anchored}
use alog.Segment.Locate.{find}
use alog.Segment.Write.{sync, truncate, retreat}
use alog.Segment.Layout.{
  Fits, Accurate, IsIndexOf, offset_at, offset_at-zero, offset_at-length, set-IsIndexOf,
}
use alog.Segment.Represents.{Layout, Represents, Layout-resize}
use alog.Segment.Append.{sync-Kept, on_file-Post, Only, Layout-prefix}
use alog.Segment.Lookup.{find_exact}

-- Fewer payloads.
offset_at-take : (ps : List Bytes) (k i : ℕ) → i ≤ k → offset_at (take k ps) i ≡ offset_at ps i
unfolding offset_at
offset_at-take ps k i h = ap (λ t. 64 + append_size t) (take-take i k ps h)

Holds-fewer :
    (ps : List Bytes) (k : ℕ) (ix : OffsetIndex)
    → k ≤ length ps
    → Holds (Accurate ps) ix
    → Holds (λ i _. i ≤ k) ix
    → Holds (Accurate (take k ps)) ix
Holds-fewer ps k [] h a b = tt
Holds-fewer ps k (e ∷ es) h a b = (
  (omega (arith, length-take k ps, b.0), a.0.1 ∙ sym (offset_at-take ps k e.index b.0)),
  Holds-fewer ps k es h a.1 b.1,
)

-- An index with a checkpoint of frame 0 begins with it.
first_zero :
    (e : Entry) (es : OffsetIndex) {o : ℕ}
    → IsOrdered (e ∷ es)
    → lookup 0 (e ∷ es) ≡ some o
    → e.index ≤ 0
first_zero e es h q = elim (dec_lt 0 e.index) [
  | no p ↦ omega arith
  | yes p ↦ cc (lookup-below 0 (e ∷ es) (p, Above-mono 0 e.index es p h.0), q)
]

pub truncate_after-IsIndexOf :
    (ps : List Bytes) (k : ℕ) (ix : OffsetIndex)
    → k ≤ length ps
    → IsIndexOf ps ix
    → IsIndexOf (take k ps) (truncate_after k ix)
truncate_after-IsIndexOf ps k [] h x = absurd (let e = x.anchor in cc)
truncate_after-IsIndexOf ps k (e ∷ es) h x =
    let z = first_zero e es x.ordered x.anchor in
    let exact = truncate_after_exact k e es x.ordered (omega arith) in
    record {
      ordered = exact.0;
      accurate =
          Holds-fewer ps k (truncate_after k (e ∷ es)) h
            (Holds-truncate_after (Accurate ps) k (e ∷ es) x.accurate) exact.1;
      anchor =
          exact.2 0
          ∙ if_both (λ t. t ≡ some 64) (leb 0 k) (λ _. x.anchor) (λ t. absurd (ground arith));
    }

pub anchored-IsIndexOf :
    (ps : List Bytes) (si so wi wo : ℕ) (ix : OffsetIndex)
    → IsIndexOf ps ix
    → Accurate ps si so
    → Accurate ps wi wo
    → IsIndexOf ps (anchored si so wi wo ix)
unfolding anchored
anchored-IsIndexOf ps si so wi wo ix h a b =
    set-IsIndexOf ps wi wo _
      (set-IsIndexOf ps si so _ (set-IsIndexOf ps 0 64 ix h (omega arith, sym (offset_at-zero ps)))
        a)
      b

Layout-take : {bytes : Bytes} (ps : List Bytes) (k : ℕ) → Layout bytes ps → Layout bytes (take k ps)
Layout-take {bytes} ps k l = Layout-prefix (take k ps) (drop k ps) (rw take-append-drop l)

-- The state behind the cut.
retreat-Represents :
    (s : Segment) (ps : List Bytes) (k : ℕ) (f : File)
    → Represents s ps
    → k ≤ length ps
    → s.start_index ≤ k
    → Layout f.bytes (take k ps)
    → Represents (retreat k (offset_at ps k) (record s { file = f })) (take k ps)
unfolding retreat anchor_sparse_index
retreat-Represents s ps k f r h below l =
    let len : length (take k ps) ≡ k = omega (arith, length-take k ps) in
    let start : s.start_offset ≡ offset_at (take k ps) s.start_index =
      r.start ∙ sym (offset_at-take ps k s.start_index below) in
    let end : offset_at ps k ≡ offset_at (take k ps) k =
      sym (offset_at-take ps k k (omega arith)) in
    rw (le→ltb k s.start_index below) (record {
      layout = l;
      fits = All-take Fits k ps r.fits;
      small = omega (arith, r.small);
      count = sym len;
      end_offset = end ∙ offset_at-length (take k ps) k (sym len);
      start_bound = omega arith;
      start = start;
      index =
          anchored-IsIndexOf (take k ps) s.start_index s.start_offset k (offset_at ps k) _
            (truncate_after-IsIndexOf ps k s.offset_index h r.index) (omega arith, start)
            (omega arith, end);
    })

-- Where the cut is
pub found_at :
    (s : Segment) (ps : List Bytes) (seq : ℕ)
    → Represents s ps
    → IsReadable s.file
    → base_sequence s + length ps < 2 ^ 64
    → base_sequence s + s.start_index ≤ seq
    → seq ≤ base_sequence s + length ps
    → find s seq ≡ ok (seq - base_sequence s, offset_at ps (seq - base_sequence s))
found_at s ps seq r readable room low high =
    find_exact s ps r readable seq (omega arith) room
    ∙ rw (
      le→ltb seq (base_sequence s + s.start_index) low,
      le→ltb (base_sequence s + length ps) seq high,
    )

truncate-Represents :
    (s : Segment) (ps : List Bytes) (seq : ℕ)
    → Represents s ps
    → IsReadable s.file
    → base_sequence s + length ps < 2 ^ 64
    → base_sequence s + s.start_index ≤ seq
    → seq ≤ base_sequence s + length ps
    → Post
        (truncate seq s)
        (λ _ t. Represents t (take (seq - base_sequence s) ps))
        (λ _ t. Layout t.file.bytes (take (seq - base_sequence s) ps))
unfolding truncate
truncate-Represents s ps seq r readable room low high =
    let k : ℕ = seq - base_sequence s in
    let found : find s seq ≡ ok (k, offset_at ps k) = found_at s ps seq r readable room low high in
    let kept : Layout s.file.bytes (take k ps) = Layout-take ps k r.layout in
    let end : offset_at ps k ≡ 64 + append_size (take k ps) = unfold offset_at in refl in
    rw found (
      Post-bind (on_file (Storage.truncate (offset_at ps k))) _ s
        {R = λ _ t. Only s t × Layout t.file.bytes (take k ps)}
        (Post_mono _
          (on_file-Post (Storage.truncate (offset_at ps k)) s
            (truncate-Post s.file (offset_at ps k)))
          (λ _ t (d, cut). (d, rw cut (Layout-resize kept (offset_at ps k) end)))
          (λ _ t (d, same). rw same kept))
        λ _ t (d, l).
          Post-bind sync _ t {R = λ _ u. Only s u × Layout u.file.bytes (take k ps)}
            (Post_mono _ (sync-Kept s ps r t (take k ps) d l) (λ _ u h. h) (λ _ u (c, m). m))
            λ _ u (c, m). record {
              holds = rw c (retreat-Represents s ps k u.file r (omega arith) (omega arith) m);
            })

-- Truncate at a readable sequence number, or at the next one: if it succeeds, the segment holds exactly
-- the payloads before it, keeps where its readable ones start, and its file ends behind them. If a file
-- call fails, the file still holds the payloads before it. The sequence numbers of the segment do not
-- wrap round 2 ^ 64.
pub truncate_exact :
    (s : Segment) (ps : List Bytes) (seq : ℕ)
    → Represents s ps
    → IsReadable s.file
    → base_sequence s + length ps < 2 ^ 64
    → base_sequence s + s.start_index ≤ seq
    → seq ≤ base_sequence s + length ps
    → Post
        (truncate seq s)
        (λ _ t. Represents t (take (seq - base_sequence s) ps) × CutEnds s t)
        (λ _ t. Layout t.file.bytes (take (seq - base_sequence s) ps))
truncate_exact s ps seq r readable room low high =
    let k : ℕ = seq - base_sequence s in
    Post_mono _
      (Post-and _ (truncate-Represents s ps seq r readable room low high) (
        truncate-CutEnds s seq k (offset_at ps k) (found_at s ps seq r readable room low high)
          (omega (arith, low))))
      (λ _ t h. h) (λ _ t h. h.0)
