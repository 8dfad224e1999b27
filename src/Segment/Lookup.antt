-- ===== src/Segment/Lookup.antt =====
-- The lookups of a segment that holds `ps` are exact: offsets for frame indices, frame indices for
-- offsets, and `Find`.
use alog.Common.{
  ℕ, ◌+◌, ◌-◌, ◌%◌, ◌^◌, ◌≤◌, ◌<◌, ◌≡◌, refl, sym, ap, ◌∙◌, arith, List, [], ◌∷◌, length, Option,
  none, some, ltb, ◌==◌, ◌||◌, if◌then◌else◌, if_both, ==_iff,
}
use native.Mathlib.Decide.{dec_le, dec_lt}
use alog.Errors.{out_of_bounds}
use alog.Exec.{ok, err}
use alog.Bytes.{Bytes}
use alog.Storage.{IsReadable}
use alog.Index.{Entry, for_frame_index, for_offset}
use alog.Index.Laws.{for_frame_index_sound, for_offset_sound}
use alog.Segment.Header.{header_size}
use alog.Segment.State.{Segment, append_size, base_sequence, start_sequence}
use alog.Segment.Locate.{
  start_of, offset_for_index, index_for_offset, walk_to_index, walk_to_offset, find,
}
use alog.Segment.Layout.{offset_at, offset_at-zero, Accurate}
use alog.Segment.Represents.{Represents, Holding, held}
use alog.Segment.Stretch.{Stretch, stretch, walk_to_index-frames, walk_to_offset-frames}

pub length-le-append_size : (ps : List Bytes) → length ps ≤ append_size ps
length-le-append_size [] = omega arith
length-le-append_size (p ∷ ps) = omega (arith, length-le-append_size ps)

module _ (s : Segment) (ps : List Bytes) (r : Holding s ps) (readable : IsReadable s.file) where
  -- The checkpoint at which a walk starts.
  start_by_index :
      (i : ℕ)
      → let e = start_of (for_frame_index i s.offset_index) in
        Accurate ps e.index e.offset × (e.index ≤ i)
  start_by_index i = go (for_frame_index i s.offset_index) refl
    where
      go :
          (o : Option Entry)
          → for_frame_index i s.offset_index ≡ o
          → Accurate ps (start_of o).index (start_of o).offset × ((start_of o).index ≤ i)
      go none e = ((omega arith, sym (offset_at-zero ps)), omega arith)
      go (some x) e = for_frame_index_sound (Accurate ps) i s.offset_index r.index.accurate e

  start_by_offset :
      (o : ℕ)
      → 64 ≤ o
      → let e = start_of (for_offset o s.offset_index) in
        Accurate ps e.index e.offset × (e.offset ≤ o)
  start_by_offset o low = go (for_offset o s.offset_index) refl
    where
      go :
          (x : Option Entry)
          → for_offset o s.offset_index ≡ x
          → Accurate ps (start_of x).index (start_of x).offset × ((start_of x).offset ≤ o)
      go none e = ((omega arith, sym (offset_at-zero ps)), low)
      go (some x) e = for_offset_sound (Accurate ps) o s.offset_index r.index.accurate e

  pub offset_for_index-exact : (k : ℕ) → k ≤ length ps → offset_for_index s k ≡ ok (offset_at ps k)
  unfolding offset_for_index
  offset_for_index-exact k h =
      let e = start_of (for_frame_index k s.offset_index) in
      let (acc, low) = start_by_index k in
      let x : Stretch s.file.bytes ps e.index k = stretch r.layout r.fits e.index k low h in
      let walked : walk_to_index k e.index e.offset k s.file
          ≡ ok (e.offset + append_size x.middle) =
        walk_to_index-frames s.file readable x.middle x.front x.back k e.index e.offset k x.shape
          (acc.1 ∙ sym x.front_length) x.count (omega (arith, r.small)) (omega (arith, x.count))
          x.fits in
      let total : e.offset + append_size x.middle ≡ offset_at ps k = omega (arith, x.span, acc.1) in
      if_both (λ t. t ≡ ok (offset_at ps k)) (k == 0)
        (λ t. let z : k ≡ 0 = (==_iff k 0).0 t in rw z (ap ok (sym (offset_at-zero ps))))
        (λ _. walked ∙ ap ok total)

  -- Later frames start at larger offsets.
  offset_at_mono : (k m : ℕ) → k ≤ m → m ≤ length ps → offset_at ps k + (m - k) ≤ offset_at ps m
  offset_at_mono k m p q =
      let x : Stretch s.file.bytes ps k m = stretch r.layout r.fits k m p q in
      omega (arith, x.span, x.count, length-le-append_size x.middle)

  pub offset_at-bounds : (k : ℕ) → k ≤ length ps → 64 + k ≤ offset_at ps k
  offset_at-bounds k h = omega (arith, offset_at_mono 0 k (omega arith) h, offset_at-zero ps)

  -- The walk from the nearest checkpoint finds the index of the frame that begins at an offset, for
  -- each frame of a segment whose file can be read, and for the end of the last one.
  pub index_for_offset-exact : (k : ℕ) → k ≤ length ps → index_for_offset s (offset_at ps k) ≡ ok k
  unfolding index_for_offset
  index_for_offset-exact k h =
      let o : ℕ = offset_at ps k in
      let e = start_of (for_offset o s.offset_index) in
      let (acc, low) = start_by_offset o (omega (arith, offset_at-bounds k h)) in
      let before : e.index ≤ k = elim (dec_le e.index k) [
        | yes p ↦ p
        | no p ↦ absurd (omega (arith, offset_at_mono k e.index (omega arith) acc.0, acc.1, low))
      ] in
      let x : Stretch s.file.bytes ps e.index k = stretch r.layout r.fits e.index k before h in
      let walked : walk_to_offset o e.index e.offset o s.file ≡ ok (e.index + length x.middle) =
        walk_to_offset-frames s.file readable x.middle x.front x.back o e.index e.offset o x.shape
          (acc.1 ∙ sym x.front_length) (omega (arith, x.count, r.small))
          (omega (arith, x.span, acc.1)) (omega (arith, x.count, offset_at-bounds k h)) x.fits in
      let total : e.index + length x.middle ≡ k = omega (arith, x.count) in
      if_both (λ t. t ≡ ok k) (o == header_size)
        (λ t.
          let z : o ≡ 64 = (==_iff o 64).0 t in
          let none_before : 0 ≡ k = omega (arith, offset_at-bounds k h) in ap ok none_before)
        (λ _. walked ∙ ap ok total)

module _ (s : Segment) (ps : List Bytes) (r : Represents s ps) (readable : IsReadable s.file) where
  -- `Find` answers for the sequence numbers from the first readable one to the next one to be
  -- appended, with the index and the offset of the frame, and refuses all others. The sequence
  -- numbers of the segment do not wrap round 2 ^ 64.
  pub find_exact :
      (seq : ℕ)
      → seq < 2 ^ 64
      → base_sequence s + length ps < 2 ^ 64
      → find s seq ≡ (
          if ltb seq (base_sequence s + s.start_index) || ltb (base_sequence s + length ps) seq
          then err out_of_bounds
          else ok (seq - base_sequence s, offset_at ps (seq - base_sequence s)))
  unfolding find start_sequence
  find_exact seq fits room = elim (dec_lt seq (base_sequence s + s.start_index)) [
    | yes p ↦
        let first : (base_sequence s + s.start_index) % 2 ^ 64 ≡ base_sequence s + s.start_index =
          omega (arith, r.start_bound) in
        rw first (ground arith)
    | no p ↦
        let first : (base_sequence s + s.start_index) % 2 ^ 64 ≡ base_sequence s + s.start_index =
          omega (arith, r.start_bound) in
        let diff : (seq + 2 ^ 64 - base_sequence s) % 2 ^ 64 ≡ seq - base_sequence s =
          omega arith in
        elim (dec_lt (base_sequence s + length ps) seq) [
          | yes q ↦ rw (first, diff) (ground (arith, r.count))
          | no q ↦
              rw
                (
                  first,
                  diff,
                  offset_for_index-exact s ps (held r) readable (seq - base_sequence s)
                      (omega arith),
                )
                (ground (arith, r.count, r.small))
        ]
  ]
