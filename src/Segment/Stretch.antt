-- ===== src/Segment/Stretch.antt =====
-- A stretch of frames in the file, and the loops that walk over one.
use alog.Common.{
  ℕ, zero, suc, ◌+◌, ◌-◌, ◌^◌, ◌≤◌, ◌<◌, ◌≡◌, sym, ap, ◌∙◌, arith, List, [], ◌∷◌, ◌++◌, length,
  take, drop, All, All-take, All-drop, append_assoc, length-append, length-take, length-drop,
  take-append-drop, take_add, if◌then◌else◌, none, some,
}
use alog.Errors.{Err, eof, is}
use alog.Exec.{ok, err}
use alog.Bytes.{Bytes}
use alog.Storage.{File, IsReadable}
use alog.Frame.Header.{max_uint32, next_offset, new_header}
use alog.Frame.Header.Laws.{payload_length-new_header, validate-new_header}
use alog.Frame.Read
use alog.Frame.Read.{read}
use alog.Frame.Read.Laws.{encode, frame_of, length-encode, read_header-encode, read-encode_whole}
use alog.Index.{sparse_set, OffsetIndex}
use alog.Segment.State.{next_index, append_size}
use alog.Segment.Write.{sample}
use alog.Segment.Locate.{scan_loop, walk_to_index, walk_to_offset}
use alog.Segment.Layout.{Fits, frames, offset_at, frames-append, append_size-append}
use alog.Segment.Represents.{Layout, Prefix, length-Prefix}

-- The frames from index `k` up to `m` of `ps`, with what stands before and behind them.
pub record Stretch (bytes : Bytes) (ps : List Bytes) (k m : ℕ) : Type 0 where
  pub front : Bytes
  pub middle : List Bytes
  pub back : Bytes
  pub shape : bytes ≡ front ++ (frames k middle ++ back)
  pub front_length : length front ≡ offset_at ps k
  pub count : m ≡ k + length middle
  pub span : offset_at ps m ≡ offset_at ps k + append_size middle
  pub prefix : take m ps ≡ take k ps ++ middle
  pub fits : All Fits middle

regroup : (h a b c r : Bytes) → h ++ ((a ++ (b ++ c)) ++ r) ≡ (h ++ a) ++ (b ++ (c ++ r))
regroup h a b c r = simp append_assoc

module _ {bytes : Bytes} {ps : List Bytes} (l : Layout bytes ps) (fits : All Fits ps) where
  pub stretch : (k m : ℕ) → k ≤ m → m ≤ length ps → Stretch bytes ps k m
  unfolding offset_at
  stretch k m p q =
      let n : ℕ = m - k in
      let a = take k ps in
      let b = take n (drop k ps) in
      let c = drop n (drop k ps) in
      let la : length a ≡ k = omega (arith, length-take k ps) in
      let lb : length b ≡ n = omega (arith, length-take n (drop k ps), length-drop k ps) in
      let whole : ps ≡ a ++ (b ++ c) =
        sym (ap (λ t. a ++ t) (take-append-drop n (drop k ps)) ∙ take-append-drop k ps) in
      let cut : take m ps ≡ a ++ b =
        ap (λ (t : ℕ). take t ps) (let e : m ≡ k + n = omega arith in e) ∙ take_add k n ps in
      let parts : frames 0 ps ≡ frames 0 a ++ (frames k b ++ frames (k + length b) c) =
        ap (frames 0) whole
        ∙ frames-append 0 a (b ++ c)
        ∙ ap (λ (i : ℕ). frames 0 a ++ frames i (b ++ c))
            (let e : 0 + length a ≡ k = omega arith in e)
        ∙ ap (λ t. frames 0 a ++ t) (frames-append k b c) in
      record {
        front = Prefix l.head a;
        middle = b;
        back = frames (k + length b) c ++ l.rest;
        shape =
            l.shape
            ∙ ap (λ t. l.head ++ (t ++ l.rest)) parts
            ∙ regroup l.head (frames 0 a) (frames k b) (frames (k + length b) c) l.rest;
        front_length = length-Prefix l.head a l.head_length;
        count = omega arith;
        span = omega (arith, ap append_size cut, append_size-append a b);
        prefix = cut;
        fits = All-take Fits n (drop k ps) (All-drop Fits k ps fits);
      }

validate-frame_of : (i : ℕ) (p : Bytes) → Fits p → Read.validate (frame_of i p) ≡ none
unfolding Read.validate
validate-frame_of i p h = validate-new_header i p h

module _ (f : File) (r : IsReadable f) where
  -- One frame further.
  next_offset-new_header :
      (i off : ℕ) (p : Bytes) → Fits p → next_offset (new_header i p) off ≡ off + (16 + length p)
  unfolding next_offset
  next_offset-new_header i off p h = omega (arith, payload_length-new_header i p)

  pub walk_to_index-frames :
      (mid : List Bytes) (front back : Bytes) (fuel k off m : ℕ)
      → f.bytes ≡ front ++ (frames k mid ++ back)
      → off ≡ length front
      → m ≡ k + length mid
      → m < 2 ^ 32
      → length mid ≤ fuel
      → All Fits mid
      → walk_to_index fuel k off m f ≡ ok (off + append_size mid)
  unfolding walk_to_index
  walk_to_index-frames [] front back zero k off m e o c small enough fits = ground arith
  walk_to_index-frames [] front back (suc fuel) k off m e o c small enough fits = ground arith
  walk_to_index-frames (p ∷ mid) front back zero k off m e o c small enough fits =
      absurd (omega arith)
  walk_to_index-frames (p ∷ mid) front back (suc fuel) k off m e o c small enough fits =
      let here : f.bytes ≡ front ++ (encode k p ++ (frames (k + 1) mid ++ back)) =
        e ∙ ap (λ t. front ++ t) (append_assoc (encode k p) (frames (k + 1) mid) back) in
      let next : next_index k ≡ k + 1 = omega arith in
      let rest : walk_to_index fuel (k + 1) (off + (16 + length p)) m f
          ≡ ok (off + (16 + length p) + append_size mid) =
        walk_to_index-frames mid (front ++ encode k p) back fuel (k + 1) (off + (16 + length p)) m
          (here ∙ sym (append_assoc front (encode k p) (frames (k + 1) mid ++ back)))
          (omega (arith, length-append front (encode k p), length-encode k p)) (omega arith) small
          (omega arith) fits.1 in
      ground (
        arith,
        read_header-encode f r front p (frames (k + 1) mid ++ back) k off here o (omega arith),
        next_offset-new_header k off p fits.0,
        next,
        rest,
      )

  pub walk_to_offset-frames :
      (mid : List Bytes) (front back : Bytes) (fuel k off target : ℕ)
      → f.bytes ≡ front ++ (frames k mid ++ back)
      → off ≡ length front
      → k + length mid < 2 ^ 32
      → target ≡ off + append_size mid
      → length mid ≤ fuel
      → All Fits mid
      → walk_to_offset fuel k off target f ≡ ok (k + length mid)
  unfolding walk_to_offset
  walk_to_offset-frames [] front back zero k off m e o small c enough fits = ground arith
  walk_to_offset-frames [] front back (suc fuel) k off m e o small c enough fits = ground arith
  walk_to_offset-frames (p ∷ mid) front back zero k off m e o small c enough fits =
      absurd (omega arith)
  walk_to_offset-frames (p ∷ mid) front back (suc fuel) k off m e o small c enough fits =
      let here : f.bytes ≡ front ++ (encode k p ++ (frames (k + 1) mid ++ back)) =
        e ∙ ap (λ t. front ++ t) (append_assoc (encode k p) (frames (k + 1) mid) back) in
      let next : next_index k ≡ k + 1 = omega arith in
      let rest : walk_to_offset fuel (k + 1) (off + (16 + length p)) m f ≡ ok (k + 1 + length mid) =
        walk_to_offset-frames mid (front ++ encode k p) back fuel (k + 1) (off + (16 + length p)) m
          (here ∙ sym (append_assoc front (encode k p) (frames (k + 1) mid ++ back)))
          (omega (arith, length-append front (encode k p), length-encode k p)) (omega arith)
          (omega arith) (omega arith) fits.1 in
      ground (
        arith,
        read_header-encode f r front p (frames (k + 1) mid ++ back) k off here o (omega arith),
        next_offset-new_header k off p fits.0,
        next,
        rest,
      )

  scan_loop_step :
      (p : Bytes) (front back : Bytes) (fuel k off : ℕ) (ix : OffsetIndex)
      → f.bytes ≡ front ++ (encode k p ++ back)
      → off ≡ length front
      → k + 1 < 2 ^ 32
      → Fits p
      → scan_loop (suc fuel) k off ix f
        ≡ scan_loop fuel (k + 1) (off + (16 + length p)) (sparse_set k off ix) f
  unfolding scan_loop
  scan_loop_step p front back fuel k off ix e o small fit =
      let next : next_index k ≡ k + 1 = omega arith in
      ground (
        arith,
        read-encode_whole f r front p back k off e o (omega arith) fit,
        validate-frame_of k p fit,
        next,
        next_offset-new_header k off p fit,
      )

  -- The scan passes over all frames, takes their checkpoints, and ends as the read behind them does.
  pub scan_loop-frames :
      (mid : List Bytes) (front back : Bytes) (fuel k off : ℕ) (ix : OffsetIndex) (stop : Err)
      → f.bytes ≡ front ++ (frames k mid ++ back)
      → off ≡ length front
      → k + length mid < 2 ^ 32
      → length mid < fuel
      → All Fits mid
      → read f max_uint32 (k + length mid) (off + append_size mid) ≡ err stop
      → scan_loop fuel k off ix f ≡ record {
        idx = k + length mid;
        offset = off + append_size mid;
        error = if is stop eof then none else some stop;
        offset_index = sample k off mid ix;
      }
  unfolding scan_loop sample
  scan_loop-frames mid front back zero k off ix stop e o small enough fits h = absurd (omega arith)
  scan_loop-frames [] front back (suc fuel) k off ix stop e o small enough fits h =
      ground (arith, h, k_zero, off_zero)
    where
      k_zero : k + 0 ≡ k
      k_zero = omega arith

      off_zero : off + 0 ≡ off
      off_zero = omega arith
  scan_loop-frames (p ∷ mid) front back (suc fuel) k off ix stop e o small enough fits h =
      let here : f.bytes ≡ front ++ (encode k p ++ (frames (k + 1) mid ++ back)) =
        e ∙ ap (λ t. front ++ t) (append_assoc (encode k p) (frames (k + 1) mid) back) in
      let next : next_index k ≡ k + 1 = omega arith in
      let idx : k + 1 + length mid ≡ k + suc (length mid) = omega arith in
      let size : off + (16 + length p) + append_size mid ≡ off + (16 + length p + append_size mid) =
        omega arith in
      let rest =
        scan_loop-frames mid (front ++ encode k p) back fuel (k + 1) (off + (16 + length p))
          (sparse_set k off ix) stop
          (here ∙ sym (append_assoc front (encode k p) (frames (k + 1) mid ++ back)))
          (omega (arith, length-append front (encode k p), length-encode k p)) (omega arith)
          (omega arith) fits.1 (rw (idx, size) h) in
      scan_loop_step p front (frames (k + 1) mid ++ back) fuel k off ix here o (omega arith) fits.0
      ∙ rest
      ∙ rw (next, ← idx, ← size)
