-- ===== src/Segment/Scan.antt =====
-- The scanner of a segment, over the payloads that the segment holds.
use alog.Common.{
  ℕ, ◌+◌, ◌≡◌, sym, ap, ◌∙◌, arith, List, [], ◌∷◌, ◌++◌, length, append_assoc, length-append, none,
  some, true, false, refl, All,
}
use alog.Exec.{ok, err}
use alog.Errors.{eof}
use alog.Bytes.{Bytes}
use alog.Storage.{IsReadable}
use alog.Frame.Header.{max_uint32, next_offset, new_header}
use alog.Frame.Header.Laws.{payload_length-new_header}
use alog.Frame.Read.{read}
use alog.Frame.Read.Laws.{encode, frame_of, read-encode_whole, read-torn}
use alog.Segment.State.{Segment, append_size, next_index}
use alog.Segment.Layout.{Fits, frames, frames-append, append_size-append}
use alog.Segment.Represents.{Represents, Prefix, length-Prefix, prefixed}
use alog.Segment.Scanner.{next_after, peek, Scanner, peeked, advanced, next}

middle-Fits :
    (front : List Bytes) (p : Bytes) (back : List Bytes) → All Fits (front ++ p ∷ back) → Fits p
middle-Fits [] p back h = h.0
middle-Fits (q ∷ front) p back h = middle-Fits front p back h.1

module _ (s : Segment) (front : List Bytes) (p : Bytes) (back : List Bytes)
    (r : Represents s (front ++ p ∷ back)) (readable : IsReadable s.file) where
  shape :
      s.file.bytes
      ≡ Prefix r.layout.head front
        ++ (encode (length front) p ++ (frames (length front + 1) back ++ r.layout.rest))
  shape =
      let k : ℕ = length front in
      let zero_less : 0 + k ≡ k = omega arith in
      r.layout.shape
      ∙ ap (λ t. r.layout.head ++ (t ++ r.layout.rest))
          (frames-append 0 front (p ∷ back)
            ∙ ap (λ (i : ℕ). frames 0 front ++ frames i (p ∷ back)) zero_less)
      ∙ ap (λ t. r.layout.head ++ t)
          (append_assoc (frames 0 front) (encode k p ++ frames (k + 1) back) r.layout.rest
            ∙ ap (λ t. frames 0 front ++ t)
                (append_assoc (encode k p) (frames (k + 1) back) r.layout.rest))
      ∙ sym (
          append_assoc r.layout.head (frames 0 front)
            (encode k p ++ (frames (k + 1) back ++ r.layout.rest)))

  here :
      read s.file max_uint32 (length front) (64 + append_size front)
      ≡ ok (frame_of (length front) p)
  here =
      read-encode_whole s.file readable (Prefix r.layout.head front) p
        (frames (length front + 1) back ++ r.layout.rest) (length front) (64 + append_size front)
        shape (sym (length-Prefix r.layout.head front r.layout.head_length))
        (omega (arith, r.small, length-append front (p ∷ back))) (middle-Fits front p back r.fits)

  -- On a segment that can be read and holds `front`, `p` and `back`, a scanner without a limit that
  -- stands behind `front` borrows the frame of `p`, with its index, and then stands behind `p`.
  pub next_exact :
      (sc : Scanner)
      → sc.error ≡ none
      → sc.limit ≡ max_uint32
      → sc.index ≡ length front
      → sc.offset ≡ 64 + append_size front
      → next s sc ≡ (
        true,
        record sc {
          borrowed = some (frame_of (length front) p);
          offset = 64 + append_size (front ++ p ∷ []);
          index = length (front ++ p ∷ []);
        },
      )
  unfolding next peek next_offset
  next_exact sc e l i o =
      let k : ℕ = length front in
      let found : read s.file sc.limit sc.index sc.offset ≡ ok (frame_of k p) = rw (l, i, o) here in
      let off : next_offset (new_header k p) sc.offset ≡ 64 + append_size (front ++ p ∷ []) =
        omega (
          arith,
          o,
          payload_length-new_header k p,
          middle-Fits front p back r.fits,
          append_size-append front (p ∷ []),
        ) in
      let idx : next_index sc.index ≡ length (front ++ p ∷ []) =
        omega (arith, i, r.small, length-append front (p ∷ back), length-append front (p ∷ [])) in
      ap (λ x. next_after x s sc) e
      ∙ ap (λ x. advanced (peeked x) sc) found
      ∙ ap
          (λ (x : ℕ × ℕ).
            (true, record sc { borrowed = some (frame_of k p); offset = x.0; index = x.1 }))
          (λ j. (off j, idx j))

-- The end of a segment whose file has nothing behind the frames.
no_bytes : (bs : Bytes) → length bs ≡ 0 → bs ≡ []
no_bytes [] e = refl
no_bytes (b ∷ bs) e = absurd (omega arith)

module _ (s : Segment) (ps : List Bytes) (r : Represents s ps) (readable : IsReadable s.file)
    (whole : length s.file.bytes ≡ s.write_offset) where
  at_end : s.file.bytes ≡ Prefix r.layout.head ps ++ []
  at_end =
      let prefix : ℕ = length (Prefix r.layout.head ps) in
      let total : length s.file.bytes ≡ prefix + length r.layout.rest =
        ap length (prefixed r.layout) ∙ length-append (Prefix r.layout.head ps) r.layout.rest in
      prefixed r.layout
      ∙ ap (λ t. Prefix r.layout.head ps ++ t)
          (no_bytes r.layout.rest (
            omega (
              arith,
              total,
              whole,
              r.end_offset,
              length-Prefix r.layout.head ps r.layout.head_length,
            )))

  -- A scanner that stands behind the last payload has no more, and no error.
  pub next_end :
      (sc : Scanner)
      → sc.error ≡ none
      → sc.limit ≡ max_uint32
      → sc.index ≡ length ps
      → sc.offset ≡ 64 + append_size ps
      → next s sc ≡ (false, sc)
  unfolding next peek
  next_end sc e l i o =
      let got : read s.file max_uint32 (length ps) (64 + append_size ps) ≡ err eof =
        read-torn s.file readable (Prefix r.layout.head ps) [] 0 (length ps) (64 + append_size ps)
          at_end (sym (length-Prefix r.layout.head ps r.layout.head_length)) r.small (omega arith)
          (omega arith) in
      let found : read s.file sc.limit sc.index sc.offset ≡ err eof = rw (l, i, o) got in
      ap (λ x. next_after x s sc) e ∙ ap (λ x. advanced (peeked x) sc) found
