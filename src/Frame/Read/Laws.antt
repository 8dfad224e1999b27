-- ===== src/Frame/Read/Laws.antt =====
-- Reading a frame that is in the file whole, and one that the end of the file cuts off.
use alog.Common.{
  ℕ, ◌+◌, ◌^◌, ◌≤◌, ◌<◌, ◌≡◌, ◌≢◌, ap, sym, ◌∙◌, arith, ◌++◌, ◌||◌, ◌==◌, length, take, drop, min,
  append_assoc, length-append, length-take, take_all, take-append-drop, take-append_ge, ◌-◌,
  if◌then◌else◌,
}
use native.Mathlib.Decide.{dec_lt}
use alog.Errors.{Err, eof, unexpected_eof}
use alog.Exec.{ok, err}
use alog.Bytes.{Bytes}
use alog.Storage.{File, IsReadable}
use alog.Storage.Laws.{read_at-middle, read_at-short}
use alog.Frame.Header.{payload_length, new_header, max_uint32}
use alog.Frame.Header.Laws.{length-new_header, payload_length-new_header, index-new_header}
use alog.Frame.Read.{Frame, read_full_at, read_header, read}

-- The bytes that `Segment.Append` writes for a payload.
abbrev pub encode : ℕ → Bytes → Bytes
encode i p = new_header i p ++ p

abbrev pub frame_of : ℕ → Bytes → Frame
frame_of i p = record { header = new_header i p; payload = p }

pub length-encode : (i : ℕ) (p : Bytes) → length (encode i p) ≡ 16 + length p
length-encode i p = length-append (new_header i p) p ∙ omega (arith, length-new_header i p)

-- What a reader answers where the file ends inside a frame, `k` bytes into it. An end exactly
-- behind the header looks like the end of the log.
abbrev pub torn_error : ℕ → Err
torn_error k = if k == 0 || k == 16 then eof else unexpected_eof

module _ (f : File) (r : IsReadable f) where
  pub read_full_at-middle :
      (xs ys zs : Bytes) (off n : ℕ)
      → f.bytes ≡ xs ++ (ys ++ zs)
      → off ≡ length xs
      → n ≡ length ys
      → read_full_at f n off ≡ ok ys
  unfolding read_full_at
  read_full_at-middle xs ys zs off n e p q = ground (arith, read_at-middle f xs ys zs off n r e p q)

  pub read_full_at-short :
      (xs ys : Bytes) (off n : ℕ)
      → f.bytes ≡ xs ++ ys
      → off ≡ length xs
      → length ys < n
      → read_full_at f n off ≡ err (if length ys == 0 then eof else unexpected_eof)
  unfolding read_full_at
  read_full_at-short xs ys off n e p q = ground (arith, read_at-short f xs ys off n r e p q)

  pub read_header-new_header :
      (xs p rest : Bytes) (i off : ℕ)
      → f.bytes ≡ xs ++ (new_header i p ++ rest)
      → off ≡ length xs
      → i < 2 ^ 32
      → read_header f i off ≡ ok (new_header i p)
  unfolding read_header
  read_header-new_header xs p rest i off e o h = ground (
    arith,
    index-new_header i p h,
    read_full_at-middle xs (new_header i p) rest off 16 e o (sym (length-new_header i p)),
  )

  pub read_header-encode :
      (xs p rest : Bytes) (i off : ℕ)
      → f.bytes ≡ xs ++ (encode i p ++ rest)
      → off ≡ length xs
      → i < 2 ^ 32
      → read_header f i off ≡ ok (new_header i p)
  read_header-encode xs p rest i off e o h =
      read_header-new_header xs p (p ++ rest) i off
        (e ∙ ap (λ t. xs ++ t) (append_assoc (new_header i p) p rest)) o h

  -- The bytes of the header and the part of the payload within the limit.
  parts :
      (xs p rest : Bytes) (i limit : ℕ)
      → xs ++ (encode i p ++ rest)
        ≡ (xs ++ new_header i p) ++ (take limit p ++ (drop limit p ++ rest))
  parts xs p rest i limit = sym (
      append_assoc xs (new_header i p) _
      ∙ ap (λ t. xs ++ (new_header i p ++ t))
          (sym (append_assoc (take limit p) (drop limit p) rest)
            ∙ ap (λ t. t ++ rest) (take-append-drop limit p))
      ∙ ap (λ t. xs ++ t) (sym (append_assoc (new_header i p) p rest)))

  -- A reader with a limit other than 0 returns the frame that an open file without faults has at the
  -- offset, its payload cut at the limit.
  pub read-encode :
      (xs p rest : Bytes) (i off : ℕ) {limit : ℕ}
      → f.bytes ≡ xs ++ (encode i p ++ rest)
      → off ≡ length xs
      → i < 2 ^ 32
      → length p ≤ max_uint32
      → limit ≢ 0
      → read f limit i off ≡ ok (record { header = new_header i p; payload = take limit p })
  unfolding read
  read-encode xs p rest i off {limit} e o h l pos =
      let body : read_full_at f (min (payload_length (new_header i p)) limit) (off + 16)
          ≡ ok (take limit p) =
        read_full_at-middle (xs ++ new_header i p) (take limit p) (drop limit p ++ rest) _ _
          (e ∙ parts xs p rest i limit)
          (omega (arith, length-append xs (new_header i p), length-new_header i p))
          (omega (arith, length-take limit p, payload_length-new_header i p)) in
      ground (arith, read_header-encode xs p rest i off e o h, body)

  -- The reader that segments use has no limit in effect.
  pub read-encode_whole :
      (xs p rest : Bytes) (i off : ℕ)
      → f.bytes ≡ xs ++ (encode i p ++ rest)
      → off ≡ length xs
      → i < 2 ^ 32
      → length p ≤ max_uint32
      → read f max_uint32 i off ≡ ok (frame_of i p)
  read-encode_whole xs p rest i off e o h l =
      read-encode xs p rest i off e o h l (omega arith)
      ∙ ap (λ (t : Bytes). ok (record { header = new_header i p; payload = t }))
          (take_all max_uint32 p l)

  torn_header :
      (xs p : Bytes) (k i off : ℕ)
      → f.bytes ≡ xs ++ take k (encode i p)
      → off ≡ length xs
      → k < 16
      → read f max_uint32 i off ≡ err (torn_error k)
  unfolding read read_header
  torn_header xs p k i off e o h =
      let size : length (take k (encode i p)) ≡ k =
        omega (arith, length-take k (encode i p), length-encode i p) in
      ground (arith, size, read_full_at-short xs (take k (encode i p)) off 16 e o (omega arith))

  torn_payload :
      (xs p : Bytes) (k i off : ℕ)
      → f.bytes ≡ xs ++ take (16 + k) (encode i p)
      → off ≡ length xs
      → i < 2 ^ 32
      → length p ≤ max_uint32
      → k < length p
      → read f max_uint32 i off ≡ err (torn_error (16 + k))
  unfolding read
  torn_payload xs p k i off e o h l short =
      let whole : f.bytes ≡ xs ++ (new_header i p ++ take k p) =
        e
        ∙ ap (λ t. xs ++ t)
            (take-append_ge (new_header i p) p (16 + k) k (omega (arith, length-new_header i p))) in
      let body : read_full_at f (min (payload_length (new_header i p)) max_uint32) (off + 16)
          ≡ err (if length (take k p) == 0 then eof else unexpected_eof) =
        read_full_at-short (xs ++ new_header i p) (take k p) _ _
          (whole ∙ sym (append_assoc xs (new_header i p) (take k p)))
          (omega (arith, length-append xs (new_header i p), length-new_header i p))
          (omega (arith, length-take k p, payload_length-new_header i p)) in
      ground (arith, read_header-new_header xs p (take k p) i off whole o h, body, length-take k p)

  -- Where an open file without faults ends inside a frame, or where a frame would begin, the read
  -- fails by `torn_error` of the number of bytes that are there.
  pub read-torn :
      (xs p : Bytes) (k i off : ℕ)
      → f.bytes ≡ xs ++ take k (encode i p)
      → off ≡ length xs
      → i < 2 ^ 32
      → length p ≤ max_uint32
      → k < 16 + length p
      → read f max_uint32 i off ≡ err (torn_error k)
  read-torn xs p k i off e o h l short = elim (dec_lt k 16) [
    | yes few ↦ torn_header xs p k i off e o few
    | no many ↦
        let split : k ≡ 16 + (k - 16) = omega arith in
        rw split (torn_payload xs p (k - 16) i off (rw split at e) o h l (omega arith))
  ]
