-- ===== src/Log/Position.antt =====
-- Where the scanner of a log stands: which payloads are still to come, and with which numbers.
use alog.Common.{
  ℕ, ◌+◌, ◌≤◌, ◌≡◌, ◌⊎◌, Bool, true, false, ◌&&◌, List, [], ◌∷◌, ◌++◌, none, some, ltb, leb, length,
  drop, get_elem?,
}
use alog.Exec.{ok}
use alog.Bytes.{Bytes}
use alog.Frame.Header.{max_uint32}
use alog.Frame.Read.Laws.{frame_of}
use alog.Segment.State.{Segment, append_size, base_sequence}
use alog.Segment.Scanner
use alog.Segment.Scanner.{Scanner}
use alog.Chain.Contents.{Sealed, Lines}
use alog.Log.Scan.{LogScanner, borrow}

-- StopAt: the number `n` is at or behind the bound.
abbrev pub is_past : ℕ → ℕ → Bool
is_past e n = ltb 0 e && leb e n

-- Within a segment, of which `front` has been passed.
pub record Inside (e : ℕ) (s : LogScanner) (n : ℕ) (qs : List Bytes) : Type 0 where
  pub sound : s.error ≡ none
  pub bound : s.end_seq ≡ e
  pub unlimited : s.pay_limit ≡ max_uint32
  pub segment : Segment
  pub scanner : Scanner.Scanner
  pub now : s.current ≡ some (segment, scanner)
  pub here : get_elem? s.segments s.segment_index ≡ some segment
  pub front : List Bytes
  pub back : List Bytes
  pub later : List Bytes
  pub sealed : Sealed segment (front ++ back)
  pub readable_from : segment.start_index ≤ length front
  pub no_error : scanner.error ≡ none
  pub limit : scanner.limit ≡ max_uint32
  pub index : scanner.index ≡ length front
  pub offset : scanner.offset ≡ 64 + append_size front
  pub number : n ≡ base_sequence segment + length front
  pub split : qs ≡ back ++ later
  pub more :
      Lines
        (drop (s.segment_index + 1) s.segments)
        (base_sequence segment + length (front ++ back))
        later

-- In front of a segment, or behind the last one.
pub record Between (e : ℕ) (s : LogScanner) (n : ℕ) (qs : List Bytes) : Type 0 where
  pub sound : s.error ≡ none
  pub bound : s.end_seq ≡ e
  pub unlimited : s.pay_limit ≡ max_uint32
  pub now : s.current ≡ none
  pub more : Lines (drop s.segment_index s.segments) n qs

abbrev pub At : ℕ → LogScanner → ℕ → List Bytes → Type 0
At e s n qs = Inside e s n qs ⊎ Between e s n qs

-- The scanner lends the frame of the payload with the number `n`, and then stands behind it.
pub record Lends (e n : ℕ) (qs : List Bytes) (t : LogScanner) : Type 0 where
  pub payload : Bytes
  pub rest : List Bytes
  pub split : qs ≡ payload ∷ rest
  pub before : is_past e n ≡ false
  pub place : ℕ
  pub lent : borrow t ≡ ok (n, frame_of place payload)
  pub after : At e t (n + 1) rest

-- What Next answers in front of `qs`: the first of them, or that there is none before the bound.
abbrev pub Moves : ℕ → ℕ → List Bytes → Bool × LogScanner → Type 0
Moves e n qs (false, t) = (t.error ≡ none) × ((qs ≡ []) ⊎ (is_past e n ≡ true))
Moves e n qs (true, t) = Lends e n qs t
