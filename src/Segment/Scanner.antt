-- ===== src/Segment/Scanner.antt =====
-- internal/segment/scanner.go: the cursor over the frames of a segment. The segment that it scans is
-- an argument, as it is when the method is called.
use alog.Common.{
  ℕ, ◌+◌, ◌-◌, ◌%◌, ◌^◌, ltb, max, Option, none, some, Bool, true, false, if◌then◌else◌,
}
use alog.Errors.{panic, Err, eof, closed, out_of_bounds, segment_reaped, is}
use alog.Exec.{Result, ok, err, Exec, Done, raise}
use alog.Bytes.{Bytes}
use alog.Frame.Header.{index, max_uint32, next_offset}
use alog.Frame.Read.{Frame, read}
use alog.Segment.Header.{header_size}
use alog.Segment.State.{Segment, next_index, base_sequence, start_sequence, next_sequence}
use alog.Segment.Locate.{find}

pub record Scanner : Type 0 where
  pub error : Option Err
  pub borrowed : Option Frame
  pub offset : ℕ
  pub index : ℕ
  pub limit : ℕ

unfoldable pub new_scanner : Segment → ℕ → Scanner
new_scanner s limit = record {
  error = none;
  borrowed = none;
  offset = max s.start_offset header_size;
  index = s.start_index;
  limit = limit;
}

abbrev pub placed : Result (ℕ × ℕ) → Exec Scanner Done
placed (err e) sc = (err e, sc)
placed (ok (idx, offset)) sc = (ok tt, record sc { index = idx; offset = offset })

-- Seek, by the distance from the base sequence in uint64
unfoldable pub seek : Segment → ℕ → Exec Scanner Done
seek s seq =
    if ltb seq (start_sequence s)
    then raise out_of_bounds
    else if ltb max_uint32 ((seq + 2 ^ 64 - base_sequence s) % 2 ^ 64)
    then raise out_of_bounds
    else if ltb (next_sequence s) seq
    then placed (find s (next_sequence s))
    else placed (find s seq)

-- The errors of Peek: io.EOF is ErrEndOfSegment.
abbrev pub peek_error : Err → Err
peek_error e = if is e eof then eof else if is e closed then segment_reaped else e

abbrev pub peeked : Result Frame → Result Frame
peeked (ok f) = ok f
peeked (err e) = err (peek_error e)

unfoldable pub peek : Segment → Scanner → Result Frame
peek s sc = peeked (read s.file sc.limit sc.index sc.offset)

abbrev pub advanced : Result Frame → Scanner → Bool × Scanner
advanced (err e) sc = (false, if is e eof then sc else record sc { error = some e })
advanced (ok f) sc = (
  true,
  record sc {
    borrowed = some f;
    offset = next_offset f.header sc.offset;
    index = next_index sc.index;
  },
)

abbrev pub next_after : Option Err → Segment → Scanner → Bool × Scanner
next_after (some e) s sc = (false, sc)
next_after none s sc = advanced (peek s sc) sc

unfoldable pub next : Segment → Scanner → Bool × Scanner
next s sc = next_after sc.error s sc

-- Value: the copy of the payload with its sequence number; without a frame it panics.
abbrev pub numbered : Segment → Option Frame → Result (ℕ × Bytes)
numbered s none = err panic
numbered s (some f) = ok ((index f.header + base_sequence s) % 2 ^ 64, f.payload)

unfoldable pub value : Segment → Scanner → Result (ℕ × Bytes)
value s sc = numbered s sc.borrowed
