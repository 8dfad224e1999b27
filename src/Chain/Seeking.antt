-- ===== src/Chain/Seeking.antt =====
-- Seek of the scanner of a segment, over the numbers of what the segment holds.
use alog.Common.{ℕ, ◌+◌, ◌-◌, ◌%◌, ◌^◌, ◌≤◌, ◌≡◌, ◌∙◌, arith, List, length, le→ltb}
use alog.Exec.{ok}
use alog.Bytes.{Bytes}
use alog.Frame.Header.{max_uint32}
use alog.Segment.State.{Segment, base_sequence}
use alog.Segment.Layout.{offset_at}
use alog.Segment.Locate.{find}
use alog.Segment.Lookup.{find_exact}
use alog.Segment.Scanner
use alog.Segment.Scanner.{Scanner}
use alog.Chain.Contents.{Sealed, start_sequence-Sealed, next_sequence-Sealed}

-- The scanner of a segment goes to each readable payload, and to the end.
pub seek-Sealed :
    (s : Segment) (ps : List Bytes) (seq : ℕ) (sc : Scanner.Scanner)
    → Sealed s ps
    → base_sequence s + s.start_index ≤ seq
    → seq ≤ base_sequence s + length ps
    → Scanner.seek s seq sc ≡ (
      ok tt,
      record sc { index = seq - base_sequence s; offset = offset_at ps (seq - base_sequence s) },
    )
unfolding Scanner.seek
seek-Sealed s ps seq sc h low high =
    let found : find s seq ≡ ok (seq - base_sequence s, offset_at ps (seq - base_sequence s)) =
      find_exact s ps h.rep h.readable seq (omega (arith, h.room)) h.room
      ∙ rw (
        le→ltb seq (base_sequence s + s.start_index) low,
        le→ltb (base_sequence s + length ps) seq high,
      ) in
    let diff : (seq + 2 ^ 64 - base_sequence s) % 2 ^ 64 ≡ seq - base_sequence s =
      omega (arith, h.room) in
    rw (
      start_sequence-Sealed s ps h,
      next_sequence-Sealed s ps h,
      diff,
      le→ltb seq (base_sequence s + s.start_index) low,
      le→ltb max_uint32 (seq - base_sequence s) (omega (arith, h.rep.small)),
      le→ltb (base_sequence s + length ps) seq high,
      found,
    )
