-- ===== src/Log/Scan.antt =====
-- pkg/log/scan.go: the cursor over the records of a log. It has the segments that the chain had when
-- it was made; nothing else changes them while it scans.
use alog.Common.{
  zero, ℕ, suc, ◌+◌, ◌%◌, ◌^◌, leb, ltb, max, List, [], ◌∷◌, Option, none, some, Bool, true, false,
  ◌&&◌, if◌then◌else◌, length, get_elem?,
}
use alog.Errors.{Err, diverges, panic, segment_reaped, is}
use alog.Exec.{Done, Result, ok, err}
use alog.Frame.Header.{index}
use alog.Frame.Read.{Frame}
use alog.Segment.State.{Segment, base_sequence, start_sequence, next_sequence}
use alog.Segment.Scanner
use alog.Segment.Scanner.{Scanner, new_scanner}

-- `current` and `segScanner` are set and cleared together.
pub record LogScanner : Type 0 where
  pub error : Option Err
  pub segments : List Segment
  pub segment_index : ℕ
  pub current : Option (Segment × Scanner.Scanner)
  pub borrowed : Option Frame
  pub end_seq : ℕ
  pub pay_limit : ℕ

unfoldable pub new_limited_scanner : List Segment → ℕ → LogScanner
new_limited_scanner segments limit = record {
  error = none;
  segments = segments;
  segment_index = 0;
  current = none;
  borrowed = none;
  end_seq = 0;
  pay_limit = limit;
}

-- Borrow: the sequence number of a frame of a segment
abbrev pub sequence_of : Segment → Frame → ℕ
sequence_of seg f = (base_sequence seg + index f.header) % 2 ^ 64

unfoldable pub borrow : LogScanner → Result (ℕ × Frame)
borrow s = elim s.borrowed [
  | none ↦ err panic
  | some f ↦ elim s.current [
    | none ↦ ok (index f.header, f)
    | some (seg, sc) ↦ ok (sequence_of seg f, f)
  ]
]

-- A frame was read: the bound of StopAt is looked at.
abbrev pub found : Segment → Option Frame → LogScanner → Bool × LogScanner
found seg none s = (true, s)
found seg (some f) s =
    if ltb 0 s.end_seq && leb s.end_seq (sequence_of seg f)
    then (false, record s { borrowed = none })
    else (true, s)

abbrev pub reaped : Err → Err
reaped e = if is e segment_reaped then segment_reaped else e

-- What a turn of the loop does with what the segment's scanner says; `later` is the rest of the loop.
abbrev pub turned :
    Segment
    → Bool × Scanner.Scanner
    → (LogScanner → Bool × LogScanner)
    → LogScanner
    → Bool × LogScanner
turned seg (true, sc) later s =
    found seg sc.borrowed (record s { current = some (seg, sc); borrowed = sc.borrowed })
turned seg (false, sc) later s = elim sc.error [
  | some e ↦ (false, record s { current = some (seg, sc); error = some (reaped e) })
  | none ↦ later (record s { segment_index = s.segment_index + 1; current = none })
]

abbrev pub scanner_of : Segment → LogScanner → Segment × Scanner.Scanner
scanner_of seg s = elim s.current [ some p ↦ p | none ↦ (seg, new_scanner seg s.pay_limit) ]

abbrev pub turn : (LogScanner → Bool × LogScanner) → Option Segment → LogScanner → Bool × LogScanner
turn later none s = (false, s)
turn later (some seg) s =
    if ltb 0 s.end_seq && leb s.end_seq (start_sequence seg)
    then (false, s)
    else let (cur, sc) = scanner_of seg s in turned cur (Scanner.next cur sc) later s

-- The loop, with a round of fuel for each segment and one for the end.
unfoldable pub next_loop : ℕ → LogScanner → Bool × LogScanner
next_loop zero s = (false, record s { error = some diverges })
next_loop (suc fuel) s = turn (next_loop fuel) (get_elem? s.segments s.segment_index) s

unfoldable pub next : LogScanner → Bool × LogScanner
next s = elim s.error [ some e ↦ (false, s) | none ↦ next_loop (suc (length s.segments)) s ]

-- Seek: the loop from segment `i` on.
abbrev pub placed_at : ℕ → Segment → Result Done × Scanner.Scanner → LogScanner → LogScanner
placed_at i seg (r, sc) s = record s {
  segment_index = i;
  current = some (seg, sc);
  error = elim r [ ok x ↦ none | err e ↦ some e ];
}

unfoldable pub seek_from : ℕ → List Segment → ℕ → LogScanner → LogScanner
seek_from i [] start_seq s = s
seek_from i (seg ∷ segs) start_seq s =
    if ltb start_seq (next_sequence seg)
    then placed_at i seg
        (Scanner.seek seg (max start_seq (start_sequence seg)) (new_scanner seg s.pay_limit)) s
    else seek_from (i + 1) segs start_seq s

unfoldable pub seek : ℕ → LogScanner → LogScanner
seek start_seq s =
    seek_from 0 s.segments start_seq (record s {
      segment_index = length s.segments;
      current = none;
      borrowed = none;
      error = none;
    })

unfoldable pub stop_at : ℕ → LogScanner → LogScanner
stop_at end_seq s = record s { end_seq = end_seq }
