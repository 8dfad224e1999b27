-- ===== src/Log/Consume.antt =====
-- pkg/log/log.go: Range and Consume. The callback works on a state of its own.
use alog.Common.{
  zero, ℕ, suc, ◌+◌, ◌%◌, ◌^◌, ltb, max, ◌==◌, List, [], ◌∷◌, none, some, Bool, true, false,
  if◌then◌else◌, length,
}
use alog.Errors.{Err, diverges, join}
use alog.Exec.{Result, ok, err, Exec, Done}
use alog.Bytes.{Bytes}
use alog.Frame.Header.{max_uint32}
use alog.Frame.Read.{Frame}
use alog.Segment.State.{Segment}
use alog.Log.State.{Log, head, truncate_before}
use alog.Log.Scan.{LogScanner, new_limited_scanner, next, borrow, seek, stop_at}

-- A frame takes up bytes of a file, so that the bytes of all files are fuel enough.
abbrev pub all_bytes : List Segment → ℕ
all_bytes [] = 0
all_bytes (s ∷ ss) = length s.file.bytes + all_bytes ss

abbrev pub scan_end : LogScanner → Result Done
scan_end s = elim s.error [ none ↦ ok tt | some e ↦ err e ]

module _ {W : Type 0} where
  -- One call of the callback, and what the loop does with its result
  abbrev pub called : (W → Result Done × W) → Result Done × W → Result Done × W
  called later (err e, w) = (err e, w)
  called later (ok x, w) = later w

  abbrev pub given :
      (W → Result Done × W) → (ℕ → Bytes → Exec W Done) → Result (ℕ × Frame) → W → Result Done × W
  given later fn (err e) w = (err e, w)
  given later fn (ok (seq, f)) w = called later (fn seq f.payload w)

  abbrev pub visit :
      (LogScanner → W → Result Done × W)
      → (ℕ → Bytes → Exec W Done)
      → Bool × LogScanner
      → W
      → Result Done × W
  visit later fn (false, s) w = (scan_end s, w)
  visit later fn (true, s) w = given (later s) fn (borrow s) w

  unfoldable pub range_loop : ℕ → (ℕ → Bytes → Exec W Done) → LogScanner → Exec W Done
  range_loop zero fn s w = (err diverges, w)
  range_loop (suc fuel) fn s w = visit (λ t. range_loop fuel fn t) fn (next s) w

  unfoldable pub range : Log → ℕ → ℕ → (ℕ → Bytes → Exec W Done) → Exec W Done
  range l start_seq end_seq fn w =
      let segments = l.chain.segments in
      range_loop (suc (all_bytes segments)) fn
        (stop_at end_seq (seek start_seq (new_limited_scanner segments max_uint32))) w

  -- The callback of Consume's range: it notes the next unread sequence number.
  abbrev pub noted : ℕ → ℕ → Result Done × W → Result Done × (ℕ × W)
  noted seq unread (ok x, w) = (ok tt, ((seq + 1) % 2 ^ 64, w))
  noted seq unread (err e, w) = (err e, (unread, w))

  abbrev pub noting : (ℕ → Bytes → Exec W Done) → ℕ → Bytes → Exec (ℕ × W) Done
  noting fn seq payload (unread, w) = noted seq unread (fn seq payload w)

abbrev pub consume_start : Log → ℕ → ℕ
consume_start l from_seq =
    let start = max from_seq l.next_consume_seq in if ltb start (head l) then head l else start

abbrev pub with_cursor : ℕ → Log → Log
with_cursor seq l = record l { next_consume_seq = seq }

-- After the range: the cursor and the truncation, on success and on the callback's error.
abbrev pub joined : Err → Result Done → Result Done
joined e (ok x) = err e
joined e (err trunc_err) = err (join e trunc_err)

abbrev pub with_error : Err → Result Done × Log → Result Done × Log
with_error e (r, l) = (joined e r, l)

abbrev pub consumed : ℕ → Result Done → ℕ → Exec Log Done
consumed start (ok x) unread l =
    if unread == start then (ok tt, l) else truncate_before unread (with_cursor unread l)
consumed start (err e) unread l =
    if ltb l.next_consume_seq unread
    then with_error e (truncate_before unread (with_cursor unread l))
    else (err e, l)

module _ {W : Type 0} where
  unfoldable pub consume : ℕ → (ℕ → Bytes → Exec W Done) → Exec (Log × W) Done
  consume from_seq fn (l, w) =
      let start = consume_start l from_seq in
      let (r, (unread, w')) = range l start 0 (noting fn) (start, w) in
      let (r', l') = consumed start r unread l in (r', (l', w'))
