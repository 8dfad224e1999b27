-- ===== src/Segment/Locate.antt =====
-- internal/segment/segment.go: scanning frames, and the lookups between frame indices and offsets.
use alog.Common.{
  ℕ, zero, suc, ◌+◌, ◌-◌, ◌%◌, ◌^◌, ◌==◌, ltb, not, Option, none, some, if◌then◌else◌,
}
use alog.Errors.{Err, eof, diverges, out_of_bounds, invalid_segment_header, is}
use alog.Exec.{Result, ok, err}
use alog.Storage.{File}
use alog.Frame.Header.{max_uint32, next_offset}
use alog.Frame.Read
use alog.Frame.Read.{read_header, read}
use alog.Index.{Entry, OffsetIndex, for_frame_index, for_offset, sparse_set}
use alog.Segment.Header.{header_size}
use alog.Segment.State.{Segment, next_index, base_sequence, start_sequence}

-- What `scanFramesFromReadStart` returns, and the index as it leaves it.
pub record Scan : Type 0 where
  pub idx : ℕ
  pub offset : ℕ
  pub error : Option Err
  pub offset_index : OffsetIndex

unfoldable pub scan_loop : ℕ → ℕ → ℕ → OffsetIndex → File → Scan
scan_loop zero idx offset ix f = record {
  idx = idx;
  offset = offset;
  error = some diverges;
  offset_index = ix;
}
scan_loop (suc fuel) idx offset ix f = elim (read f max_uint32 idx offset) [
  | err e ↦ record {
    idx = idx;
    offset = offset;
    error = if is e eof then none else some e;
    offset_index = ix;
  }
  | ok borrowed ↦ elim (Read.validate borrowed) [
    | some e ↦ record { idx = idx; offset = offset; error = some e; offset_index = ix }
    | none ↦
        scan_loop fuel (next_index idx) (next_offset borrowed.header offset)
          (sparse_set idx offset ix) f
  ]
]

-- The loop from a frame to the frame with index `target`.
unfoldable pub walk_to_index : ℕ → ℕ → ℕ → ℕ → File → Result ℕ
walk_to_index zero idx offset target f = if ltb idx target then err diverges else ok offset
walk_to_index (suc fuel) idx offset target f =
    if ltb idx target
    then elim (read_header f idx offset) [
      | err e ↦ err e
      | ok h ↦ walk_to_index fuel (next_index idx) (next_offset h offset) target f
    ]
    else ok offset

-- Where a lookup in the index starts the walk.
abbrev pub start_of : Option Entry → Entry
start_of none = record { index = 0; offset = header_size }
start_of (some e) = e

unfoldable pub offset_for_index : Segment → ℕ → Result ℕ
offset_for_index s target =
    if target == 0
    then ok header_size
    else let e = start_of (for_frame_index target s.offset_index) in
      walk_to_index target e.index e.offset target s.file

-- The loop from a frame on until the offset reaches `target`.
unfoldable pub walk_to_offset : ℕ → ℕ → ℕ → ℕ → File → Result ℕ
walk_to_offset zero idx offset target f =
    if ltb offset target
    then err diverges
    else if not (offset == target)
    then err invalid_segment_header
    else ok idx
walk_to_offset (suc fuel) idx offset target f =
    if ltb offset target
    then elim (read_header f idx offset) [
      | err e ↦ err e
      | ok h ↦ walk_to_offset fuel (next_index idx) (next_offset h offset) target f
    ]
    else if not (offset == target)
    then err invalid_segment_header
    else ok idx

unfoldable pub index_for_offset : Segment → ℕ → Result ℕ
index_for_offset s target =
    if target == header_size
    then ok 0
    else let e = start_of (for_offset target s.offset_index) in
      walk_to_offset target e.index e.offset target s.file

-- Find: the frame index of a sequence number, and its offset.
unfoldable pub find : Segment → ℕ → Result (ℕ × ℕ)
find s seq =
    if ltb seq (start_sequence s)
    then err out_of_bounds
    else let diff = (seq + 2 ^ 64 - base_sequence s) % 2 ^ 64 in
      if ltb max_uint32 diff
      then err out_of_bounds
      else if ltb s.write_index diff
      then err out_of_bounds
      else elim (offset_for_index s diff) [ err e ↦ err e | ok offset ↦ ok (diff, offset) ]
