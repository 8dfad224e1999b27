-- ===== src/Segment/Load.antt =====
-- internal/segment/segment.go: `Load`, from the open file on.
use alog.Common.{Option, ℕ, suc, max, not, Bool, none, some, length, if◌then◌else◌}
use alog.Errors.{Err, unexpected_eof, invalid_segment_header, join, is}
use alog.Exec.{Result, ok, err, Done, Exec, raise, ◌>>=◌}
use alog.Storage
use alog.Storage.{File, read_full}
use alog.Index
use alog.Segment.Header.{Header, MetaSlot, header_size, valid, meta, read_offset}
use alog.Segment.State.{Segment, new_segment, anchor_sparse_index}
use alog.Segment.Locate.{Scan, scan_loop, index_for_offset}

-- What `Load` returns: a segment, or a segment beside the error that its last frame is torn.
pub data Loaded : Type 0 where
  whole : Segment → Loaded
  torn : Segment → Err → Loaded

abbrev pub segment_of : Loaded → Segment
segment_of (whole s) = s
segment_of (torn s e) = s

-- `scanFramesFromReadStart`, with fuel for a file of frames of at least 16 bytes
abbrev pub scan_frames : Segment → Scan
scan_frames s =
    scan_loop (suc (length s.file.bytes)) s.start_index s.start_offset s.offset_index s.file

-- BuildIndex
abbrev pub reported : Option Err → Result Done
reported none = ok tt
reported (some e) = err e

unfoldable pub build_index : Exec Segment Done
build_index s =
    let scan = scan_frames s in (reported scan.error, record s { offset_index = scan.offset_index })

-- The write position behind the last valid frame, with its checkpoint.
unfoldable pub tracked : Segment → Scan → Segment
tracked s scan = record s {
  write_offset = scan.offset;
  write_index = scan.idx;
  offset_index = Index.set scan.idx scan.offset scan.offset_index;
}

abbrev pub scanned : Segment → Scan → Result Loaded
scanned s scan = elim scan.error [
  | none ↦ ok (whole (tracked s scan))
  | some e ↦ if is e unexpected_eof then ok (torn (tracked s scan) e) else err e
]

-- A segment whose readable frames start at an offset.
unfoldable pub starting_at : ℕ → ℕ → Segment → Segment
starting_at idx offset s =
    anchor_sparse_index (record s { start_offset = offset; start_index = idx })

abbrev pub fresh : File → Header → Bool → MetaSlot → Segment
fresh f header sync_on_append slot = record (new_segment f header sync_on_append) { meta = slot }

-- The rest of `Load` once the index of the read offset is looked up, and once the offset is read.
abbrev pub located : Segment → ℕ → Result ℕ → Result Loaded
located s offset (err e) = err e
located s offset (ok idx) = let t = starting_at idx offset s in scanned t (scan_frames t)

abbrev pub started : Segment → Result ℕ → Result Loaded
started s (err e) = err e
started s (ok start) =
    let offset = max start header_size in located s offset (index_for_offset s offset)

unfoldable pub load_frames : File → Header → Bool → MetaSlot → Result Loaded
load_frames f header sync_on_append slot =
    started (fresh f header sync_on_append slot) (read_offset slot)

-- The rest of `Load` once the slot is chosen, and once the header is read.
abbrev pub load_slot : Bool → Header → Result MetaSlot → Exec File Loaded
load_slot sync_on_append header (err e) f = (err e, f)
load_slot sync_on_append header (ok slot) f = (load_frames f header sync_on_append slot, f)

abbrev pub load_after : Bool → Header → Exec File Loaded
load_after sync_on_append header =
    if not (valid header)
    then raise invalid_segment_header
    else load_slot sync_on_append header (meta header)

unfoldable pub load_header : Bool → Exec File Loaded
load_header sync_on_append = read_full header_size >>= load_after sync_on_append

-- errors.Join(err, file.Close())
abbrev pub close_with : Err → File → Err
close_with e f = elim (Storage.close f).0 [ ok x ↦ e | err c ↦ join e c ]

abbrev pub close_on_error : Result Loaded × File → Result Loaded
close_on_error (ok l, f) = ok l
close_on_error (err e, f) = err (close_with e f)

-- Load of an open file; it is closed unless a segment is returned.
unfoldable pub load : Bool → File → Result Loaded
load sync_on_append f = close_on_error (load_header sync_on_append f)
