-- ===== src/Segment/State.antt =====
-- internal/segment/segment.go: the state of a segment, its sparse index, its sizes and sequences.
use alog.Common.{ℕ, ◌+◌, ◌%◌, ◌^◌, Bool, List, [], ◌∷◌, length}
use alog.Exec.{Exec}
use alog.Bytes.{Bytes}
use alog.Storage.{File}
use alog.Index
use alog.Index.{OffsetIndex}
use alog.Segment.Header
use alog.Segment.Header.{MetaSlot, header_size}

pub record Segment : Type 0 where
  pub file : File
  pub offset_index : OffsetIndex
  pub write_offset : ℕ
  pub start_offset : ℕ
  pub write_index : ℕ
  pub start_index : ℕ
  pub sync_on_append : Bool
  pub header : Header.Header
  pub meta : MetaSlot

-- A call of the segment's file.
abbrev pub on_file : {A : Type 0} → Exec File A → Exec Segment A
on_file m s = let (r, f) = m s.file in (r, record s { file = f })

-- anchorSparseIndex
unfoldable pub anchored : ℕ → ℕ → ℕ → ℕ → OffsetIndex → OffsetIndex
anchored start_index start_offset write_index write_offset ix =
    Index.set write_index write_offset
      (Index.set start_index start_offset (Index.set 0 header_size ix))

unfoldable pub anchor_sparse_index : Segment → Segment
unfolding anchored
anchor_sparse_index s = record s {
  offset_index = anchored s.start_index s.start_offset s.write_index s.write_offset s.offset_index;
}

unfoldable pub new_segment : File → Header.Header → Bool → Segment
unfolding anchor_sparse_index
new_segment file header sync_on_append = anchor_sparse_index (record {
  file = file;
  offset_index = [];
  write_offset = header_size;
  start_offset = header_size;
  write_index = 0;
  start_index = 0;
  sync_on_append = sync_on_append;
  header = header;
  meta = Header.empty_slot;
})

-- idx++ on a uint32
abbrev pub next_index : ℕ → ℕ
next_index i = (i + 1) % 2 ^ 32

abbrev pub append_size : List Bytes → ℕ
append_size [] = 0
append_size (p ∷ ps) = 16 + length p + append_size ps

-- ProjectedSize, Size
unfoldable pub projected_size : Segment → List Bytes → ℕ
projected_size s payloads = s.write_offset + append_size payloads

abbrev pub size : Segment → ℕ
size s = s.write_offset

-- BaseSequence, StartSequence, NextSequence, on uint64
unfoldable pub base_sequence : Segment → ℕ
base_sequence s = Header.start_sequence s.header

unfoldable pub start_sequence : Segment → ℕ
start_sequence s = (base_sequence s + s.start_index) % 2 ^ 64

unfoldable pub next_sequence : Segment → ℕ
next_sequence s = (base_sequence s + s.write_index) % 2 ^ 64
