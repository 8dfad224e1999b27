-- ===== src/Segment/Write.antt =====
-- internal/segment/segment.go: Append, Trim, Truncate, SetReadOffset, Sync and Close. Each takes
-- the segment and returns its result with the segment as it leaves it, on failure too.
use alog.Common.{ℕ, ◌+◌, ltb, ◌||◌, List, [], ◌∷◌, length, if◌then◌else◌}
use alog.Errors.{Err, eof, unexpected_eof, payload_too_large, invalid_segment_header, join, is}
use alog.Exec.{
  Result, ok, err, Exec, Done, pure, raise, gets, lift, attempt, modify, wrapped, ◌>>=◌, ◌>>◌,
}
use alog.Bytes.{Bytes}
use alog.Storage
use alog.Storage.{File, seek, write_to}
use alog.Frame.Header.{max_uint32, new_header}
use alog.Index
use alog.Index.{OffsetIndex, sparse_set, truncate_after, truncate_before}
use alog.Segment.Header.{write_read_offset, pos}
use alog.Segment.State.{Segment, on_file, anchor_sparse_index, next_index}
use alog.Segment.Locate.{find, index_for_offset}

-- Sync
unfoldable pub sync : Exec Segment Done
sync = wrapped (on_file Storage.sync)

unfoldable pub close : Exec Segment Done
close = on_file Storage.close

-- Trim: cut the file to the offset that the segment tracks.
unfoldable pub trim : Exec Segment Done
unfolding sync
trim = do offset ← gets (λ s. s.write_offset); on_file (Storage.truncate offset); sync

-- The first loop of Append: the buffers, and the index and offset behind them.
pub record Batch : Type 0 where
  pub bufs : List Bytes
  pub idx : ℕ
  pub offset : ℕ

unfoldable pub encode_batch : ℕ → ℕ → List Bytes → Result Batch
encode_batch idx offset [] = ok (record { bufs = []; idx = idx; offset = offset })
encode_batch idx offset (payload ∷ rest) =
    let tail = encode_batch (next_index idx) (offset + (16 + length payload)) rest in
    if ltb max_uint32 (length payload) then err payload_too_large else elim tail [
      | err e ↦ err e
      | ok b ↦ ok (record b { bufs = new_header idx payload ∷ payload ∷ b.bufs })
    ]

-- `persist`
unfoldable pub persist : List Bytes → Exec Segment Done
unfolding sync
persist bufs = do
  offset ← gets (λ s. s.write_offset)
  on_file (seek offset)
  on_file (write_to bufs)
  sync_on_append ← gets (λ s. s.sync_on_append)
  if sync_on_append then sync else pure tt

-- The last loop of Append: the checkpoints of the new frames.
unfoldable pub sample : ℕ → ℕ → List Bytes → OffsetIndex → OffsetIndex
sample idx offset [] ix = ix
sample idx offset (payload ∷ rest) ix =
    sample (next_index idx) (offset + (16 + length payload)) rest (sparse_set idx offset ix)

abbrev pub failed_persist : Err → Result Done → Exec Segment Done
failed_persist e (ok x) = raise e
failed_persist e (err trunc_err) = raise (join e trunc_err)

-- The state behind a batch that is on file.
unfoldable pub advance : List Bytes → Batch → Segment → Segment
unfolding sample
advance payloads b s = record s {
  write_index = b.idx;
  write_offset = b.offset;
  offset_index =
      Index.set b.idx b.offset (sample s.write_index s.write_offset payloads s.offset_index);
}

abbrev pub finish_append : List Bytes → Batch → Result Done → Exec Segment Done
finish_append payloads b (ok x) = modify (advance payloads b)
finish_append payloads b (err e) = attempt trim >>= failed_persist e

unfoldable pub append : List Bytes → Exec Segment Done
append [] = pure tt
append (payload ∷ rest) = do
  s ← gets (λ s. s)
  b ← lift (encode_batch s.write_index s.write_offset (payload ∷ rest))
  persisted ← attempt (persist b.bufs)
  finish_append (payload ∷ rest) b persisted

-- What Truncate leaves of the state once the file is cut.
unfoldable pub retreat : ℕ → ℕ → Segment → Segment
retreat idx offset s =
    let ix = truncate_after idx s.offset_index in
    anchor_sparse_index (
      if ltb idx s.start_index
      then record s {
        write_offset = offset;
        write_index = idx;
        start_index = idx;
        start_offset = offset;
        offset_index = ix;
      }
      else record s { write_offset = offset; write_index = idx; offset_index = ix })

unfoldable pub truncate : ℕ → Exec Segment Done
unfolding sync
truncate seq = do
  s ← gets (λ s. s)
  (idx, offset) ← lift (find s seq)
  on_file (Storage.truncate offset)
  sync
  modify (retreat idx offset)

-- The errors that SetReadOffset reports for an offset past the end.
abbrev pub read_offset_error : Err → Err
read_offset_error e = if is e eof || is e unexpected_eof then invalid_segment_header else e

abbrev pub read_index : Result ℕ → Result ℕ
read_index (ok i) = ok i
read_index (err e) = err (read_offset_error e)

unfoldable pub set_read_offset : ℕ → Exec Segment Done
set_read_offset offset = do
  s ← gets (λ s. s)
  idx ← lift (read_index (index_for_offset s offset))
  slot ← on_file (write_read_offset (pos offset) s.meta)
  modify (λ t. anchor_sparse_index (record t {
    meta = slot;
    start_offset = offset;
    start_index = idx;
    offset_index = truncate_before idx t.offset_index;
  }))
