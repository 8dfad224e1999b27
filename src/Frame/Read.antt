-- ===== src/Frame/Read.antt =====
-- internal/frame/read.go, and the `Frame` of internal/frame/frame.go without its pool.
-- A `Reader` is its file and its limit `max`. The buffers that it borrows are not modelled: a read
-- that succeeds has overwritten the header and the first `n` bytes of the buffer, which it returns.
pub mod Laws
use alog.Common.{ℕ, [], ◌+◌, ◌==◌, ltb, not, ◌&&◌, Option, none, some, length, min, if◌then◌else◌}
use alog.Errors.{Err, eof, unexpected_eof, invalid_frame_index, is}
use alog.Exec.{Result, ok, err}
use alog.Bytes.{Bytes}
use alog.Storage.{File, read_at}
use alog.Frame.Header
use alog.Frame.Header.{Header, header_size, payload_length}

pub record Frame : Type 0 where
  pub header : Header
  pub payload : Bytes

-- Frame.Validate
unfoldable pub validate : Frame → Option Err
unfolding Header.validate
validate f = Header.validate f.header f.payload

-- The test of `readAt` on what `ReadAt` returned.
abbrev pub check_read : Bytes → Option Err → Result Bytes
check_read d none = ok d
check_read d (some e) = if is e eof && ltb 0 (length d) then err unexpected_eof else err e

-- readAt, which fills a slice of n bytes
unfoldable pub read_full_at : File → ℕ → ℕ → Result Bytes
read_full_at f n off = let (d, e) = read_at f n off in check_read d e

unfoldable pub read_header : File → ℕ → ℕ → Result Header
read_header f index offset = elim (read_full_at f header_size offset) [
  | err e ↦ err e
  | ok h ↦ if not (index == Header.index h) then err invalid_frame_index else ok h
]

-- The part of Reader.Read behind ReadHeader.
abbrev pub read_payload : File → ℕ → ℕ → Header → Result Frame
read_payload f max offset h =
    let n = min (payload_length h) max in
    elim (read_full_at f n (offset + header_size)) [
      | err e ↦ err e
      | ok p ↦ ok (record { header = h; payload = p })
    ]

-- Reader.Read
unfoldable pub read : File → ℕ → ℕ → ℕ → Result Frame
read f max index offset = elim (read_header f index offset) [
  | err e ↦ err e
  | ok h ↦
      if max == 0 then ok (record { header = h; payload = [] }) else read_payload f max offset h
]
