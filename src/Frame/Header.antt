-- ===== src/Frame/Header.antt =====
-- internal/frame/header.go
pub mod Laws
use alog.Common.{
  ℕ, ◌+◌, ◌%◌, ◌^◌, ◌-◌, ◌==◌, ltb, not, List, [], ◌∷◌, ◌++◌, Option, none, some, length, slice,
  take, splice, replicate, if◌then◌else◌,
}
use alog.Errors.{Err, payload_too_large, invalid_frame_header, invalid_checksum}
use alog.Bytes.{Bytes, put_uint32, uint, crc_new, crc_write, crc_sum32}

abbrev pub header_size : ℕ
header_size = 16

-- [16]byte
abbrev pub Header : Type 0
Header = Bytes

-- math.MaxUint32
abbrev pub max_uint32 : ℕ
max_uint32 = 2 ^ 32 - 1

unfoldable pub payload_length : Header → ℕ
payload_length h = uint (slice 0 4 h)

unfoldable pub index : Header → ℕ
index h = uint (slice 4 4 h)

unfoldable pub crc32c : Header → ℕ
crc32c h = uint (slice 12 4 h)

unfoldable pub next_offset : Header → ℕ → ℕ
next_offset h offset = offset + header_size + payload_length h

unfoldable pub sum_crc32c : Header → Bytes → ℕ
sum_crc32c header payload = crc_sum32 (crc_write (crc_write crc_new (take 12 header)) payload)

unfoldable pub validate : Header → Bytes → Option Err
validate h payload =
    let size = length payload in
    if ltb max_uint32 size
    then some payload_too_large
    else if not (payload_length h == size % 2 ^ 32)
    then some invalid_frame_header
    else if not (crc32c h == sum_crc32c h payload)
    then some invalid_checksum
    else none

unfoldable pub new_header : ℕ → Bytes → Header
new_header index payload =
    let h0 = splice 0 (put_uint32 (length payload % 2 ^ 32)) (replicate 16 0) in
    let h1 = splice 4 (put_uint32 index) h0 in splice 12 (put_uint32 (sum_crc32c h1 payload)) h1
