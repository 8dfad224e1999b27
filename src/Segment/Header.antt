-- ===== src/Segment/Header.antt =====
-- internal/segment/header.go: the segment header with its two metadata slots.
pub mod Laws
pub mod Slots
use alog.Common.{
  ℕ, ◌+◌, ◌-◌, ◌%◌, ◌^◌, ◌<◌, ◌==◌, ltb, ◌&&◌, Bool, List, [], ◌∷◌, length, slice, splice,
  replicate, if◌then◌else◌, take, drop,
}
use alog.Errors.{Err, invalid_segment_header, negative_read_offset}
use alog.Exec.{Result, ok, err, Exec, Done, raise, ◌>>◌, ◌>>=◌, pure}
use alog.Bytes.{Bytes, put_uint16, put_uint32, put_uint64, uint, crc_new, crc_write, crc_sum32}
use alog.Storage.{File, write_at, sync}

-- "ALOG"
abbrev pub segment_magic : ℕ
segment_magic = 0x414C4F47

-- MetaSlot{}
abbrev pub empty_slot : Bytes
empty_slot = replicate 16 0

abbrev pub segment_version : ℕ
segment_version = 1

abbrev pub header_size : ℕ
header_size = 64

unfoldable pub sum_crc32c : Bytes → Bytes → Bytes → ℕ
sum_crc32c offset generation reserved =
    crc_sum32 (crc_write (crc_write (crc_write crc_new offset) generation) reserved)

-- [16]byte
abbrev pub MetaSlot : Type 0
MetaSlot = Bytes

unfoldable pub generation : MetaSlot → ℕ
generation m = uint (slice 8 2 m)

unfoldable pub crc : MetaSlot → ℕ
crc m = uint (slice 12 4 m)

unfoldable pub checksum : MetaSlot → ℕ
checksum m = sum_crc32c (slice 0 8 m) (slice 8 2 m) (slice 10 2 m)

unfoldable pub bump_generation : MetaSlot → MetaSlot
bump_generation m =
    let m1 = splice 8 (put_uint16 ((generation m + 1) % 2 ^ 16)) m in
    splice 12 (put_uint32 (checksum m1)) m1

unfoldable pub read_offset : MetaSlot → Result ℕ
read_offset m =
    let uoffset = uint (slice 0 8 m) in
    if ltb (2 ^ 63 - 1) uoffset then err invalid_segment_header else ok uoffset

-- MetaSlot.Valid
unfoldable pub slot_valid : MetaSlot → Bool
slot_valid m = checksum m == crc m

-- int16(m.Generation()-other.Generation()) > 0, the difference taken modulo 2^16
unfoldable pub newer_than : MetaSlot → MetaSlot → Bool
newer_than m other =
    let d = (generation m + 2 ^ 16 - generation other) % 2 ^ 16 in ltb 0 d && ltb d (2 ^ 15)

-- [64]byte
abbrev pub Header : Type 0
Header = Bytes

unfoldable pub magic : Header → ℕ
magic h = uint (slice 0 4 h)

unfoldable pub version : Header → ℕ
version h = uint (slice 4 4 h)

unfoldable pub start_sequence : Header → ℕ
start_sequence h = uint (slice 8 8 h)

unfoldable pub valid : Header → Bool
unfolding magic version
valid h = magic h == segment_magic && version h == segment_version

unfoldable pub meta : Header → Result MetaSlot
meta h =
    let a = slice 16 16 h in
    let b = slice 32 16 h in
    if slot_valid a
    then (if slot_valid b then (if newer_than a b then ok a else ok b) else ok a)
    else (if slot_valid b then ok b else err invalid_segment_header)

-- A signed offset: `negsuc n` is -(n + 1).
pub data Int64 : Type 0 where
  pos : ℕ → Int64
  negsuc : ℕ → Int64

-- Where the slot after `slot` goes: the slots take turns by the parity of the generation.
unfoldable pub slot_offset : MetaSlot → ℕ
slot_offset slot = if generation slot % 2 == 0 then 32 else 16

-- `slotVal` with its offset and its checksum
unfoldable pub next_slot : ℕ → MetaSlot → MetaSlot
next_slot offset slot =
    let s1 = splice 0 (put_uint64 offset) (bump_generation slot) in
    splice 12 (put_uint32 (checksum s1)) s1

-- The state of the call is the file; it returns what `*slotPtr` becomes.
unfoldable pub write_read_offset : Int64 → MetaSlot → Exec File MetaSlot
write_read_offset (negsuc n) slot = raise negative_read_offset
write_read_offset (pos offset) slot = do
  write_at (next_slot offset slot) (slot_offset slot)
  sync
  pure (next_slot offset slot)

unfoldable pub new_header : ℕ → Header
new_header start_seq =
    let h0 = splice 0 (put_uint32 segment_magic) (replicate 64 0) in
    let h1 = splice 4 (put_uint32 segment_version) h0 in
    let h2 = splice 8 (put_uint64 start_seq) h1 in
    let h3 = splice 16 (put_uint64 header_size) h2 in
    splice 28 (put_uint32 (checksum (slice 16 16 h3))) h3
