-- ===== src/Bytes/Laws.antt =====
-- Fixed-width big-endian numbers read back what was written; checksums fit 32 bits.
use alog.Common.{ℕ, ◌^◌, ◌<◌, ◌≡◌, arith}
use alog.Bytes.{put_uint16, put_uint32, put_uint64, uint, crc_sum32}

pub uint-put_uint16 : (v : ℕ) → v < 2 ^ 16 → uint (put_uint16 v) ≡ v
uint-put_uint16 v h = omega arith

pub uint-put_uint32 : (v : ℕ) → v < 2 ^ 32 → uint (put_uint32 v) ≡ v
uint-put_uint32 v h = omega arith

pub uint-put_uint64 : (v : ℕ) → v < 2 ^ 64 → uint (put_uint64 v) ≡ v
uint-put_uint64 v h = omega arith

pub crc_sum32-lt : (c : ℕ) → crc_sum32 c < 2 ^ 32
unfolding crc_sum32
crc_sum32-lt c = omega arith
