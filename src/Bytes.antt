-- ===== src/Bytes.antt =====
-- Byte strings: encoding/binary.BigEndian over 2, 4 and 8 bytes, and the CRC-32C (Castagnoli) of
-- hash/crc32 as internal/frame/header.go and internal/segment/header.go use it.
pub mod Laws
use alog.Common.{ℕ, ◌+◌, ◌*◌, ◌/◌, ◌%◌, ◌^◌, List, [], ◌∷◌, ◌≡◌, refl, ◌==◌, if◌then◌else◌, bit_xor}

abbrev pub Bytes : Type 0
Bytes = List ℕ

abbrev pub put_uint16 : ℕ → Bytes
put_uint16 v = (v / 2 ^ 8 % 256) ∷ (v % 256) ∷ []

abbrev pub put_uint32 : ℕ → Bytes
put_uint32 v = (v / 2 ^ 24 % 256) ∷ (v / 2 ^ 16 % 256) ∷ (v / 2 ^ 8 % 256) ∷ (v % 256) ∷ []

abbrev pub put_uint64 : ℕ → Bytes
put_uint64 v =
    (v / 2 ^ 56 % 256) ∷ (v / 2 ^ 48 % 256) ∷ (v / 2 ^ 40 % 256) ∷ (v / 2 ^ 32 % 256) ∷ put_uint32 v

-- Big-endian digits; a field of w bytes is read from exactly w bytes.
abbrev pub from_bytes : ℕ → Bytes → ℕ
from_bytes acc [] = acc
from_bytes acc (b ∷ bs) = from_bytes (acc * 256 + b) bs

abbrev pub uint : Bytes → ℕ
uint bs = from_bytes 0 bs

-- One bit, and one byte, of the reflected polynomial 0x1EDC6F41.
crc_bit : ℕ → ℕ
crc_bit c = if c % 2 == 1 then bit_xor (c / 2) 0x82F63B78 else c / 2

crc_byte : ℕ → ℕ → ℕ
crc_byte c b =
    crc_bit (crc_bit (crc_bit (crc_bit (crc_bit (crc_bit (crc_bit (crc_bit (bit_xor c b))))))))

-- summer := crc32.New(table); summer.Write(p); summer.Sum32()
abbrev pub crc_new : ℕ
crc_new = 0xFFFF_FFFF

unfoldable pub crc_write : ℕ → Bytes → ℕ
unfolding crc_bit crc_byte
crc_write c [] = c
crc_write c (b ∷ bs) = crc_write (crc_byte c b) bs

unfoldable pub crc_sum32 : ℕ → ℕ
crc_sum32 c = bit_xor c 0xFFFF_FFFF % 2 ^ 32

-- The check value of CRC-32C: the bytes "123456789".
crc_check :
    crc_sum32 (crc_write crc_new (49 ∷ 50 ∷ 51 ∷ 52 ∷ 53 ∷ 54 ∷ 55 ∷ 56 ∷ 57 ∷ [])) ≡ 0xE306_9283
unfolding crc_write crc_sum32
crc_check = refl
