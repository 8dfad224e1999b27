-- ===== src/Frame/Header/Laws.antt =====
-- A header that `NewHeader` made has the fields that it was made of, and fits its payload.
use alog.Common.{ℕ, ◌%◌, ◌^◌, ◌≤◌, ◌<◌, ◌≡◌, refl, arith, none, length}
use alog.Bytes.{Bytes}
use alog.Bytes.Laws.{crc_sum32-lt, uint-put_uint32}
use alog.Frame.Header.{
  Header, max_uint32, payload_length, index, crc32c, sum_crc32c, validate, new_header,
}

pub length-new_header : (i : ℕ) (p : Bytes) → length (new_header i p) ≡ 16
unfolding new_header
length-new_header i p = refl

pub sum_crc32c-lt : (h : Header) (p : Bytes) → sum_crc32c h p < 2 ^ 32
unfolding sum_crc32c
sum_crc32c-lt h p = crc_sum32-lt _

pub payload_length-new_header :
    (i : ℕ) (p : Bytes) → payload_length (new_header i p) ≡ length p % 2 ^ 32
unfolding payload_length new_header
payload_length-new_header i p = uint-put_uint32 (length p % 2 ^ 32) (omega arith)

pub index-new_header : (i : ℕ) (p : Bytes) → i < 2 ^ 32 → index (new_header i p) ≡ i
unfolding index new_header
index-new_header i p h = uint-put_uint32 i h

-- The checksum field is not part of what is summed.
pub crc32c-new_header :
    (i : ℕ) (p : Bytes) → crc32c (new_header i p) ≡ sum_crc32c (new_header i p) p
unfolding crc32c new_header sum_crc32c
crc32c-new_header i p = uint-put_uint32 _ (crc_sum32-lt _)

-- Every payload of at most math.MaxUint32 bytes passes the check of the header made for it.
pub validate-new_header :
    (i : ℕ) (p : Bytes) → length p ≤ max_uint32 → validate (new_header i p) p ≡ none
unfolding validate
validate-new_header i p h = ground (arith, payload_length-new_header i p, crc32c-new_header i p)
