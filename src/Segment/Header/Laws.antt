-- ===== src/Segment/Header/Laws.antt =====
-- The fields of headers and metadata slots as they were written.
use alog.Common.{
  false, slice, arith, ==_iff, ℕ, ◌≡◌, ◌<◌, ◌^◌, refl, true, [], ◌∷◌, length, ◌+◌, ◌%◌, sym,
}
use alog.Exec.{ok}
use alog.Bytes.{Bytes, crc_write, crc_sum32}
use alog.Bytes.Laws.{crc_sum32-lt, uint-put_uint16, uint-put_uint32, uint-put_uint64}
use alog.Segment.Header.{
  MetaSlot, sum_crc32c, generation, crc, checksum, bump_generation, read_offset, slot_valid,
  start_sequence, valid, meta, next_slot, new_header,
}

pub start_sequence-new_header : (s : ℕ) → s < 2 ^ 64 → start_sequence (new_header s) ≡ s
unfolding start_sequence new_header
start_sequence-new_header s h = uint-put_uint64 s h

pub valid-new_header : (s : ℕ) → valid (new_header s) ≡ true
unfolding valid new_header
valid-new_header s = refl

pub length-new_header : (s : ℕ) → length (new_header s) ≡ 64
unfolding new_header
length-new_header s = refl

-- The 16 bytes of a slot.
pattern abbrev slot16 : ℕ → ℕ → ℕ → ℕ → ℕ → ℕ → ℕ → ℕ → ℕ → ℕ → ℕ → ℕ → ℕ → ℕ → ℕ → ℕ → Bytes
slot16 a b c d e f g h i j k l m n o p =
    a ∷ b ∷ c ∷ d ∷ e ∷ f ∷ g ∷ h ∷ i ∷ j ∷ k ∷ l ∷ m ∷ n ∷ o ∷ p ∷ []

pub length-next_slot : (x : ℕ) (s : MetaSlot) → length s ≡ 16 → length (next_slot x s) ≡ 16
unfolding next_slot bump_generation
length-next_slot x (slot16 a b c d e f g h i j k l m n o p) len = refl
length-next_slot x _ len = absurd (omega arith)

pub generation-next_slot :
    (x : ℕ) (s : MetaSlot)
    → length s ≡ 16
    → generation (next_slot x s) ≡ (generation s + 1) % 2 ^ 16
unfolding next_slot bump_generation generation
generation-next_slot x (slot16 a b c d e f g h i j k l m n o p) len =
    uint-put_uint16 _ (omega arith)
generation-next_slot x _ len = absurd (omega arith)

-- The slot that is made for an offset below 2 ^ 63 gives that offset back.
pub read_offset-next_slot :
    (x : ℕ) (s : MetaSlot) → length s ≡ 16 → x < 2 ^ 63 → read_offset (next_slot x s) ≡ ok x
unfolding next_slot bump_generation read_offset
read_offset-next_slot x (slot16 a b c d e f g h i j k l m n o p) len fits =
    rw (uint-put_uint64 x (omega arith)) (ground arith)
read_offset-next_slot x _ len fits = absurd (omega arith)

sum_crc32c-lt : (o g r : Bytes) → sum_crc32c o g r < 2 ^ 32
unfolding sum_crc32c
sum_crc32c-lt o g r = crc_sum32-lt _

pub slot_valid-next_slot :
    (x : ℕ) (s : MetaSlot) → length s ≡ 16 → slot_valid (next_slot x s) ≡ true
unfolding next_slot bump_generation slot_valid checksum crc
slot_valid-next_slot x (slot16 a b c d e f g h i j k l m n o p) len =
    (==_iff _ _).1 (sym (uint-put_uint32 _ (sum_crc32c-lt _ _ _)))
slot_valid-next_slot x _ len = absurd (omega arith)

-- The slot of a new segment: the read offset 64 at generation 0.
unfoldable pub first_slot : ℕ → MetaSlot
first_slot s = slice 16 16 (new_header s)

-- The metadata of a new segment starts behind the header, at generation 0, in the first slot.
pub meta-new_header : (s : ℕ) → meta (new_header s) ≡ ok (first_slot s)
unfolding first_slot meta new_header slot_valid checksum crc sum_crc32c crc_write crc_sum32
meta-new_header s = refl

pub first_slot_fields :
    (s : ℕ)
    → (read_offset (first_slot s) ≡ ok 64)
      × (generation (first_slot s) ≡ 0)
      × (slot_valid (first_slot s) ≡ true)
      × (slot_valid (slice 32 16 (new_header s)) ≡ false)
unfolding first_slot read_offset generation new_header slot_valid checksum crc sum_crc32c crc_write
    crc_sum32
first_slot_fields s = (refl, refl, refl, refl)
