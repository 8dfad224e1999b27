-- ===== src/Segment/Header/Slots.antt =====
-- The two metadata slots: at each moment one is current, and an update writes the other, so that
-- the current one survives an update that fails.
use alog.Common.{
  ℕ, ◌%◌, ◌^◌, ◌<◌, ◌≡◌, sym, ◌∙◌, arith, true, false, ◌++◌, length, slice, splice, slice_middle,
  splice_middle, append_assoc, length-append,
}
use alog.Exec.{ok}
use alog.Bytes.{Bytes}
use alog.Segment.Header.{MetaSlot, generation, slot_valid, newer_than, meta, slot_offset, next_slot}
use alog.Segment.Header.Laws.{slot_valid-next_slot, length-next_slot, generation-next_slot}

-- A generation is a uint16.
abbrev pub IsSlot : MetaSlot → Type 0
IsSlot s = (length s ≡ 16) × (generation s < 2 ^ 16)

-- `cur` is the current slot of a file of bytes `h`: the first slot if its generation is even, the
-- second if it is odd; the other one is not valid, or older.
pub data IsCurrent (cur : MetaSlot) (h : Bytes) : Type 0 where
  first :
      (pre other post : Bytes)
      → h ≡ pre ++ (cur ++ (other ++ post))
      → length pre ≡ 16
      → length other ≡ 16
      → generation cur % 2 ≡ 0
      → (slot_valid other ≡ true → newer_than cur other ≡ true)
      → IsCurrent cur h
  second :
      (pre other post : Bytes)
      → h ≡ pre ++ (other ++ (cur ++ post))
      → length pre ≡ 16
      → length other ≡ 16
      → generation cur % 2 ≡ 1
      → (slot_valid other ≡ true → newer_than other cur ≡ false)
      → IsCurrent cur h

-- `Meta` chooses the current slot, if that is valid and has 16 bytes.
pub meta-IsCurrent :
    (cur : MetaSlot) (h : Bytes)
    → length cur ≡ 16
    → slot_valid cur ≡ true
    → IsCurrent cur h
    → meta h ≡ ok cur
unfolding meta
meta-IsCurrent cur h len v (first pre other post e lp lo g new) =
    let a : slice 16 16 h ≡ cur =
      rw e (slice_middle pre cur (other ++ post) 16 16 (sym lp) (sym len)) in
    let b : slice 32 16 h ≡ other =
      rw (e, ← append_assoc pre cur (other ++ post))
        (slice_middle (pre ++ cur) other post 32 16 (omega (arith, length-append pre cur))
          (sym lo)) in
    rw (a, b, v) (ground (arith, new))
meta-IsCurrent cur h len v (second pre other post e lp lo g new) =
    let a : slice 16 16 h ≡ other =
      rw e (slice_middle pre other (cur ++ post) 16 16 (sym lp) (sym lo)) in
    let b : slice 32 16 h ≡ cur =
      rw (e, ← append_assoc pre other (cur ++ post))
        (slice_middle (pre ++ other) cur post 32 16 (omega (arith, length-append pre other))
          (sym len)) in
    rw (a, b, v) (ground (arith, new))

-- Writing 16 bytes that do not pass as a slot to where the next slot goes keeps the current one.
pub torn-IsCurrent :
    (cur : MetaSlot) (h junk : Bytes)
    → length cur ≡ 16
    → IsCurrent cur h
    → length junk ≡ 16
    → slot_valid junk ≡ false
    → IsCurrent cur (splice (slot_offset cur) junk h)
unfolding slot_offset
torn-IsCurrent cur h junk len (first pre other post e lp lo g new) lj bad =
    first pre junk post
      (rw (g, e, ← append_assoc pre cur (other ++ post))
        (splice_middle (pre ++ cur) other post junk 32 (omega (arith, length-append pre cur))
            (lj ∙ sym lo)
          ∙ append_assoc pre cur (junk ++ post)))
      lp lj g (λ t. cc)
torn-IsCurrent cur h junk len (second pre other post e lp lo g new) lj bad =
    second pre junk post
      (rw (g, e) (splice_middle pre other (cur ++ post) junk 16 (sym lp) (lj ∙ sym lo))) lp lj g
      (λ t. cc)

newer-next :
    (x : ℕ) (cur : MetaSlot)
    → IsSlot cur
    → (newer_than (next_slot x cur) cur ≡ true) × (newer_than cur (next_slot x cur) ≡ false)
unfolding newer_than
newer-next x cur s = rw (generation-next_slot x cur s.0) (ground arith, ground arith)

placed-IsCurrent :
    (x : ℕ) (cur : MetaSlot) (h : Bytes)
    → IsSlot cur
    → IsCurrent cur h
    → IsCurrent (next_slot x cur) (splice (slot_offset cur) (next_slot x cur) h)
unfolding slot_offset
placed-IsCurrent x cur h s (first pre other post e lp lo g new) =
    second pre cur post
      (rw (g, e, ← append_assoc pre cur (other ++ post))
        (splice_middle (pre ++ cur) other post (next_slot x cur) 32
            (omega (arith, length-append pre cur)) (length-next_slot x cur s.0 ∙ sym lo)
          ∙ append_assoc pre cur (next_slot x cur ++ post)))
      lp s.0 (rw (generation-next_slot x cur s.0) (omega arith)) (λ _. (newer-next x cur s).1)
placed-IsCurrent x cur h s (second pre other post e lp lo g new) =
    first pre cur post
      (rw (g, e)
        (splice_middle pre other (cur ++ post) (next_slot x cur) 16 (sym lp)
          (length-next_slot x cur s.0 ∙ sym lo)))
      lp s.0 (rw (generation-next_slot x cur s.0) (omega arith)) (λ _. (newer-next x cur s).0)

-- Writing the next slot of a current slot of 16 bytes over the other one makes it the current one: it is
-- valid, and `Meta` then chooses it.
pub next-IsCurrent :
    (x : ℕ) (cur : MetaSlot) (h : Bytes)
    → IsSlot cur
    → IsCurrent cur h
    → let new = splice (slot_offset cur) (next_slot x cur) h in
      IsCurrent (next_slot x cur) new
      × (slot_valid (next_slot x cur) ≡ true)
      × (meta new ≡ ok (next_slot x cur))
next-IsCurrent x cur h s c =
    let current = placed-IsCurrent x cur h s c in
    let valid = slot_valid-next_slot x cur s.0 in
    (
      current,
      valid,
      meta-IsCurrent (next_slot x cur) (splice (slot_offset cur) (next_slot x cur) h)
          (length-next_slot x cur s.0) valid current,
    )
