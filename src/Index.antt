-- ===== src/Index.antt =====
-- internal/segment/index/offset.go: sparse checkpoints from frame indices to file offsets.
pub mod Laws
pub mod Order
pub mod Cut
use alog.Common.{
  ℕ, zero, suc, ◌+◌, ◌-◌, ◌%◌, ◌==◌, ltb, leb, not, ◌&&◌, Bool, Option, none, some, List, [], ◌∷◌,
  ◌++◌, length, take, drop, if◌then◌else◌,
}
use alog.Search.{search}

-- Entry
pub record Entry : Type 0 where
  pub index : ℕ
  pub offset : ℕ

-- OffsetIndex, which is its entries
abbrev pub OffsetIndex : Type 0
OffsetIndex = List Entry

abbrev pub sparse_index_stride : ℕ
sparse_index_stride = 256

-- s.entries[i], read within bounds only
abbrev pub at : OffsetIndex → ℕ → Entry
at [] i = record { index = 0; offset = 0 }
at (e ∷ es) zero = e
at (e ∷ es) (suc i) = at es i

-- s.entries[i].offset = offset
abbrev pub set_offset : OffsetIndex → ℕ → ℕ → OffsetIndex
set_offset [] i o = []
set_offset (e ∷ es) zero o = record e { offset = o } ∷ es
set_offset (e ∷ es) (suc i) o = e ∷ set_offset es i o

abbrev pub reset : OffsetIndex → OffsetIndex
reset s = []

unfoldable pub set : ℕ → ℕ → OffsetIndex → OffsetIndex
set index offset s =
    let n = length s in
    let e : Entry = record { index = index; offset = offset } in
    if n == 0
    then s ++ e ∷ []
    else if ltb (at s (n - 1)).index index
    then s ++ e ∷ []
    else let i = search n (λ i. leb index (at s i).index) in
      if ltb i n && (at s i).index == index then set_offset s i offset else take i s ++ e ∷ drop i s

unfoldable pub sparse_set : ℕ → ℕ → OffsetIndex → OffsetIndex
sparse_set index offset s = if not (index % sparse_index_stride == 0) then s else set index offset s

unfoldable pub by : (ℕ → Bool) → OffsetIndex → Option Entry
by cmp s =
    let n = length s in
    if n == 0 then none else let i = search n cmp in if i == 0 then none else some (at s (i - 1))

unfoldable pub for_frame_index : ℕ → OffsetIndex → Option Entry
unfolding by
for_frame_index index s = by (λ i. ltb index (at s i).index) s

unfoldable pub for_offset : ℕ → OffsetIndex → Option Entry
unfolding by
for_offset offset s = by (λ i. ltb offset (at s i).offset) s

-- -1 is `none`.
unfoldable pub find_frame_index : ℕ → OffsetIndex → Option ℕ
find_frame_index idx s =
    let n = length s in
    if n == 0
    then none
    else let i = search n (λ i. ltb idx (at s i).index) in if i == 0 then some 0 else some (i - 1)

unfoldable pub truncate_after : ℕ → OffsetIndex → OffsetIndex
truncate_after index s = elim (find_frame_index index s) [ none ↦ s | some i ↦ take (i + 1) s ]

unfoldable pub truncate_before : ℕ → OffsetIndex → OffsetIndex
truncate_before index s = elim (find_frame_index index s) [ none ↦ s | some i ↦ drop i s ]
