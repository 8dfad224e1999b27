-- ===== src/Index/Cut.antt =====
-- Cutting an ordered index keeps it ordered, and `TruncateAfter` leaves the checkpoints up to a
-- frame index.
use alog.Common.{
  ℕ, zero, suc, ◌+◌, ◌≤◌, ◌<◌, ◌≡◌, refl, arith, ltb, leb, none, some, [], ◌∷◌, take, drop,
  if◌then◌else◌, if_both,
}
use alog.Index.{Entry, OffsetIndex, find_frame_index, truncate_after, truncate_before}
use alog.Index.Laws.{Holds, Holds-take}
use alog.Index.Order.{Above, IsOrdered, lookup, count_below, search-count_to}

take-IsOrdered : (n : ℕ) (s : OffsetIndex) → IsOrdered s → IsOrdered (take n s)
take-IsOrdered zero s h = tt
take-IsOrdered (suc n) [] h = tt
take-IsOrdered (suc n) (e ∷ es) h =
    (Holds-take (λ k _. e.index < k) n es h.0, take-IsOrdered n es h.1)

drop-IsOrdered : (n : ℕ) (s : OffsetIndex) → IsOrdered s → IsOrdered (drop n s)
drop-IsOrdered zero s h = h
drop-IsOrdered (suc n) [] h = tt
drop-IsOrdered (suc n) (e ∷ es) h = drop-IsOrdered n es h.1

pub truncate_before-IsOrdered :
    (i : ℕ) (s : OffsetIndex) → IsOrdered s → IsOrdered (truncate_before i s)
unfolding truncate_before
truncate_before-IsOrdered i s h =
    elim (find_frame_index i s) as (λ r. IsOrdered (elim r [ none ↦ s | some k ↦ drop k s ])) [
      | none ↦ h
      | some k ↦ drop-IsOrdered k s h
    ]

first_counted :
    (i : ℕ) (e : Entry) (es : OffsetIndex)
    → e.index ≤ i
    → count_below (suc i) (e ∷ es) ≡ suc (count_below (suc i) es)
first_counted i e es p = ground arith

find_frame_index_lem :
    (i : ℕ) (e : Entry) (es : OffsetIndex)
    → IsOrdered (e ∷ es)
    → e.index ≤ i
    → find_frame_index i (e ∷ es) ≡ some (count_below (suc i) es)
unfolding find_frame_index
find_frame_index_lem i e es h p =
    rw (search-count_to i (e ∷ es) h, first_counted i e es p) (ground arith)

-- Where the first checkpoint is kept, `TruncateAfter` keeps just those up to `i`.
truncate_after-take :
    (i : ℕ) (e : Entry) (es : OffsetIndex)
    → IsOrdered (e ∷ es)
    → e.index ≤ i
    → truncate_after i (e ∷ es) ≡ take (count_below (suc i) (e ∷ es)) (e ∷ es)
unfolding truncate_after
truncate_after-take i e es h p =
    let more : count_below (suc i) es + 1 ≡ suc (count_below (suc i) es) = omega arith in
    rw (find_frame_index_lem i e es h p, truncate_after) (rw (more, first_counted i e es p) refl)

take-count_below-le :
    (i : ℕ) (s : OffsetIndex) → Holds (λ k _. k ≤ i) (take (count_below (suc i) s) s)
take-count_below-le i [] = tt
take-count_below-le i (e ∷ es) =
    if_both (λ n. Holds (λ k _. k ≤ i) (take n (e ∷ es))) (ltb e.index (suc i))
      (λ t. (ground arith, take-count_below-le i es)) (λ _. tt)

-- A key below all checkpoints is not there.
pub lookup-below : (j : ℕ) (s : OffsetIndex) → Above j s → lookup j s ≡ none
lookup-below j [] a = refl
lookup-below j (e ∷ es) a = ground (arith, lookup-below j es a.1)

lookup-Above : (i j : ℕ) (s : OffsetIndex) → Above i s → j ≤ i → lookup j s ≡ none
lookup-Above i j [] a h = refl
lookup-Above i j (e ∷ es) a h = ground (arith, lookup-Above i j es a.1 h)

lookup-take :
    (i j : ℕ) (s : OffsetIndex)
    → IsOrdered s
    → lookup j (take (count_below (suc i) s) s) ≡ (if leb j i then lookup j s else none)
lookup-take i j [] h = ground arith
lookup-take i j (e ∷ es) h = ground (arith, lookup-take i j es h.1, lookup-Above e.index j es h.0)

-- `TruncateAfter` on an ordered index whose first checkpoint is not beyond `i` leaves an ordered
-- index of exactly the checkpoints up to `i`, with their offsets.
pub truncate_after_exact :
    (i : ℕ) (e : Entry) (es : OffsetIndex)
    → IsOrdered (e ∷ es)
    → e.index ≤ i
    → IsOrdered (truncate_after i (e ∷ es))
      × Holds (λ k _. k ≤ i) (truncate_after i (e ∷ es))
      × ((j : ℕ)
          → lookup j (truncate_after i (e ∷ es)) ≡ (if leb j i then lookup j (e ∷ es) else none))
truncate_after_exact i e es h p =
    rw (truncate_after-take i e es h p)
      (take-IsOrdered _ (e ∷ es) h, take-count_below-le i (e ∷ es), λ j. lookup-take i j (e ∷ es) h)
