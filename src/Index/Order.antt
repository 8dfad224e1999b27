-- ===== src/Index/Order.antt =====
-- The checkpoints stay in the strict order of their frame indices, so that the index is a map:
-- `set` writes one key of it, and `for_frame_index` finds the floor of a key.
use alog.Common.{
  ℕ, zero, suc, ◌-◌, ◌≤◌, ◌<◌, ◌≡◌, refl, sym, ap, arith, true, false, ltb, leb, ◌==◌, ◌&&◌, Option,
  none, some, [], ◌∷◌, ◌++◌, length, take, drop, ltb→lt, if◌then◌else◌, if_both, not, ◌%◌,
}
use alog.Search.{search, search_unique}
use alog.Index.{Entry, OffsetIndex, at, set_offset, set, sparse_set, for_frame_index}
use alog.Index.Laws.{Holds}

-- All frame indices lie above `i`.
abbrev pub Above : ℕ → OffsetIndex → Type 0
Above i = Holds (λ k _. i < k)

abbrev pub IsOrdered : OffsetIndex → Type 0
IsOrdered [] = Unit
IsOrdered (e ∷ es) = Above e.index es × IsOrdered es

-- The offset that the index holds for a frame index.
abbrev pub lookup : ℕ → OffsetIndex → Option ℕ
lookup i [] = none
lookup i (e ∷ es) = if e.index == i then some e.offset else lookup i es

-- `set` as a recursion along the order.
abbrev insert : ℕ → ℕ → OffsetIndex → OffsetIndex
insert i o [] = record { index = i; offset = o } ∷ []
insert i o (e ∷ es) =
    if ltb i e.index
    then record { index = i; offset = o } ∷ e ∷ es
    else if e.index == i
    then record e { offset = o } ∷ es
    else e ∷ insert i o es

-- How many checkpoints lie below `i`.
abbrev pub count_below : ℕ → OffsetIndex → ℕ
count_below i [] = 0
count_below i (e ∷ es) = if ltb e.index i then suc (count_below i es) else 0

Above-at : (i k : ℕ) (s : OffsetIndex) → Above i s → k < length s → i < (at s k).index
Above-at i k [] a h = absurd (omega arith)
Above-at i zero (e ∷ es) a h = a.0
Above-at i (suc k) (e ∷ es) a h = Above-at i k es a.1 (omega arith)

at_mono :
    (s : OffsetIndex) (j k : ℕ)
    → IsOrdered s
    → j ≤ k
    → k < length s
    → (at s j).index ≤ (at s k).index
at_mono [] j k o p q = absurd (omega arith)
at_mono (e ∷ es) zero zero o p q = omega arith
at_mono (e ∷ es) zero (suc k) o p q = omega (arith, Above-at e.index k es o.0)
at_mono (e ∷ es) (suc j) zero o p q = absurd (omega arith)
at_mono (e ∷ es) (suc j) (suc k) o p q = at_mono es j k o.1 (omega arith) (omega arith)

count_below-le : (i : ℕ) (s : OffsetIndex) → count_below i s ≤ length s
count_below-le i [] = omega arith
count_below-le i (e ∷ es) = ground (arith, count_below-le i es)

count_below-below :
    (i k : ℕ) (s : OffsetIndex) → suc k ≡ count_below i s → leb i (at s k).index ≡ false
count_below-below i k [] h = absurd (omega arith)
count_below-below i zero (e ∷ es) h = ground arith
count_below-below i (suc k) (e ∷ es) h = ground (arith, count_below-below i k es)

count_below-here :
    (i : ℕ) (s : OffsetIndex)
    → count_below i s < length s
    → leb i (at s (count_below i s)).index ≡ true
count_below-here i [] h = absurd (omega arith)
count_below-here i (e ∷ es) h = ground (arith, count_below-here i es)

-- Where `set` looks: the binary search finds the checkpoint that is not below `i`.
search-count_below :
    (i : ℕ) (s : OffsetIndex)
    → IsOrdered s
    → search (length s) (λ k. leb i (at s k).index) ≡ count_below i s
search-count_below i s o =
    search_unique (length s) (λ k. leb i (at s k).index)
      (λ j k p q t. ground (arith, at_mono s j k o p q)) (count_below i s)
      (record {
        bound = count_below-le i s;
        below = λ k e. count_below-below i k s e;
        here = count_below-here i s;
      })

-- Past the last checkpoint `set` appends.
insert_last :
    (i o : ℕ) (s : OffsetIndex)
    → Holds (λ k _. k < i) s
    → insert i o s ≡ s ++ record { index = i; offset = o } ∷ []
insert_last i o [] h = refl
insert_last i o (e ∷ es) h = ground (arith, insert_last i o es h.1)

last-Holds :
    (i : ℕ) (e : Entry) (es : OffsetIndex)
    → IsOrdered (e ∷ es)
    → (at (e ∷ es) (length es)).index < i
    → Holds (λ k _. k < i) (e ∷ es)
last-Holds i e [] o h = (h, tt)
last-Holds i e (x ∷ es) o h =
    let rest = last-Holds i x es o.1 h in (omega (arith, o.0.0, rest.0), rest)

-- Elsewhere it replaces an offset or shifts the rest by one.
insert-splice :
    (i o : ℕ) (s : OffsetIndex)
    → let r = count_below i s in
      (if ltb r (length s) && (at s r).index == i
        then set_offset s r o
        else take r s ++ record { index = i; offset = o } ∷ drop r s)
      ≡ insert i o s
insert-splice i o [] = refl
insert-splice i o (e ∷ es) = ground (arith, insert-splice i o es)

set-eq-insert : (i o : ℕ) (s : OffsetIndex) → IsOrdered s → set i o s ≡ insert i o s
unfolding set
set-eq-insert i o [] h = refl
set-eq-insert i o (e ∷ es) h =
    let e1 : suc (length es) - 1 ≡ length es = omega arith in
    rw (e1, search-count_below i (e ∷ es) h)
      (if_both (λ t. t ≡ insert i o (e ∷ es)) (length (e ∷ es) == 0) (λ t. absurd (ground arith))
        λ _.
          if_both (λ t. t ≡ insert i o (e ∷ es)) (ltb (at (e ∷ es) (length es)).index i)
            (λ t. sym (insert_last i o (e ∷ es) (last-Holds i e es h (ltb→lt _ _ t))))
            (λ _. insert-splice i o (e ∷ es)))

insert-Above : (j i o : ℕ) (s : OffsetIndex) → j < i → Above j s → Above j (insert i o s)
insert-Above j i o [] h a = (h, tt)
insert-Above j i o (e ∷ es) h a = ground (arith, insert-Above j i o es h a.1)

pub Above-mono : (j i : ℕ) (s : OffsetIndex) → j < i → Above i s → Above j s
Above-mono j i [] h a = tt
Above-mono j i (e ∷ es) h a = (omega (arith, a.0), Above-mono j i es h a.1)

insert-IsOrdered : (i o : ℕ) (s : OffsetIndex) → IsOrdered s → IsOrdered (insert i o s)
insert-IsOrdered i o [] h = (tt, tt)
insert-IsOrdered i o (e ∷ es) h =
    if_both IsOrdered (ltb i e.index)
      (λ t. ((ltb→lt _ _ t, Above-mono i e.index es (ltb→lt _ _ t) h.0), h))
      λ t.
        if_both IsOrdered (e.index == i) (λ _. h)
          λ u. (insert-Above e.index i o es (ground arith) h.0, insert-IsOrdered i o es h.1)

lookup-insert :
    (i o j : ℕ) (s : OffsetIndex)
    → lookup j (insert i o s) ≡ (if i == j then some o else lookup j s)
lookup-insert i o j [] = refl
lookup-insert i o j (e ∷ es) = ground (arith, lookup-insert i o j es)

pub set-IsOrdered : (i o : ℕ) (s : OffsetIndex) → IsOrdered s → IsOrdered (set i o s)
set-IsOrdered i o s h = rw (set-eq-insert i o s h) (insert-IsOrdered i o s h)

pub sparse_set-IsOrdered : (i o : ℕ) (s : OffsetIndex) → IsOrdered s → IsOrdered (sparse_set i o s)
unfolding sparse_set
sparse_set-IsOrdered i o s h =
    if_both IsOrdered (not (i % 256 == 0)) (λ _. h) (λ _. set-IsOrdered i o s h)

-- On an ordered index `Set` keeps the order and writes the one key: it is the update of a map.
pub set_update :
    (i o : ℕ) (s : OffsetIndex)
    → IsOrdered s
    → IsOrdered (set i o s)
      × ((j : ℕ) → lookup j (set i o s) ≡ (if i == j then some o else lookup j s))
set_update i o s h =
    (set-IsOrdered i o s h, λ j. rw (set-eq-insert i o s h) (lookup-insert i o j s))

-- The search of the lookups: the number of checkpoints up to `i`.
pub search-count_to :
    (i : ℕ) (s : OffsetIndex)
    → IsOrdered s
    → search (length s) (λ k. ltb i (at s k).index) ≡ count_below (suc i) s
search-count_to i s o =
    search_unique (length s) (λ k. ltb i (at s k).index)
      (λ j k p q t. ground (arith, at_mono s j k o p q)) (count_below (suc i) s)
      (record {
        bound = count_below-le (suc i) s;
        below = λ k e. ground (arith, count_below-below (suc i) k s e);
        here = λ h. ground (arith, count_below-here (suc i) s h);
      })

-- The greatest frame index up to `i` that has a checkpoint, with its offset.
abbrev pub floor : ℕ → OffsetIndex → Option Entry
floor i [] = none
floor i (e ∷ es) =
    if ltb i e.index then none else elim (floor i es) [ none ↦ some e | some x ↦ some x ]

at_pred :
    (c : ℕ) (e : Entry) (es : OffsetIndex) → at (e ∷ es) c ≡ (if c == 0 then e else at es (c - 1))
at_pred zero e es = refl
at_pred (suc c) e es = ground (arith, ap (at es) (pred-suc c))
  where
    pred-suc : (c : ℕ) → c ≡ suc c - 1
    pred-suc c = omega arith

floor-count :
    (i : ℕ) (s : OffsetIndex)
    → floor i s
      ≡ (if count_below (suc i) s == 0 then none else some (at s (count_below (suc i) s - 1)))
floor-count i [] = refl
floor-count i (e ∷ es) = ground (arith, floor-count i es, at_pred (count_below (suc i) es) e es)

-- On an ordered index `ForFrameIndex` returns the floor of the frame index.
pub for_frame_index-floor :
    (i : ℕ) (s : OffsetIndex) → IsOrdered s → for_frame_index i s ≡ floor i s
unfolding for_frame_index
for_frame_index-floor i [] h = refl
for_frame_index-floor i (e ∷ es) h =
    rw (search-count_to i (e ∷ es) h, floor-count i (e ∷ es)) (ground arith)
