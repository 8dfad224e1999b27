-- ===== src/Index/Laws.antt =====
-- What every checkpoint of the index satisfies is kept by its operations, and holds of the
-- checkpoints that its lookups return.
use alog.Common.{
  ℕ, zero, suc, ◌+◌, ◌-◌, ◌≤◌, ◌<◌, ◌≡◌, arith, Bool, false, ltb, leb, none, some, [], ◌∷◌, ◌++◌,
  length, take, drop, if_both, ◌==◌, ◌&&◌, not, ◌%◌, ltb→le, ap,
}
use alog.Search.{search, search-IsEdge}
use alog.Index.{
  Entry, OffsetIndex, at, set_offset, set, sparse_set, by, for_frame_index, for_offset,
  find_frame_index, truncate_after, truncate_before,
}

-- Every checkpoint satisfies `P` of its frame index and its offset.
abbrev pub Holds : (ℕ → ℕ → Type 0) → OffsetIndex → Type 0
Holds P [] = Unit
Holds P (e ∷ es) = P e.index e.offset × Holds P es

module _ (P : ℕ → ℕ → Type 0) where
  pub Holds-append : (xs ys : OffsetIndex) → Holds P xs → Holds P ys → Holds P (xs ++ ys)
  Holds-append [] ys h k = k
  Holds-append (x ∷ xs) ys h k = (h.0, Holds-append xs ys h.1 k)

  pub Holds-take : (n : ℕ) (xs : OffsetIndex) → Holds P xs → Holds P (take n xs)
  Holds-take zero xs h = tt
  Holds-take (suc n) [] h = tt
  Holds-take (suc n) (x ∷ xs) h = (h.0, Holds-take n xs h.1)

  pub Holds-drop : (n : ℕ) (xs : OffsetIndex) → Holds P xs → Holds P (drop n xs)
  Holds-drop zero xs h = h
  Holds-drop (suc n) [] h = tt
  Holds-drop (suc n) (x ∷ xs) h = Holds-drop n xs h.1

  Holds-set_offset :
      (s : OffsetIndex) (i o : ℕ) → Holds P s → P (at s i).index o → Holds P (set_offset s i o)
  Holds-set_offset [] i o h p = tt
  Holds-set_offset (e ∷ es) zero o h p = (p, h.1)
  Holds-set_offset (e ∷ es) (suc i) o h p = (h.0, Holds-set_offset es i o h.1 p)

  pub Holds-at :
      (s : OffsetIndex) (i : ℕ) → i < length s → Holds P s → P (at s i).index (at s i).offset
  Holds-at [] i b h = absurd (omega arith)
  Holds-at (e ∷ es) zero b h = h.0
  Holds-at (e ∷ es) (suc i) b h = Holds-at es i (omega arith) h.1

  pub Holds-set : (i o : ℕ) (s : OffsetIndex) → Holds P s → P i o → Holds P (set i o s)
  unfolding set
  Holds-set i o s h p =
      let e : Entry = record { index = i; offset = o } in
      let r = search (length s) (λ k. leb i (at s k).index) in
      let appended : Holds P (s ++ e ∷ []) = Holds-append s (e ∷ []) h (p, tt) in
      if_both (Holds P) (length s == 0) (λ _. appended)
        λ _.
          if_both (Holds P) (ltb (at s (length s - 1)).index i) (λ _. appended)
            λ _.
              if_both (Holds P) (ltb r (length s) && (at s r).index == i)
                (λ t.
                  let same : (at s r).index ≡ i = ground arith in
                  Holds-set_offset s r o h (rw same p))
                λ _. Holds-append (take r s) (e ∷ drop r s) (Holds-take r s h) (p, Holds-drop r s h)

  pub Holds-sparse_set :
      (i o : ℕ) (s : OffsetIndex) → Holds P s → P i o → Holds P (sparse_set i o s)
  unfolding sparse_set
  Holds-sparse_set i o s h p =
      if_both (Holds P) (not (i % 256 == 0)) (λ _. h) (λ _. Holds-set i o s h p)

  pub Holds-truncate_after : (i : ℕ) (s : OffsetIndex) → Holds P s → Holds P (truncate_after i s)
  unfolding truncate_after
  Holds-truncate_after i s h =
      elim (find_frame_index i s)
        as (λ r. Holds P (elim r [ none ↦ s | some k ↦ take (k + 1) s ])) [
          | none ↦ h
          | some k ↦ Holds-take (k + 1) s h
        ]

  pub Holds-truncate_before : (i : ℕ) (s : OffsetIndex) → Holds P s → Holds P (truncate_before i s)
  unfolding truncate_before
  Holds-truncate_before i s h =
      elim (find_frame_index i s) as (λ r. Holds P (elim r [ none ↦ s | some k ↦ drop k s ])) [
        | none ↦ h
        | some k ↦ Holds-drop k s h
      ]

  -- The checkpoint that a lookup returns is one of the index, and fails the lookup's test.
  by_sound :
      (cmp : ℕ → Bool) (s : OffsetIndex) {e : Entry}
      → Holds P s
      → by cmp s ≡ some e
      → (k : ℕ) × (at s k ≡ e) × (cmp k ≡ false) × P e.index e.offset
  unfolding by
  by_sound cmp s {e} h q =
      let r = search (length s) cmp in
      let edge = search-IsEdge (length s) cmp in
      let found : at s (r - 1) ≡ e = ground arith in
      let pos : 0 < r = ground arith in
      (
        r - 1,
        found,
        edge.below (r - 1) (omega arith),
        rw found at (Holds-at s (r - 1) (omega (arith, edge.bound)) h),
      )

  pub for_frame_index_sound :
      (i : ℕ) (s : OffsetIndex) {e : Entry}
      → Holds P s
      → for_frame_index i s ≡ some e
      → P e.index e.offset × (e.index ≤ i)
  unfolding for_frame_index
  for_frame_index_sound i s h q =
      let (k, same, low, p) = by_sound (λ k. ltb i (at s k).index) s h q in
      (p, rw (ap (λ (x : Entry). x.index) same) at (ltb→le i (at s k).index low))

  pub for_offset_sound :
      (o : ℕ) (s : OffsetIndex) {e : Entry}
      → Holds P s
      → for_offset o s ≡ some e
      → P e.index e.offset × (e.offset ≤ o)
  unfolding for_offset
  for_offset_sound o s h q =
      let (k, same, low, p) = by_sound (λ k. ltb o (at s k).offset) s h q in
      (p, rw (ap (λ (x : Entry). x.offset) same) at (ltb→le o (at s k).offset low))
