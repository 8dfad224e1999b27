-- ===== src/Chain/Places.antt =====
-- The segment that a truncation keeps, and when it keeps none, by the numbers of the payloads.
use alog.Common.{
  ℕ, zero, suc, ◌+◌, ◌≤◌, ◌<◌, ◌≡◌, refl, sym, ap, ◌∙◌, arith, List, [], ◌∷◌, Option, none, some,
  length, drop, get_elem?, get_elem?-lt, if◌then◌else◌, length-append, length-drop, false, ltb,
  ltb→le, le→ltb,
}
use alog.Bytes.{Bytes}
use alog.Search.{search, IsEdge, search-IsEdge}
use alog.Segment.State.{Segment, base_sequence, start_sequence, next_sequence}
use alog.Chain.Truncate.{ends_after, keep_from, keep_index}
use alog.Chain.Contents.{Lines, start_sequence-Sealed, next_sequence-Sealed}

pub first-start :
    (ss : List Segment) (n : ℕ) (qs : List Bytes) (s : Segment)
    → Lines ss n qs
    → get_elem? ss 0 ≡ some s
    → start_sequence s ≡ n
first-start [] n qs s h e = absurd cc
first-start (t ∷ ts) n qs s h e =
    let same : t ≡ s = cc in
    ap start_sequence (sym same) ∙ start_sequence-Sealed t h.payloads h.sealed ∙ sym h.starts

adjacent :
    (ss : List Segment) (n : ℕ) (qs : List Bytes) (i : ℕ) (s t : Segment)
    → Lines ss n qs
    → get_elem? ss i ≡ some s
    → get_elem? ss (suc i) ≡ some t
    → next_sequence s ≡ start_sequence t
adjacent [] n qs i s t h e d = absurd cc
adjacent (u ∷ us) n qs zero s t h e d =
    let same : u ≡ s = cc in
    ap next_sequence (sym same)
    ∙ next_sequence-Sealed u h.payloads h.sealed
    ∙ sym (first-start us (base_sequence u + length h.payloads) h.later t h.more d)
adjacent (u ∷ us) n qs (suc i) s t h e d =
    adjacent us (base_sequence u + length h.payloads) h.later i s t h.more e d

pub last-next :
    (ss : List Segment) (n : ℕ) (qs : List Bytes) (i : ℕ) (s : Segment)
    → Lines ss n qs
    → get_elem? ss i ≡ some s
    → suc i ≡ length ss
    → next_sequence s ≡ n + length qs
last-next [] n qs i s h e l = absurd cc
last-next (u ∷ []) n qs zero s h e l =
    let same : u ≡ s = cc in
    ap next_sequence (sym same)
    ∙ next_sequence-Sealed u h.payloads h.sealed
    ∙ omega (
      arith,
      ap length h.split,
      length-append (drop u.start_index h.payloads) h.later,
      ap length h.more,
      length-drop u.start_index h.payloads,
      h.starts,
      h.sealed.rep.start_bound,
    )
last-next (u ∷ []) n qs (suc i) s h e l = absurd cc
last-next (u ∷ v ∷ vs) n qs zero s h e l = absurd (omega arith)
last-next (u ∷ v ∷ vs) n qs (suc i) s h e l =
    let more =
      last-next (v ∷ vs) (base_sequence u + length h.payloads) h.later i s h.more e (omega arith) in
    more
    ∙ omega (
      arith,
      ap length h.split,
      length-append (drop u.start_index h.payloads) h.later,
      length-drop u.start_index h.payloads,
      h.starts,
      h.sealed.rep.start_bound,
    )

get_elem?-none : (ss : List Segment) (i : ℕ) → get_elem? ss i ≡ none → length ss ≤ i
get_elem?-none [] i e = omega arith
get_elem?-none (s ∷ ss) zero e = absurd cc
get_elem?-none (s ∷ ss) (suc i) e = omega (arith, get_elem?-none ss i e)

pub get_elem?-some :
    (ss : List Segment) (i : ℕ) → i < length ss → (s : Segment) × (get_elem? ss i ≡ some s)
get_elem?-some [] i h = absurd (omega arith)
get_elem?-some (s ∷ ss) zero h = (s, refl)
get_elem?-some (s ∷ ss) (suc i) h = get_elem?-some ss i (omega arith)

module _ (ss : List Segment) (n : ℕ) (qs : List Bytes) (h : Lines ss n qs) (seq : ℕ) where
  -- The segment before the edge ends at or before the number.
  below_edge :
      (i : ℕ) (s : Segment)
      → get_elem? ss i ≡ some s
      → ends_after seq ss i ≡ false
      → next_sequence s ≤ seq
  below_edge i s e f =
      ltb→le seq (next_sequence s)
        (sym (ap (λ o. elim o [ none ↦ false | some t ↦ ltb seq (next_sequence t) ]) e) ∙ f)

  past_all :
      (r : ℕ)
      → r ≡ length ss
      → ((k : ℕ) → suc k ≡ r → ends_after seq ss k ≡ false)
      → n ≤ seq
      → n + length qs ≤ seq
  past_all zero e f low = nothing ss h (omega arith)
    where
      nothing : (xs : List Segment) → Lines xs n qs → 0 ≡ length xs → n + length qs ≤ seq
      nothing [] l z = omega (arith, low, ap length l)
      nothing (x ∷ xs) l z = absurd (omega arith)
  past_all (suc i) e f low =
      let (s, at) = get_elem?-some ss i (omega arith) in
      omega (arith, below_edge i s at (f i refl), last-next ss n qs i s h at e)

  not_before :
      (r : ℕ) (s : Segment)
      → get_elem? ss r ≡ some s
      → ((k : ℕ) → suc k ≡ r → ends_after seq ss k ≡ false)
      → n ≤ seq
      → start_sequence s ≤ seq
  not_before zero s at f low = omega (arith, first-start ss n qs s h at, low)
  not_before (suc i) s at f low =
      let (t, prev) = get_elem?-some ss i (omega (arith, get_elem?-lt ss (suc i) s at)) in
      omega (arith, below_edge i t prev (f i refl), adjacent ss n qs i t s h prev at)

  -- No segment is kept only if all payloads have numbers below `seq`, unless `seq` is before the first.
  pub keep_index-none : n ≤ seq → keep_index seq ss ≡ none → n + length qs ≤ seq
  unfolding keep_index
  keep_index-none low e =
      let edge : IsEdge (length ss) (ends_after seq ss) (search (length ss) (ends_after seq ss)) =
        search-IsEdge (length ss) (ends_after seq ss) in
      go (search (length ss) (ends_after seq ss)) edge (get_elem? ss _) refl e
    where
      go :
          (r : ℕ)
          → IsEdge (length ss) (ends_after seq ss) r
          → (o : Option Segment) → get_elem? ss r ≡ o
          → keep_from seq r o ≡ none
          → n + length qs ≤ seq
      go r edge none at k =
          past_all r (omega (arith, edge.bound, get_elem?-none ss r at)) edge.below low
      go r edge (some s) at k =
          let start : start_sequence s ≤ seq = not_before r s at edge.below low in
          absurd (
            let kept =
              ap (λ b. if b then none else some r) (sym (le→ltb seq (start_sequence s) start))
              ∙ k in
            cc)
