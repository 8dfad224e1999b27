-- ===== src/Chain/Keep.antt =====
-- The segment that TruncateBefore and TruncateAfter keep.
use alog.Common.{
  ℕ, ◌<◌, ◌≤◌, ◌≡◌, refl, sym, ◌∙◌, List, Option, none, some, true, ltb, length, get_elem?,
  get_elem?-lt, if_both, ltb→lt, ltb→le,
}
use mathlib.Core.Path.{subst}
use alog.Search.{search, IsEdge, search-IsEdge}
use alog.Segment.State.{Segment, start_sequence, next_sequence}
use alog.Chain.Truncate.{ends_after, keep_from, keep_index}

-- The segment at the place `k` contains the sequence number.
pub record Contains (seq : ℕ) (ss : List Segment) (k : ℕ) : Type 0 where
  pub segment : Segment
  pub here : get_elem? ss k ≡ some segment
  pub from_start : start_sequence segment ≤ seq
  pub before_end : seq < next_sequence segment

abbrev Found : ℕ → List Segment → Option ℕ → Type 0
Found seq ss none = Unit
Found seq ss (some k) = Contains seq ss k

keep_from-Found :
    (seq : ℕ) (ss : List Segment) (k : ℕ)
    → (k < length ss → ends_after seq ss k ≡ true)
    → (o : Option Segment) → get_elem? ss k ≡ o
    → Found seq ss (keep_from seq k o)
keep_from-Found seq ss k edge none e = tt
keep_from-Found seq ss k edge (some s) e =
    let test : ends_after seq ss k ≡ ltb seq (next_sequence s) = rw (e, ends_after) refl in
    if_both (Found seq ss) (ltb seq (start_sequence s)) (λ _. tt)
      (λ q. record {
        segment = s;
        here = e;
        from_start = ltb→le seq (start_sequence s) q;
        before_end = ltb→lt seq (next_sequence s) (sym test ∙ edge (get_elem?-lt ss k s e));
      })

-- If a segment is kept, it is one that contains the sequence number, whatever order the segments
-- are in.
pub keep_index-Contains :
    (seq : ℕ) (ss : List Segment) (k : ℕ) → keep_index seq ss ≡ some k → Contains seq ss k
unfolding keep_index
keep_index-Contains seq ss k e =
    let r = search (length ss) (ends_after seq ss) in
    let edge : IsEdge (length ss) (ends_after seq ss) r =
      search-IsEdge (length ss) (ends_after seq ss) in
    subst (Found seq ss) e (keep_from-Found seq ss r edge.here (get_elem? ss r) refl)
