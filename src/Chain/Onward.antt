-- ===== src/Chain/Onward.antt =====
-- TruncateBefore at a number that is not before the first payload's: the branches.
use mathlib.Core.Path.{subst}
use alog.Common.{
  ltb→lt, none, Option, drop-get_some, drop_all, ltb→le, ltb, if_both, length-append, All-drop,
  get_elem?-lt, some, get_elem?, All, min, get-drop, ℕ, suc, ◌+◌, ◌-◌, ◌≤◌, ◌<◌, ◌≡◌, refl, sym, ap,
  ◌∙◌, arith, List, [], ◌∷◌, length, drop, drop-drop, length-drop,
}
use alog.Exec.{wrap_result, Exec, Result, ok, err, Done}
use alog.Exec.Post.{Post-wrapped, Post, Post_mono, Post-bind}
use alog.Bytes.{Bytes}
use alog.Segment.State.{next_sequence, start_sequence, Segment, base_sequence}
use alog.Segment.Layout.{offset_at, offset_at-length}
use alog.Segment.Write.{set_read_offset}
use alog.Segment.Scanner
use alog.Segment.Scanner.{new_scanner}
use alog.Chain.Seeking.{seek-Sealed}
use alog.Chain.Keep.{Contains, keep_index-Contains}
use alog.Chain.Places.{last-next, get_elem?-some, keep_index-none}
use alog.Chain.State.{Chain}
use alog.Chain.Truncate.{
  keep_index, truncate_none_before, truncate_before_from, empty_last, present, truncate_before_at,
  start_before, seek_offset, move_start, set_at, on_segment, remove_range,
}
use alog.Chain.Contents.{next_sequence-Sealed, start_sequence-Sealed, Sealed, Lines, Line}
use alog.Chain.Restarted.{set_read_offset-From, From}
use alog.Chain.Shortened.{on_segment-Post}
use alog.Chain.Dropped.{remove_range-Back, Lines-drop, Lines-From, set_at-drop}

-- The slot of a segment's header has its 16 bytes.
abbrev pub HasSlot : Segment → Type 0
HasSlot s = length s.meta ≡ 16

module _ (seq : ℕ) (s : Segment) (ps : List Bytes) (h : Sealed s ps) (slot : HasSlot s)
    (low : base_sequence s + s.start_index ≤ seq) (high : seq ≤ base_sequence s + length ps) where
  -- By way of a scanner
  move_start-From :
      (d : Chain)
      → get_elem? d.segments 0 ≡ some s
      → Post
          (move_start seq d)
          (λ _ u.
            (t : Segment) × From s ps (seq - base_sequence s) t
            × (u ≡ record d { segments = set_at 0 t d.segments }))
          (λ _ _. Unit)
  unfolding move_start
  move_start-From d at =
      let k : ℕ = seq - base_sequence s in
      let found : seek_offset seq s ≡ ok (offset_at ps k) =
        ap
          (λ (x : Result Done × Scanner.Scanner). elim x.0 [ err e ↦ err e | ok y ↦ ok x.1.offset ])
          (seek-Sealed s ps seq (new_scanner s 0) h low high) in
      rw (ap present at, ap wrap_result found)
        (Post-wrapped (on_segment 0 (set_read_offset (offset_at ps k))) d (
          Post_mono _
            (on_segment-Post 0 (set_read_offset (offset_at ps k)) d s at
              (set_read_offset-From s ps k h slot (omega (arith, high))))
            (λ _ u x. x) (λ _ _ _. tt)))

module _ (c : Chain) (n : ℕ) (qs : List Bytes) (h : Lines c.segments n qs) (seq : ℕ) (low : n ≤ seq)
    (slots : All HasSlot c.segments) where
  -- Some segment is left, so that the number from which the payloads are counted is one of the chain's.
  abbrev pub Onward : Chain → Type 0
  Onward d =
      Lines d.segments (min seq (n + length qs)) (drop (seq - n) qs) × (0 < length d.segments)

  module _ (k : ℕ) (s : Segment) (here : get_elem? c.segments k ≡ some s)
      (start : start_sequence s ≤ seq) (end : seq < next_sequence s) where
    rest : List Segment
    rest = drop (suc k) c.segments

    apart : drop k c.segments ≡ s ∷ rest
    unfolding rest
    apart = get-drop k c.segments s here

    start_before-Onward :
        (j : ℕ)
        → j ≤ length qs
        → Lines (s ∷ rest) (n + j) (drop j qs)
        → (d : Chain) → d.segments ≡ s ∷ rest
        → Post (start_before seq s d) (λ _ u. Onward u) (λ _ _. Unit)
    start_before-Onward j within l d e =
        let first : start_sequence s ≡ base_sequence s + s.start_index =
          start_sequence-Sealed s l.payloads l.sealed in
        let last : next_sequence s ≡ base_sequence s + length l.payloads =
          next_sequence-Sealed s l.payloads l.sealed in
        let slot : HasSlot s =
          (subst (All HasSlot) apart (All-drop HasSlot k c.segments slots)).0 in
        let number : seq ≡ min seq (n + length qs) = omega (
          arith,
          end,
          last,
          l.starts,
          ap length l.split,
          length-append (drop s.start_index l.payloads) l.later,
          length-drop s.start_index l.payloads,
          length-drop j qs,
          l.sealed.rep.start_bound,
          within,
        ) in
        let below : n + j ≤ seq = omega (arith, l.starts, first, start) in
        let gone : drop (seq - (n + j)) (drop j qs) ≡ drop (seq - n) qs =
          drop-drop (seq - (n + j)) j qs
          ∙ ap (λ (m : ℕ). drop m qs)
              (let z : j + (seq - (n + j)) ≡ seq - n = omega (arith, below) in z) in
        if_both (λ (m : Exec Chain Done). Post (m d) (λ _ u. Onward u) (λ _ _. Unit))
          (ltb (start_sequence s) seq)
          (λ _.
            Post_mono _
              (move_start-From seq s l.payloads l.sealed slot (omega (arith, first, start))
                (omega (arith, end, last)) d (ap (λ x. get_elem? x 0) e))
              (λ _ u (t, f, same). (
                subst (λ x. Lines x (min seq (n + length qs)) (drop (seq - n) qs))
                    (sym (ap (λ (x : Chain). x.segments) same ∙ ap (set_at 0 t) e))
                    (subst (λ (x : ℕ × List Bytes). Lines (t ∷ rest) x.0 x.1)
                      (λ i. (number i, gone i))
                      (Lines-From s t rest (n + j) (drop j qs) seq l below
                        (omega (arith, end, last)) f)),
                omega (
                  arith,
                  ap (λ (x : Chain). length x.segments) same,
                  ap (λ x. length (set_at 0 t x)) e,
                ),
              ))
              (λ _ _ _. tt))
          (λ q.
            let same : n + j ≡ seq =
              omega (arith, ltb→le (start_sequence s) seq q, l.starts, first, start) in
            let none_gone : drop j qs ≡ drop (seq - n) qs =
              ap (λ (m : ℕ). drop m qs) (let z : j ≡ seq - n = omega (arith, same) in z) in
            record {
              holds = (
                subst (λ x. Lines x (min seq (n + length qs)) (drop (seq - n) qs)) (sym e)
                    (subst (λ (x : ℕ × List Bytes). Lines (s ∷ rest) x.0 x.1)
                      (λ i. ((same ∙ number) i, none_gone i)) l),
                omega (arith, ap length e),
              );
            })

    truncate_before_at-Lines : Post (truncate_before_at seq k c) (λ _ d. Onward d) (λ _ _. Unit)
    unfolding truncate_before_at
    truncate_before_at-Lines =
        let (j, within, l) =
          Lines-drop k c.segments n qs h (omega (arith, get_elem?-lt c.segments k s here)) in
        Post-bind (remove_range k 0) _ c (remove_range-Back k k 0 c (omega arith)) λ _ d e.
          let d' : Chain = record d { segments = drop k d.segments } in
          rw (ap (λ x. present (get_elem? x 0)) (e ∙ apart)) (
            start_before-Onward j within (subst (λ x. Lines x (n + j) (drop j qs)) apart l) d'
              (e ∙ apart))

  -- The last segment, from its end on
  last-Line :
      (s t : Segment) (j : ℕ)
      → j ≤ length qs
      → n + length qs ≤ seq
      → (l : Line Sealed (λ m rs. Lines [] m rs) s (n + j) (drop j qs))
      → base_sequence s + length l.payloads ≡ n + length qs
      → From s l.payloads (length l.payloads) t
      → Lines (t ∷ []) (min seq (n + length qs)) (drop (seq - n) qs)
  last-Line s t j within past l end f =
      let last : ℕ = base_sequence s + length l.payloads in
      let count : length l.payloads ≡ last - base_sequence s = omega arith in
      let number : last ≡ min seq (n + length qs) = omega (arith, end, past) in
      let gone : drop (last - (n + j)) (drop j qs) ≡ drop (seq - n) qs =
        drop_all (last - (n + j)) (drop j qs) (omega (arith, length-drop j qs, end, within))
        ∙ sym (drop_all (seq - n) qs (omega (arith, past))) in
      subst (λ (x : ℕ × List Bytes). Lines (t ∷ []) x.0 x.1) (λ i. (number i, gone i))
        (Lines-From s t [] (n + j) (drop j qs) last l (omega (arith, end, within)) (omega arith)
          (subst (λ (k : ℕ). From s l.payloads k t) count f))

  emptied :
      (m : ℕ) (s : Segment) (j : ℕ)
      → j ≤ length qs
      → n + length qs ≤ seq
      → get_elem? c.segments m ≡ some s
      → suc m ≡ length c.segments
      → Lines (s ∷ []) (n + j) (drop j qs)
      → Post (empty_last m c) (λ _ d. Onward d) (λ _ _. Unit)
  unfolding empty_last
  emptied m s j within past here last l =
      let ps : List Bytes = l.payloads in
      let tail : drop m c.segments ≡ s ∷ [] =
        get-drop m c.segments s here
        ∙ ap (λ x. s ∷ x) (drop_all (suc m) c.segments (omega (arith, last))) in
      let slot : HasSlot s = (subst (All HasSlot) tail (All-drop HasSlot m c.segments slots)).0 in
      let end : base_sequence s + length ps ≡ n + length qs =
        sym (next_sequence-Sealed s ps l.sealed) ∙ last-next c.segments n qs m s h here last in
      Post-bind (remove_range m 0) _ c (remove_range-Back m m 0 c (omega arith)) λ _ d e.
        let same : drop m d.segments ≡ s ∷ [] = e ∙ tail in
        let at : get_elem? d.segments m ≡ some s = (drop-get_some m d.segments s [] same).0 in
        let offset : s.write_offset ≡ offset_at ps (length ps) =
          l.sealed.rep.end_offset ∙ sym (offset_at-length ps (length ps) refl) in
        rw (ap present at) (
          Post-bind (on_segment m (set_read_offset s.write_offset)) _ d
            (Post_mono _
              (on_segment-Post m (set_read_offset s.write_offset) d s at (
                subst
                  (λ (o : ℕ).
                    Post (set_read_offset o s) (λ _ t. From s ps (length ps) t) (λ _ _. Unit))
                  (sym offset) (set_read_offset-From s ps (length ps) l.sealed slot (omega arith))))
              (λ _ u x. x) (λ _ _ _. tt))
            λ _ u (t, f, changed). record {
              holds =
                  let one : drop m u.segments ≡ t ∷ [] =
                    ap (λ (x : Chain). drop m x.segments) changed
                    ∙ set_at-drop m t s d.segments [] same in
                  (
                    subst (λ x. Lines x (min seq (n + length qs)) (drop (seq - n) qs)) (sym one)
                        (last-Line s t j within past l end f),
                    omega (arith, ap length one),
                  );
            })

  none_kept :
      (s : Segment) (m : ℕ)
      → get_elem? c.segments m ≡ some s
      → suc m ≡ length c.segments
      → keep_index seq c.segments ≡ none
      → Post (truncate_none_before seq c) (λ _ d. Onward d) (λ _ _. Unit)
  unfolding truncate_none_before
  none_kept s m here last none_at =
      let past : n + length qs ≤ seq = keep_index-none c.segments n qs h seq low none_at in
      let place : length c.segments - 1 ≡ m = omega (arith, last) in
      let (j, within, l) = Lines-drop m c.segments n qs h (omega (arith, last)) in
      let tail : drop m c.segments ≡ s ∷ [] =
        get-drop m c.segments s here
        ∙ ap (λ x. s ∷ x) (drop_all (suc m) c.segments (omega (arith, last))) in
      rw (place, ap present here)
        (if_both (λ (x : Exec Chain Done). Post (x c) (λ _ d. Onward d) (λ _ _. Unit))
          (ltb seq (next_sequence s))
          (λ q. absurd (
            omega (
              arith,
              ltb→lt seq (next_sequence s) q,
              last-next c.segments n qs m s h here last,
              past,
            )))
          (λ _.
            emptied m s j within past here last (subst (λ x. Lines x (n + j) (drop j qs)) tail l)))

  pub Onward-from :
      (o : Option ℕ)
      → keep_index seq c.segments ≡ o
      → 0 < length c.segments
      → Post (truncate_before_from seq o c) (λ _ d. Onward d) (λ _ _. Unit)
  Onward-from (some k) e some_of =
      let at : Contains seq c.segments k = keep_index-Contains seq c.segments k e in
      truncate_before_at-Lines k at.segment at.here at.from_start at.before_end
  Onward-from none e some_of =
      let m : ℕ = length c.segments - 1 in
      let (s, here) = get_elem?-some c.segments m (omega (arith, some_of)) in
      none_kept s m here (omega (arith, some_of)) e
