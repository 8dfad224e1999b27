-- ===== src/Chain/TruncatedAfter.antt =====
-- TruncateAfter, on the list of payloads that a chain holds.
use mathlib.Core.Path.{subst}
use alog.Common.{
  ltb→lt, ℕ, ◌+◌, ◌-◌, ◌%◌, ◌^◌, ◌≤◌, ◌<◌, ◌≡◌, refl, sym, ap, ◌∙◌, arith, List, [], ◌∷◌, Option,
  none, some, length, take, drop, get_elem?, get_elem?-take, take_all, take-append-drop, if_both,
  ltb, le→ltb, if◌then◌else◌,
}
use alog.Exec.{ok, Exec, Done, pure, modify, ◌>>=◌, ◌>>◌}
use alog.Exec.Post.{Post, Post_mono, Post-bind}
use alog.Bytes.{Bytes}
use alog.Segment.State.{Segment, size, base_sequence, start_sequence, next_sequence, append_size}
use alog.Segment.Layout.{offset_at, append_size-append}
use alog.Segment.Write
use alog.Segment.Write.{set_read_offset}
use alog.Chain.State.{Chain}
use alog.Chain.Truncate.{
  present, set_at, segment_at, on_segment, remove_range, keep_index, truncate_none_after,
  start_within, truncate_after_at, truncate_after_from, truncate_after,
}
use alog.Chain.Keep.{Contains, keep_index-Contains}
use alog.Chain.Contents.{Sealed, Lines, start_sequence-Sealed, next_sequence-Sealed}
use alog.Chain.Cut.{PlaceOf, get_elem?-PlaceOf, truncate-Sealed}
use alog.Chain.Shortened.{on_segment-Post, remove_range-Front, get_elem?-set_at}
use alog.Chain.Places.{keep_index-none, first-start}

-- A segment does not start behind its end.
start_offset-Sealed :
    (s : Segment) (ps : List Bytes) → Sealed s ps → s.start_offset ≤ s.write_offset
unfolding offset_at
start_offset-Sealed s ps h = omega (
  arith,
  h.rep.start,
  h.rep.end_offset,
  append_size-append (take s.start_index ps) (drop s.start_index ps),
  ap append_size (take-append-drop s.start_index ps),
)

start_within-Sealed :
    (k : ℕ) (t : Segment) (ps : List Bytes) (c : Chain)
    → Sealed t ps
    → start_within k t c ≡ (ok tt, c)
start_within-Sealed k t ps c h =
    ap (λ b. (if b then on_segment k (set_read_offset t.write_offset) else pure tt) c)
      (le→ltb t.write_offset t.start_offset (start_offset-Sealed t ps h))

module _ (c : Chain) (n : ℕ) (qs : List Bytes) (h : Lines c.segments n qs) (seq : ℕ)
    (low : n ≤ seq) where
  abbrev Cutoff : Chain → Type 0
  Cutoff d = Lines d.segments n (take (seq + 1 - n) qs)

  -- The cut of the kept segment
  module _ (k : ℕ) (s : Segment) (here : get_elem? c.segments k ≡ some s)
      (start : start_sequence s ≤ seq) (end : seq < next_sequence s) where
    place : PlaceOf c.segments n qs k s
    place = get_elem?-PlaceOf c.segments n qs k s here h

    Cut : Segment → Type 0
    unfolding place
    Cut t =
        Sealed t (take (seq + 1 - base_sequence s) place.payloads)
        × (base_sequence t ≡ base_sequence s)
        × (t.start_index ≡ s.start_index)

    from_start : base_sequence s + s.start_index ≤ seq
    unfolding place
    from_start = omega (arith, start, start_sequence-Sealed s place.payloads place.holds)

    to_end : seq + 1 ≤ base_sequence s + length place.payloads
    unfolding place
    to_end = omega (arith, end, next_sequence-Sealed s place.payloads place.holds)

    Cut-truncate : Post (Write.truncate ((seq + 1) % 2 ^ 64) s) (λ _ t. Cut t) (λ _ _. Unit)
    unfolding Cut place
    Cut-truncate =
        let next : (seq + 1) % 2 ^ 64 ≡ seq + 1 = omega (arith, to_end, place.holds.room) in
        subst (λ m. Post (Write.truncate m s) (λ _ t. Cut t) (λ _ _. Unit)) (sym next)
          (truncate-Sealed s place.payloads (seq + 1) place.holds (omega (arith, from_start))
            to_end)

    Cut-Lines :
        (t : Segment)
        → Cut t
        → Lines (set_at k t (take (k + 1) c.segments)) n (take (seq + 1 - n) qs)
    unfolding Cut place
    Cut-Lines t (sealed, base, same) =
        let m : ℕ = seq + 1 - base_sequence s in
        let count : place.before + (m - s.start_index) ≡ seq + 1 - n =
          omega (arith, place.starts, from_start) in
        subst (λ (x : ℕ). Lines (set_at k t (take (k + 1) c.segments)) n (take x qs)) count
          (place.cut t m sealed base same (omega (arith, from_start)) (omega (arith, to_end)))

    -- From the cut on
    cut_rest : Exec Chain Done
    cut_rest = do
      old ← segment_at k
      on_segment k (Write.truncate ((seq + 1) % 2 ^ 64))
      keep ← segment_at k
      modify (λ d. record d { disk_size = d.disk_size + size keep - size old })
      start_within k keep

    cut_rest-Lines :
        (d : Chain)
        → d.segments ≡ take (k + 1) c.segments
        → Post (cut_rest d) (λ _ u. Cutoff u) (λ _ _. Unit)
    unfolding cut_rest Cut
    cut_rest-Lines d e =
        let at : get_elem? d.segments k ≡ some s =
          ap (λ x. get_elem? x k) e ∙ get_elem?-take (k + 1) k c.segments (omega arith) ∙ here in
        rw (ap present at) (
          Post-bind (on_segment k (Write.truncate ((seq + 1) % 2 ^ 64))) _ d
            (Post_mono _
              (on_segment-Post k (Write.truncate ((seq + 1) % 2 ^ 64)) d s at Cut-truncate)
              (λ _ u x. x) (λ _ _ _. tt))
            λ _ u (t, cut, same).
              let found : get_elem? u.segments k ≡ some t =
                ap (λ (x : Chain). get_elem? x.segments k) same
                ∙ get_elem?-set_at k s t d.segments at in
              let v : Chain = record u { disk_size = u.disk_size + size t - size s } in
              rw (ap present found, start_within-Sealed k t _ v cut.0)
                (record {
                  holds =
                      subst (λ x. Lines x n (take (seq + 1 - n) qs))
                        (sym (ap (λ (x : Chain). x.segments) same ∙ ap (set_at k t) e))
                        (Cut-Lines t cut);
                }))

    truncate_after_at-Lines : Post (truncate_after_at seq k c) (λ _ d. Cutoff d) (λ _ _. Unit)
    unfolding truncate_after_at cut_rest
    truncate_after_at-Lines =
        Post-bind (remove_range (length c.segments - (k + 1)) (k + 1)) _ c
          (remove_range-Front (k + 1) (length c.segments - (k + 1)) (k + 1) c (omega arith))
          λ _ d e. cut_rest-Lines (record d { segments = take (k + 1) d.segments }) e

  -- No segment is kept for a number behind all of them: nothing is done.
  none_after :
      (ss : List Segment)
      → c.segments ≡ ss
      → keep_index seq c.segments ≡ none
      → Post (truncate_none_after seq c) (λ _ d. Cutoff d) (λ _ _. Unit)
  unfolding truncate_none_after
  none_after [] e o = rw e (record { holds = tt })
  none_after (s ∷ ss) e o =
      let all : n + length qs ≤ seq = keep_index-none c.segments n qs h seq low o in
      let start : start_sequence s ≡ n =
        first-start c.segments n qs s h (ap (λ x. get_elem? x 0) e) in
      let whole : take (seq + 1 - n) qs ≡ qs = take_all (seq + 1 - n) qs (omega (arith, all)) in
      rw (ap (λ x. present (get_elem? x 0)) e) (
        if_both (λ (m : Exec Chain Done). Post (m c) (λ _ d. Cutoff d) (λ _ _. Unit))
          (ltb seq (start_sequence s))
          (λ q.
            absurd
              (let before = ltb→lt seq (start_sequence s) q in omega (arith, before, start, low)))
          (λ _. record { holds = subst (λ x. Lines c.segments n x) (sym whole) h }))

  from_place :
      (o : Option ℕ)
      → keep_index seq c.segments ≡ o
      → Post (truncate_after_from seq o c) (λ _ d. Cutoff d) (λ _ _. Unit)
  from_place none e = none_after c.segments refl e
  from_place (some k) e =
      let at : Contains seq c.segments k = keep_index-Contains seq c.segments k e in
      truncate_after_at-Lines k at.segment at.here at.from_start at.before_end

  by_segments :
      (ss : List Segment)
      → c.segments ≡ ss
      → Post {S = Chain} {A = Done}
          (elim ss [
            | [] ↦ (ok tt, c)
            | s ∷ rest ↦ truncate_after_from seq (keep_index seq c.segments) c
          ])
          (λ _ d. Cutoff d)
          (λ _ _. Unit)
  by_segments [] e =
      let none_held : qs ≡ [] = subst (λ x. Lines x n qs) e h in
      let whole : take (seq + 1 - n) qs ≡ qs =
        take_all (seq + 1 - n) qs (omega (arith, ap length none_held)) in
      record { holds = subst (λ x. Lines c.segments n x) (sym whole) h }
  by_segments (s ∷ ss) e = from_place (keep_index seq c.segments) refl

-- TruncateAfter at a number that is not before the first, on contiguous segments whose readable
-- payloads are `qs`, numbered from `n` on: if it succeeds, the chain holds exactly those with numbers up
-- to `seq`. The files can be read and end where their segments do.
pub truncate_after-Lines :
    (c : Chain) (n : ℕ) (qs : List Bytes) (seq : ℕ)
    → Lines c.segments n qs
    → n ≤ seq
    → Post (truncate_after seq c) (λ _ d. Lines d.segments n (take (seq + 1 - n) qs)) (λ _ _. Unit)
unfolding truncate_after
truncate_after-Lines c n qs seq h low = by_segments c n qs h seq low c.segments refl
