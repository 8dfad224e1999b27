-- ===== src/Chain/Synced.antt =====
-- Sync of a chain, and what of it is on stable storage then.
use mathlib.Core.Path.{subst}
use alog.Common.{
  ℕ, zero, suc, ◌+◌, ◌≡◌, refl, sym, ap, ◌∙◌, arith, List, [], ◌∷◌, some, length, take, drop, ◌++◌,
  take_all, get_elem?, All,
}
use alog.Exec.Post.{Post, Post_mono, Post-bind, Post-wrapped, Post-and}
use alog.Bytes.{Bytes}
use alog.Storage
use alog.Storage.{File}
use alog.Storage.Changes.{SameHandle, IsReadable-SameHandle, sync-SameHandle, sync-Post}
use alog.Segment.State.{Segment, on_file, base_sequence}
use alog.Segment.Write
use alog.Segment.Header.{start_sequence}
use alog.Segment.Append.{Only, on_file-Post, Represents-Only}
use alog.Chain.State.{Chain}
use alog.Chain.Truncate.{set_at, on_segment, sync_range, sync}
use alog.Chain.Contents.{Sealed, Lines}
use alog.Chain.Shortened.{on_segment-Post}
use alog.Chain.Places.{get_elem?-some}

-- All bytes of the segment's file are on stable storage.
abbrev pub IsDurable : Segment → Type 0
IsDurable s = s.file.durable ≡ s.file.bytes

-- The segment with its file synced
record Flushed (s t : Segment) : Type 0 where
  only : Only s t
  handle : SameHandle s.file t.file
  bytes : t.file.bytes ≡ s.file.bytes
  durable : IsDurable t

sync-Flushed : (s : Segment) → Post (Write.sync s) (λ _ t. Flushed s t) (λ _ _. Unit)
unfolding Write.sync
sync-Flushed s = Post-wrapped (on_file Storage.sync) s (
    Post_mono _
      (on_file-Post Storage.sync s (Post-and _ (sync-Post s.file) (sync-SameHandle s.file)))
      (λ _ t (d, (a, b)). record { only = d; handle = b.0; bytes = b.1; durable = a.1 ∙ sym b.1 })
      (λ _ _ _. tt))

Flushed-Sealed : (s t : Segment) (ps : List Bytes) → Flushed s t → Sealed s ps → Sealed t ps
unfolding base_sequence
Flushed-Sealed s t ps f h = record {
  rep = Represents-Only s ps h.rep t f.only (rw f.bytes h.rep.layout);
  readable = IsReadable-SameHandle s.file t.file f.handle h.readable;
  whole = ap length f.bytes ∙ h.whole ∙ sym (ap (λ (x : Segment). x.write_offset) f.only);
  room = rw (ap (λ (x : Segment). x.header) f.only) h.room;
}

Lines-set_at :
    (ss : List Segment) (n : ℕ) (qs : List Bytes) (i : ℕ) (s t : Segment)
    → get_elem? ss i ≡ some s
    → Flushed s t
    → Lines ss n qs
    → Lines (set_at i t ss) n qs
unfolding base_sequence
Lines-set_at [] n qs i s t e f h = absurd cc
Lines-set_at (u ∷ us) n qs zero s t e f h =
    let same : s ≡ u = cc in
    let g : Flushed u t = subst (λ x. Flushed x t) same f in
    let base : base_sequence u ≡ base_sequence t =
      ap (λ (x : Segment). start_sequence x.header) (sym g.only) in
    let start : u.start_index ≡ t.start_index = ap (λ (x : Segment). x.start_index) (sym g.only) in
    record {
      payloads = h.payloads;
      later = h.later;
      sealed = Flushed-Sealed u t h.payloads g h.sealed;
      starts = omega (arith, h.starts, base, start);
      split = h.split ∙ ap (λ (k : ℕ). drop k h.payloads ++ h.later) start;
      more =
          subst (λ (m : ℕ). Lines us m h.later) (ap (λ (m : ℕ). m + length h.payloads) base) h.more;
    }
Lines-set_at (u ∷ us) n qs (suc i) s t e f h = record {
  payloads = h.payloads;
  later = h.later;
  sealed = h.sealed;
  starts = h.starts;
  split = h.split;
  more = Lines-set_at us (base_sequence u + length h.payloads) h.later i s t e f h.more;
}

Durable-set_at :
    (ss : List Segment) (i : ℕ) (t : Segment)
    → All IsDurable (take i ss)
    → IsDurable t
    → All IsDurable (take (suc i) (set_at i t ss))
Durable-set_at [] i t h d = tt
Durable-set_at (s ∷ ss) zero t h d = (d, tt)
Durable-set_at (s ∷ ss) (suc i) t h d = (h.0, Durable-set_at ss i t h.1 d)

length-set_at : (i : ℕ) (t : Segment) (ss : List Segment) → length (set_at i t ss) ≡ length ss
length-set_at i t [] = refl
length-set_at zero t (s ∷ ss) = refl
length-set_at (suc i) t (s ∷ ss) = ap suc (length-set_at i t ss)

-- The payloads are as they were, and on stable storage.
pub record Safe (n : ℕ) (qs : List Bytes) (d : Chain) : Type 0 where
  pub contents : Lines d.segments n qs
  pub durable : All IsDurable d.segments

sync_range-Safe :
    (m i : ℕ) (c : Chain) (n : ℕ) (qs : List Bytes)
    → Lines c.segments n qs
    → All IsDurable (take i c.segments)
    → i + m ≡ length c.segments
    → Post (sync_range m i c) (λ _ d. Safe n qs d) (λ _ _. Unit)
unfolding sync_range
sync_range-Safe zero i c n qs h d e = record {
  holds = record {
    contents = h;
    durable = subst (All IsDurable) (take_all i c.segments (omega (arith, e))) d;
  };
}
sync_range-Safe (suc m) i c n qs h d e =
    let (s, at) = get_elem?-some c.segments i (omega (arith, e)) in
    Post-bind (on_segment i Write.sync) _ c
      (Post_mono _ (on_segment-Post i Write.sync c s at (sync-Flushed s)) (λ _ u x. x)
        (λ _ _ _. tt))
      λ _ u (t, f, same).
        let segments : set_at i t c.segments ≡ u.segments =
          sym (ap (λ (x : Chain). x.segments) same) in
        sync_range-Safe m (suc i) u n qs
          (subst (λ x. Lines x n qs) segments (Lines-set_at c.segments n qs i s t at f h))
          (subst (λ x. All IsDurable (take (suc i) x)) segments
            (Durable-set_at c.segments i t d f.durable))
          (omega (arith, e, ap length segments, length-set_at i t c.segments))

-- Sync: if it succeeds, the chain holds what it held, and all bytes of its files are on stable storage.
pub sync-Safe :
    (c : Chain) (n : ℕ) (qs : List Bytes)
    → Lines c.segments n qs
    → Post (sync c) (λ _ d. Safe n qs d) (λ _ _. Unit)
unfolding sync
sync-Safe c n qs h = sync_range-Safe (length c.segments) 0 c n qs h tt (omega arith)

sync_range-length :
    (m i : ℕ) (c : Chain)
    → i + m ≡ length c.segments
    → Post (sync_range m i c) (λ _ d. length d.segments ≡ length c.segments) (λ _ _. Unit)
unfolding sync_range
sync_range-length zero i c e = record { holds = refl }
sync_range-length (suc m) i c e =
    let (s, at) = get_elem?-some c.segments i (omega (arith, e)) in
    Post-bind (on_segment i Write.sync) _ c {R = λ _ u. length u.segments ≡ length c.segments}
      (Post_mono _ (on_segment-Post i Write.sync c s at (sync-Flushed s))
        (λ _ u (t, f, same).
          ap (λ (x : Chain). length x.segments) same ∙ length-set_at i t c.segments)
        (λ _ _ _. tt))
      λ _ u same.
        Post_mono _ (sync_range-length m (suc i) u (omega (arith, e, same)))
          (λ _ v more. more ∙ same) (λ _ _ _. tt)

pub sync-length :
    (c : Chain) → Post (sync c) (λ _ d. length d.segments ≡ length c.segments) (λ _ _. Unit)
unfolding sync
sync-length c = sync_range-length (length c.segments) 0 c (omega arith)
