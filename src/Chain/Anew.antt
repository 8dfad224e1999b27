-- ===== src/Chain/Anew.antt =====
-- TruncateAfter before the first payload: the chain begins anew.
use mathlib.Core.Path.{subst}
use alog.Common.{
  drop, ◌++◌, ℕ, zero, suc, ◌-◌, ◌^◌, ◌<◌, ◌≡◌, refl, sym, ap, ◌∙◌, arith, List, [], ◌∷◌, Option,
  none, some, length, get_elem?, if_both, ltb, ltb→le,
}
use alog.Exec.{Result, ok, err, Exec, Done}
use alog.Exec.Post.{Post, Post_mono, Post-bind}
use alog.Bytes.{Bytes}
use alog.Segment.State.{Segment, size, start_sequence}
use alog.Segment.Write
use alog.Chain.State.{Chain, on_fs}
use alog.Chain.Files.{FileSystem, remove, create, segment_file_name, join_path}
use alog.Chain.Append.{add_segment}
use alog.Chain.Sound.{on_fs-with}
use alog.Chain.Truncate.{
  present, segment_at, put_back, on_segment, remove_range, restart, keep_index, truncate_none_after,
  truncate_after_from, truncate_after,
}
use alog.Chain.Keep.{Contains, keep_index-Contains}
use alog.Chain.Contents.{Lines, start_sequence-Sealed}
use alog.Chain.Cut.{get_elem?-PlaceOf}
use alog.Chain.Extended.{remove-faults}
use alog.Chain.Founded.{Founded, create-Founded}
use alog.Chain.Places.{first-start}
use alog.Chain.Shortened.{segment_at-found}

-- The start of a new chain, and the faults of reads, are as they were.
abbrev Same : Chain → Chain → Type 0
Same c d = (d.chain_start ≡ c.chain_start) × (d.fs.read_fault ≡ c.fs.read_fault)

Same-trans : (c d e : Chain) → Same c d → Same d e → Same c e
Same-trans c d e a b = (b.0 ∙ a.0, b.1 ∙ a.1)

put_back-Same :
    (i : ℕ) (x : Result Done × Segment) (c : Chain)
    → Post (put_back i x c) (λ _ d. Same c d) (λ _ _. Unit)
put_back-Same i (ok a, t) c = record { holds = (refl, refl) }
put_back-Same i (err e, t) c = record { holds = tt }

found-Same : (c d : Chain) → d ≡ c → Same c d
found-Same c d e = (ap (λ (x : Chain). x.chain_start) e, ap (λ (x : Chain). x.fs.read_fault) e)

remove_range-Same :
    (n i : ℕ) (c : Chain) → Post (remove_range n i c) (λ _ d. Same c d) (λ _ _. Unit)
unfolding remove_range
remove_range-Same zero i c = record { holds = (refl, refl) }
remove_range-Same (suc n) i c =
    Post-bind (segment_at i) _ c {R = λ _ d. Same c d}
      (Post_mono _ (segment_at-found i c) (λ _ d e. found-Same c d e) (λ _ _ _. tt))
      λ s d a.
        Post-bind (on_segment i Write.close) _ d {R = λ _ u. Same c u}
          (Post-bind (segment_at i) (λ t. put_back i (Write.close t)) d {R = λ _ u. Same c u}
            (Post_mono _ (segment_at-found i d) (λ _ u b. Same-trans c d u a (found-Same d u b))
              (λ _ _ _. tt))
            λ t u b.
              Post_mono _ (put_back-Same i (Write.close t) u) (λ _ v k. Same-trans c u v b k)
                (λ _ _ _. tt))
          λ _ u b.
            Post-bind (on_fs (remove s.file.name)) _ u {R = λ _ v. Same c v}
              (Post_mono _ (on_fs-with (remove s.file.name) u (remove-faults s.file.name u.fs))
                (λ _ v (e, f). Same-trans c u v b (ap (λ (x : Chain). x.chain_start) e, f))
                (λ _ _ _. tt))
              λ _ v k.
                Post_mono _
                  (remove_range-Same n (suc i) (record v { disk_size = v.disk_size - size s }))
                  (λ _ w l. Same-trans c v w k l) (λ _ _ _. tt)

-- The chain has one segment, a new one without payloads that begins at the start of a new chain, and
-- whose file ends behind its header.
pub record Anew (c d : Chain) : Type 0 where
  pub first : Segment
  pub only : d.segments ≡ first ∷ []
  pub founded : Founded c.chain_start first
  pub contents : Lines d.segments c.chain_start []
  pub same_start : d.chain_start ≡ c.chain_start

restart-Anew :
    (c : Chain)
    → ((off : ℕ) → c.fs.read_fault off ≡ none)
    → c.chain_start < 2 ^ 64
    → Post (restart c) (λ _ d. Anew c d) (λ _ _. Unit)
unfolding restart add_segment
restart-Anew c clean fits =
    Post-bind (remove_range (length c.segments) 0) _ c (remove_range-Same (length c.segments) 0 c)
      λ _ d (start, faults).
        let e : Chain = record d { segments = [] } in
        let make : Exec FileSystem Segment =
          create (join_path e.directory (segment_file_name e.chain_start)) e.chain_start
            e.sync_on_append in
        Post-bind (on_fs make) _ e
          (Post_mono _
            (on_fs-with make e (
              create-Founded e.chain_start e.sync_on_append (omega (arith, start, fits))
                (join_path e.directory (segment_file_name e.chain_start)) e.fs
                (λ off. ap (λ k. k off) faults ∙ clean off)))
            (λ _ u x. x) (λ _ _ _. tt))
          λ t u (same, f). record {
            holds = record {
              first = t;
              only = ap (λ (x : Chain). x.segments ++ t ∷ []) same;
              founded = subst (λ (m : ℕ). Founded m t) start f;
              contents = rw (ap (λ (x : Chain). x.segments) same) (record {
                payloads = [];
                later = [];
                sealed = f.sealed;
                starts = omega (arith, f.base, f.from_first, start);
                split = ap (λ (i : ℕ). drop i [] ++ []) (sym f.from_first);
                more = refl;
              });
              same_start = ap (λ (x : Chain). x.chain_start) same ∙ start;
            };
          }

-- TruncateAfter at a number before the first, on contiguous segments whose readable payloads are `qs`,
-- numbered from `n` on: if it succeeds, the chain has one segment, which is new, holds no payloads and
-- begins with the number with which a new chain starts, so that the next payload gets that number. The
-- chain has a segment, reads do not fail in new files, and the start is a uint64.
pub truncate_after-Anew :
    (c : Chain) (s : Segment) (ss : List Segment) (n : ℕ) (qs : List Bytes) (seq : ℕ)
    → c.segments ≡ s ∷ ss
    → Lines c.segments n qs
    → seq < n
    → ((off : ℕ) → c.fs.read_fault off ≡ none)
    → c.chain_start < 2 ^ 64
    → Post (truncate_after seq c) (λ _ d. Anew c d) (λ _ _. Unit)
unfolding truncate_after truncate_none_after
truncate_after-Anew c s ss n qs seq e h early clean fits =
    let first : start_sequence s ≡ n =
      first-start c.segments n qs s h (ap (λ x. get_elem? x 0) e) in
    subst
      (λ x.
        Post {S = Chain} {A = Done}
          (elim x [
            | [] ↦ (ok tt, c)
            | u ∷ rest ↦ truncate_after_from seq (keep_index seq c.segments) c
          ])
          (λ _ d. Anew c d) (λ _ _. Unit))
      (sym e) (go (keep_index seq c.segments) refl first)
  where
    go :
        (o : Option ℕ)
        → keep_index seq c.segments ≡ o
        → start_sequence s ≡ n
        → Post (truncate_after_from seq o c) (λ _ d. Anew c d) (λ _ _. Unit)
    go none k first = rw (ap (λ x. present (get_elem? x 0)) e) (
        if_both (λ (m : Exec Chain Done). Post (m c) (λ _ d. Anew c d) (λ _ _. Unit))
          (ltb seq (start_sequence s)) (λ _. restart-Anew c clean fits)
          (λ q. absurd (omega (arith, ltb→le seq (start_sequence s) q, first, early))))
    go (some i) k first =
        let at : Contains seq c.segments i = keep_index-Contains seq c.segments i k in
        let p = get_elem?-PlaceOf c.segments n qs i at.segment at.here h in
        absurd (
          omega (
            arith,
            p.starts,
            start_sequence-Sealed at.segment p.payloads p.holds,
            at.from_start,
            early,
          ))
