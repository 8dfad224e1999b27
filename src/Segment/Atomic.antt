-- ===== src/Segment/Atomic.antt =====
-- Append on a segment that holds `ps`: if it succeeds the segment holds the new payloads behind
-- them, and if it fails, at whatever call, the segment still holds `ps`.
use alog.Common.{
  ◌⊎◌, ℕ, suc, ◌+◌, ◌^◌, ◌<◌, ◌≡◌, refl, sym, ap, ◌∙◌, arith, List, [], ◌∷◌, ◌++◌, length, All,
  All-append, append-nil, append_assoc, length-append, inl, inr,
}
use alog.Errors.{Err, join}
use alog.Segment.Sealing.{length-resize, append-Ends}
use alog.Storage
use alog.Storage.Changes.{truncate-Post, sync-Post}
use alog.Exec.{err, attempt, ◌>>=◌}
use alog.Exec.Post.{Post-self, Post-and, Post-bind, Post-wrapped, Post_mono, Post, Post-attempt}
use alog.Bytes.{Bytes}
use alog.Storage.{File, concat}
use alog.Index.{OffsetIndex}
use alog.Segment.State.{on_file, Segment, next_index, append_size}
use alog.Segment.Write.{
  sync, Batch, persist, trim, sample, advance, append, failed_persist, finish_append,
}
use alog.Segment.Layout.{
  Fits, frames, offset_at-split, offset_at-append, offset_at-length, IsIndexOf, IsIndexOf-append,
  set-IsIndexOf, sparse_set-IsIndexOf, append_size-append,
}
use alog.Segment.Represents.{Layout, Represents}
use alog.Segment.Append.{
  on_file-Post, batch_of, encode_batch_cases, concat-bufs_of, Only, persist-Kept, Represents-Only,
  trim-Kept,
}

-- The checkpoints of the frames `rest` behind `front`.
pub sample-IsIndexOf :
    (all front rest : List Bytes) (k o : ℕ) (ix : OffsetIndex)
    → all ≡ front ++ rest
    → length all < 2 ^ 32
    → k ≡ length front
    → o ≡ 64 + append_size front
    → IsIndexOf all ix
    → IsIndexOf all (sample k o rest ix)
unfolding sample
sample-IsIndexOf all front [] k o ix e small kf of h = h
sample-IsIndexOf all front (p ∷ rest) k o ix e small kf of h =
    let e2 : all ≡ (front ++ p ∷ []) ++ rest = e ∙ sym (append_assoc front (p ∷ []) rest) in
    let len : length all ≡ length front + suc (length rest) =
      ap length e ∙ length-append front (p ∷ rest) in
    let next : next_index k ≡ k + 1 = omega arith in
    rw next (
      sample-IsIndexOf all (front ++ p ∷ []) rest (k + 1) (o + (16 + length p)) _ e2 small
        (omega (arith, length-append front (p ∷ [])))
        (omega (arith, append_size-append front (p ∷ [])))
        (sparse_set-IsIndexOf all k o ix h
          (omega arith, of ∙ sym (offset_at-split all front (p ∷ rest) k e kf))))

module _ (s : Segment) (ps qs : List Bytes) (r : Represents s ps)
    (small : length ps + length qs < 2 ^ 32) where
  advance-Represents :
      (f : File)
      → All Fits qs
      → Layout f.bytes (ps ++ qs)
      → Represents
          (advance qs (batch_of s.write_index s.write_offset qs) (record s { file = f }))
          (ps ++ qs)
  unfolding advance batch_of
  advance-Represents f fits l =
      let len : length (ps ++ qs) ≡ length ps + length qs = length-append ps qs in
      let sampled : IsIndexOf (ps ++ qs) (sample s.write_index s.write_offset qs s.offset_index) =
        sample-IsIndexOf (ps ++ qs) ps qs s.write_index s.write_offset s.offset_index refl
          (omega arith) r.count r.end_offset (IsIndexOf-append ps qs s.offset_index r.index) in
      let total : s.write_offset + append_size qs ≡ 64 + append_size (ps ++ qs) =
        omega (arith, append_size-append ps qs, r.end_offset) in
      let number : s.write_index + length qs ≡ length (ps ++ qs) = omega (arith, r.count) in
      record {
        layout = l;
        fits = All-append Fits ps qs r.fits fits;
        small = omega arith;
        count = number;
        end_offset = total;
        start_bound = omega (arith, r.start_bound);
        start = r.start ∙ sym (offset_at-append ps qs s.start_index r.start_bound);
        index =
            set-IsIndexOf (ps ++ qs) _ _ _ sampled
              (omega arith, total ∙ sym (offset_at-length (ps ++ qs) _ number));
      }

  failed-Represents :
      (e : Err) (t : Segment)
      → Only s t
      → Layout t.file.bytes ps
      → Post
          (finish_append qs (batch_of s.write_index s.write_offset qs) (err e) t)
          (λ _ u. Represents u (ps ++ qs))
          (λ _ u. Represents u ps)
  failed-Represents e t d l =
      Post-attempt trim (failed_persist e) t (trim-Kept s ps r t d l)
        (λ _ u (c, k). record { holds = Represents-Only s ps r u c k })
        (λ _ u (c, k). record { holds = Represents-Only s ps r u c k })

  finished-Represents :
      {b : Batch}
      → All Fits qs
      → b ≡ batch_of s.write_index s.write_offset qs
      → Post
          ((attempt (persist b.bufs) >>= finish_append qs b) s)
          (λ _ t. Represents t (ps ++ qs))
          (λ _ t. Represents t ps)
  unfolding batch_of
  finished-Represents {b} fits e =
      let bytes : concat b.bufs ≡ frames (length ps) qs =
        ap (λ (x : Batch). concat x.bufs) e
        ∙ concat-bufs_of s.write_index qs
        ∙ ap (λ (k : ℕ). frames k qs) r.count in
      Post-attempt (persist b.bufs) (finish_append qs b) s (persist-Kept s ps r b.bufs qs bytes)
        (λ _ t (d, l). record { holds = rw (d, e) (advance-Represents t.file fits l) })
        (λ x t (d, l). failed-Represents x t d l)

pub append-Represents :
    (s : Segment) (ps qs : List Bytes)
    → Represents s ps
    → length ps + length qs < 2 ^ 32
    → Post (append qs s) (λ _ t. Represents t (ps ++ qs)) (λ _ t. Represents t ps)
unfolding append
append-Represents s ps [] r small = rw append-nil (record { holds = r })
append-Represents s ps (q ∷ qs) r small =
    elim (encode_batch_cases s.write_index s.write_offset (q ∷ qs) (omega (arith, r.count))) [
      | inr e ↦ rw e (record { holds = r })
      | inl (fits, e) ↦ rw e (finished-Represents s ps (q ∷ qs) r small fits refl)
    ]

-- Nothing is behind the payloads in the file.
abbrev pub IsWhole : Segment → Type 0
IsWhole s = length s.file.bytes ≡ s.write_offset

-- The error `x` with which Append fails: the file ends where the segment does, or the trim of the file
-- has failed in its turn, and `x` has its error in it.
abbrev pub Trimmed : Err → Segment → Type 0
Trimmed x t =
    IsWhole t ⊎ ((u : Segment) × (e : Err) × (d : Err) × (trim u ≡ (err d, t)) × (x ≡ join e d))

trim-IsWhole : (t : Segment) → Post (trim t) (λ _ u. IsWhole u) (λ _ _. Unit)
unfolding trim sync
trim-IsWhole t =
    Post-bind (on_file (Storage.truncate t.write_offset)) (λ _. sync) t {R = λ _ u. IsWhole u}
      (Post_mono _
        (on_file-Post (Storage.truncate t.write_offset) t (truncate-Post t.file t.write_offset))
        (λ _ u (d, cut).
          ap length cut
          ∙ length-resize t.write_offset t.file.bytes
          ∙ sym (ap (λ (x : Segment). x.write_offset) d))
        (λ _ _ _. tt))
      λ _ u h. Post-wrapped (on_file Storage.sync) u (
        Post_mono _ (on_file-Post Storage.sync u (sync-Post u.file))
          (λ _ v (d, same). ap length same.0 ∙ h ∙ sym (ap (λ (x : Segment). x.write_offset) d))
          (λ _ _ _. tt))

failed-Trimmed :
    (qs : List Bytes) (b : Batch) (e : Err) (t : Segment)
    → Post (finish_append qs b (err e) t) (λ _ _. Unit) (λ x u. Trimmed x u)
failed-Trimmed qs b e t =
    Post-attempt trim (failed_persist e) t (Post-and _ (trim-IsWhole t) (Post-self (trim t)))
      (λ _ u (whole, _). record { holds = inl whole })
      (λ d u (_, same). record { holds = inr (t, e, d, same, refl) })

append-Trimmed :
    (s : Segment) (qs : List Bytes)
    → IsWhole s
    → s.write_index + length qs < 2 ^ 32
    → Post (append qs s) (λ _ _. Unit) (λ x t. Trimmed x t)
unfolding append
append-Trimmed s [] whole small = record { holds = tt }
append-Trimmed s (q ∷ qs) whole small =
    elim (encode_batch_cases s.write_index s.write_offset (q ∷ qs) small) [
      | inr e ↦ rw e (record { holds = inl whole })
      | inl (fits, e) ↦
          let b : Batch = batch_of s.write_index s.write_offset (q ∷ qs) in
          rw e (
            Post-attempt (persist b.bufs) (finish_append (q ∷ qs) b) s
              (Post-self (persist b.bufs s)) (λ _ _ _. record { holds = tt })
              (λ x t _. failed-Trimmed (q ∷ qs) b x t))
    ]

-- Append is atomic on a segment whose file ends behind its payloads. If it succeeds, the new payloads
-- stand behind the old ones, and the file ends behind them. If it fails, at whatever call and with
-- whatever part written, the segment still holds the old ones, and the file ends behind them, unless the
-- trim that takes back what was written has failed too, of which the error tells. The payloads together
-- are fewer than 2 ^ 32, since a frame index is a uint32.
pub append_atomic :
    (s : Segment) (ps qs : List Bytes)
    → Represents s ps
    → IsWhole s
    → length ps + length qs < 2 ^ 32
    → Post
        (append qs s)
        (λ _ t. Represents t (ps ++ qs) × IsWhole t)
        (λ x t. Represents t ps × Trimmed x t)
append_atomic s ps qs r whole small =
    let fits : s.write_index + length qs < 2 ^ 32 = omega (arith, r.count, small) in
    Post_mono _
      (Post-and _ (append-Represents s ps qs r small)
        (Post-and _ (append-Ends s qs whole fits) (append-Trimmed s qs whole fits)))
      (λ _ t (rep, (e, _)). (rep, e.whole)) (λ _ t (rep, (_, cut)). (rep, cut))
