-- ===== src/Segment/Sealing.antt =====
-- Append on a segment whose file ends where it does: so does the file that it leaves.
use alog.Common.{
  le→ltb, ◌≤◌, ℕ, ◌+◌, ◌-◌, ◌^◌, ◌<◌, ◌≡◌, refl, sym, ap, ◌∙◌, arith, List, [], ◌∷◌, ◌++◌, length,
  take, drop, replicate, length-append, length-take, length-drop, length-replicate, if_both, inl,
  inr,
}
use alog.Exec.{Result, ok, err, Exec, Done, attempt, ◌>>=◌}
use alog.Exec.Post.{Post, Post_mono, Post-bind, Post-attempt, Post-wrapped}
use alog.Bytes.{Bytes}
use alog.Storage
use alog.Storage.{resize, File, IsReadable, concat, put_bytes, seek, write_to}
use alog.Storage.Changes.{
  truncate-SameHandle, SameHandle, SameHandle-trans, seek-SameHandle, write_to-SameHandle,
  sync-SameHandle,
}
use alog.Segment.State.{Segment, on_file, anchor_sparse_index}
use alog.Segment.Locate.{find}
use alog.Segment.Write.{
  truncate, retreat, Batch, persist, sync, append, advance, finish_append, failed_persist, trim,
}
use alog.Segment.Append.{Only, on_file-Post, batch_of, concat-bufs_of, encode_batch_cases}
use alog.Segment.Layout.{length-frames}

-- Writing at the end
pub length-put_bytes :
    (off : ℕ) (new bs : Bytes) → off ≡ length bs → length (put_bytes off new bs) ≡ off + length new
length-put_bytes off new bs e =
    let all : Bytes = bs ++ replicate (off - length bs) 0 in
    let size : length all ≡ off = omega (
      arith,
      e,
      length-append bs (replicate (off - length bs) 0),
      length-replicate {A = ℕ} (off - length bs) 0,
    ) in
    omega (
      arith,
      size,
      length-append (take off all) (new ++ drop (off + length new) all),
      length-append new (drop (off + length new) all),
      length-take off all,
      length-drop (off + length new) all,
    )

-- The file of `t` has `n` bytes, under the same handle as that of `s`.
pub record Sized (s : Segment) (n : ℕ) (t : Segment) : Type 0 where
  pub only : Only s t
  pub handle : SameHandle s.file t.file
  pub bytes : length t.file.bytes ≡ n

sync-Sized :
    (s t : Segment) (n : ℕ) → Sized s n t → Post (sync t) (λ _ u. Sized s n u) (λ _ _. Unit)
unfolding sync
sync-Sized s t n h = Post-wrapped (on_file Storage.sync) t (
    Post_mono _ (on_file-Post Storage.sync t (sync-SameHandle t.file))
      (λ _ u (d, (same, bytes)). record {
        only = d ∙ ap (λ (x : Segment). record x { file = u.file }) h.only;
        handle = SameHandle-trans s.file t.file u.file h.handle same;
        bytes = ap length bytes ∙ h.bytes;
      })
      (λ _ _ _. tt))

persist-Sized :
    (s : Segment) (bufs : List Bytes)
    → length s.file.bytes ≡ s.write_offset
    → Post (persist bufs s) (λ _ t. Sized s (s.write_offset + length (concat bufs)) t) (λ _ _. Unit)
unfolding persist
persist-Sized s bufs whole =
    let n : ℕ = s.write_offset + length (concat bufs) in
    Post-bind (on_file (seek s.write_offset)) _ s
      (Post_mono _ (on_file-Post (seek s.write_offset) s (seek-SameHandle s.file s.write_offset))
        (λ _ t h. h) (λ _ _ _. tt))
      λ _ t (d, (handle, same, at)).
        Post-bind (on_file (write_to bufs)) _ t {R = λ _ u. Sized s n u}
          (Post_mono _ (on_file-Post (write_to bufs) t (write_to-SameHandle t.file bufs))
            (λ _ u (c, (next, bytes)). record {
              only = c ∙ ap (λ (x : Segment). record x { file = u.file }) d;
              handle = SameHandle-trans s.file t.file u.file handle next;
              bytes =
                  ap length bytes
                  ∙ length-put_bytes t.file.position (concat bufs) t.file.bytes
                      (at ∙ sym whole ∙ ap length (sym same))
                  ∙ ap (λ (m : ℕ). m + length (concat bufs)) at;
            })
            (λ _ _ _. tt))
          λ _ u h.
            if_both (λ (m : Exec Segment Done). Post (m u) (λ _ v. Sized s n v) (λ _ _. Unit))
              u.sync_on_append (λ _. sync-Sized s u n h) (λ _. record { holds = h })

-- What a success of Append leaves of the file
pub record Ends (s t : Segment) : Type 0 where
  pub handle : SameHandle s.file t.file
  pub whole : length t.file.bytes ≡ t.write_offset

finish_append-Ends :
    (s : Segment) (qs : List Bytes) (b : Batch)
    → length s.file.bytes ≡ s.write_offset
    → b.offset ≡ s.write_offset + length (concat b.bufs)
    → Post ((attempt (persist b.bufs) >>= finish_append qs b) s) (λ _ t. Ends s t) (λ _ _. Unit)
unfolding advance
finish_append-Ends s qs b whole size =
    Post-attempt (persist b.bufs) (finish_append qs b) s (persist-Sized s b.bufs whole)
      (λ x t h. record { holds = record { handle = h.handle; whole = h.bytes ∙ sym size } })
      (λ e t _.
        Post-attempt trim (failed_persist e) t (any (trim t)) (λ _ _ _. record { holds = tt })
          (λ _ _ _. record { holds = tt }))
  where
    any : {A : Type 0} (x : Result A × Segment) → Post x (λ _ _. Unit) (λ _ _. Unit)
    any (ok a, u) = record { holds = tt }
    any (err d, u) = record { holds = tt }

pub append-Ends :
    (s : Segment) (qs : List Bytes)
    → length s.file.bytes ≡ s.write_offset
    → s.write_index + length qs < 2 ^ 32
    → Post (append qs s) (λ _ t. Ends s t) (λ _ _. Unit)
unfolding append batch_of
append-Ends s [] whole small = record {
  holds = record { handle = record { same_open = refl; same_faults = refl }; whole = whole };
}
append-Ends s (q ∷ qs) whole small =
    elim (encode_batch_cases s.write_index s.write_offset (q ∷ qs) small) [
      | inr e ↦ rw e (record { holds = tt })
      | inl (fits, e) ↦ rw e (
          finish_append-Ends s (q ∷ qs) (batch_of s.write_index s.write_offset (q ∷ qs)) whole (
            omega (
              arith,
              ap length (concat-bufs_of s.write_index (q ∷ qs)),
              length-frames s.write_index (q ∷ qs),
            )))
    ]

pub length-resize : (n : ℕ) (bs : Bytes) → length (resize n bs) ≡ n
length-resize n bs =
    let pad : Bytes = replicate (n - length bs) 0 in
    omega (
      arith,
      length-take n (bs ++ pad),
      length-append bs pad,
      length-replicate {A = ℕ} (n - length bs) 0,
    )

-- What a success of Truncate leaves: the file is cut where the segment ends, which keeps its start.
pub record CutEnds (s t : Segment) : Type 0 where
  pub ends : Ends s t
  pub same_header : t.header ≡ s.header
  pub same_start : t.start_index ≡ s.start_index

retreat-CutEnds :
    (s t : Segment) (k off : ℕ) → s.start_index ≤ k → Sized s off t → CutEnds s (retreat k off t)
unfolding retreat anchor_sparse_index
retreat-CutEnds s t k off below h =
    let start : t.start_index ≡ s.start_index = ap (λ (x : Segment). x.start_index) h.only in
    rw (le→ltb k t.start_index (omega (arith, start, below))) (record {
      ends = record { handle = h.handle; whole = h.bytes };
      same_header = ap (λ (x : Segment). x.header) h.only;
      same_start = start;
    })

pub truncate-CutEnds :
    (s : Segment) (seq k off : ℕ)
    → find s seq ≡ ok (k, off)
    → s.start_index ≤ k
    → Post (truncate seq s) (λ _ t. CutEnds s t) (λ _ _. Unit)
unfolding truncate
truncate-CutEnds s seq k off found below = rw found (
    Post-bind (on_file (Storage.truncate off)) _ s {R = λ _ t. Sized s off t}
      (Post_mono _ (on_file-Post (Storage.truncate off) s (truncate-SameHandle s.file off))
        (λ _ t (d, (handle, bytes)). record {
          only = d;
          handle = handle;
          bytes = ap length bytes ∙ length-resize off s.file.bytes;
        })
        (λ _ _ _. tt))
      λ _ t h.
        Post-bind sync _ t {R = λ _ u. Sized s off u} (sync-Sized s t off h)
          λ _ u c. record { holds = retreat-CutEnds s u k off below c })
