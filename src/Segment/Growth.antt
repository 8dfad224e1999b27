-- ===== src/Segment/Growth.antt =====
-- What Append changes of the sizes and sequences of a segment.
use alog.Common.{ℕ, ◌+◌, ◌≡◌, refl, ap, ◌∙◌, arith, List, [], ◌∷◌, length, if_both, ltb}
use alog.Exec.{Result, ok, err, Exec, Done, attempt, ◌>>=◌, after}
use alog.Exec.Post.{Post, Post_mono, Post-bind, Post-wrapped, Post-attempt}
use alog.Bytes.{Bytes}
use alog.Storage
use alog.Storage.{File, seek, write_to}
use alog.Segment.State.{Segment, on_file, next_index, append_size}
use alog.Segment.Write.{
  Batch, encode_batch, persist, sync, trim, advance, append, failed_persist, finish_append,
}
use alog.Frame.Header.{max_uint32, new_header}
use alog.Segment.Append.{Only, on_file-Post}

-- The segment has the same first frames, and `n` bytes more.
pub record Grown (n : ℕ) (s t : Segment) : Type 0 where
  pub same_header : t.header ≡ s.header
  pub same_start : t.start_index ≡ s.start_index
  pub size_grown : t.write_offset ≡ s.write_offset + n

pub Grown-Only : (s t : Segment) → Only s t → Grown 0 s t
Grown-Only s t e = record {
  same_header = ap (λ (x : Segment). x.header) e;
  same_start = ap (λ (x : Segment). x.start_index) e;
  size_grown =
      let d : t.write_offset ≡ s.write_offset = ap (λ (x : Segment). x.write_offset) e in
      omega arith;
}

always : {A : Type 0} (x : Result A × File) → Post x (λ _ _. Unit) (λ _ _. Unit)
always (ok a, f) = record { holds = tt }
always (err e, f) = record { holds = tt }

on_file-Only :
    {A : Type 0} (m : Exec File A) (s : Segment)
    → Post (on_file m s) (λ _ t. Only s t) (λ _ t. Only s t)
on_file-Only m s = Post_mono _ (on_file-Post m s (always (m s.file))) (λ _ t h. h.0) (λ _ t h. h.0)

Only-after : (s t u : Segment) → Only s t → Only t u → Only s u
Only-after s t u e d = d ∙ ap (λ (x : Segment). record x { file = u.file }) e

sync-Only : (s : Segment) → Post (sync s) (λ _ t. Only s t) (λ _ t. Only s t)
unfolding sync
sync-Only s = Post-wrapped (on_file Storage.sync) s (on_file-Only Storage.sync s)

pub trim-Only : (s : Segment) → Post (trim s) (λ _ t. Only s t) (λ _ t. Only s t)
unfolding trim
trim-Only s =
    Post-bind (on_file (Storage.truncate s.write_offset)) _ s {R = λ _ t. Only s t}
      (on_file-Only (Storage.truncate s.write_offset) s)
      λ _ t e.
        Post_mono _ (sync-Only t) (λ _ u d. Only-after s t u e d) (λ _ u d. Only-after s t u e d)

persist-Only :
    (bufs : List Bytes) (s : Segment) → Post (persist bufs s) (λ _ t. Only s t) (λ _ t. Only s t)
unfolding persist
persist-Only bufs s =
    Post-bind (on_file (seek s.write_offset)) _ s {R = λ _ t. Only s t}
      (on_file-Only (seek s.write_offset) s)
      λ _ t e.
        Post-bind (on_file (write_to bufs)) _ t {R = λ _ u. Only s u}
          (Post_mono _ (on_file-Only (write_to bufs) t) (λ _ u d. Only-after s t u e d)
            (λ _ u d. Only-after s t u e d))
          λ _ u d.
            if_both (λ (m : Exec Segment Done). Post (m u) (λ _ v. Only s v) (λ _ v. Only s v))
              u.sync_on_append
              (λ _.
                Post_mono _ (sync-Only u) (λ _ v c. Only-after s u v d c)
                  (λ _ v c. Only-after s u v d c))
              (λ _. record { holds = d })

abbrev EncodedSize : ℕ → Result Batch → Type 0
EncodedSize o (ok b) = b.offset ≡ o
EncodedSize o (err e) = Unit

encode_batch-size :
    (i o : ℕ) (qs : List Bytes) → EncodedSize (o + append_size qs) (encode_batch i o qs)
unfolding encode_batch
encode_batch-size i o [] = omega arith
encode_batch-size i o (q ∷ qs) =
    if_both (EncodedSize (o + append_size (q ∷ qs))) (ltb max_uint32 (length q)) (λ _. tt)
      (λ _.
        go (encode_batch (next_index i) (o + (16 + length q)) qs)
          (encode_batch-size (next_index i) (o + (16 + length q)) qs))
  where
    go :
        (r : Result Batch)
        → EncodedSize (o + (16 + length q) + append_size qs) r
        → EncodedSize
            (o + append_size (q ∷ qs))
            (elim r [ err e ↦ err e | ok b ↦ ok (record b { bufs = new_header i q ∷ q ∷ b.bufs }) ])
    go (err e) h = tt
    go (ok b) h = omega arith

module _ (s : Segment) (qs : List Bytes) (b : Batch)
    (size : b.offset ≡ s.write_offset + append_size qs) where
  finish_append-Grown :
      (t : Segment) (r : Result Done)
      → Only s t
      → Post (finish_append qs b r t) (λ _ u. Grown (append_size qs) s u) (λ _ u. Grown 0 s u)
  unfolding advance
  finish_append-Grown t (ok x) d = record {
    holds = record {
      same_header = ap (λ (x : Segment). x.header) d;
      same_start = ap (λ (x : Segment). x.start_index) d;
      size_grown = size;
    };
  }
  finish_append-Grown t (err e) d =
      Post-attempt trim (failed_persist e) t (trim-Only t)
        (λ _ u c. record { holds = Grown-Only s u (Only-after s t u d c) })
        (λ _ u c. record { holds = Grown-Only s u (Only-after s t u d c) })

  finished-Grown :
      Post
        ((attempt (persist b.bufs) >>= finish_append qs b) s)
        (λ _ u. Grown (append_size qs) s u)
        (λ _ u. Grown 0 s u)
  finished-Grown =
      Post-attempt (persist b.bufs) (finish_append qs b) s (persist-Only b.bufs s)
        (λ x t d. finish_append-Grown t (ok x) d) (λ e t d. finish_append-Grown t (err e) d)

encoded-Grown :
    (s : Segment) (qs : List Bytes) (r : Result Batch)
    → EncodedSize (s.write_offset + append_size qs) r
    → Post
        (after r (λ b. attempt (persist b.bufs) >>= finish_append qs b) s)
        (λ _ u. Grown (append_size qs) s u)
        (λ _ u. Grown 0 s u)
encoded-Grown s qs (ok b) h = finished-Grown s qs b h
encoded-Grown s qs (err e) h = record { holds = Grown-Only s s refl }

-- Append on a segment: it grows by the size of the batch, or stays as large as it was on an error.
pub append-Grown :
    (qs : List Bytes) (s : Segment)
    → Post (append qs s) (λ _ t. Grown (append_size qs) s t) (λ _ t. Grown 0 s t)
unfolding append
append-Grown [] s = record { holds = Grown-Only s s refl }
append-Grown (q ∷ qs) s =
    encoded-Grown s (q ∷ qs) (encode_batch s.write_index s.write_offset (q ∷ qs))
      (encode_batch-size s.write_index s.write_offset (q ∷ qs))
