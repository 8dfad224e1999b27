-- ===== src/Segment/Append.antt =====
-- The file calls of Append and Trim on a segment that holds `ps`: whichever of them fails, the file
-- still holds the frames of `ps`.
use native.Mathlib.Decide.{dec_le}
use alog.Common.{
  if◌then◌else◌, ℕ, ◌+◌, ◌^◌, ◌<◌, ◌≡◌, refl, sym, ap, ◌∙◌, arith, List, [], ◌∷◌, ◌++◌, length, All,
  append_assoc, Bool, true, false, ◌⊎◌, inl, inr, le→ltb, lt→ltb,
}
use alog.Errors.{Err, payload_too_large}
use alog.Exec.{pure, Result, ok, err, Exec}
use alog.Exec.Post.{Post, Post_mono, Post-bind, Post-wrapped}
use alog.Bytes.{Bytes}
use alog.Storage
use alog.Storage.{File, concat, seek, write_to, put_bytes, resize}
use alog.Storage.Changes.{seek-Post, write_to-Post, truncate-Post, sync-Post}
use alog.Frame.Header.{max_uint32, new_header}
use alog.Segment.State.{Segment, on_file, next_index, append_size}
use alog.Segment.Write.{Batch, encode_batch, persist, sync, trim}
use alog.Segment.Layout.{Fits, frames, frames-append}
use alog.Segment.Represents.{Layout, Represents, Layout-put_bytes, Layout-append, Layout-resize}

-- The buffers of a batch, numbered from `i` on.
abbrev pub bufs_of : ℕ → List Bytes → List Bytes
bufs_of i [] = []
bufs_of i (p ∷ ps) = new_header i p ∷ p ∷ bufs_of (i + 1) ps

pub concat-bufs_of : (i : ℕ) (ps : List Bytes) → concat (bufs_of i ps) ≡ frames i ps
concat-bufs_of i [] = refl
concat-bufs_of i (p ∷ ps) =
    ap (λ t. new_header i p ++ (p ++ t)) (concat-bufs_of (i + 1) ps)
    ∙ sym (append_assoc (new_header i p) p (frames (i + 1) ps))

unfoldable pub batch_of : ℕ → ℕ → List Bytes → Batch
batch_of i o ps = record { bufs = bufs_of i ps; idx = i + length ps; offset = o + append_size ps }

-- The batch is encoded whole if all payloads fit a frame, and refused otherwise.
pub encode_batch_cases :
    (i o : ℕ) (ps : List Bytes)
    → i + length ps < 2 ^ 32
    → (All Fits ps × (encode_batch i o ps ≡ ok (batch_of i o ps)))
      ⊎ (encode_batch i o ps ≡ err payload_too_large)
unfolding encode_batch batch_of
encode_batch_cases i o [] h = inl (tt, ground arith)
encode_batch_cases i o (p ∷ ps) h =
    let next : next_index i ≡ i + 1 = omega arith in
    elim (encode_batch_cases (i + 1) (o + (16 + length p)) ps (omega arith)) [
      | inr e ↦ inr (rw (next, e) (ground arith))
      | inl (fits, e) ↦ elim (dec_le (length p) max_uint32) [
        | no big ↦ inr (rw (next, e, lt→ltb max_uint32 (length p) (omega arith)))
        | yes fit ↦ inl ((fit, fits), rw (next, e, le→ltb max_uint32 (length p) fit) (ground arith))
      ]
    ]

-- Only the file has changed.
abbrev pub Only : Segment → Segment → Type 0
Only s t = t ≡ record s { file = t.file }

module _ {A : Type 0} where
  pub on_file-Post :
      (m : Exec File A) (s : Segment) {P : A → File → Type 0} {Q : Err → File → Type 0}
      → Post (m s.file) P Q
      → Post (on_file m s) (λ a t. Only s t × P a t.file) (λ e t. Only s t × Q e t.file)
  on_file-Post m s h = go (m s.file) h
    where
      go :
          (x : Result A × File) {P : A → File → Type 0} {Q : Err → File → Type 0}
          → Post x P Q
          → Post
              (x.0, record s { file = x.1 })
              (λ a t. Only s t × P a t.file)
              (λ e t. Only s t × Q e t.file)
      go (ok a, f) h = record { holds = (refl, h.holds) }
      go (err e, f) h = record { holds = (refl, h.holds) }

-- More payloads than are asked for are no harm.
pub Layout-prefix : {bytes : Bytes} (ps qs : List Bytes) → Layout bytes (ps ++ qs) → Layout bytes ps
Layout-prefix ps qs l = record {
  head = l.head;
  rest = frames (0 + length ps) qs ++ l.rest;
  shape =
      l.shape
      ∙ ap (λ t. l.head ++ t)
          (ap (λ t. t ++ l.rest) (frames-append 0 ps qs)
            ∙ append_assoc (frames 0 ps) (frames (0 + length ps) qs) l.rest);
  head_length = l.head_length;
}

module _ (s : Segment) (ps : List Bytes) (r : Represents s ps) where
  -- The state may go on with a file that still holds the frames.
  pub Represents-Only : (t : Segment) → Only s t → Layout t.file.bytes ps → Represents t ps
  Represents-Only t e l = rw e (record {
    layout = l;
    fits = r.fits;
    small = r.small;
    count = r.count;
    end_offset = r.end_offset;
    start_bound = r.start_bound;
    start = r.start;
    index = r.index;
  })

  offset-Only : (t : Segment) → Only s t → t.write_offset ≡ 64 + append_size ps
  offset-Only t e = ap (λ (u : Segment). u.write_offset) e ∙ r.end_offset

  Only-trans : (t u : Segment) → Only s t → Only t u → Only s u
  Only-trans t u e d = d ∙ ap (λ (x : Segment). record x { file = u.file }) e

  pub sync-Kept :
      (t : Segment) (qs : List Bytes)
      → Only s t
      → Layout t.file.bytes qs
      → Post
          (sync t)
          (λ _ u. Only s u × Layout u.file.bytes qs)
          (λ _ u. Only s u × Layout u.file.bytes qs)
  unfolding sync
  sync-Kept t qs e l = Post-wrapped (on_file Storage.sync) t (
      Post_mono _ (on_file-Post Storage.sync t (sync-Post t.file))
        (λ _ u (d, h). (Only-trans t u e d, rw h.0 l))
        (λ _ u (d, same). (Only-trans t u e d, rw same l)))

  -- Trim cuts the file behind the frames.
  pub trim-Kept :
      (t : Segment)
      → Only s t
      → Layout t.file.bytes ps
      → Post
          (trim t)
          (λ _ u. Only s u × Layout u.file.bytes ps)
          (λ _ u. Only s u × Layout u.file.bytes ps)
  unfolding trim
  trim-Kept t e l =
      Post-bind (on_file (Storage.truncate t.write_offset)) (λ _. sync) t
        {R = λ _ u. Only s u × Layout u.file.bytes ps}
        (Post_mono _
          (on_file-Post (Storage.truncate t.write_offset) t (truncate-Post t.file t.write_offset))
          (λ _ u (d, cut).
            (Only-trans t u e d, rw cut (Layout-resize l t.write_offset (offset-Only t e))))
          (λ _ u (d, same). (Only-trans t u e d, rw same l)))
        (λ _ u (d, k). sync-Kept u ps d k)

  write-Kept :
      (t : Segment) (bufs : List Bytes) (qs : List Bytes)
      → Only s t
      → t.file.bytes ≡ s.file.bytes
      → t.file.position ≡ s.write_offset
      → concat bufs ≡ frames (length ps) qs
      → Post
          (on_file (write_to bufs) t)
          (λ _ u. Only s u × Layout u.file.bytes (ps ++ qs))
          (λ _ u. Only s u × Layout u.file.bytes ps)
  write-Kept t bufs qs e same at enc =
      let l : Layout t.file.bytes ps = rw same r.layout in
      let off : t.file.position ≡ 64 + append_size ps = at ∙ r.end_offset in
      Post_mono _ (on_file-Post (write_to bufs) t (write_to-Post t.file bufs))
        (λ _ u (d, new).
          (Only-trans t u e d, rw (new, enc) (Layout-append l t.file.position qs off)))
        (λ _ u (d, some_of). (Only-trans t u e d, partial u l off some_of))
    where
      partial :
          (u : Segment)
          → Layout t.file.bytes ps
          → t.file.position ≡ 64 + append_size ps
          → (u.file.bytes ≡ t.file.bytes)
            ⊎ ((new : Bytes) × (u.file.bytes ≡ put_bytes t.file.position new t.file.bytes))
          → Layout u.file.bytes ps
      partial u l off (inl e) = rw e l
      partial u l off (inr (new, e)) = rw e (Layout-put_bytes l t.file.position new off)

  pub persist-Kept :
      (bufs qs : List Bytes)
      → concat bufs ≡ frames (length ps) qs
      → Post
          (persist bufs s)
          (λ _ t. Only s t × Layout t.file.bytes (ps ++ qs))
          (λ _ t. Only s t × Layout t.file.bytes ps)
  unfolding persist
  persist-Kept bufs qs enc =
      Post-bind (on_file (seek s.write_offset)) _ s
        (Post_mono _ (on_file-Post (seek s.write_offset) s (seek-Post s.file s.write_offset))
          (λ _ t h. h) (λ _ t (d, same). (d, rw same r.layout)))
        λ _ t (d, moved).
          Post-bind (on_file (write_to bufs)) _ t (write-Kept t bufs qs d moved.0 moved.1 enc)
            λ _ u (d2, l). last u u.sync_on_append d2 l
    where
      last :
          (u : Segment) (b : Bool)
          → Only s u
          → Layout u.file.bytes (ps ++ qs)
          → Post
              ((if b then sync else pure tt) u)
              (λ _ t. Only s t × Layout t.file.bytes (ps ++ qs))
              (λ _ t. Only s t × Layout t.file.bytes ps)
      last u true d l =
          Post_mono _ (sync-Kept u (ps ++ qs) d l) (λ _ t h. h)
            (λ _ t (e, k). (e, Layout-prefix ps qs k))
      last u false d l = record { holds = (d, l) }
