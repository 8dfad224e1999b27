-- ===== src/Chain/Founded.antt =====
-- The segment that Create returns holds no payloads, and its file can be read to the end.
use alog.Common.{
  ℕ, ◌+◌, ◌^◌, ◌<◌, ◌≡◌, refl, ap, ◌∙◌, arith, [], ◌∷◌, ◌++◌, none, length, append-nil, drop_nil,
  Bool, if_both,
}
use alog.Exec.{Result, ok, err, Done, lift}
use alog.Exec.Post.{Post, Post_mono, Post-bind, Post-attempt}
use alog.Bytes.{Bytes}
use alog.Storage.{File, IsReadable, write, write_to, put_bytes}
use alog.Storage.Changes.{
  SameHandle-trans, IsReadable-SameHandle, write_to-SameHandle, sync-SameHandle,
}
use alog.Segment.Header.{MetaSlot, new_header}
use alog.Segment.Header.Laws.{meta-new_header, start_sequence-new_header, length-new_header}
use alog.Segment.State.{Segment, base_sequence, new_segment, anchor_sparse_index, anchored}
use alog.Segment.Layout.{offset_at}
use alog.Segment.Recovery.{fresh-IsIndexOf}
use alog.Chain.Files.{
  FileSystem, create, create_file, make_file, next_call, has_name, sync_dir, finish_create,
  sync_created, write_first,
}
use alog.Chain.Contents.{Sealed}
use alog.Chain.Created.{any_result}
use alog.Chain.Extended.{next_call-faults}

-- A new segment with the header of `n`
pub record Founded (n : ℕ) (s : Segment) : Type 0 where
  pub sealed : Sealed s []
  pub base : base_sequence s ≡ n
  pub from_first : s.start_index ≡ 0

-- Its file, when it has been made and when the header is written
record New (f : File) : Type 0 where
  readable : IsReadable f
  empty : f.bytes ≡ []
  at : f.position ≡ 0

record Headed (n : ℕ) (f : File) : Type 0 where
  readable : IsReadable f
  content : f.bytes ≡ new_header n ++ []

create_file-New :
    (path : Bytes) (fs : FileSystem)
    → ((off : ℕ) → fs.read_fault off ≡ none)
    → Post (create_file path fs) (λ f _. New f) (λ _ _. Unit)
unfolding create_file
create_file-New path fs clean =
    Post-bind next_call (λ _. make_file path) fs {R = λ _ g. g.read_fault ≡ fs.read_fault}
      (Post_mono _ (next_call-faults fs) (λ _ _ x. x) (λ _ _ _. tt))
      λ _ g same.
        if_both (λ (x : Result File × FileSystem). Post x (λ f _. New f) (λ _ _. Unit))
          (has_name path g.names) (λ _. record { holds = tt })
          (λ _. record {
            holds = record {
              readable = record {
                is_open = refl;
                no_fault = λ off. ap (λ k. k off) same ∙ clean off;
              };
              empty = refl;
              at = refl;
            };
          })

put_first : (new : Bytes) → put_bytes 0 new [] ≡ new
put_first new = ap (λ x. new ++ x) (drop_nil (0 + length new)) ∙ append-nil new

write_first-Headed :
    (n : ℕ) (f : File)
    → New f
    → Post (write_first (new_header n) f) (λ _ g. Headed n g) (λ _ _. Unit)
unfolding write
write_first-Headed n f h =
    Post-bind (write_to (new_header n ∷ [])) _ f (write_to-SameHandle f (new_header n ∷ []))
      λ _ g (handle, bytes).
        Post_mono _ (sync-SameHandle g)
          (λ _ u (next, same). record {
            readable = IsReadable-SameHandle f u (SameHandle-trans f g u handle next) h.readable;
            content =
                same
                ∙ bytes
                ∙ ap (λ (m : ℕ). put_bytes m (new_header n ++ []) f.bytes) h.at
                ∙ ap (put_bytes 0 (new_header n ++ [])) h.empty
                ∙ put_first (new_header n ++ []);
          })
          (λ _ _ _. tt)

new_segment-Founded :
    (f : File) (n : ℕ) (b : Bool) (slot : MetaSlot)
    → n < 2 ^ 64
    → Headed n f
    → Founded n (record (new_segment f (new_header n) b) { meta = slot })
unfolding new_segment anchor_sparse_index anchored base_sequence offset_at
new_segment-Founded f n b slot fits h =
    let start = start_sequence-new_header n fits in
    record {
      sealed = record {
        rep = record {
          layout = record {
            head = new_header n;
            rest = [];
            shape = h.content;
            head_length = length-new_header n;
          };
          fits = tt;
          small = omega arith;
          count = refl;
          end_offset = refl;
          start_bound = omega arith;
          start = refl;
          index = fresh-IsIndexOf [] f (new_header n) b;
        };
        readable = h.readable;
        whole = ap length (h.content ∙ append-nil (new_header n)) ∙ length-new_header n;
        room = omega (arith, fits, start);
      };
      base = start;
      from_first = refl;
    }

module _ (n : ℕ) (b : Bool) (fits : n < 2 ^ 64) where
  finish_create-Founded :
      (f : File) (r : Result Done) (fs : FileSystem)
      → Headed n f
      → Post (finish_create (new_header n) b f r, fs) (λ s _. Founded n s) (λ _ _. Unit)
  finish_create-Founded f (err e) fs h = record { holds = tt }
  finish_create-Founded f (ok x) fs h =
      rw (meta-new_header n) (record { holds = new_segment-Founded f n b _ fits h })

  sync_created-Founded :
      (x : Result Done × File) (fs : FileSystem)
      → Post x (λ _ f. Headed n f) (λ _ _. Unit)
      → Post (sync_created (new_header n) b x fs) (λ s _. Founded n s) (λ _ _. Unit)
  sync_created-Founded (err e, f) fs h = record { holds = tt }
  sync_created-Founded (ok x, f) fs h =
      Post-attempt sync_dir (λ r. lift (finish_create (new_header n) b f r)) fs
        (any_result (sync_dir fs)) (λ y gs _. finish_create-Founded f (ok y) gs h.holds)
        (λ e gs _. finish_create-Founded f (err e) gs h.holds)

  pub create-Founded :
      (path : Bytes) (fs : FileSystem)
      → ((off : ℕ) → fs.read_fault off ≡ none)
      → Post (create path n b fs) (λ s _. Founded n s) (λ _ _. Unit)
  unfolding create
  create-Founded path fs clean =
      Post-bind (create_file path) _ fs (create_file-New path fs clean) λ file gs h.
        sync_created-Founded (write_first (new_header n) file) gs (write_first-Headed n file h)
