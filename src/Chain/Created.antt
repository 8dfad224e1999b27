-- ===== src/Chain/Created.antt =====
-- The segment that Create returns.
use alog.Common.{ℕ, ◌<◌, ◌^◌, ◌≡◌, refl, arith, Bool}
use alog.Exec.{Result, ok, err, Done, lift}
use alog.Exec.Post.{Post, Post-bind, Post-attempt}
use alog.Bytes.{Bytes}
use alog.Storage.{File}
use alog.Segment.Header.{MetaSlot, new_header}
use alog.Segment.Header.Laws.{meta-new_header, start_sequence-new_header}
use alog.Segment.State.{
  Segment, size, start_sequence, base_sequence, next_sequence, new_segment, anchor_sparse_index,
}
use alog.Chain.Files.{
  FileSystem, create, create_file, sync_dir, finish_create, sync_created, write_first,
}

-- A segment that has just been created, at the sequence number `n`
pub record IsFirst (n : ℕ) (s : Segment) : Type 0 where
  pub starts : start_sequence s ≡ n
  pub next : next_sequence s ≡ n
  pub empty : size s ≡ 64

new_segment-IsFirst :
    (f : File) (n : ℕ) (b : Bool) (slot : MetaSlot)
    → n < 2 ^ 64
    → IsFirst n (record (new_segment f (new_header n) b) { meta = slot })
unfolding new_segment anchor_sparse_index start_sequence next_sequence base_sequence
new_segment-IsFirst f n b slot h = record {
  starts = rw (start_sequence-new_header n h) (omega arith);
  next = rw (start_sequence-new_header n h) (omega arith);
  empty = refl;
}

pub any_result : {S A : Type 0} (x : Result A × S) → Post x (λ _ _. Unit) (λ _ _. Unit)
any_result (ok a, s) = record { holds = tt }
any_result (err e, s) = record { holds = tt }

-- What holds of each segment made with the header of `n` holds of what Create returns.
module _ (n : ℕ) (b : Bool) (P : Segment → Type 0)
    (made : (f : File) (slot : MetaSlot)
      → P (record (new_segment f (new_header n) b) { meta = slot })) where
  finish_create-Post :
      (f : File) (r : Result Done) (fs : FileSystem)
      → Post (finish_create (new_header n) b f r, fs) (λ s _. P s) (λ _ _. Unit)
  finish_create-Post f (err e) fs = record { holds = tt }
  finish_create-Post f (ok x) fs = rw (meta-new_header n) (record { holds = made f _ })

  sync_created-Post :
      (x : Result Done × File) (fs : FileSystem)
      → Post (sync_created (new_header n) b x fs) (λ s _. P s) (λ _ _. Unit)
  sync_created-Post (err e, f) fs = record { holds = tt }
  sync_created-Post (ok x, f) fs =
      Post-attempt sync_dir (λ r. lift (finish_create (new_header n) b f r)) fs
        (any_result (sync_dir fs)) (λ y gs _. finish_create-Post f (ok y) gs)
        (λ e gs _. finish_create-Post f (err e) gs)

  pub create-Post :
      (path : Bytes) (fs : FileSystem) → Post (create path n b fs) (λ s _. P s) (λ _ _. Unit)
  unfolding create
  create-Post path fs =
      Post-bind (create_file path) _ fs {R = λ _ _. Unit} (any_result (create_file path fs))
        λ file gs _. sync_created-Post (write_first (new_header n) file) gs

pub create-IsFirst :
    (path : Bytes) (n : ℕ) (b : Bool) (fs : FileSystem)
    → n < 2 ^ 64
    → Post (create path n b fs) (λ s _. IsFirst n s) (λ _ _. Unit)
create-IsFirst path n b fs h =
    create-Post n b (IsFirst n) (λ f slot. new_segment-IsFirst f n b slot h) path fs

pub create-size :
    (path : Bytes) (n : ℕ) (b : Bool) (fs : FileSystem)
    → Post (create path n b fs) (λ s _. size s ≡ 64) (λ _ _. Unit)
unfolding new_segment anchor_sparse_index
create-size path n b fs = create-Post n b (λ s. size s ≡ 64) (λ f slot. refl) path fs
