-- ===== src/Storage/Changes.antt =====
-- What each change of a file leaves of its bytes, whether it succeeds or fails.
use alog.Common.{
  ap, ◌∙◌, Bool, ℕ, ◌≡◌, refl, List, Option, none, some, true, false, take, ◌⊎◌, inl, inr,
  if◌then◌else◌,
}
use alog.Errors.{Err}
use alog.Exec.{Done, Result}
use alog.Exec.Post.{Post}
use alog.Bytes.{Bytes}
use alog.Storage.{
  IsReadable, File, Fault, change, next_outcome, later_outcomes, put_bytes, resize, concat,
  write_at, write_to, seek, truncate, sync,
}

-- A call on an open file either completes or fails by the next outcome; on a closed file it fails.
change-Post :
    (complete : File → File) (partial : ℕ → File → File) (f : File) {P : Done → File → Type 0}
    {Q : Err → File → Type 0}
    → (let g = record f { outcomes = later_outcomes f.outcomes } in P tt (complete g))
    → ((e : Err) → Q e f)
    → ((n : ℕ) (e : Err)
        → let g = record f { outcomes = later_outcomes f.outcomes } in Q e (partial n g))
    → Post (change complete partial f) P Q
unfolding change
change-Post complete partial f {P} {Q} p q r = go f.is_closed (next_outcome f.outcomes)
  where
    g : File
    g = record f { outcomes = later_outcomes f.outcomes }

    go :
        (b : Bool) (o : Option Fault)
        → Post
            (if b then (Result.err Err.closed, f) else elim o [
              | none ↦ (Result.ok tt, complete g)
              | some fault ↦ (Result.err fault.error, partial fault.written g)
            ])
            P
            Q
    go true o = record { holds = q Err.closed }
    go false none = record { holds = p }
    go false (some fault) = record { holds = r fault.written fault.error }

module _ (f : File) where
  pub seek-Post :
      (off : ℕ)
      → Post
          (seek off f)
          (λ _ g. (g.bytes ≡ f.bytes) × (g.position ≡ off))
          (λ _ g. g.bytes ≡ f.bytes)
  unfolding seek
  seek-Post off = change-Post _ _ f (refl, refl) (λ _. refl) (λ _ _. refl)

  -- A failed write has put some bytes at the position, or none.
  pub write_to-Post :
      (parts : List Bytes)
      → Post
          (write_to parts f)
          (λ _ g. g.bytes ≡ put_bytes f.position (concat parts) f.bytes)
          (λ _ g.
            (g.bytes ≡ f.bytes) ⊎ ((new : Bytes) × (g.bytes ≡ put_bytes f.position new f.bytes)))
  unfolding write_to
  write_to-Post parts =
      change-Post _ _ f refl (λ _. inl refl) (λ n _. inr (take n (concat parts), refl))

  pub write_at-Post :
      (b : Bytes) (off : ℕ)
      → Post
          (write_at b off f)
          (λ _ g. g.bytes ≡ put_bytes off b f.bytes)
          (λ _ g. (g.bytes ≡ f.bytes) ⊎ ((n : ℕ) × (g.bytes ≡ put_bytes off (take n b) f.bytes)))
  unfolding write_at
  write_at-Post b off = change-Post _ _ f refl (λ _. inl refl) (λ n _. inr (n, refl))

  pub truncate-Post :
      (n : ℕ) → Post (truncate n f) (λ _ g. g.bytes ≡ resize n f.bytes) (λ _ g. g.bytes ≡ f.bytes)
  unfolding truncate
  truncate-Post n = change-Post _ _ f refl (λ _. refl) (λ _ _. refl)

  pub sync-Post :
      Post (sync f) (λ _ g. (g.bytes ≡ f.bytes) × (g.durable ≡ f.bytes)) (λ _ g. g.bytes ≡ f.bytes)
  unfolding sync
  sync-Post = change-Post _ _ f (refl, refl) (λ _. refl) (λ _ _. refl)

-- The file is as open as it was, and reads fail as they did.
pub record SameHandle (f g : File) : Type 0 where
  pub same_open : g.is_closed ≡ f.is_closed
  pub same_faults : g.read_fault ≡ f.read_fault

pub SameHandle-trans : (f g h : File) → SameHandle f g → SameHandle g h → SameHandle f h
SameHandle-trans f g h a b = record {
  same_open = b.same_open ∙ a.same_open;
  same_faults = b.same_faults ∙ a.same_faults;
}

pub IsReadable-SameHandle : (f g : File) → SameHandle f g → IsReadable f → IsReadable g
IsReadable-SameHandle f g s r = record {
  is_open = s.same_open ∙ r.is_open;
  no_fault = λ off. ap (λ k. k off) s.same_faults ∙ r.no_fault off;
}

module _ (f : File) where
  pub seek-SameHandle :
      (off : ℕ)
      → Post
          (seek off f)
          (λ _ g. SameHandle f g × (g.bytes ≡ f.bytes) × (g.position ≡ off))
          (λ _ _. Unit)
  unfolding seek
  seek-SameHandle off =
      change-Post _ _ f (record { same_open = refl; same_faults = refl }, refl, refl) (λ _. tt)
        (λ _ _. tt)

  pub write_to-SameHandle :
      (parts : List Bytes)
      → Post
          (write_to parts f)
          (λ _ g. SameHandle f g × (g.bytes ≡ put_bytes f.position (concat parts) f.bytes))
          (λ _ _. Unit)
  unfolding write_to
  write_to-SameHandle parts =
      change-Post _ _ f (record { same_open = refl; same_faults = refl }, refl) (λ _. tt)
        (λ _ _. tt)

  pub sync-SameHandle : Post (sync f) (λ _ g. SameHandle f g × (g.bytes ≡ f.bytes)) (λ _ _. Unit)
  unfolding sync
  sync-SameHandle =
      change-Post _ _ f (record { same_open = refl; same_faults = refl }, refl) (λ _. tt)
        (λ _ _. tt)

  pub truncate-SameHandle :
      (n : ℕ)
      → Post (truncate n f) (λ _ g. SameHandle f g × (g.bytes ≡ resize n f.bytes)) (λ _ _. Unit)
  unfolding truncate
  truncate-SameHandle n =
      change-Post _ _ f (record { same_open = refl; same_faults = refl }, refl) (λ _. tt)
        (λ _ _. tt)

  pub write_at-SameHandle :
      (b : Bytes) (off : ℕ)
      → Post
          (write_at b off f)
          (λ _ g. SameHandle f g × (g.bytes ≡ put_bytes off b f.bytes))
          (λ _ _. Unit)
  unfolding write_at
  write_at-SameHandle b off =
      change-Post _ _ f (record { same_open = refl; same_faults = refl }, refl) (λ _. tt)
        (λ _ _. tt)
