-- ===== src/Chain/Extended.antt =====
-- What the parts of Append do to the payloads of a chain.
use mathlib.Core.Path.{subst}
use alog.Common.{
  ℕ, zero, suc, ◌+◌, ◌^◌, ◌≤◌, ◌<◌, ◌≡◌, refl, sym, ap, ◌∙◌, arith, List, [], ◌∷◌, ◌++◌, none,
  length, drop, length-append, length-drop, drop-drop, Bool, not, if_both, leb,
}
use alog.Errors.{diverges}
use alog.Exec.{Result, ok, err, Exec, Done, lift, raise, ◌>>◌}
use alog.Exec.Post.{Post, Post_mono, Post-bind, Post-and}
use alog.Bytes.{Bytes}
use alog.Storage.Changes.{IsReadable-SameHandle}
use alog.Segment.Header.{start_sequence}
use alog.Segment.State.{Segment, base_sequence, append_size}
use alog.Segment.Write
use alog.Segment.Atomic.{append-Represents}
use alog.Segment.Growth.{Grown, append-Grown}
use alog.Segment.Sealing.{append-Ends}
use alog.Segment.Write.{close}
use alog.Chain.Sound.{on_fs-with}
use alog.Chain.State.{last_from, Chain, last_segment, on_fs, reap_oldest, drop_oldest, head_segment}
use alog.Chain.Files.{FileSystem, remove, next_call, call_result, later_calls, unlink, has_name}
use alog.Chain.Append.{is_rotation, needs_reap, room_turn, make_room}
use alog.Chain.Contents.{Held, Sealed, Sealed-Held, Contents, Contents-rest}

-- A segment's append, on all that the segment holds
pub append-Sealed :
    (s : Segment) (ps qs : List Bytes)
    → Sealed s ps
    → length ps + length qs < 2 ^ 32
    → base_sequence s + (length ps + length qs) < 2 ^ 64
    → Post
        (Write.append qs s)
        (λ _ t. Sealed t (ps ++ qs) × Grown (append_size qs) s t)
        (λ _ t. Held t ps × Grown 0 s t)
unfolding base_sequence
append-Sealed s ps qs h small room =
    Post_mono _
      (Post-and _ (append-Represents s ps qs h.rep small) (
        Post-and _ (append-Ends s qs h.whole (omega (arith, h.rep.count, small)))
          (append-Grown qs s)))
      (λ _ t (r, (e, g)). (
        record {
          rep = r;
          readable = IsReadable-SameHandle s.file t.file e.handle h.readable;
          whole = e.whole;
          room = omega (arith, length-append ps qs, room, ap start_sequence g.same_header);
        },
        g,
      ))
      (λ _ t (r, (u, g)).
        (record { rep = r; room = omega (arith, h.room, ap start_sequence g.same_header) }, g))

-- Some of the oldest payloads are gone, and the directory's files can be read.
pub record Shorter (S : Segment → List Bytes → Type 0) (n : ℕ) (qs : List Bytes) (d : Chain)
    : Type 0 where
  pub gone : ℕ
  pub within : gone ≤ length qs
  pub contents : Contents S d.segments (n + gone) (drop gone qs)
  pub clean : (off : ℕ) → d.fs.read_fault off ≡ none

-- The calls of the directory leave the faults of reads as they are.
pub next_call-faults :
    (fs : FileSystem)
    → Post
        (next_call fs)
        (λ _ g. g.read_fault ≡ fs.read_fault)
        (λ _ g. g.read_fault ≡ fs.read_fault)
next_call-faults fs = go (call_result fs.outcomes)
  where
    go :
        (r : Result Done)
        → Post
            (r, record fs { outcomes = later_calls fs.outcomes })
            (λ _ g. g.read_fault ≡ fs.read_fault)
            (λ _ g. g.read_fault ≡ fs.read_fault)
    go (ok x) = record { holds = refl }
    go (err e) = record { holds = refl }

pub remove-faults :
    (name : Bytes) (fs : FileSystem)
    → Post
        (remove name fs)
        (λ _ g. g.read_fault ≡ fs.read_fault)
        (λ _ g. g.read_fault ≡ fs.read_fault)
unfolding remove
remove-faults name fs =
    Post-bind next_call (λ _. unlink name) fs {R = λ _ g. g.read_fault ≡ fs.read_fault}
      (next_call-faults fs)
      λ _ g same.
        if_both
          (λ (x : Result Done × FileSystem).
            Post x (λ _ h. h.read_fault ≡ fs.read_fault) (λ _ h. h.read_fault ≡ fs.read_fault))
          (has_name name g.names) (λ _. record { holds = same }) (λ _. record { holds = same })

Shorter-drop :
    (n : ℕ) (qs : List Bytes) (c : Chain) (s t : Segment) (ts : List Segment)
    → Shorter Sealed n qs c
    → c.segments ≡ s ∷ t ∷ ts
    → Shorter Sealed n qs (drop_oldest s c)
unfolding drop_oldest
Shorter-drop n qs c s t ts h e =
    let held : Contents Sealed (s ∷ t ∷ ts) (n + h.gone) (drop h.gone qs) =
      subst (λ x. Contents Sealed x (n + h.gone) (drop h.gone qs)) e h.contents in
    let (j, bound, more) =
      Contents-rest Sealed Sealed-Held s (t ∷ ts) (n + h.gone) (drop h.gone qs) held in
    let number : n + h.gone + j ≡ n + (h.gone + j) = omega arith in
    record {
      gone = h.gone + j;
      within = omega (arith, h.within, bound, length-drop h.gone qs);
      contents = rw e (
          subst (λ (x : ℕ × List Bytes). Contents Sealed (t ∷ ts) x.0 x.1)
            (λ i. (number i, drop-drop j h.gone qs i)) more);
      clean = h.clean;
    }

module _ (n : ℕ) (qs : List Bytes) where
  Shorter-fs :
      (c d : Chain)
      → Shorter Sealed n qs c
      → d ≡ record c { fs = d.fs }
      → d.fs.read_fault ≡ c.fs.read_fault
      → Shorter Sealed n qs d
  Shorter-fs c d h e same = record {
    gone = h.gone;
    within = h.within;
    contents =
        subst (λ x. Contents Sealed x (n + h.gone) (drop h.gone qs))
          (sym (ap (λ (x : Chain). x.segments) e)) h.contents;
    clean = λ off. ap (λ k. k off) same ∙ h.clean off;
  }

  reap_oldest-Shorter :
      (c : Chain) (s t : Segment) (ts : List Segment)
      → Shorter Sealed n qs c
      → c.segments ≡ s ∷ t ∷ ts
      → Post (reap_oldest c) (λ _ d. Shorter Sealed n qs d) (λ _ d. Shorter Sealed n qs d)
  unfolding reap_oldest
  reap_oldest-Shorter c s t ts h e = rw (ap head_segment e) (
      Post-bind (on_fs (remove s.file.name)) _ c
        {R = λ _ d. (d ≡ record c { fs = d.fs }) × (d.fs.read_fault ≡ c.fs.read_fault)}
        (Post_mono _ (on_fs-with (remove s.file.name) c (remove-faults s.file.name c.fs))
          (λ _ d x. x) (λ _ d (x, same). Shorter-fs c d h x same))
        λ _ d (x, same).
          let segments : d.segments ≡ c.segments = ap (λ (y : Chain). y.segments) x in
          let dropped : Shorter Sealed n qs (drop_oldest s d) =
            Shorter-drop n qs d s t ts (Shorter-fs c d h x same) (segments ∙ e) in
          lifted (close s).0 (drop_oldest s d) dropped)
    where
      lifted :
          (r : Result Done) (d : Chain)
          → Shorter Sealed n qs d
          → Post (lift r d) (λ _ u. Shorter Sealed n qs u) (λ _ u. Shorter Sealed n qs u)
      lifted (ok a) d k = record { holds = k }
      lifted (err b) d k = record { holds = k }

  room_turn-Shorter :
      (size : ℕ) (c : Chain) (m : Exec Chain Bool)
      → Shorter Sealed n qs c
      → ((s t : Segment) (ts : List Segment)
          → c.segments ≡ s ∷ t ∷ ts
          → Post (m c) (λ _ d. Shorter Sealed n qs d) (λ _ d. Shorter Sealed n qs d))
      → Post (room_turn size m c) (λ _ d. Shorter Sealed n qs d) (λ _ d. Shorter Sealed n qs d)
  unfolding room_turn
  room_turn-Shorter size c m h k = go c.segments refl
    where
      Good : Result Bool × Chain → Type 0
      Good x = Post x (λ _ d. Shorter Sealed n qs d) (λ _ d. Shorter Sealed n qs d)

      go : (ss : List Segment) → c.segments ≡ ss → Good (room_turn size m c)
      go [] e = rw (ap last_segment e) (record { holds = h })
      go (s ∷ []) e = rw (ap last_segment e) (
          if_both Good (not (needs_reap size (is_rotation size s c) c)) (λ _. record { holds = h })
            (λ _.
              if_both Good (leb (length c.segments) 1) (λ _. record { holds = h })
                (λ q. absurd (let one = ap (λ x. leb (length x) 1) e in cc))))
      go (s ∷ t ∷ ts) e = rw (ap last_segment e) (
          if_both Good (not (needs_reap size (is_rotation size (last_from t ts) c) c))
            (λ _. record { holds = h })
            (λ _.
              if_both Good (leb (length c.segments) 1) (λ _. record { holds = h })
                (λ _. k s t ts e)))

  pub make_room-Shorter :
      (fuel size : ℕ) (c : Chain)
      → Shorter Sealed n qs c
      → Post (make_room fuel size c) (λ _ d. Shorter Sealed n qs d) (λ _ d. Shorter Sealed n qs d)
  unfolding make_room
  make_room-Shorter zero size c h =
      room_turn-Shorter size c (raise diverges) h λ s t ts e. record { holds = h }
  make_room-Shorter (suc k) size c h =
      room_turn-Shorter size c (reap_oldest >> make_room k size) h λ s t ts e.
        Post-bind reap_oldest _ c {R = λ _ d. Shorter Sealed n qs d}
          (reap_oldest-Shorter c s t ts h e) λ _ d x. make_room-Shorter k size d x
