-- ===== src/Chain/Targets.antt =====
-- What the steps of Append behind its loop make of the payloads that a chain holds.
use mathlib.Core.Path.{subst}
use alog.Common.{
  ℕ, ◌+◌, ◌^◌, ◌≤◌, ◌<◌, ◌≡◌, sym, ap, arith, List, [], ◌∷◌, ◌++◌, length, drop, append-nil,
  length-drop, Bool, true, false,
}
use alog.Exec.{ok, Exec}
use alog.Exec.Post.{Post, Post_mono, Post-bind}
use alog.Bytes.{Bytes}
use alog.Segment.Header.{start_sequence}
use alog.Segment.State.{Segment, next_sequence, base_sequence}
use alog.Segment.Write
use alog.Chain.State.{Chain, last_segment, set_last, on_fs}
use alog.Chain.Files.{FileSystem, create, segment_file_name, join_path}
use alog.Chain.Append.{rotated, rotate_if, add_segment, on_last, append_last}
use alog.Chain.Sound.{on_fs-with, last_segment-add}
use alog.Chain.Admission.{on_last-Post}
use alog.Chain.Contents.{Held, Sealed, Sealed-Held, Contents, Lines, Contents-weaken}
use alog.Chain.Last.{LastOf, last_segment-LastOf}
use alog.Chain.Extended.{append-Sealed, Shorter}
use alog.Chain.Founded.{Founded, create-Founded}

-- The numbers of `k` more payloads, and their frame indices, fit behind the last segment's.
pub record HasNumbers (k : ℕ) (c : Chain) : Type 0 where
  pub last : Segment
  pub is_last : last_segment c.segments ≡ ok last
  pub indices : last.write_index + k < 2 ^ 32
  pub numbers : base_sequence last + last.write_index + k < 2 ^ 64

-- A chain without some of its oldest payloads, with the batch behind the others; `seq` is the number
-- of its last payload.
pub record Extended (n : ℕ) (qs ps : List Bytes) (seq : ℕ) (d : Chain) : Type 0 where
  pub gone : ℕ
  pub within : gone ≤ length qs
  pub contents : Lines d.segments (n + gone) (drop gone qs ++ ps)
  pub number : seq + 1 ≡ n + length qs + length ps

-- The same with the number of those that are gone
pub record ExtendedBy (gone n : ℕ) (qs ps : List Bytes) (seq : ℕ) (d : Chain) : Type 0 where
  pub contents : Lines d.segments (n + gone) (drop gone qs ++ ps)
  pub number : seq + 1 ≡ n + length qs + length ps

-- A chain without some of its oldest payloads
pub record Left (n : ℕ) (qs : List Bytes) (d : Chain) : Type 0 where
  pub gone : ℕ
  pub within : gone ≤ length qs
  pub contents : Contents Held d.segments (n + gone) (drop gone qs)

module _ (n : ℕ) (qs : List Bytes) (k : ℕ) where
  -- The chain with a last segment that takes `k` payloads
  pub record Target (gone : ℕ) (d : Chain) : Type 0 where
    within : gone ≤ length qs
    contents : Lines d.segments (n + gone) (drop gone qs)
    last : Segment
    is_last : last_segment d.segments ≡ ok last
    indices : last.write_index + k < 2 ^ 32

  pub Shorter-Left : (d : Chain) → Shorter Sealed n qs d → Left n qs d
  Shorter-Left d h = record {
    gone = h.gone;
    within = h.within;
    contents =
        Contents-weaken Sealed Held Sealed-Held d.segments (n + h.gone) (drop h.gone qs) h.contents;
  }

  Left-fs : (d u : Chain) → Left n qs d → u ≡ record d { fs = u.fs } → Left n qs u
  Left-fs d u h e = record {
    gone = h.gone;
    within = h.within;
    contents =
        subst (λ x. Contents Held x (n + h.gone) (drop h.gone qs))
          (sym (ap (λ (x : Chain). x.segments) e)) h.contents;
  }

  -- What the number behind the last segment is
  end_number :
      (ss : List Segment) (gone : ℕ) (last : Segment)
      → gone ≤ length qs
      → (l : LastOf Sealed ss (n + gone) (drop gone qs) last)
      → base_sequence last + length l.payloads ≡ n + length qs
  end_number ss gone last within l = omega (arith, l.ends, within, length-drop gone qs)

  added-Target :
      (d u : Chain) (t last : Segment)
      → (h : Shorter Sealed n qs d) → last_segment d.segments ≡ ok last
      → k < 2 ^ 32
      → u ≡ record d { fs = u.fs }
      → Founded (next_sequence last) t
      → Target h.gone (add_segment t u)
  unfolding add_segment next_sequence
  added-Target d u t last h e small same f =
      let segments : d.segments ≡ u.segments = sym (ap (λ (x : Chain). x.segments) same) in
      let l =
        last_segment-LastOf Sealed Sealed-Held d.segments last (n + h.gone) (drop h.gone qs) e
          h.contents in
      let base : base_sequence t ≡ base_sequence last + length l.payloads =
        omega (arith, f.base, l.holds.rep.count, l.holds.room) in
      record {
        within = h.within;
        contents =
            subst (λ x. Lines (x ++ t ∷ []) (n + h.gone) (drop h.gone qs)) segments
              (l.add t f.sealed base f.from_first);
        last = t;
        is_last = last_segment-add u.segments t;
        indices = omega (arith, small, f.sealed.rep.count);
      }

  pub rotate_if-Target :
      (d : Chain) (b : Bool) (last : Segment)
      → (h : Shorter Sealed n qs d) → last_segment d.segments ≡ ok last
      → last.write_index + k < 2 ^ 32
      → Post (rotate_if b d) (λ _ u. Target h.gone u) (λ _ u. Left n qs u)
  unfolding rotated next_sequence
  rotate_if-Target d false last h e small = record {
    holds = record {
      within = h.within;
      contents = h.contents;
      last = last;
      is_last = e;
      indices = small;
    };
  }
  rotate_if-Target d true last h e small =
      let next : ℕ = next_sequence last in
      let path : Bytes = join_path d.directory (segment_file_name next) in
      let make : Exec FileSystem Segment = create path next d.sync_on_append in
      rw e (
        Post-bind (on_fs make) _ d
          (Post_mono _
            (on_fs-with make d
              (create-Founded next d.sync_on_append (omega arith) path d.fs h.clean))
            (λ _ u x. x) (λ _ u x. Left-fs d u (Shorter-Left d h) x.0))
          λ t u (same, f). record {
            holds = added-Target d u t last h e (omega (arith, small)) same f;
          })

module _ (n : ℕ) (qs ps : List Bytes) where
  grown :
      (gone : ℕ) (d : Chain) (t : Target n qs (length ps) gone d)
      → n + length qs + length ps < 2 ^ 64
      → Post
          (on_last t.last (Write.append ps) d)
          (λ _ u. Lines u.segments (n + gone) (drop gone qs ++ ps))
          (λ _ u. Left n qs u)
  unfolding base_sequence
  grown gone d t room =
      let l =
        last_segment-LastOf Sealed Sealed-Held d.segments t.last (n + gone) (drop gone qs) t.is_last
          t.contents in
      let end : base_sequence t.last + length l.payloads ≡ n + length qs =
        end_number n qs (length ps) d.segments gone t.last t.within l in
      Post_mono _
        (on_last-Post t.last (Write.append ps) d (
          append-Sealed t.last l.payloads ps l.holds (omega (arith, t.indices, l.holds.rep.count))
            (omega (arith, end, room))))
        (λ _ u (s, (k, g), same).
          subst (λ x. Lines x (n + gone) (drop gone qs ++ ps))
            (sym (ap (λ (x : Chain). x.segments) same))
            (l.grow Sealed (λ _ _ x. x) s ps k (ap start_sequence g.same_header) g.same_start))
        (λ _ u (s, (k, g), same). record {
          gone = gone;
          within = t.within;
          contents =
              subst (λ x. Contents Held x (n + gone) (drop gone qs))
                (sym (ap (λ (x : Chain). x.segments) same))
                (subst (λ x. Contents Held (set_last s d.segments) (n + gone) x)
                  (append-nil (drop gone qs))
                  (l.grow Held Sealed-Held s [] (subst (Held s) (sym (append-nil l.payloads)) k)
                    (ap start_sequence g.same_header) g.same_start));
        })

  pub append_last-ExtendedBy :
      (gone : ℕ) (d : Chain)
      → Target n qs (length ps) gone d
      → 0 < length ps
      → n + length qs + length ps < 2 ^ 64
      → Post (append_last ps d) (λ seq u. ExtendedBy gone n qs ps seq u) (λ _ u. Left n qs u)
  unfolding append_last next_sequence
  append_last-ExtendedBy gone d t some_of room =
      let l =
        last_segment-LastOf Sealed Sealed-Held d.segments t.last (n + gone) (drop gone qs) t.is_last
          t.contents in
      let end : base_sequence t.last + length l.payloads ≡ n + length qs =
        end_number n qs (length ps) d.segments gone t.last t.within l in
      rw t.is_last (
        Post-bind (on_last t.last (Write.append ps)) _ d (grown gone d t room) λ _ u h. record {
          holds = record {
            contents = h;
            number = omega (arith, end, l.holds.rep.count, room, some_of);
          };
        })
