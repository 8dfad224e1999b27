-- ===== src/Chain/Reap.antt =====
-- What removing the oldest segment, the loop that makes room and the rotation leave of a chain.
use mathlib.Core.Path.{subst}
use alog.Common.{
  ◌-◌, ◌≤◌, sym, ℕ, suc, zero, ◌+◌, ◌≡◌, refl, ap, ◌∙◌, arith, List, [], ◌∷◌, length, Bool, true,
  false, not, if_both, leb,
}
use alog.Errors.{diverges}
use alog.Exec.{Result, ok, err, Exec, Done, ◌>>◌, lift, raise}
use alog.Chain.Fuel.{reap_oldest-shorter}
use alog.Exec.Post.{Post-and, Post, Post_mono, Post-bind}
use alog.Segment.State.{Segment, size}
use alog.Segment.Write.{close}
use alog.Chain.State.{Chain, last_from, last_segment, drop_oldest, reap_oldest, head_segment, on_fs}
use alog.Chain.Files.{remove}
use alog.Chain.Append.{is_rotation, needs_reap, room_turn, make_room}
use alog.Chain.Sound.{
  total, Follow, Contiguous, Sound, SameLimits, SameLimits-refl, SameLimits-trans, on_fs-Post,
}

-- The invariant, and the limits of the chain `c`
pub record Kept (c d : Chain) : Type 0 where
  pub sound : Sound d
  pub limits : SameLimits c d

pub Kept-refl : (c : Chain) → Sound c → Kept c c
Kept-refl c h = record { sound = h; limits = SameLimits-refl c }

pub Kept-trans : (c d e : Chain) → Kept c d → Kept d e → Kept c e
Kept-trans c d e h k = record { sound = k.sound; limits = SameLimits-trans c d e h.limits k.limits }

pub Kept-fs : (c d : Chain) → Sound c → d ≡ record c { fs = d.fs } → Kept c d
Kept-fs c d h e = rw e (record {
  sound = record { contiguous = h.contiguous; accounted = h.accounted };
  limits = record { same_disk = refl; same_count = refl; same_segment = refl };
})

drop_oldest-Kept :
    (c : Chain) (s t : Segment) (ts : List Segment)
    → Sound c
    → c.segments ≡ s ∷ t ∷ ts
    → Kept c (drop_oldest s c)
unfolding drop_oldest
drop_oldest-Kept c s t ts h e =
    let sum : c.disk_size ≡ size s + total (t ∷ ts) = h.accounted ∙ ap total e in
    let follow : Follow s (t ∷ ts) = subst Contiguous e h.contiguous in
    rw e (record {
      sound = record { contiguous = follow.1; accounted = omega arith };
      limits = record { same_disk = refl; same_count = refl; same_segment = refl };
    })

closed-Kept :
    (c d : Chain) (r : Result Done)
    → Kept c d
    → last_segment d.segments ≡ last_segment c.segments
    → Post
        (lift r d)
        (λ _ e. Kept c e × (last_segment e.segments ≡ last_segment c.segments))
        (λ _ e. Kept c e)
closed-Kept c d (ok x) h k = record { holds = (h, k) }
closed-Kept c d (err e) h k = record { holds = h }

-- The last segment is not the oldest while there are two.
drop_oldest-tail :
    (d : Chain) (s t : Segment) (ts : List Segment)
    → d.segments ≡ s ∷ t ∷ ts
    → last_segment (drop_oldest s d).segments ≡ last_segment d.segments
unfolding drop_oldest
drop_oldest-tail d s t ts e = rw e refl

pub reap_oldest-Kept :
    (c : Chain) (s t : Segment) (ts : List Segment)
    → Sound c
    → c.segments ≡ s ∷ t ∷ ts
    → Post
        (reap_oldest c)
        (λ _ d. Kept c d × (last_segment d.segments ≡ last_segment c.segments))
        (λ _ d. Kept c d)
unfolding reap_oldest
reap_oldest-Kept c s t ts h e = rw (ap head_segment e) (
    Post-bind (on_fs (remove s.file.name)) _ c {R = λ _ d. d ≡ record c { fs = d.fs }}
      (Post_mono _ (on_fs-Post (remove s.file.name) c) (λ _ d x. x) (λ _ d x. Kept-fs c d h x))
      λ _ d x.
        let same : d.segments ≡ c.segments = ap (λ (y : Chain). y.segments) x in
        closed-Kept c (drop_oldest s d) (close s).0
          (Kept-trans c d _ (Kept-fs c d h x)
            (drop_oldest-Kept d s t ts (Kept-fs c d h x).sound (same ∙ e)))
          (drop_oldest-tail d s t ts (same ∙ e) ∙ ap last_segment same))

-- What the loop returns: the last segment has no room for `n` bytes, or it has, and no limit stands
-- in the way of the append.
pub record Roomy (n : ℕ) (c : Chain) (rotate : Bool) (d : Chain) : Type 0 where
  pub kept : Kept c d
  pub last : Segment
  pub is_last : last_segment d.segments ≡ ok last
  pub same_tail : last_segment c.segments ≡ ok last
  pub decided : rotate ≡ is_rotation n last d
  pub clear : needs_reap n rotate d ≡ false
  pub fewer : length d.segments ≤ length c.segments

not-false : (b : Bool) → not b ≡ true → b ≡ false
not-false false h = refl
not-false true h = absurd (let e = h in cc)

room_turn-Roomy :
    (n : ℕ) (c : Chain) (m : Exec Chain Bool)
    → Sound c
    → ((s t : Segment) (ts : List Segment)
        → c.segments ≡ s ∷ t ∷ ts
        → Post (m c) (Roomy n c) (λ _ d. Kept c d))
    → Post (room_turn n m c) (Roomy n c) (λ _ d. Kept c d)
unfolding room_turn
room_turn-Roomy n c m h k = go c.segments refl
  where
    Good : Result Bool × Chain → Type 0
    Good x = Post x (Roomy n c) (λ _ d. Kept c d)

    room :
        (s : Segment)
        → last_segment c.segments ≡ ok s
        → needs_reap n (is_rotation n s c) c ≡ false
        → Roomy n c (is_rotation n s c) c
    room s e q = record {
      kept = Kept-refl c h;
      last = s;
      is_last = e;
      same_tail = e;
      decided = refl;
      clear = q;
      fewer = omega arith;
    }

    go :
        (ss : List Segment) → c.segments ≡ ss → Post (room_turn n m c) (Roomy n c) (λ _ d. Kept c d)
    go [] e = rw (ap last_segment e) (record { holds = Kept-refl c h })
    go (s ∷ []) e = rw (ap last_segment e) (
        if_both Good (not (needs_reap n (is_rotation n s c) c))
          (λ q. record { holds = room s (ap last_segment e) (not-false _ q) })
          (λ _.
            if_both Good (leb (length c.segments) 1) (λ _. record { holds = Kept-refl c h })
              (λ q. absurd (let one = ap (λ x. leb (length x) 1) e in cc))))
    go (s ∷ t ∷ ts) e = rw (ap last_segment e) (
        if_both Good (not (needs_reap n (is_rotation n (last_from t ts) c) c))
          (λ q. record { holds = room (last_from t ts) (ap last_segment e) (not-false _ q) })
          (λ _.
            if_both Good (leb (length c.segments) 1) (λ _. record { holds = Kept-refl c h })
              (λ _. k s t ts e)))

pub make_room-Roomy :
    (fuel n : ℕ) (c : Chain) → Sound c → Post (make_room fuel n c) (Roomy n c) (λ _ d. Kept c d)
unfolding make_room
make_room-Roomy zero n c h =
    room_turn-Roomy n c (raise diverges) h λ s t ts e. record { holds = Kept-refl c h }
make_room-Roomy (suc k) n c h = room_turn-Roomy n c (reap_oldest >> make_room k n) h λ s t ts e.
    Post-bind reap_oldest _ c
      {R = λ _ d.
        (Kept c d × (last_segment d.segments ≡ last_segment c.segments))
        × (length d.segments ≤ length c.segments - 1)}
      (Post_mono _ (Post-and _ (reap_oldest-Kept c s t ts h e) (reap_oldest-shorter c)) (λ _ _ x. x)
        (λ _ _ x. x.0))
      λ _ d ((x, same), less).
        Post_mono _ (make_room-Roomy k n d x.sound)
          (λ r u y. record {
            kept = Kept-trans c d u x y.kept;
            last = y.last;
            is_last = y.is_last;
            same_tail = sym same ∙ y.same_tail;
            decided = y.decided;
            clear = y.clear;
            fewer = omega (arith, y.fewer, less);
          })
          (λ _ u y. Kept-trans c d u x y)
