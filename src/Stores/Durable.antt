-- ===== src/Stores/Durable.antt =====
-- What an append to the write-ahead log guarantees.
use alog.Common.{
  arith, false, ◌⊎◌, inl, inr, ℕ, ◌+◌, ◌≤◌, ◌≡◌, List, ◌∷◌, ◌++◌, none, length, All, if_both,
}
use alog.Errors.{Err}
use alog.Exec.{Result, ok, err, Exec}
use alog.Exec.Post.{Post-and, Post, Post_mono, Post-bind}
use alog.Bytes.{Bytes}
use alog.Chain.State.{Chain, exceeds}
use alog.Chain.Append
use alog.Chain.Truncate
use alog.Chain.Sound.{Sound}
use alog.Chain.Contents.{Lines}
use alog.Chain.Targets.{HasNumbers, ExtendedBy}
use alog.Chain.Refined.{append-Entire}
use alog.Chain.Admission.{append_within_limits}
use alog.Segment.Header.{pos}
use mathlib.Core.Path.{subst}
use alog.Chain.Synced.{IsDurable, sync-Safe, sync-length}
use alog.Log.State
use alog.Log.State.{Log, on_chain, appended}
use alog.Stores.Wal

on_chain-Post :
    {A : Type 0} (m : Exec Chain A) (l : Log) {P : A → Chain → Type 0} {Q : Err → Chain → Type 0}
    → Post (m l.chain) P Q
    → Post (on_chain m l) (λ a k. P a k.chain) (λ e k. Q e k.chain)
on_chain-Post m l h = go (m l.chain) h
  where
    go :
        {A : Type 0} (x : Result A × Chain) {P : A → Chain → Type 0} {Q : Err → Chain → Type 0}
        → Post x P Q
        → Post (x.0, record l { chain = x.1 }) (λ a k. P a k.chain) (λ e k. Q e k.chain)
    go (ok a, c) h = record { holds = h.holds }
    go (err e, c) h = record { holds = h.holds }

appended-Post :
    (x : Result ℕ × Log) {P : ℕ → Log → Type 0}
    → Post x P (λ _ _. Unit)
    → Post (appended x.0, x.1) P (λ _ _. Unit)
appended-Post (ok a, l) h = record { holds = h.holds }
appended-Post (err e, l) {P} h =
    if_both (λ (r : Result ℕ). Post (r, l) P (λ _ _. Unit)) (State.is_segment_full e)
      (λ _. record { holds = tt }) (λ _. record { holds = tt })

-- The log holds `qs` and `ps` behind them, on stable storage and still in one segment at most, and `seq`
-- is the number of the last payload.
pub record Stored (n : ℕ) (qs ps : List Bytes) (seq : ℕ) (l : Log) : Type 0 where
  pub contents : Lines l.chain.segments n (qs ++ ps)
  pub durable : All IsDurable l.chain.segments
  pub alone : length l.chain.segments ≤ 1
  pub number : seq + 1 ≡ n + length qs + length ps

one_at_most : (a b : ℕ) → b ≤ 1 → (exceeds a (pos 1) ≡ false) ⊎ (a ≤ b) → a ≤ 1
one_at_most a b h (inl q) = ground arith
one_at_most a b h (inr q) = omega arith

-- Append of the write-ahead log, whose chain is limited to one segment, on the readable payloads `qs`,
-- numbered from `n` on: if it succeeds, the log holds all of `qs` and the batch behind them, still in one
-- segment, all bytes of its file are on stable storage, and the number returned is that of the batch's
-- last payload. The file can be read and ends where the segment does, reads do not fail in new files, and
-- the numbers and frame indices of the batch do not wrap round.
pub append-Stored :
    (l : Log) (n : ℕ) (qs : List Bytes) (p : Bytes) (ps : List Bytes)
    → Sound l.chain
    → l.chain.max_segments ≡ pos 1
    → length l.chain.segments ≤ 1
    → Lines l.chain.segments n qs
    → ((off : ℕ) → l.chain.fs.read_fault off ≡ none)
    → HasNumbers (length (p ∷ ps)) l.chain
    → Post (Wal.append (p ∷ ps) l) (λ seq m. Stored n qs (p ∷ ps) seq m) (λ _ _. Unit)
unfolding Wal.append State.append State.sync
append-Stored l n qs p ps sound limit alone lines clean num =
    Post-bind (State.append (p ∷ ps)) _ l
      {R = λ seq m. ExtendedBy 0 n qs (p ∷ ps) seq m.chain × (length m.chain.segments ≤ 1)}
      (appended-Post (on_chain (Append.append (p ∷ ps)) l) (
        Post_mono _
          (on_chain-Post (Append.append (p ∷ ps)) l (
            Post-and _ (append-Entire l.chain n qs p ps sound alone lines clean num)
              (append_within_limits l.chain p ps sound)))
          (λ _ m (x, a). (
            x,
            one_at_most (length m.chain.segments) (length l.chain.segments) alone (
                subst
                  (λ k.
                    (exceeds (length m.chain.segments) k ≡ false)
                    ⊎ (length m.chain.segments ≤ length l.chain.segments))
                  limit a.within_count),
          ))
          (λ _ _ _. tt)))
      λ seq m (h, few).
        Post-bind (on_chain Truncate.sync) _ m
          (Post_mono _
            (on_chain-Post Truncate.sync m (
              Post-and _ (sync-Safe m.chain (n + 0) (qs ++ p ∷ ps) h.contents)
                (sync-length m.chain)))
            (λ _ _ x. x) (λ _ _ _. tt))
          λ _ u (s, same). record {
            holds = record {
              contents =
                  subst (λ (k : ℕ). Lines u.chain.segments k (qs ++ p ∷ ps))
                    (let z : n + 0 ≡ n = omega arith in z) s.contents;
              durable = s.durable;
              alone = omega (arith, same, few);
              number = h.number;
            };
          }
