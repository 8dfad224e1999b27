-- ===== src/Storage/Laws.antt =====
-- What reads see of the bytes of a file, and what each change leaves of them.
use mathlib.Core.Path.{ap₂}
use alog.Common.{
  sym, splice, take-append_le, drop-append_le, append_assoc, length-append, take-append,
  drop-append_ge, append-nil, ℕ, ◌+◌, ◌≤◌, ◌<◌, ◌≡◌, ap, ◌∙◌, arith, ◌++◌, none, some, length, ◌-◌,
  take, drop, slice, slice_middle, drop-append, length-take, length-drop, take_all,
}
use alog.Errors.{eof}
use alog.Bytes.{Bytes}
use alog.Storage.{File, read_at, put_bytes, resize, IsReadable}

-- A read of bytes that are there returns them.
pub read_at-middle :
    (f : File) (xs ys zs : Bytes) (off n : ℕ)
    → IsReadable f
    → f.bytes ≡ xs ++ (ys ++ zs)
    → off ≡ length xs
    → n ≡ length ys
    → read_at f n off ≡ (ys, none)
unfolding read_at
read_at-middle f xs ys zs off n r e p q =
    let s : slice off n f.bytes ≡ ys = rw e (slice_middle xs ys zs off n p q) in
    ground (arith, r.is_open, r.no_fault off, s)

-- A read that runs past the end returns what is left, with io.EOF.
pub read_at-short :
    (f : File) (xs ys : Bytes) (off n : ℕ)
    → IsReadable f
    → f.bytes ≡ xs ++ ys
    → off ≡ length xs
    → length ys < n
    → read_at f n off ≡ (ys, some eof)
unfolding read_at
read_at-short f xs ys off n r e p q =
    let s : slice off n f.bytes ≡ ys =
      rw e (ap (take n) (drop-append xs ys off p) ∙ take_all n ys (omega arith)) in
    ground (arith, r.is_open, r.no_fault off, s)

-- A read without an error has read `n` bytes that the file holds, if `n` is not 0.
pub read_at-ok :
    (f : File) (off n : ℕ) (d : Bytes)
    → 0 < n
    → read_at f n off ≡ (d, none)
    → (d ≡ slice off n f.bytes) × (off + n ≤ length f.bytes) × (length d ≡ n)
unfolding read_at
read_at-ok f off n d pos h =
    ground (arith, length-take n (drop off f.bytes), length-drop off f.bytes)

-- Bytes put behind a prefix leave the prefix as it is.
pub put_bytes-behind :
    (off : ℕ) (new xs rest : Bytes)
    → off ≡ length xs
    → put_bytes off new (xs ++ rest) ≡ xs ++ (new ++ drop (length new) rest)
put_bytes-behind off new xs rest p =
    let none_missing : off - length (xs ++ rest) ≡ 0 = omega (arith, length-append xs rest) in
    rw (none_missing, append-nil)
      (ap₂ (λ a b. a ++ (new ++ b)) (take-append xs rest off p)
        (drop-append_ge xs rest (off + length new) (length new) (omega arith)))

-- A file cut behind a prefix is the prefix.
pub resize-behind : (off : ℕ) (xs rest : Bytes) → off ≡ length xs → resize off (xs ++ rest) ≡ xs
resize-behind off xs rest p =
    let none_missing : off - length (xs ++ rest) ≡ 0 = omega (arith, length-append xs rest) in
    rw (none_missing, append-nil) (take-append xs rest off p)

-- Bytes put inside a prefix leave its length and what is behind it.
pub put_bytes-inside :
    (off : ℕ) (new xs rest : Bytes)
    → off + length new ≤ length xs
    → put_bytes off new (xs ++ rest) ≡ splice off new xs ++ rest
put_bytes-inside off new xs rest p =
    let none_missing : off - length (xs ++ rest) ≡ 0 = omega (arith, length-append xs rest) in
    rw (none_missing, append-nil)
      (ap₂ (λ a b. a ++ (new ++ b)) (take-append_le xs rest off (omega arith))
          (drop-append_le xs rest (off + length new) p)
        ∙ ap (λ x. take off xs ++ x) (sym (append_assoc new (drop (off + length new) xs) rest))
        ∙ sym (append_assoc (take off xs) (new ++ drop (off + length new) xs) rest))

pub length-splice :
    (off : ℕ) (new xs : Bytes)
    → off + length new ≤ length xs
    → length (splice off new xs) ≡ length xs
length-splice off new xs p = omega (
  arith,
  length-append (take off xs) (new ++ drop (off + length new) xs),
  length-append new (drop (off + length new) xs),
  length-take off xs,
  length-drop (off + length new) xs,
)
