-- ===== src/Frame/Pool/Laws.antt =====
-- A borrowed frame does not depend on the buffer, and the pool stays within its bounds.
use alog.Common.{
  length-replicate, take-append, ◌==◌, length-take, length-drop, ℕ, zero, suc, ◌+◌, ◌≤◌, ◌≡◌, refl,
  sym, ap, ◌∙◌, arith, List, [], ◌∷◌, ◌++◌, Option, none, some, Bool, true, false, length, min, max,
  take, drop, get_elem?, if◌then◌else◌, if_both, ltb, ltb→le, All,
}
use alog.Exec.{Result, ok, err}
use alog.Bytes.{Bytes}
use alog.Storage.{File, read_at}
use alog.Frame.Header.{Header, header_size, payload_length}
use alog.Frame.Header
use alog.Frame.Pool.{
  Buffer, Pool, payload_of, resized, filled_with, read_into, borrow_payload, header_only, borrow,
  get, taken, put, trimmed, give_back, remove_at,
}
use alog.Frame.Read.{Frame, read_header, read_full_at, read_payload, read}

-- The frame that a borrower sees
abbrev pub frame_in : Result Buffer → Result Frame
frame_in (err e) = err e
frame_in (ok b) = ok (record { header = b.header; payload = payload_of b })

-- The payload read, as a frame
abbrev framed : Header.Header → Result Bytes → Result Frame
framed h r = elim r [ err e ↦ err e | ok p ↦ ok (record { header = h; payload = p }) ]

read_full_at-length :
    (f : File) (n off : ℕ) (d : Bytes) → read_full_at f n off ≡ ok d → length d ≡ n
unfolding read_full_at read_at
read_full_at-length f n off d e =
    ground (arith, length-take n (drop off f.bytes), length-drop off f.bytes)

length-resized : (n : ℕ) (b : Buffer) → n ≤ length (resized n b).contents
length-resized n b =
    if_both (λ (c : Buffer). n ≤ length c.contents) (ltb (length b.contents) n)
      (λ _. omega (arith, length-replicate {A = ℕ} n 0)) (λ q. ltb→le (length b.contents) n q)

len-resized : (n : ℕ) (b : Buffer) → (resized n b).len ≡ n
len-resized n b =
    if_both (λ (c : Buffer). c.len ≡ n) (ltb (length b.contents) n) (λ _. refl) (λ _. refl)

header-resized : (n : ℕ) (b : Buffer) → (resized n b).header ≡ b.header
header-resized n b =
    if_both (λ (c : Buffer). c.header ≡ b.header) (ltb (length b.contents) n) (λ _. refl)
      (λ _. refl)

-- Filled from its start, the slice shows what was read.
payload-filled : (d : Bytes) (b : Buffer) → b.len ≡ length d → payload_of (filled_with d b) ≡ d
payload-filled d b e =
    ap (λ n. take n (d ++ drop (0 + length d) b.contents)) e
    ∙ take-append d (drop (0 + length d) b.contents) (length d) refl

framed-read_into :
    (h : Header.Header) (r : Result Bytes) (n : ℕ) (b : Buffer) (p : Pool)
    → b.header ≡ h
    → b.len ≡ n
    → ((d : Bytes) → r ≡ ok d → length d ≡ n)
    → frame_in (read_into r b p).0 ≡ framed h r
framed-read_into h (err e) n b p same k got = refl
framed-read_into h (ok d) n b p same k got =
    ap (λ x. ok (record { header = x; payload = payload_of (filled_with d b) })) same
    ∙ ap (λ x. ok (record { header = h; payload = x })) (payload-filled d b (k ∙ sym (got d refl)))

module _ (f : File) (max offset : ℕ) where
  rest-read :
      (r : Result Header.Header) (x : Buffer × Pool) (p : Pool) (none_asked : Bool)
      → frame_in
          (if none_asked then (header_only r, p) else borrow_payload f max offset r x.0 x.1).0
        ≡ elim r [
          | err e ↦ err e
          | ok h ↦
              if none_asked
              then ok (record { header = h; payload = [] })
              else read_payload f max offset h
        ]
  rest-read (err e) x p true = refl
  rest-read (err e) x p false = refl
  rest-read (ok h) x p true = refl
  rest-read (ok h) x p false =
      let n = min (payload_length h) max in
      let b : Buffer = record x.0 { header = h } in
      framed-read_into h (read_full_at f n (offset + header_size)) n (resized n b) x.1
        (header-resized n b) (len-resized n b) (read_full_at-length f n (offset + header_size))

-- A read through the pool gives the frame that the file has, or the error, whichever buffer the pool
-- hands out and whatever is left in it.
pub borrow-read :
    (choice : ℕ) (f : File) (max index offset : ℕ) (p : Pool)
    → frame_in (borrow choice f max index offset p).0 ≡ read f max index offset
unfolding borrow read
borrow-read choice f max index offset p =
    rest-read f max offset (read_header f index offset) (get choice p) p (max == 0)

-- Every buffer in the pool is empty, and no larger than the larger one of the two sizes.
abbrev pub IsSmall : Pool → Buffer → Type 0
IsSmall p b = (b.len ≡ 0) × (length b.contents ≤ max p.default_size p.max_retained_size)

abbrev pub IsBounded : Pool → Type 0
IsBounded p = All (IsSmall p) p.held

trimmed-IsSmall : (p : Pool) (b : Buffer) → IsSmall p (trimmed p b)
trimmed-IsSmall p b =
    if_both (IsSmall p) (ltb p.max_retained_size (length b.contents))
      (λ _. (refl, omega (arith, length-replicate {A = ℕ} p.default_size 0)))
      (λ q. (refl, omega (arith, ltb→le p.max_retained_size (length b.contents) q)))

give_back-IsBounded : (b : Buffer) (p : Pool) → IsBounded p → IsBounded (give_back b p)
unfolding give_back put
give_back-IsBounded b p h = if_both IsBounded b.pooled (λ _. (trimmed-IsSmall p b, h)) (λ _. h)

All-remove_at : (P : Buffer → Type 0) (i : ℕ) (bs : List Buffer) → All P bs → All P (remove_at i bs)
All-remove_at P i [] h = tt
All-remove_at P zero (b ∷ bs) h = h.1
All-remove_at P (suc i) (b ∷ bs) h = (h.0, All-remove_at P i bs h.1)

get-IsBounded : (choice : ℕ) (p : Pool) → IsBounded p → IsBounded (get choice p).1
unfolding get
get-IsBounded choice p h = go (get_elem? p.held choice)
  where
    go : (o : Option Buffer) → IsBounded (taken o choice p).1
    go none = h
    go (some b) = All-remove_at (IsSmall p) choice p.held h

-- A read keeps the pool within its bounds, whichever way it ends, and so does the return of the frame
-- that it lends.
pub borrow-IsBounded :
    (choice : ℕ) (f : File) (max index offset : ℕ) (p : Pool)
    → IsBounded p
    → IsBounded (borrow choice f max index offset p).1
      × ((b : Buffer) → IsBounded (give_back b (borrow choice f max index offset p).1))
unfolding borrow
borrow-IsBounded choice f max index offset p h = (keeps, λ b. give_back-IsBounded b _ keeps)
  where
    taken_out : IsBounded (get choice p).1
    taken_out = get-IsBounded choice p h

    into : (r : Result Bytes) (b : Buffer) (q : Pool) → IsBounded q → IsBounded (read_into r b q).1
    into (err e) b q k = give_back-IsBounded b q k
    into (ok d) b q k = k

    after_header :
        (r : Result Header.Header) (b : Buffer) (q : Pool)
        → IsBounded q
        → IsBounded (borrow_payload f max offset r b q).1
    after_header (err e) b q k = give_back-IsBounded b q k
    after_header (ok x) b q k = into _ _ q k

    keeps : IsBounded (borrow choice f max index offset p).1
    keeps =
        if_both (λ (x : Result Buffer × Pool). IsBounded x.1) (max == 0) (λ _. h)
          (λ _.
            after_header (read_header f index offset) (get choice p).0 (get choice p).1 taken_out)
