-- ===== src/Common/Lists.antt =====
-- Lists measured and cut by native numbers.
use Prim.Native.Nat.{ℕ, zero, suc, ◌+◌, ◌-◌, ◌≤◌, ◌<◌, min}
use mathlib.Core.Path.{◌≡◌, refl, ap, ap₂, sym, ◌∙◌}
use mathlib.Core.List.{List, [], ◌∷◌, ◌++◌, append_assoc}
use mathlib.Core.Option.{Option, none, some}
use native.Mathlib.Omega.{arith}

module _ {ℓ} {A : Type ℓ} where
  abbrev pub length : List A → ℕ
  length [] = 0
  length (x ∷ xs) = suc (length xs)

  abbrev pub get_elem? : List A → ℕ → Option A
  get_elem? [] i = none
  get_elem? (x ∷ xs) zero = some x
  get_elem? (x ∷ xs) (suc i) = get_elem? xs i

  abbrev pub take : ℕ → List A → List A
  take zero xs = []
  take (suc n) [] = []
  take (suc n) (x ∷ xs) = x ∷ take n xs

  abbrev pub drop : ℕ → List A → List A
  drop zero xs = xs
  drop (suc n) [] = []
  drop (suc n) (x ∷ xs) = drop n xs

  abbrev pub replicate : ℕ → A → List A
  replicate zero a = []
  replicate (suc n) a = a ∷ replicate n a

  -- xs[off : off + n], cut short where xs ends.
  abbrev pub slice : ℕ → ℕ → List A → List A
  slice off n xs = take n (drop off xs)

  -- copy(xs[off:], new), for a `new` that fits.
  abbrev pub splice : ℕ → List A → List A → List A
  splice off new xs = take off xs ++ (new ++ drop (off + length new) xs)

module _ {ℓ} {A : Type ℓ} where
  pub length-append : (xs ys : List A) → length (xs ++ ys) ≡ length xs + length ys
  length-append [] ys = omega arith
  length-append (x ∷ xs) ys = omega (arith, length-append xs ys)

  pub length-take : (n : ℕ) (xs : List A) → length (take n xs) ≡ min n (length xs)
  length-take zero xs = omega arith
  length-take (suc n) [] = omega arith
  length-take (suc n) (x ∷ xs) = omega (arith, length-take n xs)

  pub length-drop : (n : ℕ) (xs : List A) → length (drop n xs) ≡ length xs - n
  length-drop zero xs = omega arith
  length-drop (suc n) [] = omega arith
  length-drop (suc n) (x ∷ xs) = omega (arith, length-drop n xs)

  pub take-append-drop : (n : ℕ) (xs : List A) → take n xs ++ drop n xs ≡ xs
  take-append-drop zero xs = refl
  take-append-drop (suc n) [] = refl
  take-append-drop (suc n) (x ∷ xs) = ap (λ r. x ∷ r) (take-append-drop n xs)

  pub take_all : (n : ℕ) (xs : List A) → length xs ≤ n → take n xs ≡ xs
  take_all zero [] h = refl
  take_all zero (x ∷ xs) h = absurd (omega arith)
  take_all (suc n) [] h = refl
  take_all (suc n) (x ∷ xs) h = ap (λ r. x ∷ r) (take_all n xs (omega arith))

  pub drop_all : (n : ℕ) (xs : List A) → length xs ≤ n → drop n xs ≡ []
  drop_all zero [] h = refl
  drop_all zero (x ∷ xs) h = absurd (omega arith)
  drop_all (suc n) [] h = refl
  drop_all (suc n) (x ∷ xs) h = drop_all n xs (omega arith)

  pub take-append : (xs ys : List A) (n : ℕ) → n ≡ length xs → take n (xs ++ ys) ≡ xs
  take-append [] ys zero e = refl
  take-append [] ys (suc n) e = absurd (omega arith)
  take-append (x ∷ xs) ys zero e = absurd (omega arith)
  take-append (x ∷ xs) ys (suc n) e = ap (λ r. x ∷ r) (take-append xs ys n (omega arith))

  pub drop-append : (xs ys : List A) (n : ℕ) → n ≡ length xs → drop n (xs ++ ys) ≡ ys
  drop-append [] ys zero e = refl
  drop-append [] ys (suc n) e = absurd (omega arith)
  drop-append (x ∷ xs) ys zero e = absurd (omega arith)
  drop-append (x ∷ xs) ys (suc n) e = drop-append xs ys n (omega arith)

  -- A cut that ends inside the first part does not see the second.
  pub take-append_le : (xs ys : List A) (n : ℕ) → n ≤ length xs → take n (xs ++ ys) ≡ take n xs
  take-append_le xs ys zero e = refl
  take-append_le [] ys (suc n) e = absurd (omega arith)
  take-append_le (x ∷ xs) ys (suc n) e = ap (λ r. x ∷ r) (take-append_le xs ys n (omega arith))

  pub take-take : (m n : ℕ) (xs : List A) → m ≤ n → take m (take n xs) ≡ take m xs
  take-take zero n xs h = refl
  take-take (suc m) zero xs h = absurd (omega arith)
  take-take (suc m) (suc n) [] h = refl
  take-take (suc m) (suc n) (x ∷ xs) h = ap (λ r. x ∷ r) (take-take m n xs (omega arith))

module _ {ℓ} {A : Type ℓ} where
  -- The middle of three parts.
  pub slice_middle :
      (xs ys zs : List A) (off n : ℕ)
      → off ≡ length xs
      → n ≡ length ys
      → slice off n (xs ++ (ys ++ zs)) ≡ ys
  slice_middle xs ys zs off n p q =
      ap (take n) (drop-append xs (ys ++ zs) off p) ∙ take-append ys zs n q

  -- A cut in the first part, past which anything may follow.
  pub take-splice :
      (m off : ℕ) (new xs : List A)
      → m ≤ off
      → off ≤ length xs
      → take m (splice off new xs) ≡ take m xs
  take-splice m off new xs h k =
      take-append_le (take off xs) (new ++ drop (off + length new) xs) m
        (omega (arith, length-take off xs))
      ∙ take-take m off xs h

  -- A cut that ends in the second part.
  pub take-append_ge :
      (xs ys : List A) (n m : ℕ) → n ≡ length xs + m → take n (xs ++ ys) ≡ xs ++ take m ys
  take-append_ge [] ys n m e = ap (λ (k : ℕ). take k ys) (let q : n ≡ m = omega arith in q)
  take-append_ge (x ∷ xs) ys zero m e = absurd (omega arith)
  take-append_ge (x ∷ xs) ys (suc n) m e = ap (λ r. x ∷ r) (take-append_ge xs ys n m (omega arith))

  -- Writing over the middle of three parts.
  pub splice_middle :
      (xs ys zs new : List A) (off : ℕ)
      → off ≡ length xs
      → length new ≡ length ys
      → splice off new (xs ++ (ys ++ zs)) ≡ xs ++ (new ++ zs)
  splice_middle xs ys zs new off p q =
      ap₂ (λ a b. a ++ (new ++ b)) (take-append xs (ys ++ zs) off p)
        (ap (λ l. drop (off + length new) l) (sym (append_assoc xs ys zs))
          ∙ drop-append (xs ++ ys) zs (off + length new) (omega (arith, length-append xs ys)))

  pub drop-append_ge :
      (xs ys : List A) (n m : ℕ) → n ≡ length xs + m → drop n (xs ++ ys) ≡ drop m ys
  drop-append_ge [] ys n m e = ap (λ (k : ℕ). drop k ys) (let q : n ≡ m = omega arith in q)
  drop-append_ge (x ∷ xs) ys zero m e = absurd (omega arith)
  drop-append_ge (x ∷ xs) ys (suc n) m e = drop-append_ge xs ys n m (omega arith)

module _ {ℓ κ} {A : Type ℓ} where
  -- Every element satisfies `P`.
  abbrev pub All : (A → Type κ) → List A → Type κ
  All P [] = Unit
  All P (x ∷ xs) = P x × All P xs

  pub All-append : (P : A → Type κ) (xs ys : List A) → All P xs → All P ys → All P (xs ++ ys)
  All-append P [] ys h k = k
  All-append P (x ∷ xs) ys h k = (h.0, All-append P xs ys h.1 k)

  pub All-take : (P : A → Type κ) (n : ℕ) (xs : List A) → All P xs → All P (take n xs)
  All-take P zero xs h = tt
  All-take P (suc n) [] h = tt
  All-take P (suc n) (x ∷ xs) h = (h.0, All-take P n xs h.1)

  pub All-drop : (P : A → Type κ) (n : ℕ) (xs : List A) → All P xs → All P (drop n xs)
  All-drop P zero xs h = h
  All-drop P (suc n) [] h = tt
  All-drop P (suc n) (x ∷ xs) h = All-drop P n xs h.1

module _ {ℓ} {A : Type ℓ} where
  pub take_add : (k n : ℕ) (xs : List A) → take (k + n) xs ≡ take k xs ++ take n (drop k xs)
  take_add zero n xs = ap (λ (m : ℕ). take m xs) (let e : 0 + n ≡ n = omega arith in e)
  take_add (suc k) n [] =
      ap (λ (m : ℕ). take m []) (let e : suc k + n ≡ suc (k + n) = omega arith in e)
      ∙ sym (take_nil n)
    where
      take_nil : (n : ℕ) → take {A = A} n [] ≡ []
      take_nil zero = refl
      take_nil (suc n) = refl
  take_add (suc k) n (x ∷ xs) =
      ap (λ (m : ℕ). take m (x ∷ xs)) (let e : suc k + n ≡ suc (k + n) = omega arith in e)
      ∙ ap (λ r. x ∷ r) (take_add k n xs)

module _ {ℓ} {A : Type ℓ} where
  pub get_elem?-lt : (xs : List A) (i : ℕ) (x : A) → get_elem? xs i ≡ some x → i < length xs
  get_elem?-lt [] i x e = absurd cc
  get_elem?-lt (y ∷ xs) zero x e = omega arith
  get_elem?-lt (y ∷ xs) (suc i) x e = omega (arith, get_elem?-lt xs i x e)

  pub drop_nil : (n : ℕ) → drop {A = A} n [] ≡ []
  drop_nil zero = refl
  drop_nil (suc n) = refl

  pub drop-drop : (m n : ℕ) (xs : List A) → drop m (drop n xs) ≡ drop (n + m) xs
  drop-drop m zero xs = ap (λ (k : ℕ). drop k xs) (let e : m ≡ 0 + m = omega arith in e)
  drop-drop m (suc n) [] = drop_nil m ∙ sym (drop_nil (suc n + m))
  drop-drop m (suc n) (x ∷ xs) =
      drop-drop m n xs
      ∙ ap (λ (k : ℕ). drop k (x ∷ xs)) (let e : suc (n + m) ≡ suc n + m = omega arith in e)

  pub drop-append_le :
      (xs ys : List A) (n : ℕ) → n ≤ length xs → drop n (xs ++ ys) ≡ drop n xs ++ ys
  drop-append_le xs ys zero h = refl
  drop-append_le [] ys (suc n) h = absurd (omega arith)
  drop-append_le (x ∷ xs) ys (suc n) h = drop-append_le xs ys n (omega arith)

  pub length-replicate : (n : ℕ) (a : A) → length (replicate n a) ≡ n
  length-replicate zero a = refl
  length-replicate (suc n) a = ap suc (length-replicate n a)

  pub drop-take : (k m : ℕ) (xs : List A) → drop k (take m xs) ≡ take (m - k) (drop k xs)
  drop-take zero m xs = ap (λ (n : ℕ). take n xs) (let e : m ≡ m - 0 = omega arith in e)
  drop-take (suc k) zero [] = ap (λ (n : ℕ). take n []) (let e : 0 ≡ 0 - suc k = omega arith in e)
  drop-take (suc k) zero (x ∷ xs) =
      ap (λ (n : ℕ). take n (drop k xs)) (let e : 0 ≡ 0 - suc k = omega arith in e)
  drop-take (suc k) (suc m) [] = sym (take_nil (suc m - suc k))
    where
      take_nil : (n : ℕ) → take {A = A} n [] ≡ []
      take_nil zero = refl
      take_nil (suc n) = refl
  drop-take (suc k) (suc m) (x ∷ xs) =
      drop-take k m xs
      ∙ ap (λ (n : ℕ). take n (drop k xs)) (let e : m - k ≡ suc m - suc k = omega arith in e)

  pub get_elem?-take : (k i : ℕ) (xs : List A) → i < k → get_elem? (take k xs) i ≡ get_elem? xs i
  get_elem?-take zero i xs h = absurd (omega arith)
  get_elem?-take (suc k) i [] h = refl
  get_elem?-take (suc k) zero (x ∷ xs) h = refl
  get_elem?-take (suc k) (suc i) (x ∷ xs) h = get_elem?-take k i xs (omega arith)

module _ {ℓ} {A : Type ℓ} where
  pub drop-get : (i : ℕ) (xs : List A) → drop i xs ≡ [] → get_elem? xs i ≡ none
  drop-get zero [] e = refl
  drop-get zero (x ∷ xs) e = absurd cc
  drop-get (suc i) [] e = refl
  drop-get (suc i) (x ∷ xs) e = drop-get i xs e

  pub drop-get_some :
      (i : ℕ) (xs : List A) (y : A) (ys : List A)
      → drop i xs ≡ y ∷ ys
      → (get_elem? xs i ≡ some y) × (drop (i + 1) xs ≡ ys)
  drop-get_some zero [] y ys e = absurd cc
  drop-get_some zero (x ∷ xs) y ys e = (cc, cc)
  drop-get_some (suc i) [] y ys e = absurd cc
  drop-get_some (suc i) (x ∷ xs) y ys e =
      let more = drop-get_some i xs y ys e in
      let z : suc i + 1 ≡ suc (i + 1) = omega arith in
      (more.0, ap (λ (k : ℕ). drop k (x ∷ xs)) z ∙ more.1)

  pub get-drop :
      (k : ℕ) (xs : List A) (x : A) → get_elem? xs k ≡ some x → drop k xs ≡ x ∷ drop (suc k) xs
  get-drop zero [] x e = absurd cc
  get-drop zero (y ∷ ys) x e = let same : y ≡ x = cc in ap (λ z. z ∷ ys) same
  get-drop (suc k) [] x e = absurd cc
  get-drop (suc k) (y ∷ ys) x e = get-drop k ys x e
