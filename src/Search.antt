-- ===== src/Search.antt =====
-- Go's sort.Search, which the sparse index and the chain call: a binary search of [0, n) for the
-- first i at which a test holds, its loop written with n rounds of fuel.
use mathlib.Core.Bool.{false≢true}
use native.Mathlib.Decide.{dec_lt}
use alog.Common.{
  sym, ◌∙◌, ℕ, zero, suc, ◌+◌, ◌-◌, ◌/◌, ◌≤◌, ◌<◌, ◌≡◌, arith, Bool, true, false, ltb, Bool-cases,
  inl, inr,
}

unfoldable pub search_loop : ℕ → ℕ → ℕ → (ℕ → Bool) → ℕ
search_loop zero i j test = i
search_loop (suc fuel) i j test = elim (ltb i j) [
  | false ↦ i
  | true ↦
      let h = (i + j) / 2 in
      elim (test h) [ false ↦ search_loop fuel (h + 1) j test | true ↦ search_loop fuel i h test ]
]

unfoldable pub search : ℕ → (ℕ → Bool) → ℕ
unfolding search_loop
search n test = search_loop n 0 n test

-- The test fails just below the result and holds at it, whether or not it is monotone.
pub record IsEdge (n : ℕ) (test : ℕ → Bool) (r : ℕ) : Type 0 where
  pub bound : r ≤ n
  pub below : (k : ℕ) → suc k ≡ r → test k ≡ false
  pub here : r < n → test r ≡ true

search_loop-IsEdge :
    (fuel i j n : ℕ) (test : ℕ → Bool)
    → i ≤ j
    → j ≤ n
    → j - i ≤ fuel
    → ((k : ℕ) → suc k ≡ i → test k ≡ false)
    → (j < n → test j ≡ true)
    → IsEdge n test (search_loop fuel i j test)
unfolding search_loop
search_loop-IsEdge zero i j n test p q f lo hi =
    let e : j ≡ i = omega arith in record { bound = omega arith; below = lo; here = rw e at hi }
search_loop-IsEdge (suc fuel) i j n test p q f lo hi = elim (Bool-cases (ltb i j)) [
  | inl t ↦
      rw (t, search_loop)
        (elim (Bool-cases (test ((i + j) / 2))) [
          | inl u ↦
              rw (u, search_loop)
                (search_loop-IsEdge fuel i ((i + j) / 2) n test (ground arith) (ground arith)
                  (ground arith) lo (λ _. u))
          | inr u ↦
              rw (u, search_loop)
                (search_loop-IsEdge fuel ((i + j) / 2 + 1) j n test (ground arith) q (ground arith)
                  (λ k e. let same : k ≡ (i + j) / 2 = omega arith in rw same u) hi)
        ])
  | inr t ↦
      rw (t, search_loop)
        (record {
          bound = omega arith;
          below = lo;
          here = let e : j ≡ i = ground arith in rw e at hi;
        })
]

pub search-IsEdge : (n : ℕ) (test : ℕ → Bool) → IsEdge n test (search n test)
unfolding search
search-IsEdge n test =
    search_loop-IsEdge n 0 n n test (omega arith) (omega arith) (omega arith)
      (λ k e. absurd (omega arith)) (λ h. absurd (omega arith))

-- An edge lies below no other, for a test that stays true once it is true.
edge-le :
    (n : ℕ) (test : ℕ → Bool)
    → ((i j : ℕ) → i ≤ j → j < n → test i ≡ true → test j ≡ true)
    → (r s : ℕ) → IsEdge n test r
    → IsEdge n test s
    → r ≤ s
edge-le n test mono r s e d = elim (dec_lt s r) [
  | no h ↦ omega arith
  | yes h ↦
      let last : suc (r - 1) ≡ r = omega arith in
      let low : test (r - 1) ≡ false = e.below (r - 1) last in
      let high : test (r - 1) ≡ true =
        mono s (r - 1) (omega (arith, e.bound)) (omega (arith, e.bound))
          (d.here (omega (arith, e.bound))) in
      absurd (false≢true (sym low ∙ high))
]

-- For a test that stays true once it is true, the result of the search is the only edge.
pub search_unique :
    (n : ℕ) (test : ℕ → Bool)
    → ((i j : ℕ) → i ≤ j → j < n → test i ≡ true → test j ≡ true)
    → (r : ℕ) → IsEdge n test r
    → search n test ≡ r
search_unique n test mono r e = omega (
  arith,
  edge-le n test mono r (search n test) e (search-IsEdge n test),
  edge-le n test mono (search n test) r (search-IsEdge n test) e,
)
