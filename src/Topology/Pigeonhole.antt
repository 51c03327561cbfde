-- ===== src/Topology/Pigeonhole.antt =====
-- A list of distinct numbers below `n` is no longer than `n`, and holds them all if it is that long.
use embassy_supervisor.Base.{
  ℕ, zero, suc, ◌+◌, ◌≤◌, ◌<◌, ◌≡◌, refl, List, [], ◌∷◌, arith, ltb, if◌then◌else◌, length, count,
  sum_below,
}

sum_below-count_cons :
    (n x : ℕ) (xs : List ℕ)
    → sum_below n (λ j. count j (x ∷ xs))
      ≡ (if ltb x n then 1 else 0) + sum_below n (λ j. count j xs)
sum_below-count_cons zero x xs = ground arith
sum_below-count_cons (suc n) x xs = ground (arith, sum_below-count_cons n x xs)

sum_below-zero : (n : ℕ) → sum_below n (λ j. count j []) ≡ 0
sum_below-zero zero = refl
sum_below-zero (suc n) = omega (arith, sum_below-zero n)

length-eq-sum :
    (n : ℕ) (xs : List ℕ)
    → ((j : ℕ) → n ≤ j → count j xs ≡ 0)
    → length xs ≡ sum_below n (λ j. count j xs)
length-eq-sum n [] out = omega (arith, sum_below-zero n)
length-eq-sum n (x ∷ xs) out =
    ground (
      arith,
      sum_below-count_cons n x xs,
      length-eq-sum n xs (λ j h. ground (arith, out j h)),
      out x,
    )

sum_below-le : (n : ℕ) (f : ℕ → ℕ) → ((j : ℕ) → f j ≤ 1) → sum_below n f ≤ n
sum_below-le zero f h = omega arith
sum_below-le (suc n) f h = omega (arith, sum_below-le n f h, h n)

sum_below-full :
    (n : ℕ) (f : ℕ → ℕ) → ((j : ℕ) → f j ≤ 1) → sum_below n f ≡ n → (i : ℕ) → i < n → f i ≡ 1
sum_below-full zero f h e i lt = absurd (omega arith)
sum_below-full (suc n) f h e i lt = ground (
  arith,
  h n,
  sum_below-le n f h,
  sum_below-full n f h (omega (arith, sum_below-le n f h, h n)) i,
)

sum_below-ones : (n : ℕ) (f : ℕ → ℕ) → ((i : ℕ) → i < n → f i ≡ 1) → sum_below n f ≡ n
sum_below-ones zero f h = refl
sum_below-ones (suc n) f h =
    omega (arith, h n (omega arith), sum_below-ones n f (λ i lt. h i (omega arith)))

pub length-full :
    (n : ℕ) (xs : List ℕ)
    → ((j : ℕ) → n ≤ j → count j xs ≡ 0)
    → ((i : ℕ) → i < n → count i xs ≡ 1)
    → length xs ≡ n
length-full n xs out each =
    omega (arith, length-eq-sum n xs out, sum_below-ones n (λ j. count j xs) each)

module _ (n : ℕ) (xs : List ℕ) (out : (j : ℕ) → n ≤ j → count j xs ≡ 0)
    (once : (j : ℕ) → count j xs ≤ 1) where
  pub length-le_bound : length xs ≤ n
  length-le_bound = omega (arith, length-eq-sum n xs out, sum_below-le n (λ j. count j xs) once)

  pub count-full : length xs ≡ n → (i : ℕ) → i < n → count i xs ≡ 1
  count-full e i lt =
      sum_below-full n (λ j. count j xs) once (omega (arith, length-eq-sum n xs out)) i lt
