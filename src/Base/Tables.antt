-- ===== src/Base/Tables.antt =====
-- Fixed arrays of the program as functions of the index, and sums over their first slots.
use mathlib.Core.Path.{◌≡◌, refl, ap, subst}
use mathlib.Core.Logic.{inl, inr}
use mathlib.Core.Bool.{Bool, true, false, ◌&&◌, ◌||◌}
use native.Mathlib.Omega.{arith}
use Prim.Native.Nat.{◌<◌, ◌≤◌, ◌+◌, ℕ, suc, zero}
use embassy_supervisor.Base.Tests.{◌==◌, if◌then◌else◌, Bool-cases}

-- A write to one slot of an array.
abbrev pub update {ℓ} : {A : Type ℓ} (table : ℕ → A) (slot : ℕ) (entry : A) → ℕ → A
update table slot entry k = if slot == k then entry else table k

abbrev pub sum_below : ℕ → (ℕ → ℕ) → ℕ
sum_below zero f = 0
sum_below (suc n) f = f n + sum_below n f

-- `(0..n).any(p)` and `(0..n).all(p)`.
abbrev pub any_below : ℕ → (ℕ → Bool) → Bool
any_below zero p = false
any_below (suc n) p = any_below n p || p n

abbrev pub all_below : ℕ → (ℕ → Bool) → Bool
all_below zero p = true
all_below (suc n) p = all_below n p && p n

pub any_below-false : (n : ℕ) (p : ℕ → Bool) (k : ℕ) → any_below n p ≡ false → k < n → p k ≡ false
any_below-false zero p k h lt = absurd (omega arith)
any_below-false (suc n) p k h lt = ground (arith, any_below-false n p k)

pub all_below-true : (n : ℕ) (p : ℕ → Bool) (k : ℕ) → all_below n p ≡ true → k < n → p k ≡ true
all_below-true zero p k h lt = absurd (omega arith)
all_below-true (suc n) p k h lt = ground (arith, all_below-true n p k)

pub any_below-true :
    (n : ℕ) (p : ℕ → Bool) → any_below n p ≡ true → (k : ℕ) × (k < n) × (p k ≡ true)
any_below-true zero p h = absurd (ground arith)
any_below-true (suc n) p h = elim (Bool-cases (any_below n p)) [
  | inl e ↦ let (k, lt, t) = any_below-true n p e in (k, omega arith, t)
  | inr e ↦ (n, omega arith, rw e at h)
]

pub all_below-false :
    (n : ℕ) (p : ℕ → Bool) → all_below n p ≡ false → (k : ℕ) × (k < n) × (p k ≡ false)
all_below-false zero p h = absurd (ground arith)
all_below-false (suc n) p h = elim (Bool-cases (all_below n p)) [
  | inr e ↦ let (k, lt, t) = all_below-false n p e in (k, omega arith, t)
  | inl e ↦ (n, omega arith, rw e at h)
]

pub le_sum_below : (n : ℕ) (f : ℕ → ℕ) (k : ℕ) → k < n → f k ≤ sum_below n f
le_sum_below zero f k lt = absurd (omega arith)
le_sum_below (suc n) f k lt = ground (arith, le_sum_below n f k)

pub sum_below_mono : (n : ℕ) (f g : ℕ → ℕ) → ((k : ℕ) → f k ≤ g k) → sum_below n f ≤ sum_below n g
sum_below_mono zero f g h = omega arith
sum_below_mono (suc n) f g h = omega (arith, sum_below_mono n f g h, h n)

-- A sum above zero has an entry above zero.
pub sum_below_pos : (n : ℕ) (f : ℕ → ℕ) → 0 < sum_below n f → (i : ℕ) × (i < n) × (0 < f i)
sum_below_pos zero f h = absurd (omega (arith, h))
sum_below_pos (suc n) f h = elim (Bool-cases (f n == 0)) [
  | inl e ↦ let (i, lt, p) = sum_below_pos n f (ground (arith, h, e)) in (i, omega arith, p)
  | inr e ↦ (n, omega arith, ground (arith, e))
]

pub sum_below-drop :
    (n j : ℕ) (f g : ℕ → ℕ)
    → ((k : ℕ) → f k ≤ g k)
    → j < n
    → f j < g j
    → sum_below n f < sum_below n g
sum_below-drop zero j f g h lt drop = absurd (omega arith)
sum_below-drop (suc n) j f g h lt drop = elim (Bool-cases (j == n)) [
  | inl e ↦
      let same : j ≡ n = ground (arith, e) in
      omega (arith, sum_below_mono n f g h, h n, subst (λ (k : ℕ). f k < g k) same drop)
  | inr e ↦ omega (arith, h n, sum_below-drop n j f g h (ground (arith, e)) drop)
]

pub sum_below-le_bound : (n : ℕ) (f : ℕ → ℕ) → ((k : ℕ) → f k ≤ 1) → sum_below n f ≤ n
sum_below-le_bound zero f h = omega arith
sum_below-le_bound (suc n) f h = omega (arith, sum_below-le_bound n f h, h n)

pub any_below-intro : (n : ℕ) (p : ℕ → Bool) (k : ℕ) → k < n → p k ≡ true → any_below n p ≡ true
any_below-intro zero p k lt h = absurd (omega arith)
any_below-intro (suc n) p k lt h = ground (arith, any_below-intro n p k)

pub sum_below-zero : (n : ℕ) → sum_below n (λ k. 0) ≡ 0
sum_below-zero zero = refl
sum_below-zero (suc n) = omega (arith, sum_below-zero n)

-- A write moves a sum by what it changes.
module _ {ℓ} {A : Type ℓ} (f : A → ℕ) (table : ℕ → A) (i : ℕ) (x : A) where
  sum_beyond :
      (n : ℕ) → n ≤ i → sum_below n (λ k. f (update table i x k)) ≡ sum_below n (λ k. f (table k))
  sum_beyond zero h = refl
  sum_beyond (suc n) h = ground (arith, h, sum_beyond n)

  pub sum_below-update :
      (n : ℕ)
      → i < n
      → sum_below n (λ k. f (update table i x k)) + f (table i)
        ≡ sum_below n (λ k. f (table k)) + f x
  sum_below-update zero h = absurd (omega arith)
  sum_below-update (suc n) h = elim (Bool-cases (i == n)) [
    | inl e ↦
        let same : i ≡ n = ground (arith, e) in
        ground (arith, e, sum_beyond n, ap (λ k. f (table k)) same)
    | inr e ↦ ground (arith, e, h, sum_below-update n)
  ]

-- What a slot's old entry has, and the new one where it is the slot that is written.
pub update_inv {ℓ κ} :
    {A : Type ℓ} (P : A → Type κ) (table : ℕ → A) (i : ℕ) (x : A) (k : ℕ)
    → P (table k)
    → (i ≡ k → P x)
    → P (update table i x k)
update_inv P table i x k h g = elim (Bool-cases (i == k)) [
  | inl e ↦ rw e (g (ground (arith, e)))
  | inr e ↦ rw e h
]

pub any_below-none : (n : ℕ) (p : ℕ → Bool) → ((k : ℕ) → p k ≡ false) → any_below n p ≡ false
any_below-none n p h = elim (Bool-cases (any_below n p)) [
  | inr e ↦ e
  | inl e ↦ let (k, lt, t) = any_below-true n p e in absurd (ground (arith, t, h k))
]

pub all_below-all : (n : ℕ) (p : ℕ → Bool) → ((k : ℕ) → p k ≡ true) → all_below n p ≡ true
all_below-all n p h = elim (Bool-cases (all_below n p)) [
  | inl e ↦ e
  | inr e ↦ let (k, lt, t) = all_below-false n p e in absurd (ground (arith, t, h k))
]
