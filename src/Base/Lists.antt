-- ===== src/Base/Lists.antt =====
-- Lists of native numbers: membership as a test, counts and ranges.
use mathlib.Core.Path.{◌≡◌, refl, ap}
use mathlib.Core.Bool.{Bool, true, false, ◌||◌, ◌&&◌}
use mathlib.Core.List.{List, [], ◌∷◌, ◌++◌}
use native.Mathlib.Omega.{arith}
use Prim.Native.Nat.{◌<◌, ◌≤◌, ◌+◌, ℕ, suc, zero}
use embassy_supervisor.Base.Tests.{◌==◌, if◌then◌else◌}

module _ {ℓ} {A : Type ℓ} where
  abbrev pub length : List A → ℕ
  length [] = 0
  length (x ∷ xs) = suc (length xs)

  pub length-append : (xs ys : List A) → length (xs ++ ys) ≡ length xs + length ys
  length-append [] ys = omega arith
  length-append (x ∷ xs) ys = omega (arith, length-append xs ys)

  abbrev pub any : (A → Bool) → List A → Bool
  any p [] = false
  any p (x ∷ xs) = p x || any p xs

  abbrev pub all : (A → Bool) → List A → Bool
  all p [] = true
  all p (x ∷ xs) = p x && all p xs

  -- A write out of bounds changes nothing.
  abbrev pub set : List A → ℕ → A → List A
  set [] i v = []
  set (x ∷ xs) zero v = v ∷ xs
  set (x ∷ xs) (suc i) v = x ∷ set xs i v

  pub length-set : (xs : List A) (i : ℕ) (v : A) → length (set xs i v) ≡ length xs
  length-set [] i v = refl
  length-set (x ∷ xs) zero v = refl
  length-set (x ∷ xs) (suc i) v = ap suc (length-set xs i v)

-- `slice::contains`.
abbrev pub contains : ℕ → List ℕ → Bool
contains a [] = false
contains a (x ∷ xs) = (x == a) || contains a xs

-- How often the slot stands in the list.
abbrev pub count : ℕ → List ℕ → ℕ
count slot [] = 0
count slot (first ∷ rest) = count slot rest + (if first == slot then 1 else 0)

pub contains-append :
    (a : ℕ) (xs ys : List ℕ) → contains a (xs ++ ys) ≡ (contains a xs || contains a ys)
contains-append a [] ys = refl
contains-append a (x ∷ xs) ys = ground (arith, contains-append a xs ys)

pub count-append :
    (slot : ℕ) (front back : List ℕ)
    → count slot (front ++ back) ≡ count slot front + count slot back
count-append slot [] back = ground arith
count-append slot (first ∷ rest) back = ground (arith, count-append slot rest back)

pub count_pos-contains : (a : ℕ) (xs : List ℕ) → 0 < count a xs → contains a xs ≡ true
count_pos-contains a [] h = absurd (omega arith)
count_pos-contains a (x ∷ xs) h = ground (arith, count_pos-contains a xs)

pub contains-count_pos : (a : ℕ) (xs : List ℕ) → contains a xs ≡ true → 0 < count a xs
contains-count_pos a [] h = ground arith
contains-count_pos a (x ∷ xs) h = ground (arith, contains-count_pos a xs)

-- How many entries of `xs` stand in `seen`.
abbrev pub count_in : List ℕ → List ℕ → ℕ
count_in seen [] = 0
count_in seen (x ∷ xs) = (if contains x seen then 1 else 0) + count_in seen xs

pub count_in-le_length : (seen xs : List ℕ) → count_in seen xs ≤ length xs
count_in-le_length seen [] = omega arith
count_in-le_length seen (x ∷ xs) = ground (arith, count_in-le_length seen xs)

pub count_in-nil : (xs : List ℕ) → count_in [] xs ≡ 0
count_in-nil [] = refl
count_in-nil (x ∷ xs) = omega (arith, count_in-nil xs)

-- Every entry of `xs` stands in `seen`.
abbrev pub subset : List ℕ → List ℕ → Bool
subset [] seen = true
subset (x ∷ xs) seen = contains x seen && subset xs seen

pub count_in_full-subset : (seen xs : List ℕ) → length xs ≤ count_in seen xs → subset xs seen ≡ true
count_in_full-subset seen [] h = refl
count_in_full-subset seen (x ∷ xs) h =
    ground (arith, count_in-le_length seen xs, count_in_full-subset seen xs)

pub subset-contains :
    (xs seen : List ℕ) (a : ℕ)
    → subset xs seen ≡ true
    → contains a xs ≡ true
    → contains a seen ≡ true
subset-contains [] seen a h m = ground arith
subset-contains (x ∷ xs) seen a h m = ground (arith, subset-contains xs seen a)

pub subset-intro :
    (xs seen : List ℕ)
    → ((a : ℕ) → contains a xs ≡ true → contains a seen ≡ true)
    → subset xs seen ≡ true
subset-intro [] seen h = refl
subset-intro (x ∷ xs) seen h =
    ground (arith, h x, subset-intro xs seen (λ a m. h a (ground (arith, m))))

pub subset-count_in : (seen xs : List ℕ) → subset xs seen ≡ true → count_in seen xs ≡ length xs
subset-count_in seen [] h = refl
subset-count_in seen (x ∷ xs) h = ground (arith, subset-count_in seen xs)

-- The place of the first `a`; the length if there is none.
abbrev pub position : ℕ → List ℕ → ℕ
position a [] = 0
position a (x ∷ xs) = if x == a then 0 else suc (position a xs)

pub position-append_old :
    (a : ℕ) (xs ys : List ℕ) → contains a xs ≡ true → position a (xs ++ ys) < length xs
position-append_old a [] ys h = ground arith
position-append_old a (x ∷ xs) ys h = ground (arith, position-append_old a xs ys)

pub position-append_new :
    (a : ℕ) (xs ys : List ℕ)
    → contains a xs ≡ false
    → position a (xs ++ ys) ≡ length xs + position a ys
position-append_new a [] ys h = omega arith
position-append_new a (x ∷ xs) ys h = ground (arith, position-append_new a xs ys)
