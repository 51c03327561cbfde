-- ===== src/Budget/Policies.antt =====
-- Both policies keep what they grant within the capacity.
use embassy_supervisor.Base.{
  ℕ, suc, ◌+◌, ◌≤◌, ◌≡◌, refl, sym, ap, ◌∙◌, Bool, false, Option, none, List, [], ◌∷◌, arith,
  length,
}
use embassy_supervisor.Budget.{
  sum, targets, approach, approach_all, is_converging, is_due, Policy, fair_share,
  shrink_fast_grow_slow, divide,
}
use embassy_supervisor.Budget.Shares.{Pairs, targets_fair}

Pairs-sum : (xs ys : List ℕ) → Pairs ◌≤◌ xs ys → sum xs ≤ sum ys
unfolding sum
Pairs-sum [] [] h = omega arith
Pairs-sum [] (y ∷ ys) h = absurd h
Pairs-sum (x ∷ xs) [] h = absurd h
Pairs-sum (x ∷ xs) (y ∷ ys) h = omega (arith, Pairs-sum xs ys h.1)

Pairs-trans : (xs ys zs : List ℕ) → Pairs ◌≤◌ xs ys → Pairs ◌≤◌ ys zs → Pairs ◌≤◌ xs zs
Pairs-trans [] [] zs h k = k
Pairs-trans [] (y ∷ ys) zs h k = absurd h
Pairs-trans (x ∷ xs) [] zs h k = absurd h
Pairs-trans (x ∷ xs) (y ∷ ys) [] h k = k
Pairs-trans (x ∷ xs) (y ∷ ys) (z ∷ zs) h k = (omega arith, Pairs-trans xs ys zs h.1 k.1)

pub Pairs-length : (R : ℕ → ℕ → Type 0) (xs ys : List ℕ) → Pairs R xs ys → length xs ≡ length ys
Pairs-length R [] [] h = refl
Pairs-length R [] (y ∷ ys) h = absurd h
Pairs-length R (x ∷ xs) [] h = absurd h
Pairs-length R (x ∷ xs) (y ∷ ys) h = ap suc (Pairs-length R xs ys h.1)

module _ (due : Bool) (step : ℕ) where
  approach-le : (t g : ℕ) → (approach due step t g ≤ t) × (approach due step t g ≤ g + step)
  unfolding approach
  approach-le t g = ground arith

  approach_all-le :
      (ts gs : List ℕ)
      → length gs ≡ length ts
      → Pairs ◌≤◌ (approach_all due step ts gs) ts
        × Pairs (λ g' g. g' ≤ g + step) (approach_all due step ts gs) gs
  unfolding approach_all
  approach_all-le [] [] e = (tt, tt)
  approach_all-le [] (g ∷ gs) e = absurd (omega arith)
  approach_all-le (t ∷ ts) [] e = absurd (omega arith)
  approach_all-le (t ∷ ts) (g ∷ gs) e =
      let (below, slow) = approach_all-le ts gs (omega arith) in
      let (b, s) = approach-le t g in ((b, below), (s, slow))

  -- Nothing converges exactly where the targets are reached.
  converged :
      (ts gs : List ℕ)
      → length gs ≡ length ts
      → is_converging ts (approach_all due step ts gs) ≡ false
      → approach_all due step ts gs ≡ ts
  unfolding approach_all is_converging
  converged [] [] e c = refl
  converged [] (g ∷ gs) e c = absurd (omega arith)
  converged (t ∷ ts) [] e c = absurd (omega arith)
  converged (t ∷ ts) (g ∷ gs) e c = ground (arith, approach-le t g, converged ts gs (omega arith))

-- There is a grant for each want. Under either policy the new grants sum up to at most the
-- capacity, and no slot gets more than it wants. Where no later look is asked for, the grants are
-- the fair targets.
pub divide_within :
    (policy : Policy) (capacity now : ℕ) (wants grants : List ℕ)
    → length grants ≡ length wants
    → let d = divide policy capacity wants grants now in
      (sum d.grants ≤ capacity)
      × Pairs ◌≤◌ d.grants wants
      × (d.again_at ≡ none → d.grants ≡ targets capacity wants)
unfolding divide
divide_within fair_share capacity now wants grants e =
    let (total, within, _) = targets_fair capacity wants in
    (omega (arith, total), within, λ _. refl)
divide_within (shrink_fast_grow_slow step interval next) capacity now wants grants e =
    let (total, within, _) = targets_fair capacity wants in
    let ts = targets capacity wants in
    let due = is_due next now in
    let same : length grants ≡ length ts = e ∙ sym (Pairs-length ◌≤◌ ts wants within) in
    let (below, _) = approach_all-le due step ts grants same in
    (
      omega (arith, total, Pairs-sum (approach_all due step ts grants) ts below),
      Pairs-trans (approach_all due step ts grants) ts wants below within,
      λ idle. converged due step ts grants same (ground (arith, idle)),
    )

-- A grant of the slow policy grows by at most a step in one division, and one above its target
-- falls to it at once.
pub grow_slow_shrink_fast :
    (step interval capacity now : ℕ) (next : Option ℕ) (wants grants : List ℕ)
    → length grants ≡ length wants
    → let d = divide (shrink_fast_grow_slow step interval next) capacity wants grants now in
      Pairs (λ g' g. g' ≤ g + step) d.grants grants × Pairs ◌≤◌ d.grants (targets capacity wants)
unfolding divide
grow_slow_shrink_fast step interval capacity now next wants grants e =
    let (total, within, _) = targets_fair capacity wants in
    let same : length grants ≡ length (targets capacity wants) =
      e ∙ sym (Pairs-length ◌≤◌ (targets capacity wants) wants within) in
    let (below, slow) =
      approach_all-le (is_due next now) step (targets capacity wants) grants same in
    (slow, below)
