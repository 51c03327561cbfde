-- ===== src/Budget/Rounds.antt =====
-- A rebalance leaves the grants within the capacity, or asks for another pass.
use embassy_supervisor.Base.{
  ℕ, ◌≤◌, ◌≡◌, ◌⊎◌, refl, true, List, [], ◌∷◌, arith, inl, inr, Bool-cases, length, subst, ◌^◌, min,
  ◌+◌, ◌-◌,
}
use embassy_supervisor.Budget.{sum, Policy, divide, saturating_add}
use embassy_supervisor.Budget.Shares.{Pairs}
use embassy_supervisor.Budget.Policies.{divide_within}
use embassy_supervisor.Budget.Slots.{Budget, rebalance, same_list, total_granted, fold_saturating}

same_list-eq : (xs ys : List ℕ) → length ys ≡ length xs → same_list xs ys ≡ true → xs ≡ ys
unfolding same_list
same_list-eq [] [] e h = refl
same_list-eq [] (y ∷ ys) e h = absurd (omega arith)
same_list-eq (x ∷ xs) [] e h = absurd (omega arith)
same_list-eq (x ∷ xs) (y ∷ ys) e h = ground (arith, same_list-eq xs ys (omega arith))

-- There is a grant for each want, and other tasks change no length. After a rebalance the change
-- signal is set, or the grants sum up to at most the current capacity with no slot above its
-- current want.
pub rebalance_within :
    (policy : Policy) (now : ℕ) (meanwhile : Budget → Budget) (b : Budget)
    → length b.grants ≡ length b.wants
    → length (meanwhile b).wants ≡ length b.wants
    → let b' = (rebalance policy now meanwhile b).0 in
      (b'.watch ≡ true) ⊎ (sum b'.grants ≤ b'.capacity) × Pairs ◌≤◌ b'.grants b'.wants
unfolding rebalance
rebalance_within policy now meanwhile b e kept =
    let (total, within, _) = divide_within policy b.capacity now b.wants b.grants e in
    elim (Bool-cases ((rebalance policy now meanwhile b).0.watch)) [
      | inl set ↦ inl set
      | inr calm ↦
          let same : b.wants ≡ (meanwhile b).wants =
            same_list-eq b.wants (meanwhile b).wants kept (ground (arith, calm)) in
          let level : (meanwhile b).capacity ≡ b.capacity = ground (arith, calm) in
          inr (
            omega (arith, total, level),
            subst
                (λ (ws : List ℕ).
                  Pairs ◌≤◌ (divide policy b.capacity b.wants b.grants now).grants ws)
                same within,
          )
    ]

fold_saturating-sum :
    (gs : List ℕ) (acc : ℕ)
    → acc ≤ 2 ^ 32 - 1
    → fold_saturating gs acc ≡ min (acc + sum gs) (2 ^ 32 - 1)
unfolding fold_saturating sum
fold_saturating-sum [] acc h = omega arith
fold_saturating-sum (g ∷ gs) acc h =
    omega (arith, fold_saturating-sum gs (saturating_add acc g) (omega arith))

-- The total that is reported is the sum of the grants, held at the 32-bit maximum; behind a
-- rebalance that nothing interrupts it is within a capacity of at most that maximum.
pub total_granted_within :
    (policy : Policy) (now : ℕ) (b : Budget)
    → length b.grants ≡ length b.wants
    → let b' = (rebalance policy now (λ c. c) b).0 in
      (total_granted b' ≡ min (sum b'.grants) (2 ^ 32 - 1)) × (total_granted b' ≤ b.capacity)
unfolding rebalance total_granted
total_granted_within policy now b e =
    let (total, _, _) = divide_within policy b.capacity now b.wants b.grants e in
    let gs = (divide policy b.capacity b.wants b.grants now).grants in
    (
      omega (arith, fold_saturating-sum gs 0 (omega arith)),
      omega (arith, fold_saturating-sum gs 0 (omega arith), total),
    )
