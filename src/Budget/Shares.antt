-- ===== src/Budget/Shares.antt =====
-- The proportional split of `FairShare::targets`: nothing is lost and nobody gets too much.
use native.Mathlib.Nat.{
  mod-lt, div-add-mod, mul-le-mul_left, mul-le-mul_right, le_of_mul-le-mul_left, div-le_of_le-mul,
  mul_comm, mul-add,
}
use embassy_supervisor.Base.{
  ℕ, ◌+◌, ◌-◌, ◌*◌, ◌%◌, ◌≤◌, ◌<◌, ◌≡◌, refl, ap, subst, leb→le, min, ltb, leb, if◌then◌else◌, ◌&&◌,
  List, [], ◌∷◌, arith, inl, inr, Bool-cases,
}
use embassy_supervisor.Budget.{sum, floor, used, hand_out, targets}

-- Each entry of the one list stands in the relation to that of the other; the lengths agree.
abbrev pub Pairs : (ℕ → ℕ → Type 0) → List ℕ → List ℕ → Type 0
Pairs R [] [] = Unit
Pairs R (x ∷ xs) (y ∷ ys) = R x y × Pairs R xs ys
Pairs R [] (y ∷ ys) = ⊥
Pairs R (x ∷ xs) [] = ⊥

module _ (capacity total : ℕ) where
  -- Slots that want more than their floor.
  takers : List ℕ → ℕ
  takers [] = 0
  takers (w ∷ ws) = (if ltb (floor capacity total w) w then 1 else 0) + takers ws

  remainders : List ℕ → ℕ
  remainders [] = 0
  remainders (w ∷ ws) = capacity * w % total + remainders ws

  hand_out-sum :
      (left : ℕ) (ws : List ℕ)
      → sum (hand_out capacity total left ws) ≡ used capacity total ws + min left (takers ws)
  unfolding sum hand_out used takers
  hand_out-sum left [] = omega arith
  hand_out-sum left (w ∷ ws) = elim (Bool-cases (ltb 0 left && ltb (floor capacity total w) w)) [
    | inl e ↦ rw e (ground (arith, hand_out-sum (left - 1) ws))
    | inr e ↦ rw e (ground (arith, hand_out-sum left ws))
  ]

  -- A share of an overloaded budget is the proportional one, rounded down or up, and at most the want.
  abbrev pub IsShareOf : ℕ → ℕ → Type 0
  IsShareOf t w = (t ≤ w) × (floor capacity total w ≤ t) × (t ≤ floor capacity total w + 1)

  floor-le : capacity ≤ total → (w : ℕ) → floor capacity total w ≤ w
  floor-le h w = div-le_of_le-mul total (grind arith)

  hand_out-IsShareOf :
      capacity ≤ total
      → (left : ℕ) (ws : List ℕ) → Pairs IsShareOf (hand_out capacity total left ws) ws
  unfolding hand_out
  hand_out-IsShareOf h left [] = tt
  hand_out-IsShareOf h left (w ∷ ws) =
      elim (Bool-cases (ltb 0 left && ltb (floor capacity total w) w)) [
        | inl e ↦
            rw e ((ground (arith, e), omega arith, omega arith), hand_out-IsShareOf h (left - 1) ws)
        | inr e ↦ rw e ((floor-le h w, omega arith, omega arith), hand_out-IsShareOf h left ws)
      ]

  -- What the floors leave over is less than a unit for each taker.
  floors_exact : (ws : List ℕ) → capacity * sum ws ≡ total * used capacity total ws + remainders ws
  unfolding sum used remainders
  floors_exact [] = omega arith
  floors_exact (w ∷ ws) = omega (
    arith,
    floors_exact ws,
    div-add-mod (capacity * w) total,
    mul-add capacity w (sum ws),
    mul-add total (floor capacity total w) (used capacity total ws),
  )

  total_pos : capacity < total → 0 < total
  total_pos h = omega arith

  no_remainder : capacity < total → (w : ℕ) → w ≤ floor capacity total w → capacity * w % total ≡ 0
  no_remainder h w e =
      let le : capacity ≤ total = omega arith in
      omega
        (arith, div-add-mod (capacity * w) total, mul-le-mul_left total e, mul-le-mul_right w le)

  remainders-le : capacity < total → (ws : List ℕ) → remainders ws ≤ total * takers ws
  unfolding remainders takers
  remainders-le h [] = omega arith
  remainders-le h (w ∷ ws) = elim (Bool-cases (ltb (floor capacity total w) w)) [
    | inl e ↦ rw e (
        omega (
          arith,
          remainders-le h ws,
          mod-lt (capacity * w) (total_pos h),
          mul-add total 1 (takers ws),
        ))
    | inr e ↦ rw e (
        omega (
          arith,
          remainders-le h ws,
          no_remainder h w (ground (arith, e)),
          mul-add total 0 (takers ws),
        ))
  ]

  left-le-takers :
      capacity < total
      → (ws : List ℕ) → sum ws ≡ total
      → (used capacity total ws ≤ capacity) × (capacity - used capacity total ws ≤ takers ws)
  left-le-takers h ws e =
      let exact : capacity * total ≡ total * used capacity total ws + remainders ws =
        subst (λ (s : ℕ). capacity * s ≡ total * used capacity total ws + remainders ws) e
          (floors_exact ws) in
      let within : used capacity total ws ≤ capacity =
        le_of_mul-le-mul_left {k = total} (omega (arith, exact, mul_comm capacity total))
          (total_pos h) in
      (
        within,
        le_of_mul-le-mul_left {k = total}
            (omega (
              arith,
              exact,
              remainders-le h ws,
              mul_comm capacity total,
              mul-add total (capacity - used capacity total ws) (used capacity total ws),
              ap (λ (k : ℕ). total * k) (regroup ws within),
            ))
            (total_pos h),
      )
    where
      regroup :
          (ws : List ℕ)
          → used capacity total ws ≤ capacity
          → (capacity - used capacity total ws) + used capacity total ws ≡ capacity
      regroup ws le = omega arith

Pairs-refl : (R : ℕ → ℕ → Type 0) → ((x : ℕ) → R x x) → (xs : List ℕ) → Pairs R xs xs
Pairs-refl R h [] = tt
Pairs-refl R h (x ∷ xs) = (h x, Pairs-refl R h xs)

Pairs-map :
    (R S : ℕ → ℕ → Type 0)
    → ((x y : ℕ) → R x y → S x y)
    → (xs ys : List ℕ) → Pairs R xs ys
    → Pairs S xs ys
Pairs-map R S f [] [] h = tt
Pairs-map R S f [] (y ∷ ys) h = h
Pairs-map R S f (x ∷ xs) [] h = h
Pairs-map R S f (x ∷ xs) (y ∷ ys) h = (f x y h.0, Pairs-map R S f xs ys h.1)

-- The targets sum up to all that is wanted or to the whole capacity, whichever is less, and nobody
-- gets more than it wants. When more is wanted than there is, every target is the slot's
-- proportional share rounded down or that plus one.
pub targets_fair :
    (capacity : ℕ) (wants : List ℕ)
    → (sum (targets capacity wants) ≡ min capacity (sum wants))
      × Pairs ◌≤◌ (targets capacity wants) wants
      × (capacity < sum wants
          → Pairs (IsShareOf capacity (sum wants)) (targets capacity wants) wants)
unfolding targets
targets_fair capacity wants = elim (Bool-cases (leb (sum wants) capacity)) [
  | inl e ↦ rw e (
    omega (arith, leb→le _ _ e),
    Pairs-refl ◌≤◌ (λ x. omega arith) wants,
    λ h. absurd (omega (arith, leb→le _ _ e)),
  )
  | inr e ↦
      let h : capacity < sum wants = ground (arith, e) in
      let le : capacity ≤ sum wants = omega arith in
      let left = capacity - used capacity (sum wants) wants in
      let (within, few) = left-le-takers capacity (sum wants) h wants refl in
      let shares = hand_out-IsShareOf capacity (sum wants) le left wants in
      rw e (
        omega (arith, hand_out-sum capacity (sum wants) left wants, within, few),
        Pairs-map (IsShareOf capacity (sum wants)) ◌≤◌ (λ x y r. r.0)
            (hand_out capacity (sum wants) left wants) wants shares,
        λ _. shares,
      )
]
