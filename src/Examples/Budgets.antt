-- ===== src/Examples/Budgets.antt =====
-- A budget of ten units that three claimants share, and of fewer than they want.
use embassy_supervisor.Base.{ℕ, ◌≤◌, ◌<◌, ◌≡◌, ◌⊎◌, refl, min, true, false, none, List, [], ◌∷◌}
use embassy_supervisor.Budget.{sum, used, hand_out, targets, Policy, shrink_fast_grow_slow, divide}
use embassy_supervisor.Budget.Shares.{Pairs, IsShareOf, targets_fair}
use embassy_supervisor.Budget.Policies.{divide_within}
use embassy_supervisor.Budget.Slots.{Budget, rebalance}
use embassy_supervisor.Budget.Rounds.{rebalance_within}

abbrev wanted : List ℕ
wanted = 7 ∷ 0 ∷ 8 ∷ []

abbrev granted : List ℕ
granted = 9 ∷ 0 ∷ 1 ∷ []

abbrev slow : Policy
slow = shrink_fast_grow_slow 2 100 none

abbrev cell : Budget
cell = record {
  capacity = 10;
  wants = wanted;
  grants = granted;
  filled = true;
  woken = false ∷ false ∷ false ∷ [];
  watch = false;
}

wanted_shares : targets 10 wanted ≡ 5 ∷ 0 ∷ 5 ∷ []
unfolding targets hand_out used sum
wanted_shares = refl

targets_fair_example :
    (sum (targets 10 wanted) ≡ min 10 (sum wanted))
    × Pairs ◌≤◌ (targets 10 wanted) wanted
    × (10 < sum wanted → Pairs (IsShareOf 10 (sum wanted)) (targets 10 wanted) wanted)
targets_fair_example = targets_fair 10 wanted

divide_within_example :
    let d = divide slow 10 wanted granted 50 in
    (sum d.grants ≤ 10)
    × Pairs ◌≤◌ d.grants wanted
    × (d.again_at ≡ none → d.grants ≡ targets 10 wanted)
divide_within_example = divide_within slow 10 50 wanted granted refl

-- Another task wants more in the middle of the rebalance.
abbrev interrupt : Budget → Budget
interrupt b = record b { wants = 7 ∷ 3 ∷ 8 ∷ []; watch = true }

rebalance_within_example :
    let b' = (rebalance slow 50 interrupt cell).0 in
    (b'.watch ≡ true) ⊎ (sum b'.grants ≤ b'.capacity) × Pairs ◌≤◌ b'.grants b'.wants
rebalance_within_example = rebalance_within slow 50 interrupt cell refl refl
