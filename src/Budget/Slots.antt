-- ===== src/Budget/Slots.antt =====
-- The `Budget` cell and its operations (supervisor/src/budget.rs, `impl Budget` and its
-- `ResourceGate`). An index beyond the claimant slots panics, which is `none`.
use embassy_supervisor.Base.{
  ℕ, ltb, ◌==◌, if◌then◌else◌, Bool, true, false, ◌&&◌, ◌||◌, not, Option, none, some, List, [],
  ◌∷◌, map, length, set,
}
use embassy_supervisor.Budget.{Policy, divide, saturating_add}

-- The claimants' wakers are modelled by which slots were woken.
pub record Budget : Type 0 where
  pub capacity : ℕ
  pub wants : List ℕ
  pub grants : List ℕ
  pub filled : Bool
  pub woken : List Bool
  pub watch : Bool

unfoldable pub provide : ℕ → Budget → Budget
provide units b = record b {
  capacity = units;
  filled = if ltb 0 units then true else b.filled;
  watch = true;
}

unfoldable pub want : ℕ → ℕ → Budget → Option Budget
want slot units b =
    if ltb slot (length b.wants)
    then some (record b { wants = set b.wants slot units; watch = true })
    else none

unfoldable pub release : ℕ → Budget → Option Budget
release slot b =
    if ltb slot (length b.wants)
    then some (record b { wants = set b.wants slot 0; grants = set b.grants slot 0; watch = true })
    else none

unfoldable pub fold_saturating : List ℕ → ℕ → ℕ
fold_saturating [] acc = acc
fold_saturating (g ∷ gs) acc = fold_saturating gs (saturating_add acc g)

unfoldable pub total_granted : Budget → ℕ
unfolding fold_saturating
total_granted b = fold_saturating b.grants 0

-- `ResourceGate::clear`.
unfoldable pub clear : Budget → Budget
clear b = record b {
  capacity = 0;
  grants = map (λ _. 0) b.grants;
  filled = false;
  woken = map (λ _. true) b.woken;
  watch = true;
}

unfoldable pub same_list : List ℕ → List ℕ → Bool
same_list [] ys = true
same_list (x ∷ xs) [] = true
same_list (x ∷ xs) (y ∷ ys) = (x == y) && same_list xs ys

-- The slots whose grant the division changed, beside those that were woken before.
unfoldable pub wake_changed : List ℕ → List ℕ → List Bool → List Bool
wake_changed [] gs ws = ws
wake_changed (g' ∷ gs') [] ws = ws
wake_changed (g' ∷ gs') (g ∷ gs) [] = []
wake_changed (g' ∷ gs') (g ∷ gs) (w ∷ ws) = (w || not (g' == g)) ∷ wake_changed gs' gs ws

-- `rebalance` reads the cell, divides, and stores the grants; `meanwhile` is what other tasks do to
-- the cell between the reads and the stores. A cell that moved is flagged for another pass.
unfoldable pub rebalance : Policy → ℕ → (Budget → Budget) → Budget → Budget × Policy × Option ℕ
rebalance policy now meanwhile b =
    let d = divide policy b.capacity b.wants b.grants now in
    let b₁ = meanwhile b in
    let stale = not (b₁.capacity == b.capacity) || not (same_list b.wants b₁.wants) in
    (
      record b₁ {
        grants = d.grants;
        woken = wake_changed d.grants b₁.grants b₁.woken;
        watch = b₁.watch || stale;
      },
      d.policy,
      d.again_at,
    )
