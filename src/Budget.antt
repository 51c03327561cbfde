-- ===== src/Budget.antt =====
-- A divisible resource (supervisor/src/budget.rs): the claimant slots of a `Budget`, the policies
-- that divide it, and the operations of the budgeter and of the claimants. The two word arrays are
-- lists of equal length.
pub mod Shares
pub mod Policies
pub mod Slots
pub mod Rounds
use embassy_supervisor.Base.{
  ℕ, zero, suc, ◌+◌, ◌-◌, ◌*◌, ◌/◌, ◌^◌, min, ltb, leb, ◌==◌, if◌then◌else◌, Bool, true, false,
  ◌&&◌, ◌||◌, not, Option, none, some, List, [], ◌∷◌,
}

unfoldable pub sum : List ℕ → ℕ
sum [] = 0
sum (x ∷ xs) = x + sum xs

-- `(capacity * w / total) as u32`; the product is in 64 bits.
abbrev pub floor : ℕ → ℕ → ℕ → ℕ
floor capacity total w = capacity * w / total

unfoldable pub used : ℕ → ℕ → List ℕ → ℕ
used capacity total [] = 0
used capacity total (w ∷ ws) = floor capacity total w + used capacity total ws

-- The loop that hands the remainder out, a unit to each slot that wants more than its floor.
unfoldable pub hand_out : ℕ → ℕ → ℕ → List ℕ → List ℕ
hand_out capacity total left [] = []
hand_out capacity total left (w ∷ ws) =
    let t = floor capacity total w in
    let more = ltb 0 left && ltb t w in
    (if more then t + 1 else t) ∷ hand_out capacity total (if more then left - 1 else left) ws

-- `FairShare::targets`, as the list of what `visit` is called with.
unfoldable pub targets : ℕ → List ℕ → List ℕ
unfolding sum used hand_out
targets capacity wants =
    let total = sum wants in
    if leb total capacity
    then wants
    else hand_out capacity total (capacity - used capacity total wants) wants

-- `saturating_add` on 32 bits.
abbrev pub saturating_add : ℕ → ℕ → ℕ
saturating_add a b = min (a + b) (2 ^ 32 - 1)

-- One slot of `ShrinkFastGrowSlow::divide`: the new grant.
unfoldable pub approach : Bool → ℕ → ℕ → ℕ → ℕ
approach due step t g =
    if ltb t g then t else if ltb g t then if due then min (saturating_add g step) t else g else g

unfoldable pub approach_all : Bool → ℕ → List ℕ → List ℕ → List ℕ
unfolding approach
approach_all due step [] gs = gs
approach_all due step (t ∷ ts) [] = []
approach_all due step (t ∷ ts) (g ∷ gs) = approach due step t g ∷ approach_all due step ts gs

-- `converging`: some grant is still below its target.
unfoldable pub is_converging : List ℕ → List ℕ → Bool
is_converging [] gs = false
is_converging (t ∷ ts) [] = false
is_converging (t ∷ ts) (g ∷ gs) = ltb g t || is_converging ts gs

-- A policy, with the state of its own that `divide` may change.
pub data Policy : Type 0 where
  fair_share : Policy
  shrink_fast_grow_slow : (step interval : ℕ) (next : Option ℕ) → Policy

abbrev pub is_due : Option ℕ → ℕ → Bool
is_due none now = true
is_due (some t) now = leb t now

abbrev pub or_now : Option ℕ → ℕ → ℕ
or_now none now = now
or_now (some t) now = t

-- The grants, the instant to look again, and the policy.
pub record Division : Type 0 where
  pub grants : List ℕ
  pub again_at : Option ℕ
  pub policy : Policy

-- The instant that `ShrinkFastGrowSlow` returns and keeps.
abbrev pub next_growth : Bool → Bool → ℕ → Option ℕ → ℕ → Option ℕ
next_growth converging due interval next now =
    if converging then some (if due then now + interval else or_now next now) else none

unfoldable pub divide : Policy → ℕ → List ℕ → List ℕ → ℕ → Division
unfolding targets approach_all is_converging
divide fair_share capacity wants grants now = record {
  grants = targets capacity wants;
  again_at = none;
  policy = fair_share;
}
divide (shrink_fast_grow_slow step interval next) capacity wants grants now =
    let ts = targets capacity wants in
    let due = is_due next now in
    let gs = approach_all due step ts grants in
    let next' = next_growth (is_converging ts gs) due interval next now in
    record { grants = gs; again_at = next'; policy = shrink_fast_grow_slow step interval next' }
