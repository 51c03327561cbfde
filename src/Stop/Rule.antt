-- ===== src/Stop/Rule.antt =====
-- The proof rule of the stop wave: what every step of its loops keeps, the wave keeps.
use embassy_supervisor.Base.{ℕ, Bool, true, false, List, [], ◌∷◌, inl, inr, Bool-cases}
use embassy_supervisor.Stop.{
  Plan, Wave, Tick, goes_on, changed, each, backwards, signal_one, collect_one, check_one, conclude,
  signal_phase, collect_phase, check_phase, turn, run,
}

-- The rule of a loop over slots.
pub each-inv {ℓ κ} :
    {S : Type ℓ} (P : S → Type κ) (body : ℕ → S → S)
    → ((j : ℕ) (s : S) → P s → P (body j s))
    → (js : List ℕ) (s : S) → P s
    → P (each body js s)
unfolding each
each-inv P body keep [] s h = h
each-inv P body keep (j ∷ js) s h = each-inv P body keep js (body j s) (keep j s h)

abbrev pub AllTicks : (Tick → Type 0) → List Tick → Type 0
AllTicks Allowed [] = Unit
AllTicks Allowed (t ∷ ts) = Allowed t × AllTicks Allowed ts

pub AllTicks-any : (ts : List Tick) → AllTicks (λ _. Unit) ts
AllTicks-any [] = tt
AllTicks-any (t ∷ ts) = (tt, AllTicks-any ts)

module _ (p : Plan) where
  open p use {order}

  pub record Keeps (P : Wave → Type 0) (Allowed : Tick → Type 0) : Type 0 where
    pub signal : (clock : ℕ → ℕ) (j : ℕ) (w : Wave) → P w → P (signal_one p clock j w)
    pub change : (t : Tick) (w : Wave) → Allowed t → P w → P (changed t w)
    pub collect : (j : ℕ) (w : Wave) → P w → P (collect_one p j w)
    pub check : (now j : ℕ) (w : Wave) → P w → P (check_one p now j w)

  -- What holds at both exits of a turn holds behind the turn.
  conclude_inv :
      (P : Wave → Type 0) (done moved : Bool) {w₁ w₂ : Wave}
      → P w₁
      → P w₂
      → P (conclude p done moved w₁ w₂).0
  conclude_inv P true moved h k = h
  conclude_inv P false true h k = h
  conclude_inv P false false h k = k

  module _ {P : Wave → Type 0} {Allowed : Tick → Type 0} (keeps : Keeps P Allowed) where
    open keeps use {signal, change, collect, check}

    pub collected_inv :
        (t : Tick) (w : Wave) → Allowed t → P w → P (collect_phase p t (signal_phase p t w))
    unfolding signal_phase collect_phase
    collected_inv t w allowed h = each-inv P (collect_one p) collect (backwards order) _ (
        change t _ allowed
          (each-inv P (signal_one p t.signal_ms) (signal t.signal_ms) (backwards order) w h))

    pub turn_inv : (t : Tick) (w : Wave) → Allowed t → P w → P (turn p t w).0
    unfolding turn check_phase
    turn_inv t w allowed h =
        let seen = collected_inv t w allowed h in
        conclude_inv P _ _ seen
          (each-inv P (check_one p t.check_ms) (check t.check_ms) (backwards order) _ seen)

    pub run_inv : (ts : List Tick) (w : Wave) → AllTicks Allowed ts → P w → P (run p ts w).0
    unfolding run
    run_inv [] w allowed h = h
    run_inv (t ∷ ts) w allowed h = elim (Bool-cases (goes_on (turn p t w).1)) [
      | inl e ↦ rw e (run_inv ts (turn p t w).0 allowed.1 (turn_inv t w allowed.0 h))
      | inr e ↦ rw e (turn_inv t w allowed.0 h)
    ]
