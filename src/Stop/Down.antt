-- ===== src/Stop/Down.antt =====
-- A stop wave that returns without a fault has brought every chosen node down.
use embassy_supervisor.Base.{
  ℕ, ◌<◌, ◌≡◌, refl, Bool, true, false, not, none, List, [], ◌∷◌, arith, inl, inr, Bool-cases,
  all_below-true,
}
use embassy_supervisor.Node.Flags.{running}
use embassy_supervisor.Node.State.{Site}
use embassy_supervisor.Node.Task.{has_flag, signal_shutdown, set_running}
use embassy_supervisor.Lifecycle.{is_ack, noted}
use embassy_supervisor.Stop.{
  Plan, Wave, Tick, returned, goes_on, is_open, signal_one, collect_one, check_one, expire,
  all_resolved, conclude, after_check, signal_phase, collect_phase, check_phase, turn, run,
  start_wave,
}
use embassy_supervisor.Stop.Rule.{AllTicks, Keeps, collected_inv, turn_inv}
use embassy_supervisor.Stop.Order.{is_ack-acked}

-- Only the supervisor marks a node running: no task does so between two turns.
abbrev pub IsCalm : Tick → Type 0
IsCalm t =
    (k : ℕ) (s : Site)
    → has_flag running s.handle ≡ false
    → has_flag running (t.change k s).handle ≡ false

module _ (p : Plan) where
  open p use {n, chosen, order, keep_going}

  -- While no fault is recorded, what is resolved has acknowledged and is not running.
  abbrev AreDown : Wave → Type 0
  AreDown w =
      (k : ℕ)
      → w.resolved k ≡ true
      → w.first_err ≡ none
      → (noted is_ack k w.log ≡ true) × (has_flag running (w.sites k).handle ≡ false)

  start-AreDown : (sites : ℕ → Site) → AreDown (start_wave sites)
  unfolding start_wave
  start-AreDown sites k r e = absurd (ground arith)

  signal_one-AreDown :
      (clock : ℕ → ℕ) (j : ℕ) (w : Wave) → AreDown w → AreDown (signal_one p clock j w)
  unfolding signal_one signal_shutdown
  signal_one-AreDown clock j w inv k r e = ground (arith, inv k)

  collect_one-AreDown : (j : ℕ) (w : Wave) → AreDown w → AreDown (collect_one p j w)
  unfolding collect_one set_running
  collect_one-AreDown j w inv k r e = ground (arith, inv k, is_ack-acked p (w.sites j).handle)

  check_one-AreDown : (now j : ℕ) (w : Wave) → AreDown w → AreDown (check_one p now j w)
  unfolding check_one expire
  check_one-AreDown now j w inv k r e = ground (arith, inv k)

  AreDown-kept : Keeps p AreDown IsCalm
  AreDown-kept = record {
    signal = signal_one-AreDown;
    change = λ t w calm inv k r e. ((inv k r e).0, calm k (w.sites k) (inv k r e).1);
    collect = collect_one-AreDown;
    check = check_one-AreDown;
  }

  -- A turn returns without a fault only where everything chosen is resolved.
  conclude-none :
      (done moved : Bool) (w₁ w₂ : Wave)
      → (conclude p done moved w₁ w₂).1 ≡ returned none
      → (done ≡ true) × (w₁.first_err ≡ none)
  unfolding after_check
  conclude-none true moved w₁ w₂ e = (refl, cc)
  conclude-none false true w₁ w₂ e = absurd (ground arith)
  conclude-none false false w₁ w₂ e = absurd (ground arith)

  -- Every chosen slot has acknowledged and is not running.
  abbrev pub AllDown : Wave → Type 0
  AllDown w =
      (j : ℕ)
      → j < n
      → chosen j ≡ true
      → (noted is_ack j w.log ≡ true) × (has_flag running (w.sites j).handle ≡ false)

  turn-AllDown :
      (t : Tick) (w : Wave)
      → IsCalm t
      → AreDown w
      → (turn p t w).1 ≡ returned none
      → AllDown (turn p t w).0
  unfolding turn
  turn-AllDown t w calm inv e j lt c =
      let w₁ = collect_phase p t (signal_phase p t w) in
      let (done, clean) = conclude-none (all_resolved p w₁) w₁.progress w₁ (check_phase p t w₁) e in
      rw done (collected_inv p AreDown-kept t w calm inv j (resolved_of w₁ j lt c done) clean)
    where
      resolved_of :
          (v : Wave) (j : ℕ)
          → j < n
          → chosen j ≡ true
          → all_resolved p v ≡ true
          → v.resolved j ≡ true
      resolved_of v j lt c h =
          ground
            (arith, all_below-true n (λ j. not (is_open p v j)) j (unfold all_resolved in h) lt)

  run-AllDown :
      (ts : List Tick) (w : Wave)
      → AllTicks IsCalm ts
      → AreDown w
      → (run p ts w).1 ≡ returned none
      → AllDown (run p ts w).0
  unfolding run
  run-AllDown [] w calm inv e = absurd (ground arith)
  run-AllDown (t ∷ ts) w calm inv e = elim (Bool-cases (goes_on (turn p t w).1)) [
    | inl h ↦
        rw h (
          run-AllDown ts (turn p t w).0 calm.1 (turn_inv p AreDown-kept t w calm.0 inv) (rw h at e))
    | inr h ↦ rw h (turn-AllDown t w calm.0 inv (rw h at e))
  ]

-- No task marks a node running between the turns. If the wave returns without a fault, then every
-- chosen slot has acknowledged its stop and its node is not running.
pub run_ok-AllDown :
    (p : Plan) (sites : ℕ → Site) (ts : List Tick)
    → AllTicks IsCalm ts
    → (run p ts (start_wave sites)).1 ≡ returned none
    → AllDown p (run p ts (start_wave sites)).0
run_ok-AllDown p sites ts calm e =
    run-AllDown p ts (start_wave sites) calm (start-AreDown p sites) e
