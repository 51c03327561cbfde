-- ===== src/Stop/Faults.antt =====
-- What a stop wave returns: a fault exactly where some node let its window pass.
use embassy_supervisor.Base.{
  ℕ, ◌≡◌, refl, ltb, ◌==◌, Bool, true, false, ◌&&◌, not, Option, none, some, List, [], ◌∷◌, arith,
  inl, inr, Bool-cases, Option-cases,
}
use embassy_supervisor.Node.Flags.{dropped}
use embassy_supervisor.Node.Task.{has_flag}
use embassy_supervisor.Node.State.{Site, TaskHandle}
use embassy_supervisor.Lifecycle.{NodeFault, shutdown_timeout, acked, is_fault, noted}
use embassy_supervisor.Stop.{
  Plan, Wave, Tick, returned, goes_on, unsignaled, is_open, each, backwards, held, signal_one,
  collect_one, check_one, expire, due, all_resolved, conclude, after_check, signal_phase,
  collect_phase, check_phase, turn, run, start_wave,
}
use embassy_supervisor.Stop.Rule.{each-inv, Keeps, collected_inv, turn_inv}
use embassy_supervisor.Stop.Order.{is_stop}

start_wave-failed : (sites : ℕ → Site) → (start_wave sites).failed ≡ none
unfolding start_wave
start_wave-failed sites = refl

module _ (p : Plan) where
  open p use {n, chosen, order, keep_going}

  -- The fault names a node that was asked to stop and did not acknowledge in its window.
  abbrev pub Blames : NodeFault → Wave → Type 0
  Blames f w =
      (f.kind ≡ shutdown_timeout)
      × (noted is_stop f.node w.log ≡ true)
      × (noted is_fault f.node w.log ≡ true)

  record Inv (w : Wave) : Type 0 where
    recorded : (f : NodeFault) → w.first_err ≡ some f → Blames f w
    returning : (f : NodeFault) → w.failed ≡ some f → Blames f w
    clean : w.first_err ≡ none → w.failed ≡ none → (k : ℕ) → noted is_fault k w.log ≡ false
    asked : (k : ℕ) → (w.signaled k == unsignaled) ≡ false → noted is_stop k w.log ≡ true

  start_wave-Inv : (sites : ℕ → Site) → Inv (start_wave sites)
  unfolding start_wave
  start_wave-Inv sites = record {
    recorded = λ f e. absurd (ground arith);
    returning = λ f e. absurd (ground arith);
    clean = λ e e' k. refl;
    asked = λ k e. absurd (ground arith);
  }

  is_fault-acked : (h : TaskHandle) → is_fault (acked h) ≡ false
  unfolding acked
  is_fault-acked h = ground arith

  signal_one-Inv : (clock : ℕ → ℕ) (j : ℕ) (w : Wave) → Inv w → Inv (signal_one p clock j w)
  unfolding signal_one
  signal_one-Inv clock j w inv =
      elim (Bool-cases ((is_open p w j && (w.signaled j == unsignaled)) && not (held p w j))) [
        | inr h ↦ rw h inv
        | inl h ↦ rw h (record {
          recorded = λ f e. ground (arith, inv.recorded f e);
          returning = λ f e. ground (arith, inv.returning f e);
          clean = λ e e' k. ground (arith, inv.clean e e' k);
          asked = λ k s. ground (arith, inv.asked k);
        })
      ]

  collect_one-Inv : (j : ℕ) (w : Wave) → Inv w → Inv (collect_one p j w)
  unfolding collect_one
  collect_one-Inv j w inv =
      elim (Bool-cases (is_open p w j && has_flag dropped (w.sites j).handle)) [
        | inr h ↦ rw h inv
        | inl h ↦ rw h (record {
          recorded = λ f e. ground (arith, inv.recorded f e);
          returning = λ f e. ground (arith, inv.returning f e);
          clean = λ e e' k. ground (arith, inv.clean e e' k, is_fault-acked (w.sites j).handle);
          asked = λ k s. ground (arith, inv.asked k s);
        })
      ]

  expire-Inv :
      (j : ℕ) (w : Wave)
      → (w.signaled j == unsignaled) ≡ false
      → w.failed ≡ none
      → Inv w
      → Inv (expire p j w)
  unfolding expire
  expire-Inv j w s none_yet inv = elim (Bool-cases keep_going) [
    | inl h ↦ rw h (record {
      recorded = λ f e. ground (arith, inv.recorded f, inv.asked j s);
      returning = λ f e. absurd (ground arith);
      clean = λ e e' k. absurd (ground arith);
      asked = λ k s'. ground (arith, inv.asked k s');
    })
    | inr h ↦ rw h (record {
      recorded = λ f e. ground (arith, inv.recorded f e);
      returning = λ f e. ground (arith, inv.asked j s);
      clean = λ e e' k. absurd (ground arith);
      asked = λ k s'. ground (arith, inv.asked k s');
    })
  ]

  check_one-Inv : (now j : ℕ) (w : Wave) → Inv w → Inv (check_one p now j w)
  unfolding check_one
  check_one-Inv now j w inv = elim (Option-cases w.failed) [
    | inr (f, e) ↦ rw (e, check_one) inv
    | inl e ↦
        rw (e, check_one)
          (elim (Bool-cases (is_open p w j && not (w.signaled j == unsignaled))) [
            | inr h ↦ rw h inv
            | inl h ↦ rw h (elim (Bool-cases (ltb now (due p w j))) [
              | inl early ↦ rw early (record {
                recorded = inv.recorded;
                returning = λ f e'. ground arith;
                clean = λ e' e'' k. inv.clean e' e k;
                asked = inv.asked;
              })
              | inr late ↦ rw late (expire-Inv j w (ground (arith, h)) e inv)
            ])
          ])
  ]

  Inv-kept : Keeps p Inv (λ _. Unit)
  Inv-kept = record {
    signal = signal_one-Inv;
    change = λ t w _ inv. record {
      recorded = inv.recorded;
      returning = inv.returning;
      clean = inv.clean;
      asked = inv.asked;
    };
    collect = collect_one-Inv;
    check = check_one-Inv;
  }

  -- The result tells whether any window passed.
  abbrev pub Tells : Option NodeFault → Wave → Type 0
  Tells none w = (k : ℕ) → noted is_fault k w.log ≡ false
  Tells (some f) w = Blames f w

  collected-failed :
      (t : Tick) (w : Wave)
      → w.failed ≡ none
      → (collect_phase p t (signal_phase p t w)).failed ≡ none
  unfolding collect_phase signal_phase
  collected-failed t w e =
      each-inv (λ (v : Wave). v.failed ≡ none) (collect_one p) collect_failed (backwards order) _
        (each-inv (λ (v : Wave). v.failed ≡ none) (signal_one p t.signal_ms) signal_failed
          (backwards order) w e)
    where
      signal_failed :
          (j : ℕ) (v : Wave) → v.failed ≡ none → (signal_one p t.signal_ms j v).failed ≡ none
      signal_failed j v h = unfold signal_one in (ground arith)

      collect_failed : (j : ℕ) (v : Wave) → v.failed ≡ none → (collect_one p j v).failed ≡ none
      collect_failed j v h = unfold collect_one in (ground arith)

  conclude-Tells :
      (done moved : Bool) (w₁ w₂ : Wave) (r : Option NodeFault)
      → Inv w₁
      → Inv w₂
      → w₁.failed ≡ none
      → (conclude p done moved w₁ w₂).1 ≡ returned r
      → Tells r (conclude p done moved w₁ w₂).0
  unfolding after_check
  conclude-Tells true moved w₁ w₂ none i₁ i₂ e h = i₁.clean (ground arith) e
  conclude-Tells true moved w₁ w₂ (some f) i₁ i₂ e h = i₁.recorded f (ground arith)
  conclude-Tells false true w₁ w₂ r i₁ i₂ e h = absurd (ground arith)
  conclude-Tells false false w₁ w₂ none i₁ i₂ e h = absurd (ground arith)
  conclude-Tells false false w₁ w₂ (some f) i₁ i₂ e h = i₂.returning f (ground arith)

  conclude-failed :
      (done moved : Bool) (w₁ w₂ : Wave)
      → w₁.failed ≡ none
      → goes_on (conclude p done moved w₁ w₂).1 ≡ true
      → (conclude p done moved w₁ w₂).0.failed ≡ none
  unfolding after_check
  conclude-failed true moved w₁ w₂ e g = e
  conclude-failed false true w₁ w₂ e g = e
  conclude-failed false false w₁ w₂ e g = ground arith

  turn-Tells :
      (t : Tick) (w : Wave) (r : Option NodeFault)
      → Inv w
      → w.failed ≡ none
      → ((turn p t w).1 ≡ returned r → Tells r (turn p t w).0)
        × (goes_on (turn p t w).1 ≡ true → (turn p t w).0.failed ≡ none)
  unfolding turn check_phase
  turn-Tells t w r inv e =
      let w₁ = collect_phase p t (signal_phase p t w) in
      let w₂ = each (check_one p t.check_ms) (backwards order) w₁ in
      let i₁ = collected_inv p Inv-kept t w tt inv in
      let i₂ =
        each-inv Inv (check_one p t.check_ms) (check_one-Inv t.check_ms) (backwards order) w₁ i₁ in
      let e₁ = collected-failed t w e in
      (
        conclude-Tells (all_resolved p w₁) w₁.progress w₁ w₂ r i₁ i₂ e₁,
        conclude-failed (all_resolved p w₁) w₁.progress w₁ w₂ e₁,
      )

  run-Tells :
      (ts : List Tick) (w : Wave) (r : Option NodeFault)
      → Inv w
      → w.failed ≡ none
      → (run p ts w).1 ≡ returned r
      → Tells r (run p ts w).0
  unfolding run
  run-Tells [] w r inv e h = absurd (ground arith)
  run-Tells (t ∷ ts) w r inv e h =
      let (tells, clean) = turn-Tells t w r inv e in
      elim (Bool-cases (goes_on (turn p t w).1)) [
        | inl g ↦
            rw g
              (run-Tells ts (turn p t w).0 r (turn_inv p Inv-kept t w tt inv) (clean g) (rw g at h))
        | inr g ↦ rw g (tells (rw g at h))
      ]

-- A wave that returns without a fault noted none: no node let its window pass. A wave that returns
-- a fault names a node that it asked to stop and for which it noted a missed window.
pub run-result :
    (p : Plan) (sites : ℕ → Site) (ts : List Tick) (r : Option NodeFault)
    → (run p ts (start_wave sites)).1 ≡ returned r
    → Tells p r (run p ts (start_wave sites)).0
run-result p sites ts r e =
    run-Tells p ts (start_wave sites) r (start_wave-Inv p sites) (start_wave-failed sites) e
