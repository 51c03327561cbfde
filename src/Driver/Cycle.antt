-- ===== src/Driver/Cycle.antt =====
-- A held node through an activation that does not need it, and through a restart.
use embassy_supervisor.Base.{
  ℕ, ◌+◌, ◌-◌, ◌%◌, ◌^◌, ltb, leb, ◌≡◌, refl, ap, ◌∙◌, sym, subst, ◌==◌, Bool, true, false, ◌&&◌,
  ◌||◌, not, none, some, List, arith, if_inv, option_inv, update, update_inv, any,
}
use embassy_supervisor.Node.Flags.{Flags, running, disabled, collateral}
use embassy_supervisor.Node.State.{Site, NodeCfg, TaskHandle}
use embassy_supervisor.Node.Task.{has_flag}
use embassy_supervisor.Stop.{Wave, Tick, Outcome, again, asleep_until, returned, panicked, each}
use embassy_supervisor.Stop.Rule.{each-inv}
use embassy_supervisor.Stop.Unchosen.{run-unchosen}
use embassy_supervisor.Start.{Round}
use embassy_supervisor.Start.Unchosen.{rounds-unchosen}
use embassy_supervisor.Control.{
  Sweep, is_managed, stop_plan, enable_one, sweep_one, sweep, needed, free_and_enable, is_startable,
}
use embassy_supervisor.Restart.{
  window_ticks, check_budget, count_restart, cycled, goes_down, comes_up,
}
use embassy_supervisor.Verbs.{
  Fleet, RestartEnd, start_plan, activate, restart, cycle_down, cycle_up, after_down,
}
use embassy_supervisor.Driver.{restart_sites}
use embassy_supervisor.Driver.Verbs.{IsHeld, CalmTicks, CalmRounds}

-- The budget's check counts in other words than the flags.
count_restart-flags :
    (max_restarts window now : ℕ) (h : TaskHandle)
    → (count_restart max_restarts window now h).0.flags ≡ h.flags
unfolding count_restart
count_restart-flags max_restarts window now h =
    if_inv (λ (x : TaskHandle × Bool). x.0.flags ≡ h.flags)
      ((h.restarts == 0)
        || ltb (window_ticks window) ((now % 2 ^ 32 + 2 ^ 32 - h.restart_window_start) % 2 ^ 32))
      (λ _. refl)
      (λ _.
        if_inv (λ (x : TaskHandle × Bool). x.0.flags ≡ h.flags) (leb max_restarts h.restarts)
          (λ _. refl) (λ _. refl))

check_budget-flags :
    (cfg : NodeCfg) (now : ℕ) (h : TaskHandle) → (check_budget cfg now h).0.flags ≡ h.flags
unfolding check_budget
check_budget-flags cfg now h =
    option_inv (λ (x : TaskHandle × Bool). x.0.flags ≡ h.flags) cfg.restart_budget refl
      (λ b. count_restart-flags b.0 b.1 now h)

module _ (fl : Fleet) (k : ℕ) where
  open fl use {graph}

  enable_one-IsHeld :
      (set : ℕ → Bool) (j : ℕ) (sites : ℕ → Site)
      → set k ≡ false
      → IsHeld (sites k)
      → IsHeld (enable_one graph set j sites k)
  unfolding enable_one
  enable_one-IsHeld set j sites out h =
      if_inv (λ (t : ℕ → Site). IsHeld (t k)) (set j && is_managed graph sites j)
        (λ yes.
          update_inv IsHeld sites j _ k h (λ same. absurd (ground (arith, yes, out, ap set same))))
        (λ _. h)

  -- The node is held, and not to be revived.
  record Rests (w : Sweep) : Type 0 where
    held : IsHeld (w.sites k)
    out : w.revive k ≡ false

  sweep_one-Rests : (j : ℕ) (w : Sweep) → Rests w → Rests (sweep_one graph j w)
  unfolding sweep_one
  sweep_one-Rests j w h =
      let frees = not (any w.held (graph.deps j)) && has_flag collateral (w.sites j).handle in
      if_inv Rests (is_managed graph w.sites j)
        (λ _. record {
          held =
              if_inv (λ (t : ℕ → Site). IsHeld (t k)) frees
                (λ _. update_inv IsHeld w.sites j _ k h.held (λ same.
                  let own = subst (λ (i : ℕ). IsHeld (w.sites i)) (sym same) h.held in
                  record { down = own.down; latched = own.latched }))
                (λ _. h.held);
          out =
              if_inv (λ (t : ℕ → Bool). t k ≡ false) frees
                (λ _.
                  update_inv (λ b. b ≡ false) w.revive j _ k h.out
                    (λ same.
                      ap not (
                        ap (λ (i : ℕ). has_flag disabled (w.sites i).handle) same
                        ∙ h.held.latched)))
                (λ _. h.out);
        })
        (λ _. h)

  pub activate-IsHeld :
      (target : ℕ) (rs : List Round) (sites : ℕ → Site)
      → needed graph sites target k ≡ false
      → CalmRounds fl k rs
      → IsHeld (sites k)
      → IsHeld ((activate fl target rs sites).0.sites k)
  unfolding activate free_and_enable sweep is_startable
  activate-IsHeld target rs sites out calm h =
      let set = needed graph sites target in
      let enabled : ℕ → Site = each (enable_one graph set) graph.order sites in
      let on : IsHeld (enabled k) =
        each-inv (λ (t : ℕ → Site). IsHeld (t k)) (enable_one graph set)
          (λ j t g. enable_one-IsHeld set j t out g) graph.order sites h in
      let start : Sweep = record { sites = enabled; held = λ _. false; revive = λ _. false } in
      let w = free_and_enable graph target sites in
      let rests : Rests w =
        each-inv Rests (sweep_one graph) sweep_one-Rests graph.order start
          (record { held = on; out = refl }) in
      rounds-unchosen (start_plan fl true) k IsHeld rs (is_startable graph set w) w.sites
        (ground (arith, out, rests.out)) calm rests.held

  cycle_down-IsHeld :
      (target : ℕ) (ts : List Tick) (sites : ℕ → Site)
      → CalmTicks fl k ts
      → IsHeld (sites k)
      → IsHeld ((cycle_down fl target ts sites).0.sites k)
  unfolding cycle_down goes_down
  cycle_down-IsHeld target ts sites calm h =
      run-unchosen (stop_plan graph _ false) IsHeld k (ground (arith, h.down)) ts sites calm h

  cycle_up-IsHeld :
      (set : ℕ → Bool) (rs : List Round) (sites : ℕ → Site)
      → CalmRounds fl k rs
      → IsHeld (sites k)
      → IsHeld ((cycle_up fl set rs sites).0.sites k)
  unfolding cycle_up comes_up
  cycle_up-IsHeld set rs sites calm h =
      rounds-unchosen (start_plan fl false) k IsHeld rs _ sites (ground (arith, h.latched)) calm h

  after_down-IsHeld :
      (set : ℕ → Bool) (rs : List Round) (v : Wave) (o : Outcome) (sites : ℕ → Site)
      → CalmRounds fl k rs
      → IsHeld (v.sites k)
      → IsHeld (restart_sites fl sites (after_down fl set rs v o) k)
  unfolding after_down
  after_down-IsHeld set rs v (returned none) sites calm h = cycle_up-IsHeld set rs v.sites calm h
  after_down-IsHeld set rs v (returned (some f)) sites calm h = h
  after_down-IsHeld set rs v again sites calm h = h
  after_down-IsHeld set rs v (asleep_until d) sites calm h = h
  after_down-IsHeld set rs v panicked sites calm h = h

  -- The site with the counted handle.
  counted-IsHeld :
      (target now : ℕ) (sites : ℕ → Site)
      → IsHeld (sites k)
      → IsHeld (
          update sites target
            (record (sites target) {
              handle = (check_budget (graph.cfg target) now (sites target).handle).0;
            })
            k)
  counted-IsHeld target now sites h = update_inv IsHeld sites target _ k h (λ same.
      let own = subst (λ (i : ℕ). IsHeld (sites i)) (sym same) h in
      let flags = check_budget-flags (graph.cfg target) now (sites target).handle in
      record {
        down = ap (λ (w : Flags). w running) flags ∙ own.down;
        latched = ap (λ (w : Flags). w disabled) flags ∙ own.latched;
      })

  pub restart-IsHeld :
      (target now : ℕ) (ts : List Tick) (rs : List Round) (sites : ℕ → Site)
      → CalmTicks fl k ts
      → CalmRounds fl k rs
      → IsHeld (sites k)
      → IsHeld (restart_sites fl sites (restart fl target now ts rs sites) k)
  unfolding restart
  restart-IsHeld target now ts rs sites calm calm' h =
      let b = check_budget (graph.cfg target) now (sites target).handle in
      let sites' : ℕ → Site = update sites target (record (sites target) { handle = b.0 }) in
      let h' : IsHeld (sites' k) = counted-IsHeld target now sites h in
      if_inv (λ (e : RestartEnd). IsHeld (restart_sites fl sites e k)) b.1
        (λ _.
          after_down-IsHeld (cycled graph sites' target) rs (cycle_down fl target ts sites').0
            (cycle_down fl target ts sites').1 sites calm'
            (cycle_down-IsHeld target ts sites' calm h'))
        (λ _. h)
