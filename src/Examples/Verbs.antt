-- ===== src/Examples/Verbs.antt =====
-- A deactivation of the chain's driver, the sweep behind it, and a restart budget.
use embassy_supervisor.Base.{
  ℕ, ◌+◌, ◌-◌, ◌^◌, ◌<◌, ◌≡◌, refl, ◌↔◌, ◌==◌, min, if◌then◌else◌, true, false, none, [], ◌∷◌,
  arith,
}
use embassy_supervisor.Node.Flags.{running, disabled, collateral, detached}
use embassy_supervisor.Node.State.{new_handle, Site}
use embassy_supervisor.Node.Task.{has_flag, on_handle, set_flags, signal_shutdown}
use embassy_supervisor.Stop.{
  returned, held, signal_one, collect_one, expire, check_one, all_resolved, signal_phase,
  collect_phase, check_phase, after_check, turn, run, start_wave, each, backwards,
}
use embassy_supervisor.Control.{
  Graph, seed, seed_one, seed_pools, collect_dependent, collect_dependents, mark_down, select_down,
  deactivate, sweep, sweep_one,
}
use embassy_supervisor.Control.Closure.{Affected, seeded, dependent, collect_dependents-Affected}
use embassy_supervisor.Control.Down.{deactivate-down}
use embassy_supervisor.Control.Revival.{Blocked, sweep-exact}
use embassy_supervisor.Restart.{window_ticks, count_restart}
use embassy_supervisor.Restart.Window.{calls, calls_within}
use embassy_supervisor.Examples.Graphs.{chain, chain_short, chain_sorted}
use embassy_supervisor.Examples.Waves.{plain_cfg, up, good, answer-IsCalm}

abbrev pub chain_graph : Graph
chain_graph = record {
  n = 3;
  deps = chain;
  order = 2 ∷ 1 ∷ 0 ∷ [];
  cfg = λ _. plain_cfg;
  occupied = λ _. true;
  pools = (1 ∷ []) ∷ [];
  has_pools = true;
  has_on_demand = true;
  has_claims = true;
}

abbrev pub all_up : ℕ → Site
all_up _ = up

-- The application stands above the driver.
pub app-Affected : Affected chain_graph all_up (seed chain_graph 2) 0
unfolding seed seed_one seed_pools new_handle each
app-Affected =
    dependent 0 1 (omega arith) refl refl (dependent 1 2 (omega arith) refl refl (seeded 2 refl))

collect_dependents-Affected_example :
    (collect_dependents chain_graph all_up (seed chain_graph 2) 0 ≡ true)
    ↔ Affected chain_graph all_up (seed chain_graph 2) 0
collect_dependents-Affected_example =
    collect_dependents-Affected chain_graph all_up (seed chain_graph 2) chain_short chain_sorted 0

driver_stops : (deactivate chain_graph 2 good all_up).1 ≡ returned none
unfolding deactivate seed seed_one seed_pools collect_dependents collect_dependent select_down
    mark_down run turn start_wave signal_phase collect_phase check_phase after_check signal_one
    collect_one check_one expire held all_resolved each backwards signal_shutdown new_handle
driver_stops = refl

deactivate-down_example :
    has_flag running ((deactivate chain_graph 2 good all_up).0.sites 0).handle ≡ false
unfolding new_handle
deactivate-down_example =
    deactivate-down chain_graph 2 good all_up chain_short chain_sorted
      (answer-IsCalm 1, (answer-IsCalm 2, (answer-IsCalm 3, (answer-IsCalm 4, tt)))) driver_stops 0
      (omega arith) refl app-Affected

-- The driver is disabled, and the application was stopped with it.
abbrev left_down : ℕ → Site
left_down j =
    on_handle (set_flags (if j == 2 then disabled ∷ [] else collateral ∷ []))
      (record up { handle = new_handle false })

sweep-exact_example :
    ((has_flag collateral ((sweep chain_graph left_down).sites 0).handle ≡ true)
      ↔ ((has_flag collateral (left_down 0).handle ≡ true) × Blocked chain_graph left_down 0))
    × (((sweep chain_graph left_down).revive 0 ≡ true) ↔ (
        (has_flag collateral (left_down 0).handle ≡ true)
        × (¬ Blocked chain_graph left_down 0)
        × (has_flag disabled (left_down 0).handle ≡ false)))
unfolding new_handle
sweep-exact_example =
    sweep-exact chain_graph left_down chain_short chain_sorted 0 (omega arith) refl

-- The driver is disabled and detached: what was stopped with it is freed though it stays disabled.
abbrev left_detached : ℕ → Site
left_detached j =
    if j == 2 then on_handle (set_flags (detached ∷ [])) (left_down 2) else left_down j

freed_under_disabled :
    (has_flag collateral ((sweep chain_graph left_detached).sites 1).handle ≡ false)
    × (has_flag disabled ((sweep chain_graph left_detached).sites 2).handle ≡ true)
unfolding sweep sweep_one each new_handle
freed_under_disabled = (refl, refl)

-- Two restarts in a window of 100 ticks, and calls that the clock's wrap falls between.
calls_within_example :
    ((calls 2 100 (4294967290 ∷ 4294967300 ∷ 4294967310 ∷ []) up.handle).1 ≡ 1 + min 2 (2 - 1))
    × ((t : ℕ)
        → 4294967290 + window_ticks 100 < t
        → t < 4294967290 + 2 ^ 32
        → let (h', _) = calls 2 100 (4294967290 ∷ 4294967300 ∷ 4294967310 ∷ []) up.handle in
          ((count_restart 2 100 t h').1 ≡ true) × ((count_restart 2 100 t h').0.restarts ≡ 1))
unfolding new_handle
calls_within_example =
    calls_within 2 100 4294967290 (4294967300 ∷ 4294967310 ∷ []) up.handle refl
      (omega arith, omega arith, (omega arith, omega arith, tt))
