-- ===== src/Verbs.antt =====
-- The control verbs as a whole (supervisor/src/lib.rs, `apply_control`, `activate` and `restart`),
-- over the waves that they run. The ticks and rounds are the world's part in each wave.
pub mod Cycle
use embassy_supervisor.Base.{
  ℕ, if◌then◌else◌, Bool, true, false, ◌&&◌, Option, none, some, List, update,
}
use embassy_supervisor.Node.State.{Site}
use embassy_supervisor.Lifecycle.{FaultKind, shutdown_timeout, restart_storm, NodeFault}
use embassy_supervisor.Stop.{
  Wave, Tick, Outcome, again, asleep_until, returned, panicked, run, start_wave,
}
use embassy_supervisor.Start.{StartPlan, StartWave, Round, rounds, begin_start}
use embassy_supervisor.Control.{
  Graph, Sweep, stop_plan, needed, free_and_enable, is_startable, deactivate,
}
use embassy_supervisor.Restart.{check_budget, cycled, goes_down, comes_up}

-- A graph with what its start wave reads besides.
pub record Fleet : Type 0 where
  pub graph : Graph
  pub self_spawned : ℕ → Bool
  pub slotted : ℕ → Bool
  pub has_pause : Bool
  pub has_exec_slots : Bool
  pub has_resources : Bool
  pub has_ready_deps : Bool

-- How a restart ends: refused by its budget, in its down wave, or in its up wave, which leaves a
-- request to scale where there are pools.
pub data RestartEnd : Type 0 where
  refused : NodeFault → RestartEnd
  ends_down : Wave → Outcome → RestartEnd
  ends_up : Wave → StartWave → Outcome → Bool → RestartEnd

module _ (fl : Fleet) where
  open fl use {graph}

  abbrev pub start_plan : Bool → StartPlan
  start_plan keep_going = record {
    n = graph.n;
    deps = graph.deps;
    order = graph.order;
    cfg = graph.cfg;
    self_spawned = fl.self_spawned;
    slotted = fl.slotted;
    has_pause = fl.has_pause;
    has_exec_slots = fl.has_exec_slots;
    has_resources = fl.has_resources;
    has_ready_deps = fl.has_ready_deps;
    keep_going = keep_going;
  }

  -- The wave, its end, and whether the pools are asked to scale.
  unfoldable pub activate : ℕ → List Round → (ℕ → Site) → StartWave × Outcome × Bool
  activate target rs sites =
      let set = needed graph sites target in
      let w = free_and_enable graph target sites in
      let (w', o) = rounds (start_plan true) rs (begin_start (is_startable graph set w) w.sites) in
      (w', o, graph.has_pools)

  unfoldable pub cycle_down : ℕ → List Tick → (ℕ → Site) → Wave × Outcome
  cycle_down target ts sites =
      run (stop_plan graph (goes_down graph sites (cycled graph sites target)) false) ts
        (start_wave sites)

  -- The slots are those of the way down.
  unfoldable pub cycle_up : (ℕ → Bool) → List Round → (ℕ → Site) → StartWave × Outcome
  cycle_up set rs sites =
      rounds (start_plan false) rs (begin_start (comes_up graph sites set) sites)

  unfoldable pub after_down : (ℕ → Bool) → List Round → Wave → Outcome → RestartEnd
  unfolding cycle_up
  after_down set rs w (returned none) =
      let (w', o) = cycle_up set rs w.sites in ends_up w w' o graph.has_pools
  after_down set rs w (returned (some f)) = ends_down w (returned (some f))
  after_down set rs w again = ends_down w again
  after_down set rs w (asleep_until d) = ends_down w (asleep_until d)
  after_down set rs w panicked = ends_down w panicked

  unfoldable pub restart : ℕ → ℕ → List Tick → List Round → (ℕ → Site) → RestartEnd
  unfolding cycle_down after_down
  restart target now ts rs sites =
      let (h, granted) = check_budget (graph.cfg target) now (sites target).handle in
      let sites' = update sites target (record (sites target) { handle = h }) in
      if granted
      then (let (w, o) = cycle_down target ts sites' in
          after_down (cycled graph sites' target) rs w o)
      else refused (record { node = target; kind = restart_storm })

  -- What `apply_control` makes of a restart's fault.
  unfoldable pub absorb : Option NodeFault → Option NodeFault
  absorb none = none
  absorb (some f) = elim f.kind [ shutdown_timeout ↦ some f | restart_storm ↦ some f | _ ↦ none ]
