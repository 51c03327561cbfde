-- ===== src/Verbs/Cycle.antt =====
-- A restart takes down all that depends on its target, and brings back what may run.
use embassy_supervisor.Base.{
  ℕ, ◌<◌, ◌≡◌, Bool, true, false, ◌&&◌, not, none, List, arith, inl, inr, Bool-cases,
}
use embassy_supervisor.Node.Flags.{running, disabled, collateral}
use embassy_supervisor.Node.State.{is_on_demand, Site}
use embassy_supervisor.Node.Task.{has_flag}
use embassy_supervisor.Topology.{topo_sort_const, sorted}
use embassy_supervisor.Topology.Order.{HasShortRows}
use embassy_supervisor.Stop.{Tick, returned, start_wave}
use embassy_supervisor.Stop.Rule.{AllTicks, run_inv}
use embassy_supervisor.Stop.Down.{IsCalm, run_ok-AllDown}
use embassy_supervisor.Start.{Round}
use embassy_supervisor.Start.Rule.{is_up}
use embassy_supervisor.Start.Order.{logged}
use embassy_supervisor.Start.Result.{start-result}
use embassy_supervisor.Control.{is_managed, seed, stop_plan}
use embassy_supervisor.Control.Closure.{Affected, collect_dependents-Affected}
use embassy_supervisor.Control.Down.{IsDown-keeps}
use embassy_supervisor.Restart.{cycled, goes_down, comes_up}
use embassy_supervisor.Verbs.{Fleet, start_plan, cycle_down, cycle_up}

-- May the node be brought back, as the down wave left it?
abbrev pub may_return : Fleet → (ℕ → Site) → ℕ → Bool
may_return fl sites j =
    is_managed fl.graph sites j
    && not (has_flag disabled (sites j).handle)
    && not (has_flag collateral (sites j).handle)
    && not (fl.graph.has_on_demand && is_on_demand (fl.graph.cfg j).mode)

in_cycle :
    (fl : Fleet) (target : ℕ) (sites : ℕ → Site)
    → HasShortRows fl.graph.n fl.graph.deps
    → topo_sort_const fl.graph.n fl.graph.deps ≡ sorted fl.graph.order
    → (j : ℕ) → Affected fl.graph sites (seed fl.graph target) j
    → cycled fl.graph sites target j ≡ true
unfolding cycled
in_cycle fl target sites short e j a =
    (collect_dependents-Affected fl.graph sites (seed fl.graph target) short e j).1 a

goes-down :
    (fl : Fleet) (target : ℕ) (ts : List Tick) (sites : ℕ → Site)
    → AllTicks IsCalm ts
    → (cycle_down fl target ts sites).1 ≡ returned none
    → (j : ℕ) → j < fl.graph.n
    → is_managed fl.graph sites j ≡ true
    → cycled fl.graph sites target j ≡ true
    → has_flag running ((cycle_down fl target ts sites).0.sites j).handle ≡ false
unfolding cycle_down goes_down start_wave
goes-down fl target ts sites calm ok j lt managed inside =
    let chosen = goes_down fl.graph sites (cycled fl.graph sites target) in
    let p = stop_plan fl.graph chosen false in
    elim (Bool-cases (has_flag running (sites j).handle)) [
      | inl on ↦ (run_ok-AllDown p sites ts calm ok j lt (ground (arith, on, managed, inside))).1
      | inr off ↦ run_inv p (IsDown-keeps p j) ts (start_wave sites) calm off
    ]

chosen_up :
    (fl : Fleet) (sites : ℕ → Site) (set : ℕ → Bool) (j : ℕ)
    → set j ≡ true
    → has_flag running (sites j).handle ≡ false
    → may_return fl sites j ≡ true
    → comes_up fl.graph sites set j ≡ true
unfolding comes_up
chosen_up fl sites set j inside down may = ground (arith, inside, down, may)

-- The order is the one that `topo_sort_const` returned, no task marks a node running in the down
-- wave, and both waves of a restart return without a fault. Then every managed node of the graph
-- that is the target or in its pool, or depends on one through managed nodes, was down between the
-- waves; and if it is managed, not disabled, not collateral and not on demand there, then the up wave
-- started, resumed or parked it.
pub restart-cycles :
    (fl : Fleet) (target : ℕ) (ts : List Tick) (rs : List Round) (sites : ℕ → Site)
    → HasShortRows fl.graph.n fl.graph.deps
    → topo_sort_const fl.graph.n fl.graph.deps ≡ sorted fl.graph.order
    → AllTicks IsCalm ts
    → (cycle_down fl target ts sites).1 ≡ returned none
    → (cycle_up fl (cycled fl.graph sites target) rs (cycle_down fl target ts sites).0.sites).1
      ≡ returned none
    → (j : ℕ) → j < fl.graph.n
    → is_managed fl.graph sites j ≡ true
    → Affected fl.graph sites (seed fl.graph target) j
    → let (w, _) = cycle_down fl target ts sites in
      let (w', _) = cycle_up fl (cycled fl.graph sites target) rs w.sites in
      (has_flag running (w.sites j).handle ≡ false)
      × (may_return fl w.sites j ≡ true → logged is_up j w'.log ≡ true)
unfolding cycle_down cycle_up
restart-cycles fl target ts rs sites short e calm down_ok up_ok j lt managed a =
    let inside = in_cycle fl target sites short e j a in
    let down = goes-down fl target ts sites calm down_ok j lt managed inside in
    let w = (cycle_down fl target ts sites).0 in
    (
      down,
      λ may.
          (start-result (start_plan fl false)
              (comes_up fl.graph w.sites (cycled fl.graph sites target)) w.sites rs none short e
              up_ok).1
            j lt (chosen_up fl w.sites (cycled fl.graph sites target) j inside down may),
    )
