-- ===== src/Driver/Stopped.antt =====
-- What an operator's stop leaves behind: the stop wave, then whatever the driver does.
use embassy_supervisor.Base.{
  ℕ, ◌<◌, ◌≡◌, ap, ◌∙◌, ◌==◌, Bool, true, false, none, List, [], ◌∷◌, arith, inl, inr, Bool-cases,
  contains, count_pos-contains,
}
use embassy_supervisor.Node.Flags.{disabled}
use embassy_supervisor.Node.State.{Site}
use embassy_supervisor.Node.Task.{has_flag, signal_shutdown, set_running}
use embassy_supervisor.Topology.{topo_sort_const, sorted}
use embassy_supervisor.Topology.Order.{HasShortRows, topo_sort-IsOrdered}
use embassy_supervisor.Stop.{
  Plan, Wave, returned, each, backwards, signal_one, collect_one, check_one, expire, Tick,
  start_wave,
}
use embassy_supervisor.Stop.Rule.{AllTicks, Keeps, each-inv, run_inv}
use embassy_supervisor.Stop.Progress.{contains-backwards}
use embassy_supervisor.Stop.Unchosen.{TickKeeps}
use embassy_supervisor.Stop.Down.{IsCalm}
use embassy_supervisor.Control.{
  Graph, Selection, is_managed, seed, collect_dependents, mark_down, select_down, stop_plan,
  deactivate,
}
use embassy_supervisor.Control.Closure.{seeded, collect_dependents-Affected}
use embassy_supervisor.Control.Down.{deactivate-down}
use embassy_supervisor.Verbs.{Fleet}
use embassy_supervisor.Driver.{Command, deactivates, IsUnbound, exec, exec_all}
use embassy_supervisor.Driver.Verbs.{IsHeld}
use embassy_supervisor.Driver.Sticks.{AllSpare, exec_all-IsHeld}

abbrev pub IsLatched : Site → Type 0
IsLatched s = has_flag disabled s.handle ≡ true

-- No step of a stop wave enables a node.
module _ (p : Plan) (k : ℕ) where
  same_latch :
      (j : ℕ) (w : Wave)
      → IsLatched (w.sites k)
      → j ≡ k
      → has_flag disabled (w.sites j).handle ≡ true
  same_latch j w h e = ap (λ (i : ℕ). has_flag disabled (w.sites i).handle) e ∙ h

  IsLatched-keeps : Keeps p (λ w. IsLatched (w.sites k)) (TickKeeps IsLatched k)
  unfolding signal_one signal_shutdown collect_one set_running check_one expire
  IsLatched-keeps = record {
    signal = λ clock j w h. ground (arith, h, same_latch j w h);
    change = λ t w calm h. calm (w.sites k) h;
    collect = λ j w h. ground (arith, h, same_latch j w h);
    check = λ now j w h. ground (arith, h, same_latch j w h);
  }

module _ (g : Graph) (seeds set : ℕ → Bool) (k : ℕ) (own : seeds k ≡ true)
    (inside : set k ≡ true) where
  mark-IsLatched :
      (x : ℕ) (c : Selection)
      → IsLatched (c.sites k)
      → IsLatched ((mark_down g seeds set x c).sites k)
  unfolding mark_down
  mark-IsLatched x c h = ground (arith, h, own, inside)

  mark-is_managed :
      (x : ℕ) (c : Selection)
      → is_managed g c.sites k ≡ true
      → is_managed g (mark_down g seeds set x c).sites k ≡ true
  unfolding mark_down
  mark-is_managed x c h = ground (arith, h)

  mark_here :
      (x : ℕ) (c : Selection)
      → (x == k) ≡ true
      → is_managed g c.sites k ≡ true
      → IsLatched ((mark_down g seeds set x c).sites k)
  unfolding mark_down
  mark_here x c e h = ground (arith, e, h, own, inside)

  walk-IsLatched :
      (xs : List ℕ) (c : Selection)
      → contains k xs ≡ true
      → is_managed g c.sites k ≡ true
      → IsLatched ((each (mark_down g seeds set) xs c).sites k)
  unfolding each
  walk-IsLatched [] c within h = absurd (ground (arith, within))
  walk-IsLatched (x ∷ xs) c within h = elim (Bool-cases (x == k)) [
    | inl e ↦
        each-inv (λ (b : Selection). IsLatched (b.sites k)) (mark_down g seeds set) mark-IsLatched
          xs _ (mark_here x c e h)
    | inr e ↦ walk-IsLatched xs _ (ground (arith, within, e)) (mark-is_managed x c h)
  ]

module _ (fl : Fleet) (target : ℕ) (ts : List Tick) (sites : ℕ → Site)
    (short : HasShortRows fl.graph.n fl.graph.deps)
    (e : topo_sort_const fl.graph.n fl.graph.deps ≡ sorted fl.graph.order) where
  open fl use {graph}

  -- A seed is disabled behind the choice, and nothing in the wave enables it.
  deactivate-IsLatched :
      (k : ℕ)
      → k < graph.n
      → AllTicks (TickKeeps IsLatched k) ts
      → is_managed graph sites k ≡ true
      → seed graph target k ≡ true
      → IsLatched ((deactivate graph target ts sites).0.sites k)
  unfolding deactivate select_down start_wave
  deactivate-IsLatched k lt kept managed own =
      let seeds = seed graph target in
      let set = collect_dependents graph sites seeds in
      let c = select_down graph seeds set sites in
      let (counts, _) = topo_sort-IsOrdered graph.n graph.deps graph.order short e in
      let placed =
        contains-backwards k graph.order
        ∙ count_pos-contains k graph.order (ground (arith, counts k, lt)) in
      let inside = (collect_dependents-Affected graph sites seeds short e k).1 (seeded k own) in
      let p = stop_plan graph c.chosen false in
      run_inv p (IsLatched-keeps p k) ts (start_wave c.sites) kept
        (walk-IsLatched graph seeds set k own inside (backwards graph.order) _ placed managed)

-- The order is the one that `topo_sort_const` returned, the graph has no bound dependency, and the
-- verbs are called one behind the other, as `run_driver_inner` calls them. A managed node of the
-- graph is the target of a deactivation or in its pool; nobody marks a node running in the wave, nor
-- enables this one; and the wave returns without a fault. Then the node is down and disabled, and it
-- stays so through any sequence of verbs behind it, as long as none is an activation that needs it,
-- and the node's task and whoever else acts on it meanwhile keep it so.
pub deactivate-Sticks :
    (fl : Fleet) (target k : ℕ) (ts : List Tick) (cs : List Command) (sites : ℕ → Site)
    → IsUnbound fl
    → HasShortRows fl.graph.n fl.graph.deps
    → topo_sort_const fl.graph.n fl.graph.deps ≡ sorted fl.graph.order
    → AllTicks IsCalm ts
    → AllTicks (TickKeeps IsLatched k) ts
    → (deactivate fl.graph target ts sites).1 ≡ returned none
    → k < fl.graph.n
    → is_managed fl.graph sites k ≡ true
    → seed fl.graph target k ≡ true
    → AllSpare fl k cs (deactivate fl.graph target ts sites).0.sites
    → IsHeld (exec_all fl (deactivates target ts ∷ cs) sites k)
unfolding exec_all exec
deactivate-Sticks fl target k ts cs sites unbound short e calm kept ok lt managed own spare =
    exec_all-IsHeld fl k cs (deactivate fl.graph target ts sites).0.sites unbound spare (record {
      down = deactivate-down fl.graph target ts sites short e calm ok k lt managed (seeded k own);
      latched = deactivate-IsLatched fl target ts sites short e k lt kept managed own;
    })
