-- ===== src/Bind.antt =====
-- Bound dependencies (supervisor/src/lib.rs, `Supervisor::apply_bind`): the nodes whose bound
-- provider does not serve are stopped in one wave, and those whose providers all serve again are
-- brought back, each as its mode asks.
pub mod Starved
pub mod Down
use embassy_supervisor.Base.{
  ℕ, ltb, if◌then◌else◌, Bool, true, false, ◌&&◌, ◌||◌, not, Option, none, some, List, [], ◌∷◌,
  ◌++◌, any, update,
}
use embassy_supervisor.Node.Flags.{running, disabled, detached, ready, bound_stopped, collateral}
use embassy_supervisor.Node.State.{Mode, terminate, pause, on_demand, Site, WriteEntry}
use embassy_supervisor.Node.Task.{
  has_flag, set_flags, clear_flags, on_handle, signal_resume, reset, set_running,
}
use embassy_supervisor.Lifecycle.{resumed, Log}
use embassy_supervisor.Stop.{
  Wave, Tick, Outcome, again, asleep_until, returned, panicked, each, backwards, run, start_wave,
}
use embassy_supervisor.Control.{Graph, Selection, is_managed, stop_plan}
use embassy_supervisor.Verbs.{Fleet}
use embassy_supervisor.Single.{Bringup, Verb, start_node}

-- The world's part in the second half: what the others did before a slot's visit, how its start
-- goes, and what `set_running` reads when it is resumed.
pub record Return : Type 0 where
  pub others : ℕ → ℕ → Site → Site
  pub bring : ℕ → Bringup
  pub tick : ℕ → ℕ
  pub writes : ℕ → List WriteEntry

-- The second half's state: `waiting` for a start that has not returned, and a request to scale.
pub record Rebind : Type 0 where
  pub sites : ℕ → Site
  pub log : Log
  pub scale : Bool
  pub waiting : Bool

pub data BindEnd : Type 0 where
  idle : BindEnd
  ends_stopping : Wave → Outcome → BindEnd
  ends_reviving : Wave → Rebind → BindEnd

abbrev pub is_serving : Site → Bool
is_serving s = has_flag running s.handle && has_flag ready s.handle

abbrev pub all_serve : (ℕ → Site) → List ℕ → Bool
all_serve sites ds = not (any (λ d. not (is_serving (sites d))) ds)

abbrev pub is_again : Outcome → Bool
is_again again = true
is_again _ = false

module _ (fl : Fleet) where
  open fl use {graph, has_pause}

  -- One of the graph's nodes that is being stopped.
  abbrev pub is_stopping : (ℕ → Bool) → ℕ → Bool
  is_stopping stopping d = ltb d graph.n && graph.occupied d && stopping d

  -- A provider of the node is down, or goes down.
  abbrev pub lacks : (ℕ → Site) → (ℕ → Bool) → ℕ → Bool
  lacks sites stopping j =
      any (λ d. not (is_serving (sites d)) || is_stopping stopping d) (graph.cfg j).bound_deps

  abbrev pub is_live : (ℕ → Site) → ℕ → Bool
  is_live sites j = is_managed graph sites j && has_flag running (sites j).handle

  unfoldable pub starve_one : (ℕ → Site) → ℕ → (ℕ → Bool) → ℕ → Bool
  starve_one sites j stopping =
      if is_live sites j then update stopping j (lacks sites stopping j) else stopping

  unfoldable pub starve : (ℕ → Site) → ℕ → Bool
  unfolding starve_one
  starve sites = each (starve_one sites) graph.order (λ _. false)

  -- The choice of one slot for the wave marks it as bound-stopped.
  unfoldable pub mark_bound : (ℕ → Bool) → ℕ → Selection → Selection
  mark_bound stopping j c =
      if graph.occupied j && stopping j
      then record {
        sites = update c.sites j (on_handle (set_flags (bound_stopped ∷ [])) (c.sites j));
        chosen = update c.chosen j true;
      }
      else c

  unfoldable pub select_bound : (ℕ → Site) → Selection
  unfolding starve mark_bound
  select_bound sites =
      each (mark_bound (starve sites)) (backwards graph.order)
        (record { sites = sites; chosen = λ _. false })

  -- A node that the second half brings back.
  unfoldable pub is_returnable : (ℕ → Site) → ℕ → Bool
  is_returnable sites j =
      graph.occupied j
      && has_flag bound_stopped (sites j).handle
      && not (has_flag disabled (sites j).handle)
      && not (has_flag collateral (sites j).handle)
      && not (has_flag detached (sites j).handle)
      && not (has_flag running (sites j).handle)
      && all_serve sites (graph.cfg j).bound_deps

  module _ (w : Return) where
    -- `start_node`; a fault is logged only.
    unfoldable pub restart_bound : ℕ → Rebind → Rebind
    unfolding start_node
    restart_bound j r =
        let v = start_node fl j (w.bring j) (r.sites j) in
        record r {
          sites = update r.sites j v.site;
          log = v.log ++ r.log;
          waiting = is_again v.outcome;
        }

    unfoldable pub resume_bound : ℕ → Rebind → Rebind
    resume_bound j r =
        if has_pause
        then record r {
          sites = update r.sites j (
              on_handle
                (λ h.
                  clear_flags (bound_stopped ∷ [])
                    (set_running (w.tick j) (w.writes j) true (signal_resume (reset h))))
                (r.sites j));
          log = (j, resumed) ∷ r.log;
        }
        else r

    -- An `OnDemand` node is left to its pool.
    unfoldable pub release_bound : ℕ → Rebind → Rebind
    release_bound j r = record r {
      sites = update r.sites j (on_handle (clear_flags (bound_stopped ∷ [])) (r.sites j));
      scale = r.scale || graph.has_pools;
    }

    abbrev pub return_as : Mode → ℕ → Rebind → Rebind
    return_as terminate = restart_bound
    return_as pause = resume_bound
    return_as on_demand = release_bound

    unfoldable pub return_one : ℕ → Rebind → Rebind
    unfolding is_returnable restart_bound resume_bound release_bound
    return_one j r₀ =
        let r = record r₀ { sites = λ k. w.others j k (r₀.sites k) } in
        if r₀.waiting
        then r₀
        else if is_returnable r.sites j
        then return_as (graph.cfg j).mode j r
        else r

    unfoldable pub return_all : (ℕ → Site) → Rebind
    unfolding return_one
    return_all sites =
        each return_one graph.order
          (record { sites = sites; log = []; scale = false; waiting = false })

    unfoldable pub after_stopping : Wave → Outcome → BindEnd
    unfolding return_all
    after_stopping v (returned none) = ends_reviving v (return_all v.sites)
    after_stopping v (returned (some f)) = ends_stopping v (returned (some f))
    after_stopping v again = ends_stopping v again
    after_stopping v (asleep_until d) = ends_stopping v (asleep_until d)
    after_stopping v panicked = ends_stopping v panicked

    -- `has_bound_deps` is the shape bit.
    unfoldable pub apply_bind : Bool → List Tick → (ℕ → Site) → BindEnd
    unfolding select_bound after_stopping
    apply_bind has_bound_deps ts sites =
        if has_bound_deps
        then (let c = select_bound sites in
            let (v, o) = run (stop_plan graph c.chosen false) ts (start_wave c.sites) in
            after_stopping v o)
        else idle
