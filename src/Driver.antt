-- ===== src/Driver.antt =====
-- The supervisor as it is driven (supervisor/src/lib.rs, `start`, `teardown`, `teardown_continue`,
-- `respawn_terminate`, `run_driver_inner`; supervisor/src/pool.rs, `drive_pools`): the verbs of a graph as
-- commands on its nodes, one behind the other. A verb runs as far as its world's part goes, since
-- the `select` of `run_driver_inner` may drop one that waits. `run_driver` has `run_binds` beside that
-- loop, which does nothing in a graph without bound dependencies; where it does something, its
-- `apply_bind` overlaps the verbs, and this file is not about that.
pub mod Pools
pub mod Verbs
pub mod Cycle
pub mod Sticks
pub mod Stopped
use embassy_supervisor.Base.{
  ℕ, ◌≡◌, ◌+◌, ltb, if◌then◌else◌, Bool, true, false, ◌&&◌, ◌||◌, not, Option, none, some, List, [],
  ◌∷◌, ◌++◌, any, update, min,
}
use embassy_supervisor.Node.Flags.{running, disabled, detached, collateral, ready}
use embassy_supervisor.Node.State.{Mode, terminate, is_on_demand, Site, WriteEntry}
use embassy_supervisor.Node.Task.{has_flag, on_handle}
use embassy_supervisor.Lifecycle.{NodeFault, Log}
use embassy_supervisor.Stop.{Wave, Tick, Outcome, again, returned, each, run, start_wave}
use embassy_supervisor.Start.{StartWave, Round, rounds, begin_start}
use embassy_supervisor.Control.{Graph, set_disabled, is_managed, stop_plan, deactivate}
use embassy_supervisor.Pool.{ElasticPool, PoolAction, no_action, start, stop, evaluate}
use embassy_supervisor.Verbs.{
  Fleet, RestartEnd, refused, ends_down, ends_up, start_plan, activate, restart,
}
use embassy_supervisor.Restart.{check_budget}
use embassy_supervisor.Bind.{is_again}
use embassy_supervisor.Single.{Bringup, AckWait, Verb, start_node, stop_node, resume_pausable}

abbrev pub is_terminate : Mode → Bool
is_terminate terminate = true
is_terminate _ = false

-- A pool's evaluation: the policy's cooldown and pending instant, what the others did before it, and
-- how the verb that it leads to goes.
pub record PoolVisit : Type 0 where
  pub pool : ElasticPool
  pub cooldown : ℕ
  pub pending : Option ℕ
  pub others : ℕ → Site → Site
  pub bring : Bringup
  pub ack : AckWait

-- The pass over the pools: the earliest deferred shrink, the fault that ends it, and whether a verb
-- still waits.
pub record Driven : Type 0 where
  pub sites : ℕ → Site
  pub log : Log
  pub next : Option ℕ
  pub failed : Option NodeFault
  pub waiting : Bool

abbrev pub fault_in : Outcome → Option NodeFault
fault_in (returned (some f)) = some f
fault_in _ = none

-- `next.map_or(d, |c| c.min(d))`, where the policy defers a shrink.
abbrev pub soonest : Option ℕ → Option ℕ → Option ℕ
soonest c none = c
soonest none (some d) = some d
soonest (some c) (some d) = some (min c d)

abbrev pub is_done : Driven → Bool
is_done r = r.waiting || elim r.failed [ none ↦ false | some f ↦ true ]

-- One verb of the application or of the driver, with its world's part.
pub data Command : Type 0 where
  starts : (refusing : ℕ → Bool) → List Round → Command
  tears_down : (keep_going : Bool) → List Tick → Command
  respawns : List Round → Command
  resumes_all : (tick : ℕ → ℕ) → (writes : ℕ → List WriteEntry) → Command
  activates : (target : ℕ) → List Round → Command
  deactivates : (target : ℕ) → List Tick → Command
  restarts : (target now : ℕ) → List Tick → List Round → Command
  drives : (now : ℕ) → List PoolVisit → Command
  elapses : (change : ℕ → Site → Site) → Command

-- No node has a bound dependency, so that `run_binds` does nothing beside the verbs.
abbrev pub IsUnbound : Fleet → Type 0
IsUnbound fl = (j : ℕ) → (fl.graph.cfg j).bound_deps ≡ []

module _ (fl : Fleet) where
  open fl use {graph}

  -- `enabled_if:` latches a node that is down; `refusing` are those whose clause answers no.
  unfoldable pub latch_disabled : (ℕ → Bool) → (ℕ → Site) → ℕ → Site
  latch_disabled refusing sites j =
      if ltb j graph.n
        && is_managed graph sites j
        && refusing j
        && not (has_flag running (sites j).handle)
      then on_handle (set_disabled true) (sites j)
      else sites j

  abbrev pub may_come_up : (ℕ → Site) → ℕ → Bool
  may_come_up sites j =
      is_managed graph sites j
      && not (has_flag disabled (sites j).handle)
      && not (has_flag collateral (sites j).handle)
      && not (has_flag running (sites j).handle)

  unfoldable pub is_started : (ℕ → Site) → ℕ → Bool
  is_started sites j =
      not (graph.has_on_demand && is_on_demand (graph.cfg j).mode) && may_come_up sites j

  unfoldable pub start_all : (ℕ → Bool) → List Round → (ℕ → Site) → StartWave × Outcome
  unfolding latch_disabled is_started
  start_all refusing rs sites =
      let sites' = latch_disabled refusing sites in
      rounds (start_plan fl false) rs (begin_start (is_started sites') sites')

  unfoldable pub is_torn : (ℕ → Site) → ℕ → Bool
  is_torn sites j = is_managed graph sites j && has_flag running (sites j).handle

  -- `teardown` ends at the first fault, `teardown_continue` does not.
  unfoldable pub teardown : Bool → List Tick → (ℕ → Site) → Wave × Outcome
  unfolding is_torn
  teardown keep_going ts sites =
      run (stop_plan graph (is_torn sites) keep_going) ts (start_wave sites)

  unfoldable pub is_respawned : (ℕ → Site) → ℕ → Bool
  is_respawned sites j = is_terminate (graph.cfg j).mode && may_come_up sites j

  unfoldable pub respawn_terminate : List Round → (ℕ → Site) → StartWave × Outcome
  unfolding is_respawned
  respawn_terminate rs sites =
      rounds (start_plan fl false) rs (begin_start (is_respawned sites) sites)

  unfoldable pub deps_running : (ℕ → Site) → ℕ → Bool
  deps_running sites m =
      (ltb m graph.n && graph.occupied m)
      && not (any (λ d. not (graph.occupied d && has_flag running (sites d).handle)) (graph.deps m))

  abbrev pub ready_deps_ok : (ℕ → Site) → ℕ → Bool
  ready_deps_ok sites m =
      not (any (λ d. not (has_flag ready (sites d).handle)) (graph.cfg m).ready_deps)

  -- A fault of a start is dropped; one of a stop ends the pass.
  unfoldable pub apply_action : PoolVisit → PoolAction → Driven → Driven
  unfolding deps_running start_node stop_node
  apply_action v no_action r = r
  apply_action v (start m) r =
      let verb = start_node fl m v.bring (r.sites m) in
      if deps_running r.sites m && ready_deps_ok r.sites m
      then record r {
        sites = update r.sites m verb.site;
        log = verb.log ++ r.log;
        waiting = is_again verb.outcome;
      }
      else r
  apply_action v (stop m) r =
      let verb = stop_node fl m v.ack (r.sites m) in
      record r {
        sites = update r.sites m verb.site;
        log = verb.log ++ r.log;
        failed = fault_in verb.outcome;
        waiting = is_again verb.outcome;
      }

  unfoldable pub visit_pool : ℕ → PoolVisit → Driven → Driven
  unfolding apply_action
  visit_pool now v r₀ =
      let r = record r₀ { sites = λ k. v.others k (r₀.sites k) } in
      let (pending', action) =
        evaluate graph.cfg (λ j. (r.sites j).handle) v.cooldown v.pool now v.pending in
      let r' = apply_action v action r in
      if is_done r₀
      then r₀
      else if is_done r'
      then r'
      else record r' { next = soonest r'.next pending' }

  unfoldable pub visit_pools : ℕ → List PoolVisit → Driven → Driven
  unfolding visit_pool
  visit_pools now [] r = r
  visit_pools now (v ∷ vs) r = visit_pools now vs (visit_pool now v r)

  unfoldable pub drive_pools : ℕ → List PoolVisit → (ℕ → Site) → Driven
  unfolding visit_pools
  drive_pools now vs sites =
      visit_pools now vs
        (record { sites = sites; log = []; next = none; failed = none; waiting = false })

  -- A refused restart has counted nothing: `count_restart` leaves the handle as it was.
  abbrev pub restart_sites : (ℕ → Site) → RestartEnd → ℕ → Site
  restart_sites sites (refused f) = sites
  restart_sites sites (ends_down v o) = v.sites
  restart_sites sites (ends_up v w o scales) = w.sites

  unfoldable pub exec : Command → (ℕ → Site) → ℕ → Site
  unfolding start_all teardown respawn_terminate resume_pausable activate deactivate restart
      drive_pools
  exec (starts refusing rs) sites = (start_all refusing rs sites).0.sites
  exec (tears_down keep_going ts) sites = (teardown keep_going ts sites).0.sites
  exec (respawns rs) sites = (respawn_terminate rs sites).0.sites
  exec (resumes_all tick writes) sites = (resume_pausable fl tick writes sites).sites
  exec (activates target rs) sites = (activate fl target rs sites).0.sites
  exec (deactivates target ts) sites = (deactivate graph target ts sites).0.sites
  exec (restarts target now ts rs) sites = restart_sites sites (restart fl target now ts rs sites)
  exec (drives now vs) sites = (drive_pools now vs sites).sites
  exec (elapses change) sites = λ k. change k (sites k)

  unfoldable pub exec_all : List Command → (ℕ → Site) → ℕ → Site
  unfolding exec
  exec_all [] sites = sites
  exec_all (c ∷ cs) sites = exec_all cs (exec c sites)
