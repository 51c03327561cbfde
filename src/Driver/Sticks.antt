-- ===== src/Driver/Sticks.antt =====
-- A held node through a sequence of verbs.
use embassy_supervisor.Base.{ℕ, ◌≡◌, false, List, [], ◌∷◌}
use embassy_supervisor.Node.State.{Site}
use embassy_supervisor.Control.{needed}
use embassy_supervisor.Verbs.{Fleet}
use embassy_supervisor.Driver.{
  Command, starts, tears_down, respawns, resumes_all, activates, deactivates, restarts, drives,
  elapses, exec, exec_all, IsUnbound,
}
use embassy_supervisor.Driver.Verbs.{
  IsHeld, CalmTicks, CalmRounds, start_all-IsHeld, teardown-IsHeld, respawn-IsHeld,
  resume_pausable-IsHeld, deactivate-IsHeld,
}
use embassy_supervisor.Driver.Cycle.{activate-IsHeld, restart-IsHeld}
use embassy_supervisor.Driver.Pools.{CalmVisits, drive_pools-IsHeld}

module _ (fl : Fleet) (k : ℕ) where
  open fl use {graph}

  -- The command is no activation of a node that needs this one, and its task does not mark it
  -- running or enable it meanwhile.
  abbrev pub Spares : Command → (ℕ → Site) → Type 0
  Spares (starts refusing rs) sites = CalmRounds fl k rs
  Spares (tears_down keep_going ts) sites = CalmTicks fl k ts
  Spares (respawns rs) sites = CalmRounds fl k rs
  Spares (resumes_all tick writes) sites = Unit
  Spares (activates target rs) sites = (needed graph sites target k ≡ false) × CalmRounds fl k rs
  Spares (deactivates target ts) sites = CalmTicks fl k ts
  Spares (restarts target now ts rs) sites = CalmTicks fl k ts × CalmRounds fl k rs
  Spares (drives now vs) sites = CalmVisits fl k vs
  Spares (elapses change) sites = (s : Site) → IsHeld s → IsHeld (change k s)

  exec-IsHeld :
      (c : Command) (sites : ℕ → Site)
      → Spares c sites
      → IsHeld (sites k)
      → IsHeld (exec fl c sites k)
  unfolding exec
  exec-IsHeld (starts refusing rs) sites calm h = start_all-IsHeld fl k refusing rs sites calm h
  exec-IsHeld (tears_down keep_going ts) sites calm h =
      teardown-IsHeld fl k keep_going ts sites calm h
  exec-IsHeld (respawns rs) sites calm h = respawn-IsHeld fl k rs sites calm h
  exec-IsHeld (resumes_all tick writes) sites calm h =
      resume_pausable-IsHeld fl k tick writes sites h
  exec-IsHeld (activates target rs) sites (out, calm) h =
      activate-IsHeld fl k target rs sites out calm h
  exec-IsHeld (deactivates target ts) sites calm h = deactivate-IsHeld fl k target ts sites calm h
  exec-IsHeld (restarts target now ts rs) sites (calm, calm') h =
      restart-IsHeld fl k target now ts rs sites calm calm' h
  exec-IsHeld (drives now vs) sites calm h = drive_pools-IsHeld fl k now vs sites calm h
  exec-IsHeld (elapses change) sites calm h = calm (sites k) h

  -- Each command spares the node, in the state that it meets.
  abbrev pub AllSpare : List Command → (ℕ → Site) → Type 0
  AllSpare [] sites = Unit
  AllSpare (c ∷ cs) sites = Spares c sites × AllSpare cs (exec fl c sites)

  held_all :
      (cs : List Command) (sites : ℕ → Site)
      → AllSpare cs sites
      → IsHeld (sites k)
      → IsHeld (exec_all fl cs sites k)
  unfolding exec_all
  held_all [] sites spare h = h
  held_all (c ∷ cs) sites spare h =
      held_all cs (exec fl c sites) spare.1 (exec-IsHeld c sites spare.0 h)

  -- The graph has no bound dependency, and the verbs are called one behind the other, as
  -- `run_driver_inner` calls them. Then a node that is down and disabled stays so through any
  -- sequence of starts and teardowns of the graph, respawns, resumes, pool passes, stops and restarts
  -- of other nodes or of this one, and activations that do not need it; each verb may be dropped
  -- where it waits. The node's task, and whoever else acts on it meanwhile, keep it down and disabled.
  pub exec_all-IsHeld :
      (cs : List Command) (sites : ℕ → Site)
      → IsUnbound fl
      → AllSpare cs sites
      → IsHeld (sites k)
      → IsHeld (exec_all fl cs sites k)
  exec_all-IsHeld cs sites unbound spare h = held_all cs sites spare h
