-- ===== src/Restart.antt =====
-- The restart budget and the choice of a restart (supervisor/src/lib.rs, `Supervisor::restart`).
pub mod Window
use embassy_supervisor.Base.{
  ℕ, ◌+◌, ◌-◌, ◌%◌, ◌^◌, min, ltb, leb, ◌==◌, if◌then◌else◌, Bool, true, false, ◌&&◌, ◌||◌, not,
  Option, none, some, List, [], ◌∷◌,
}
use embassy_supervisor.Node.Flags.{running, disabled, collateral}
use embassy_supervisor.Node.State.{is_on_demand, NodeCfg, TaskHandle, Site}
use embassy_supervisor.Node.Task.{has_flag}
use embassy_supervisor.Control.{Graph, is_managed, seed, collect_dependents}

-- `window.as_ticks().min(u32::MAX / 2)`.
abbrev pub window_ticks : ℕ → ℕ
window_ticks window = min window 2147483647

-- The budget's check at the tick `now`: the handle, and whether the restart may go on.
unfoldable pub count_restart : ℕ → ℕ → ℕ → TaskHandle → TaskHandle × Bool
count_restart max_restarts window now h =
    if (h.restarts == 0)
      || ltb (window_ticks window) ((now % 2 ^ 32 + 2 ^ 32 - h.restart_window_start) % 2 ^ 32)
    then (record h { restart_window_start = now % 2 ^ 32; restarts = 1 }, true)
    else if leb max_restarts h.restarts
    then (h, false)
    else (record h { restarts = h.restarts + 1 }, true)

unfoldable pub check_budget : NodeCfg → ℕ → TaskHandle → TaskHandle × Bool
unfolding count_restart
check_budget cfg now h = elim cfg.restart_budget [
  | none ↦ (h, true)
  | some (max_restarts, window) ↦ count_restart max_restarts window now h
]

module _ (g : Graph) where
  -- What a restart cycles, and which of it is chosen for the way down and for the way up.
  unfoldable pub cycled : (ℕ → Site) → ℕ → ℕ → Bool
  cycled sites target = collect_dependents g sites (seed g target)

  unfoldable pub goes_down : (ℕ → Site) → (ℕ → Bool) → ℕ → Bool
  goes_down sites set j = set j && is_managed g sites j && has_flag running (sites j).handle

  unfoldable pub comes_up : (ℕ → Site) → (ℕ → Bool) → ℕ → Bool
  comes_up sites set j =
      set j
      && is_managed g sites j
      && not (has_flag disabled (sites j).handle)
      && not (has_flag collateral (sites j).handle)
      && not (has_flag running (sites j).handle)
      && not (g.has_on_demand && is_on_demand (g.cfg j).mode)
