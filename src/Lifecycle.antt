-- ===== src/Lifecycle.antt =====
-- Lifecycle transitions and faults (supervisor/src/lib.rs, `Transition`, `FaultKind`). The waves
-- and the verbs keep a log of what they note, newest first; Events is what becomes of a note.
pub mod Crumb
pub mod Events
use embassy_supervisor.Base.{
  ℕ, ◌==◌, if◌then◌else◌, Bool, true, false, ◌&&◌, ◌||◌, List, [], ◌∷◌, Option, none, some,
}
use embassy_supervisor.Node.Flags.{completed}
use embassy_supervisor.Node.State.{TaskHandle}
use embassy_supervisor.Node.Task.{has_flag}

-- What embassy's executor answers to a spawn that it refuses.
pub data SpawnError : Type 0 where
  busy : SpawnError

pub data FaultKind : Type 0 where
  ready_dep_timeout : ℕ → FaultKind
  resource_missing executor_slot_empty shutdown_timeout restart_storm : FaultKind
  spawn_refused : SpawnError → FaultKind

pub record NodeFault : Type 0 where
  pub node : ℕ
  pub kind : FaultKind

pub data Transition : Type 0 where
  spawning started resumed stop_requested stopped exited : Transition
  faulted : FaultKind → Transition

abbrev pub Log : Type 0
Log = List (ℕ × Transition)

unfoldable pub acked : TaskHandle → Transition
acked h = if has_flag completed h then exited else stopped

abbrev pub is_ack : Transition → Bool
is_ack stopped = true
is_ack exited = true
is_ack _ = false

abbrev pub is_fault : Transition → Bool
is_fault (faulted k) = true
is_fault _ = false

-- Was such a transition noted for the slot?
abbrev pub noted : (Transition → Bool) → ℕ → Log → Bool
noted p k [] = false
noted p k ((j, t) ∷ log) = ((j == k) && p t) || noted p k log
