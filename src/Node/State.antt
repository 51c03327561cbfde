-- ===== src/Node/State.antt =====
-- The state of one node and of the latches that all nodes share (supervisor/src/lib.rs,
-- `TaskHandle`, `NodeCfg`, and the `static` signals). A `Signal` is a latch: `signal` sets it,
-- `reset` and a completed wait clear it.
use embassy_supervisor.Base.{ℕ, Bool, true, false, Option, none, List}
use embassy_supervisor.Node.Flags.{Flags, disabled}

pub data Mode : Type 0 where
  terminate pause on_demand : Mode

abbrev pub is_pause : Mode → Bool
is_pause pause = true
is_pause _ = false

abbrev pub is_on_demand : Mode → Bool
is_on_demand on_demand = true
is_on_demand _ = false

-- The declaration of a node. `slot_timeout` and `ack_timeout` are in milliseconds, the beat and
-- restart times in ticks, and deps are slots of the graph. Spawning and gates are left to the waves.
pub record NodeCfg : Type 0 where
  pub mode : Mode
  pub shelled : Bool
  pub ready_deps : List ℕ
  pub bound_deps : List ℕ
  pub slot_timeout : ℕ
  pub ack_timeout : ℕ
  pub beat_timeout : Option ℕ
  pub beat_window : ℕ
  pub ready_on_write : Bool
  pub restart_budget : Option (ℕ × ℕ)

pub record TaskHandle : Type 0 where
  pub flags : Flags
  pub shutdown_wake : Bool
  pub dropped_wake : Bool
  pub resume_wake : Bool
  pub ready_wake : Bool
  pub last_beat : ℕ
  pub epoch : ℕ
  pub epoch_wake : Bool
  pub stale_strikes : ℕ
  pub write_mark : ℕ
  pub pending_beat : Bool
  pub status : Option ℕ  -- the address of the text
  pub fault : ℕ
  pub hog_ms : ℕ
  pub fault_waker : Bool
  pub restarts : ℕ
  pub restart_window_start : ℕ

unfoldable pub new_handle : Bool → TaskHandle
new_handle disabled_at_boot = record {
  flags = λ b. elim b [ disabled ↦ disabled_at_boot | _ ↦ false ];
  shutdown_wake = false;
  dropped_wake = false;
  resume_wake = false;
  ready_wake = false;
  last_beat = 0;
  epoch = 0;
  epoch_wake = false;
  stale_strikes = 0;
  write_mark = 0;
  pending_beat = false;
  status = none;
  fault = 0;
  hog_ms = 0;
  fault_waker = false;
  restarts = 0;
  restart_window_start = 0;
}

-- `GATE_EVT`, `STOP_EVT`, `BIND_REQ`, `SCALE_REQ` and the serving notification of `data_deps`.
pub record Events : Type 0 where
  pub gate_evt : Bool
  pub stop_evt : Bool
  pub bind_req : Bool
  pub scale_req : Bool
  pub serving : Bool

-- A share of a divisible resource: the claimant slot's two words.
pub record Claim : Type 0 where
  pub want : ℕ
  pub grant : ℕ

-- A node with what its methods touch: the latches, which of its `provides:` slots are filled, and
-- the shares that it holds.
pub record Site : Type 0 where
  pub handle : TaskHandle
  pub events : Events
  pub provided : List Bool
  pub claims : List Claim

-- A declared write: whether it feeds the beat, and the observer's counter if it has one.
pub record WriteEntry : Type 0 where
  pub beats : Bool
  pub observed : Option ℕ
