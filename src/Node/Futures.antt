-- ===== src/Node/Futures.antt =====
-- The futures that drive a task's body (supervisor/src/lib.rs, `RunCancellable`, `RunPausable` and
-- `Injected`), as functions of one poll. What the worker's own poll answers is the world's
-- part; a race is given the node as that poll left it.
pub mod Looks
use embassy_supervisor.Base.{
  ℕ, ◌+◌, ltb, ◌==◌, if◌then◌else◌, Bool, true, false, ◌&&◌, not, Option, none, some, List, [], ◌∷◌,
}
use embassy_supervisor.Node.Flags.{shutdown}
use embassy_supervisor.Node.Faults.{Duration, Fault, healthy, stall, wedge, crash, hog}
use embassy_supervisor.Node.State.{NodeCfg, TaskHandle, Site}
use embassy_supervisor.Node.Task.{
  has_flag, on_handle, current_fault, poll_shutdown, Interference, Gaps, ack_dropped,
}

-- `Poll`: `Ready(Ok)`, `Ready(Err(Aborted))`, `Ready(Err(Resumed))` or `Pending`.
pub data Race (Out : Type 0) : Type 0 where
  finished : Out → Race Out
  aborted unparked pending : Race Out

-- `RunPausable`: whether it holds the worker, and whether it is parked.
pub record Pausable : Type 0 where
  pub has_worker : Bool
  pub parked : Bool

-- `HOG_GRACE`, in milliseconds.
abbrev pub hog_grace : ℕ
hog_grace = 250

pub record Hog : Type 0 where
  pub grace_end : ℕ
  pub bound : Duration

pub record Injected : Type 0 where
  pub has_inner : Bool
  pub hogging : Option Hog

-- The answer of `Injected`: a crash is `Ready(None)`.
pub data Outer (Out : Type 0) : Type 0 where
  done : Out → Outer Out
  crashed waits : Outer Out

-- `compare_exchange(code, 0)` on the fault word.
abbrev pub clear_code : ℕ → TaskHandle → TaskHandle
clear_code code h = record h { fault = if h.fault == code then 0 else h.fault }

-- What a look at the fault leads to: another look, an answer, or the worker's poll.
pub data Look : Type 0 where
  again pends falls : Look
  polls : Look

module _ {Out : Type 0} where
  -- Whether the future still holds the worker, the node, and the answer.
  unfoldable pub race_shutdown : Bool → Gaps → NodeCfg → Bool → Site → Bool × Site × Race Out
  unfolding poll_shutdown ack_dropped
  race_shutdown ack g cfg has_worker s =
      let (h, asked) = poll_shutdown s.handle in
      let s' = record s { handle = h } in
      if asked
      then (false, if ack then ack_dropped g cfg s' else s', aborted)
      else (has_worker, s', pending)

  -- A poll of `RunCancellable`: the worker first.
  unfoldable pub poll_cancellable :
      Bool → Gaps → NodeCfg → Option Out → Bool → Site → Bool × Site × Race Out
  unfolding race_shutdown
  poll_cancellable ack g cfg none has_worker s = race_shutdown ack g cfg has_worker s
  poll_cancellable ack g cfg (some out) has_worker s =
      if has_worker then (has_worker, s, finished out) else race_shutdown ack g cfg has_worker s

  unfoldable pub poll_resume : Pausable → Site → Pausable × Site × Race Out
  poll_resume f s = (
    f,
    on_handle (λ h. record h { resume_wake = false }) s,
    if s.handle.resume_wake then unparked else pending,
  )

  -- The abort falls through to the resume in the same poll.
  unfoldable pub park : Gaps → NodeCfg → Pausable → Site → Pausable × Site × Race Out
  unfolding poll_shutdown ack_dropped poll_resume
  park g cfg f s =
      let (h, asked) = poll_shutdown s.handle in
      let s' = record s { handle = h } in
      if asked
      then poll_resume (record { has_worker = false; parked = true }) (ack_dropped g cfg s')
      else (f, s', pending)

  unfoldable pub poll_pausable :
      Gaps → NodeCfg → Option Out → Pausable → Site → Pausable × Site × Race Out
  unfolding poll_resume park
  poll_pausable g cfg answer f s = if f.parked then poll_resume f s else elim answer [
    | none ↦ park g cfg f s
    | some out ↦ if f.has_worker then (f, s, finished out) else park g cfg f s
  ]

module _ {Out : Type 0} where
  -- The worker's poll; a future that has none waits.
  unfoldable pub poll_inner : Option Out → Injected → Site → Injected × Site × Outer Out
  poll_inner none f s = (f, s, waits)
  poll_inner (some out) f s =
      if f.has_inner then (record f { has_inner = false }, s, done out) else (f, s, waits)

-- Whether two durations come to as many ticks is a parameter.
module _ (same : Duration → Duration → Bool) where
  -- The hog that a poll at `now` works on: a new grace period where there was none with this bound.
  unfoldable pub grace : ℕ → Duration → Option Hog → Hog
  grace now bound none = record { grace_end = now + hog_grace; bound = bound }
  grace now bound (some h) =
      if same h.bound bound then h else record { grace_end = now + hog_grace; bound = bound }

  -- One turn of the loop with the fault that it read, at the time `now`.
  unfoldable pub look_at : Fault → ℕ → Injected → Site → Injected × Site × Look
  unfolding grace
  look_at stall now f s = if has_flag shutdown s.handle then (f, s, polls) else (
    f,
    on_handle (λ h. record h { shutdown_wake = false }) s,
    if s.handle.shutdown_wake then again else pends,
  )
  look_at crash now f s = (record f { has_inner = false }, on_handle (clear_code 3) s, falls)
  look_at (hog d) now f s =
      let g = grace now d f.hogging in
      if ltb now g.grace_end
      then (record f { hogging = some g }, s, pends)
      else (record f { hogging = none }, on_handle (clear_code 4) s, polls)
  look_at healthy now f s = (f, s, polls)
  look_at wedge now f s = (f, s, polls)

  unfoldable pub look : ℕ → Injected → Site → Injected × Site × Look
  unfolding look_at current_fault
  look now f s = look_at (current_fault s.handle) now f s

  module _ {Out : Type 0} where
    -- A poll of `Injected`, with what others did before each look; `none` while it loops.
    unfoldable pub poll_injected :
        List Interference → ℕ → Option Out → Injected → Site → Option (Injected × Site × Outer Out)
    unfolding look poll_inner
    poll_injected [] now answer f s = none
    poll_injected (change ∷ rest) now answer f s =
        let (f', s', l) = look now f (change s) in
        let later = poll_injected rest now answer f' s' in
        elim l [
          | again ↦ later
          | pends ↦ some (f', s', waits)
          | falls ↦ some (f', s', crashed)
          | polls ↦ some (poll_inner answer f' s')
        ]
