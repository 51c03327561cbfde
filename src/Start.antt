-- ===== src/Start.antt =====
-- The start wave (supervisor/src/lib.rs, `Supervisor::start_nodes`): every chosen node is started
-- once its chosen dependencies are resolved and its gates are open, or faulted when its gates stay
-- closed for longer than its slot timeout. The wave runs against a list of rounds: one for each
-- turn of its loop, with the clock's readings, the gates and the executors' answers. Resource gates
-- and spawner slots are those readings.
pub mod Rule
pub mod Order
pub mod Progress
mod Handled
pub mod Result
pub mod Unchosen
use embassy_supervisor.Base.{
  ℕ, ◌+◌, ◌-◌, min, ltb, leb, ◌==◌, if◌then◌else◌, Bool, true, false, ◌&&◌, ◌||◌, not, Option, none,
  some, List, [], ◌∷◌, any, contains, update,
}
use embassy_supervisor.Node.Flags.{ready, bound_stopped}
use embassy_supervisor.Node.State.{is_pause, NodeCfg, TaskHandle, Site, WriteEntry}
use embassy_supervisor.Node.Task.{
  has_flag, set_flags, clear_flags, on_handle, reset, signal_resume, set_running, has_acked_stop,
  is_settled,
}
use embassy_supervisor.Lifecycle.{
  SpawnError, busy, FaultKind, executor_slot_empty, resource_missing, ready_dep_timeout,
  spawn_refused, NodeFault, Transition, spawning, started, resumed, faulted,
}
use embassy_supervisor.Stop.{
  Outcome, again, asleep_until, returned, panicked, goes_on, each, unsignaled, stamp,
}

-- `self_spawned` nodes have a spawn function, `slotted` ones an executor slot.
pub record StartPlan : Type 0 where
  pub n : ℕ
  pub deps : ℕ → List ℕ
  pub order : List ℕ
  pub cfg : ℕ → NodeCfg
  pub self_spawned : ℕ → Bool
  pub slotted : ℕ → Bool
  pub has_pause : Bool
  pub has_exec_slots : Bool
  pub has_resources : Bool
  pub has_ready_deps : Bool
  pub keep_going : Bool

-- A note, or the line that a node is parked for a bound dependency.
pub data Entry : Type 0 where
  note : Transition → Entry
  parking : Entry

pub record StartWave : Type 0 where
  pub sites : ℕ → Site
  pub pending : ℕ → Bool
  pub armed : ℕ → ℕ
  pub first_err : Option NodeFault
  pub progress : Bool
  pub waiting : Bool
  pub own_pass : Bool
  pub passes : List ℕ  -- the slots whose executor was asked for a pass
  pub failed : Option NodeFault
  pub log : List (ℕ × Entry)

-- One round's view of the world: what tasks did to a node before its visit, the clock when a node
-- is armed and when its window is checked, its gates, and what its executor answers to a spawn.
pub record Round : Type 0 where
  pub change : ℕ → Site → Site
  pub arm_ms : ℕ → ℕ
  pub check_ms : ℕ → ℕ
  pub tick : ℕ → ℕ
  pub writes : ℕ → List WriteEntry
  pub is_slot_empty : ℕ → Bool
  pub misses_resource : ℕ → Bool
  pub refuses : ℕ → Option SpawnError

pub data Gate : Type 0 where
  open_gate parks : Gate
  closed : FaultKind → Gate

abbrev pub first_error : Option NodeFault → NodeFault → Option NodeFault
first_error none f = some f
first_error (some e) f = some e

abbrev pub sooner : Option ℕ → ℕ → ℕ
sooner none t = t
sooner (some d) t = min d t

module _ (p : StartPlan) where
  open p use {
    n, deps, order, cfg, self_spawned, slotted, has_pause, has_exec_slots, has_resources,
    has_ready_deps, keep_going,
  }

  module _ (r : Round) where
    open r use {change, arm_ms, check_ms, tick, writes, is_slot_empty, misses_resource, refuses}

    -- The node is resolved, with the entry in the log and the site as given.
    unfoldable pub resolve : ℕ → Entry → Site → StartWave → StartWave
    resolve j e s w = record w {
      sites = update w.sites j s;
      pending = update w.pending j false;
      progress = true;
      log = (j, e) ∷ w.log;
    }

    abbrev pub run_now : ℕ → TaskHandle → TaskHandle
    run_now j h = set_running (tick j) (writes j) true h

    abbrev pub unbind : TaskHandle → TaskHandle
    unbind h = clear_flags (bound_stopped ∷ []) h

    abbrev pub is_overdue : ℕ → StartWave → Bool
    is_overdue j w = leb (w.armed j + (cfg j).slot_timeout) (check_ms j)

    abbrev pub is_unready : StartWave → ℕ → Bool
    is_unready w d = not (has_flag ready (w.sites d).handle)

    -- `iter().find`.
    unfoldable pub first_unready : StartWave → List ℕ → Option ℕ
    first_unready w [] = none
    first_unready w (d ∷ ds) = if is_unready w d then some d else first_unready w ds

    -- The first gate that is not satisfied.
    unfoldable pub gate : ℕ → StartWave → Gate
    unfolding first_unready
    gate j w =
        let settled =
          if is_settled (w.sites j).handle then open_gate else closed (spawn_refused busy) in
        if has_exec_slots && is_slot_empty j
        then closed executor_slot_empty
        else if has_resources && misses_resource j
        then closed resource_missing
        else if has_ready_deps
        then elim (first_unready w (cfg j).ready_deps) [
          | none ↦ settled
          | some d ↦
              if is_overdue j w && contains d (cfg j).bound_deps
              then parks
              else closed (ready_dep_timeout d)
        ]
        else settled

    -- `unsatisfied`, where the window is spent: the node is faulted, and ends the wave or is resolved.
    unfoldable pub give_up : ℕ → FaultKind → StartWave → StartWave
    unfolding resolve
    give_up j k w =
        let f : NodeFault = record { node = j; kind = k } in
        if keep_going
        then record (resolve j (note (faulted k)) (w.sites j) w) {
          first_err = first_error w.first_err f;
        }
        else record w { failed = some f; log = (j, note (faulted k)) ∷ w.log }

    -- The executor refused; a later round tries again.
    unfoldable pub retry : ℕ → StartWave → StartWave
    retry j w = record w {
      waiting = true;
      own_pass = w.own_pass || not (slotted j);
      passes = if slotted j then j ∷ w.passes else w.passes;
    }

    unfoldable pub try_spawn : ℕ → StartWave → StartWave
    unfolding resolve give_up retry
    try_spawn j w =
        let fresh = on_handle reset (w.sites j) in
        elim (refuses j) [
          | none ↦ resolve j (note started) (on_handle (λ h. unbind (run_now j h)) fresh) w
          | some e ↦
              let w' = record w { sites = update w.sites j fresh } in
              if is_overdue j w then give_up j (spawn_refused e) w' else retry j w'
        ]

    unfoldable pub attempt : ℕ → StartWave → StartWave
    unfolding resolve gate give_up try_spawn
    attempt j w =
        if self_spawned j
        then elim (gate j w) [
          | open_gate ↦ try_spawn j w
          | parks ↦ resolve j parking (on_handle (set_flags (bound_stopped ∷ [])) (w.sites j)) w
          | closed k ↦ if is_overdue j w then give_up j k w else record w { waiting = true }
        ]
        else resolve j (note started) (on_handle (λ h. run_now j (reset h)) (w.sites j)) w

    abbrev pub is_parked : ℕ → StartWave → Bool
    is_parked j w = has_pause && is_pause (cfg j).mode && has_acked_stop (w.sites j).handle

    -- A node whose dependencies are resolved: armed at its first visit, and resumed if it is parked.
    unfoldable pub arm : ℕ → StartWave → StartWave
    unfolding resolve attempt
    arm j w =
        if w.armed j == unsignaled
        then (let w' = record w { armed = update w.armed j (stamp (arm_ms j)) } in
            if is_parked j w
            then resolve j (note resumed)
                (on_handle (λ h. unbind (run_now j (signal_resume (reset h)))) (w.sites j)) w'
            else attempt j (record w' { log = (j, note spawning) ∷ w.log }))
        else attempt j w

    -- A visit, behind what tasks did to the node.
    unfoldable pub visit : ℕ → StartWave → StartWave
    unfolding arm
    visit j w₀ =
        let w = record w₀ { sites = update w₀.sites j (change j (w₀.sites j)) } in
        elim w.failed [
          | some f ↦ w
          | none ↦
              if w.pending j
              then if any w.pending (deps j) then record w { waiting = true } else arm j w
              else w
        ]

    unfoldable pub round : StartWave → StartWave
    round w = each visit order (record w { progress = false; waiting = false; own_pass = false })

  -- The earliest end of a pending node's window.
  unfoldable pub next_due : List ℕ → StartWave → Option ℕ
  next_due [] w = none
  next_due (j ∷ js) w =
      let later = next_due js w in
      if w.pending j && not (w.armed j == unsignaled)
      then some (sooner later (w.armed j + (cfg j).slot_timeout))
      else later

  -- What a round ends in; `yield_now` goes on at once.
  unfoldable pub after_round : StartWave → Outcome
  unfolding next_due
  after_round w = elim w.failed [
    | some f ↦ returned (some f)
    | none ↦
        if w.waiting
        then if w.progress || w.own_pass
          then again
          else elim (next_due order w) [ none ↦ panicked | some d ↦ asleep_until d ]
        else returned w.first_err
  ]

  unfoldable pub rounds : List Round → StartWave → StartWave × Outcome
  unfolding round after_round
  rounds [] w = (w, again)
  rounds (r ∷ rs) w =
      let w' = round r w in
      let rest = rounds rs w' in if goes_on (after_round w') then rest else (w', after_round w')

unfoldable pub begin_start : (ℕ → Bool) → (ℕ → Site) → StartWave
begin_start chosen sites = record {
  sites = sites;
  pending = chosen;
  armed = λ _. unsignaled;
  first_err = none;
  progress = false;
  waiting = false;
  own_pass = false;
  passes = [];
  failed = none;
  log = [];
}
