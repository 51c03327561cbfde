-- ===== src/Single.antt =====
-- The verbs on one node (supervisor/src/lib.rs, `start_node`, `stop_node`, `resume_node` and the
-- waits below them). What tasks do to the node during a wait is the world's part: a change for each
-- stretch of it, with the clock's reading where the code reads it, in milliseconds.
pub mod Alone
pub mod Ends
pub mod Resume
use embassy_supervisor.Base.{
  ℕ, ◌+◌, leb, if◌then◌else◌, Bool, true, false, ◌&&◌, ◌||◌, not, Option, none, some, List, [], ◌∷◌,
  contains, update,
}
use embassy_supervisor.Node.Flags.{dropped, running, disabled, detached, bound_stopped, collateral}
use embassy_supervisor.Node.State.{is_pause, NodeCfg, TaskHandle, Site, WriteEntry}
use embassy_supervisor.Node.Task.{
  has_flag, set_flags, clear_flags, on_handle, release_claims, is_settled, signal_shutdown,
  signal_resume, has_acked_stop, reset, set_running,
}
use embassy_supervisor.Lifecycle.{
  SpawnError, busy, FaultKind, executor_slot_empty, resource_missing, ready_dep_timeout,
  shutdown_timeout, spawn_refused, NodeFault, Transition, spawning, started, resumed,
  stop_requested, faulted, Log, acked,
}
use embassy_supervisor.Stop.{Outcome, again, returned, each}
use embassy_supervisor.Verbs.{Fleet}

-- A look of `wait_gate_until`: the change before the test, and the clock behind it.
pub record Look : Type 0 where
  pub change : Site → Site
  pub now_ms : ℕ

-- A call of the spawn function: the change before it, its answer, and the clock behind it.
pub record Attempt : Type 0 where
  pub change : Site → Site
  pub answer : Option SpawnError
  pub now_ms : ℕ

-- The world's part in a start: which gate waits run into their timeouts, the change meanwhile, the
-- clock behind the gates, the looks and attempts, and what `set_running` reads.
pub record Bringup : Type 0 where
  pub is_slot_late : Bool
  pub is_resource_late : Bool
  pub is_ready_late : ℕ → Bool
  pub gated : Site → Site
  pub begin_ms : ℕ
  pub looks : List Look
  pub attempts : List Attempt
  pub tick : ℕ
  pub writes : List WriteEntry

-- The world's part in a stop: the change up to the first poll of the wait, and up to its end.
pub record AckWait : Type 0 where
  pub before : Site → Site
  pub during : Site → Site

-- What a verb leaves: the node, what it noted, newest first, and `again` if it still waits.
pub record Verb : Type 0 where
  pub site : Site
  pub log : Log
  pub outcome : Outcome

abbrev pub fault_of : ℕ → FaultKind → NodeFault
fault_of j k = record { node = j; kind = k }

-- The answer of a wait for a condition, `none` while it goes on.
unfoldable pub wait_settled : ℕ → List Look → Site → Site × Option Bool
wait_settled deadline [] s = (s, none)
wait_settled deadline (l ∷ ls) s =
    let s' = l.change s in
    let rest = wait_settled deadline ls s' in
    if is_settled s'.handle
    then (s', some true)
    else if leb deadline l.now_ms
    then (s', some false)
    else rest

-- The loop of `spawn_settled`: its result, `none` while it goes on.
unfoldable pub spawn_loop : ℕ → List Attempt → Site → Site × Option (Option SpawnError)
spawn_loop deadline [] s = (s, none)
spawn_loop deadline (a ∷ rest) s =
    let s' = on_handle reset (a.change s) in
    let later = spawn_loop deadline rest s' in
    elim a.answer [
      | none ↦ (s', some none)
      | some e ↦ if leb deadline a.now_ms then (s', some (some e)) else later
    ]

abbrev pub after_wait : ℕ → List Attempt → Site → Option Bool → Site × Option (Option SpawnError)
after_wait deadline attempts s none = (s, none)
after_wait deadline attempts s (some true) = spawn_loop deadline attempts s
after_wait deadline attempts s (some false) = (s, some (some busy))

unfoldable pub spawn_settled :
    ℕ → List Look → List Attempt → Site → Site × Option (Option SpawnError)
unfolding wait_settled spawn_loop
spawn_settled deadline looks attempts s =
    let (s', settled) = wait_settled deadline looks s in after_wait deadline attempts s' settled

unfoldable pub await_ready_deps : (ℕ → Bool) → List ℕ → Option FaultKind
await_ready_deps late [] = none
await_ready_deps late (d ∷ ds) =
    let rest = await_ready_deps late ds in if late d then some (ready_dep_timeout d) else rest

-- `wait_dropped` at its first poll, which reads the flag, and at a later one, which reads the latch.
abbrev pub take_dropped : Site → Site × Bool
take_dropped s = (on_handle (λ h. record h { dropped_wake = false }) s, s.handle.dropped_wake)

abbrev pub poll_dropped : Site → Site × Bool
poll_dropped s = if has_flag dropped s.handle then (s, true) else take_dropped s

-- The end of a `select` on `wait_dropped` and a timer: whether the node answered.
unfoldable pub wait_dropped : AckWait → Site → Site × Bool
wait_dropped a s =
    let (s₁, first) = poll_dropped (a.before s) in
    if first then (s₁, true) else take_dropped (a.during s₁)

module _ (fl : Fleet) (j : ℕ) where
  open fl use {
    graph, self_spawned, slotted, has_pause, has_exec_slots, has_resources, has_ready_deps,
  }

  abbrev pub node_cfg : NodeCfg
  node_cfg = graph.cfg j

  unfoldable pub await_gates : Bringup → Option FaultKind
  unfolding await_ready_deps
  await_gates b =
      if has_exec_slots && slotted j && b.is_slot_late
      then some executor_slot_empty
      else if has_resources && b.is_resource_late
      then some resource_missing
      else if has_ready_deps
      then await_ready_deps b.is_ready_late node_cfg.ready_deps
      else none

  -- The node waits for a dependency that it is bound to.
  abbrev pub is_bound_wait : FaultKind → Bool
  is_bound_wait (ready_dep_timeout d) = contains d node_cfg.bound_deps
  is_bound_wait _ = false

  abbrev pub fails : FaultKind → Log → Site → Verb
  fails k log s = record {
    site = s;
    log = (j, faulted k) ∷ log;
    outcome = returned (some (fault_of j k));
  }

  unfoldable pub gate_missed : FaultKind → Log → Site → Verb
  gate_missed k log s =
      if is_bound_wait k
      then record {
        site = on_handle (set_flags (bound_stopped ∷ [])) s;
        log = log;
        outcome = returned none;
      }
      else fails k log s

  unfoldable pub comes_up : Bringup → Log → Site → Verb
  comes_up b log s = record {
    site = on_handle (λ h. clear_flags (bound_stopped ∷ []) (set_running b.tick b.writes true h)) s;
    log = (j, started) ∷ log;
    outcome = returned none;
  }

  unfoldable pub after_spawn : Bringup → Log → Site → Option (Option SpawnError) → Verb
  unfolding comes_up
  after_spawn b log s none = record { site = s; log = log; outcome = again }
  after_spawn b log s (some none) = comes_up b log s
  after_spawn b log s (some (some e)) = fails (spawn_refused e) log s

  unfoldable pub spawn_deadline : Bringup → ℕ
  spawn_deadline b = b.begin_ms + node_cfg.slot_timeout

  unfoldable pub start_node : Bringup → Site → Verb
  unfolding await_gates gate_missed comes_up after_spawn spawn_settled spawn_deadline
  start_node b s₀ =
      let s = on_handle (clear_flags (collateral ∷ [])) s₀ in
      let log : Log = (j, spawning) ∷ [] in
      if self_spawned j
      then elim (await_gates b) [
        | some k ↦ gate_missed k log (b.gated s)
        | none ↦
            let (s', o) = spawn_settled (spawn_deadline b) b.looks b.attempts (b.gated s) in
            after_spawn b log s' o
      ]
      else comes_up b log (on_handle reset s)

  unfoldable pub await_ack : AckWait → Log → Site → Verb
  unfolding wait_dropped
  await_ack a log s =
      let (s', answered) = wait_dropped a s in
      if answered
      then record {
        site = on_handle (set_running 0 [] false) s';
        log = (j, acked s'.handle) ∷ log;
        outcome = returned none;
      }
      else fails shutdown_timeout log
          (record s' { claims = if graph.has_claims then release_claims s'.claims else s'.claims })

  unfoldable pub shutdown_and_wait : AckWait → Site → Verb
  unfolding await_ack
  shutdown_and_wait a s = await_ack a ((j, stop_requested) ∷ []) (on_handle signal_shutdown s)

  unfoldable pub stop_node : AckWait → Site → Verb
  unfolding shutdown_and_wait
  stop_node a s =
      if not (has_flag running s.handle) || has_flag detached s.handle
      then record { site = s; log = []; outcome = returned none }
      else shutdown_and_wait a s

  unfoldable pub resumes : Site → Bool
  resumes s =
      has_pause
      && is_pause node_cfg.mode
      && not (has_flag disabled s.handle)
      && not (has_flag collateral s.handle)
      && not (has_flag detached s.handle)
      && has_acked_stop s.handle

  unfoldable pub resume_node : ℕ → List WriteEntry → Site → Site × Log
  unfolding resumes
  resume_node tick writes s =
      if resumes s
      then (
        on_handle (λ h. set_running tick writes true (signal_resume (reset h))) s,
        (j, resumed) ∷ [],
      )
      else (s, [])

-- The sites and the log of the resumes.
pub record Resumes : Type 0 where
  pub sites : ℕ → Site
  pub log : Log

module _ (fl : Fleet) (tick : ℕ → ℕ) (writes : ℕ → List WriteEntry) where
  open fl use {graph, has_pause}

  unfoldable pub resume_one : ℕ → Resumes → Resumes
  unfolding resumes
  resume_one j r =
      if graph.occupied j && resumes fl j (r.sites j)
      then record {
        sites = update r.sites j (
            on_handle (λ h. set_running (tick j) (writes j) true (signal_resume (reset h)))
              (r.sites j));
        log = (j, resumed) ∷ r.log;
      }
      else r

  unfoldable pub resume_pausable : (ℕ → Site) → Resumes
  unfolding resume_one
  resume_pausable sites =
      let start : Resumes = record { sites = sites; log = [] } in
      if has_pause then each resume_one graph.order start else start
