-- ===== src/Stop.antt =====
-- The stop wave (supervisor/src/lib.rs, `Supervisor::stop_wave`): every chosen node is signalled
-- once its chosen dependents are resolved, and resolved by its acknowledgement or its timeout.
-- The wave runs against a list of ticks: one for each turn of its loop, with the clock's readings
-- and with what the tasks did to the nodes since the turn before.
pub mod Rule
pub mod Loops
pub mod Order
pub mod Down
pub mod Progress
mod Measure
mod Due
pub mod Ends
pub mod Faults
pub mod Unchosen
use embassy_supervisor.Base.{
  ℕ, zero, suc, ◌+◌, ◌-◌, min, ltb, ◌==◌, if◌then◌else◌, Bool, true, false, ◌&&◌, ◌||◌, not, Option,
  none, some, List, [], ◌∷◌, ◌++◌, contains, update, any_below, all_below,
}
use embassy_supervisor.Node.Flags.{dropped, running}
use embassy_supervisor.Node.State.{NodeCfg, TaskHandle, Site}
use embassy_supervisor.Node.Task.{has_flag, on_handle, signal_shutdown, set_running, release_claims}
use embassy_supervisor.Lifecycle.{
  NodeFault, shutdown_timeout, Transition, stop_requested, faulted, Log, acked,
}

-- What does not change in a wave. `order` is the topological order; `has_claims` is the shape bit.
pub record Plan : Type 0 where
  pub n : ℕ
  pub deps : ℕ → List ℕ
  pub order : List ℕ
  pub cfg : ℕ → NodeCfg
  pub has_claims : Bool
  pub chosen : ℕ → Bool
  pub keep_going : Bool

-- The locals of the wave, the nodes, and the log. `failed` is the early return.
pub record Wave : Type 0 where
  pub sites : ℕ → Site
  pub resolved : ℕ → Bool
  pub signaled : ℕ → ℕ
  pub first_err : Option NodeFault
  pub progress : Bool
  pub deadline : Option ℕ
  pub failed : Option NodeFault
  pub log : Log

-- `u32::MAX`; a real time saturates one below it.
abbrev pub unsignaled : ℕ
unsignaled = 4294967295

abbrev pub stamp : ℕ → ℕ
stamp now = min now (unsignaled - 1)

-- One turn's view of the world, in milliseconds since the wave's start: the clock when a slot is
-- signalled, what tasks did until the acknowledgements are read, and the clock behind that.
pub record Tick : Type 0 where
  pub signal_ms : ℕ → ℕ
  pub change : ℕ → Site → Site
  pub check_ms : ℕ

-- What a turn of the loop ends in: `continue`, the await, `return`, or a failed
-- `expect("an unresolved wave has a signalled node")`.
pub data Outcome : Type 0 where
  again : Outcome
  asleep_until : ℕ → Outcome
  returned : Option NodeFault → Outcome
  panicked : Outcome

abbrev pub goes_on : Outcome → Bool
goes_on again = true
goes_on (asleep_until d) = true
goes_on _ = false

-- The wave behind what the tasks did, with the turn's locals reset.
abbrev pub changed : Tick → Wave → Wave
changed t w = record w { sites = λ j. t.change j (w.sites j); progress = false; deadline = none }

-- A loop over slots.
unfoldable pub each {ℓ} : {S : Type ℓ} → (ℕ → S → S) → List ℕ → S → S
each body [] s = s
each body (j ∷ js) s = each body js (body j s)

-- `order_iter().rev()`.
unfoldable pub backwards : List ℕ → List ℕ
backwards [] = []
backwards (j ∷ js) = backwards js ++ j ∷ []

module _ (p : Plan) where
  open p use {n, deps, order, cfg, has_claims, chosen, keep_going}

  abbrev pub is_open : Wave → ℕ → Bool
  is_open w j = chosen j && not (w.resolved j)

  -- A chosen dependent is not resolved yet.
  unfoldable pub held : Wave → ℕ → Bool
  held w j = any_below n (λ k. is_open w k && contains j (deps k))

  unfoldable pub signal_one : (ℕ → ℕ) → ℕ → Wave → Wave
  signal_one clock j w =
      if (is_open w j && (w.signaled j == unsignaled)) && not (held w j)
      then record w {
        sites = update w.sites j (on_handle signal_shutdown (w.sites j));
        signaled = update w.signaled j (stamp (clock j));
        log = (j, stop_requested) ∷ w.log;
      }
      else w

  unfoldable pub collect_one : ℕ → Wave → Wave
  collect_one j w =
      if is_open w j && has_flag dropped (w.sites j).handle
      then record w {
        sites = update w.sites j (on_handle (set_running 0 [] false) (w.sites j));
        resolved = update w.resolved j true;
        progress = true;
        log = (j, acked (w.sites j).handle) ∷ w.log;
      }
      else w

  abbrev pub due : Wave → ℕ → ℕ
  due w j = w.signaled j + (cfg j).ack_timeout

  abbrev pub timeout_fault : ℕ → NodeFault
  timeout_fault j = record { node = j; kind = shutdown_timeout }

  -- `deadline.map_or(due, |d| d.min(due))`.
  abbrev pub earlier : Option ℕ → ℕ → Option ℕ
  earlier none t = some t
  earlier (some d) t = some (min d t)

  abbrev pub first_of_two : Option NodeFault → NodeFault → Option NodeFault
  first_of_two none f = some f
  first_of_two (some e) f = some e

  -- The node missed its window: its claims are released, and it is resolved or fails the wave.
  unfoldable pub expire : ℕ → Wave → Wave
  expire j w =
      let s = w.sites j in
      let claims' = if has_claims then release_claims s.claims else s.claims in
      let w' = record w {
        sites = update w.sites j (record s { claims = claims' });
        log = (j, faulted shutdown_timeout) ∷ w.log;
      } in
      if keep_going
      then record w' {
        first_err = first_of_two w.first_err (timeout_fault j);
        resolved = update w.resolved j true;
        progress = true;
      }
      else record w' { failed = some (timeout_fault j) }

  unfoldable pub check_one : ℕ → ℕ → Wave → Wave
  check_one now j w = elim w.failed [
    | some f ↦ w
    | none ↦
        if is_open w j && not (w.signaled j == unsignaled)
        then if ltb now (due w j)
          then record w { deadline = earlier w.deadline (due w j) }
          else expire j w
        else w
  ]

  unfoldable pub all_resolved : Wave → Bool
  all_resolved w = all_below n (λ j. not (is_open w j))

  unfoldable pub signal_phase : Tick → Wave → Wave
  signal_phase t = each (signal_one t.signal_ms) (backwards order)

  unfoldable pub collect_phase : Tick → Wave → Wave
  collect_phase t w = each collect_one (backwards order) (changed t w)

  unfoldable pub check_phase : Tick → Wave → Wave
  check_phase t = each (check_one t.check_ms) (backwards order)

  -- What the turn ends in, behind the timeouts.
  unfoldable pub after_check : Wave → Outcome
  after_check w = elim w.failed [
    | some f ↦ returned (some f)
    | none ↦
        if w.progress then again else elim w.deadline [ none ↦ panicked | some d ↦ asleep_until d ]
  ]

  -- The exits of a turn: everything resolved, something acknowledged, or the timeouts checked.
  abbrev pub conclude : Bool → Bool → Wave → Wave → Wave × Outcome
  conclude true progress w₁ w₂ = (w₁, returned w₁.first_err)
  conclude false true w₁ w₂ = (w₁, again)
  conclude false false w₁ w₂ = (w₂, after_check w₂)

  -- One turn of the loop.
  unfoldable pub turn : Tick → Wave → Wave × Outcome
  turn t w =
      let w₁ = collect_phase t (signal_phase t w) in
      conclude (all_resolved w₁) w₁.progress w₁ (check_phase t w₁)

  -- The wave over the ticks that it is given; it goes on if they run out.
  unfoldable pub run : List Tick → Wave → Wave × Outcome
  run [] w = (w, again)
  run (t ∷ ts) w =
      let (w', o) = turn t w in let rest = run ts w' in if goes_on o then rest else (w', o)

-- The wave's start.
unfoldable pub start_wave : (ℕ → Site) → Wave
start_wave sites = record {
  sites = sites;
  resolved = λ _. false;
  signaled = λ _. unsignaled;
  first_err = none;
  progress = false;
  deadline = none;
  failed = none;
  log = [];
}
