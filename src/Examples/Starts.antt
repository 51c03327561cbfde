-- ===== src/Examples/Starts.antt =====
-- A start wave over the chain: the driver comes up at once, and the service waits for its readiness.
use embassy_supervisor.Base.{
  ℕ, ◌≡◌, ◌≢◌, refl, ◌==◌, if◌then◌else◌, true, false, none, some, List, [], ◌∷◌,
}
use embassy_supervisor.Node.Flags.{ready}
use embassy_supervisor.Node.State.{new_handle, Site}
use embassy_supervisor.Node.Task.{
  on_handle, set_flags, reset, set_running, write_mark_of, has_acked_stop, is_settled,
}
use embassy_supervisor.Lifecycle.{ready_dep_timeout}
use embassy_supervisor.Stop.{panicked, returned, each}
use embassy_supervisor.Start.{
  StartPlan, Round, resolve, first_unready, gate, give_up, retry, try_spawn, attempt, arm, visit,
  round, next_due, after_round, rounds, begin_start,
}
use embassy_supervisor.Start.Order.{IsOrderly, start-IsOrderly}
use embassy_supervisor.Start.Progress.{start-ne-panicked}
use embassy_supervisor.Start.Result.{Tells, start-result}
use embassy_supervisor.Examples.Graphs.{chain, chain_short, chain_sorted}
use embassy_supervisor.Examples.Waves.{plain_cfg, up}

abbrev start_plan : StartPlan
start_plan = record {
  n = 3;
  deps = chain;
  order = 2 ∷ 1 ∷ 0 ∷ [];
  cfg = λ j. if j == 1 then record plain_cfg { ready_deps = 2 ∷ [] } else plain_cfg;
  self_spawned = λ _. true;
  slotted = λ _. false;
  has_pause = true;
  has_exec_slots = true;
  has_resources = true;
  has_ready_deps = true;
  keep_going = false;
}

abbrev fresh_site : ℕ → Site
fresh_site _ = record up { handle = new_handle false }

abbrev pub quiet_round : ℕ → (ℕ → Site → Site) → Round
quiet_round ms change = record {
  change = change;
  arm_ms = λ _. ms;
  check_ms = λ _. ms;
  tick = λ _. ms;
  writes = λ _. [];
  is_slot_empty = λ _. false;
  misses_resource = λ _. false;
  refuses = λ _. none;
}

-- The driver asserts its readiness between two rounds.
abbrev turns_ready : ℕ → Site → Site
turns_ready j s = if j == 2 then on_handle (set_flags (ready ∷ [])) s else s

abbrev good_start : List Round
good_start =
    quiet_round 0 (λ j s. s)
    ∷ quiet_round 1 (λ j s. s)
    ∷ quiet_round 40 turns_ready
    ∷ quiet_round 41 (λ j s. s)
    ∷ []

-- It never does.
abbrev late_start : List Round
late_start = quiet_round 0 (λ j s. s) ∷ quiet_round 1 (λ j s. s) ∷ quiet_round 1001 (λ j s. s) ∷ []

good_start_ok :
    (rounds start_plan good_start (begin_start (λ _. true) fresh_site)).1 ≡ returned none
unfolding rounds round after_round next_due visit arm attempt try_spawn retry give_up gate
    first_unready resolve each begin_start new_handle reset set_running write_mark_of has_acked_stop
    is_settled
good_start_ok = refl

late_start_fails :
    (rounds start_plan late_start (begin_start (λ _. true) fresh_site)).1
    ≡ returned (some (record { node = 1; kind = ready_dep_timeout 2 }))
unfolding rounds round after_round next_due visit arm attempt try_spawn retry give_up gate
    first_unready resolve each begin_start new_handle reset set_running write_mark_of has_acked_stop
    is_settled
late_start_fails = refl

start-IsOrderly_example :
    IsOrderly start_plan
      (λ _. true)
      (rounds start_plan late_start (begin_start (λ _. true) fresh_site)).0.log
start-IsOrderly_example = start-IsOrderly start_plan (λ _. true) fresh_site late_start

start-ne-panicked_example :
    (rounds start_plan late_start (begin_start (λ _. true) fresh_site)).1 ≢ panicked
start-ne-panicked_example =
    start-ne-panicked start_plan late_start (begin_start (λ _. true) fresh_site) chain_short
      chain_sorted

start-result_example :
    Tells start_plan
      (λ _. true)
      none
      (rounds start_plan good_start (begin_start (λ _. true) fresh_site)).0
start-result_example =
    start-result start_plan (λ _. true) fresh_site good_start none chain_short chain_sorted
      good_start_ok
