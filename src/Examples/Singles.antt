-- ===== src/Examples/Singles.antt =====
-- One node of the chain stopped and started alone, and the chain cut off from its driver.
use embassy_supervisor.Base.{
  ℕ, ◌≡◌, refl, ◌↔◌, ◌==◌, if◌then◌else◌, true, false, none, some, [], ◌∷◌, arith, inl,
}
use embassy_supervisor.Node.Flags.{dropped, running, ready}
use embassy_supervisor.Node.State.{pause, new_handle, Site}
use embassy_supervisor.Node.Task.{has_flag, on_handle, set_flags, signal_shutdown, set_running}
use embassy_supervisor.Lifecycle.{busy, spawning, resumed}
use embassy_supervisor.Stop.{
  Tick, Wave, run, start_wave, turn, all_resolved, each, backwards, collect_phase, collect_one,
  signal_phase, signal_one, held,
}
use embassy_supervisor.Control.{Graph, Selection, stop_plan}
use embassy_supervisor.Verbs.{Fleet}
use embassy_supervisor.Single.{Bringup, start_node, stop_node}
use embassy_supervisor.Single.Alone.{Agrees, plan_alone, wait_of, turn-stop_node}
use embassy_supervisor.Bind.{Return, ends_reviving, starve, select_bound, return_all, apply_bind}
use embassy_supervisor.Bind.Starved.{Starved, cut_off, follows, starve-Starved}
use embassy_supervisor.Bind.Down.{apply_bind-Starved}
use embassy_supervisor.Examples.Graphs.{chain, chain_short, chain_sorted}
use embassy_supervisor.Examples.Waves.{plain_cfg, up, good, answer-IsCalm}
use embassy_supervisor.Examples.Verbs.{chain_graph, all_up}

-- Every dependency of the chain is bound.
abbrev bound_graph : Graph
bound_graph = record chain_graph { cfg = λ j. record plain_cfg { bound_deps = chain j } }

abbrev pub fleet : Fleet
fleet = record {
  graph = bound_graph;
  self_spawned = λ _. true;
  slotted = λ _. false;
  has_pause = true;
  has_exec_slots = true;
  has_resources = true;
  has_ready_deps = true;
}

-- A task that acknowledges at once, and a clock behind every window.
abbrev prompt : Tick
prompt = record {
  signal_ms = λ _. 1;
  change = λ k. on_handle (λ h. record (set_flags (dropped ∷ []) h) { dropped_wake = true });
  check_ms = 2;
}

turn-stop_node_example :
    Agrees 1 prompt all_up
      (turn (plan_alone fleet 1) prompt (start_wave all_up)).0
      (turn (plan_alone fleet 1) prompt (start_wave all_up)).1
      (stop_node fleet 1 (wait_of fleet 1 prompt) (all_up 1))
unfolding new_handle signal_shutdown
turn-stop_node_example =
    turn-stop_node fleet 1 refl prompt all_up refl (omega arith) refl refl refl refl refl (inl refl)

-- The executor is busy once, and has let go of the last instance by the second attempt.
abbrev pub slow : Bringup
slow = record {
  is_slot_late = false;
  is_resource_late = false;
  is_ready_late = λ _. false;
  gated = λ s. s;
  begin_ms = 10;
  looks = record { change = λ s. s; now_ms = 2000 } ∷ [];
  attempts =
      record { change = λ s. s; answer = some busy; now_ms = 20 }
      ∷ record { change = λ s. s; answer = none; now_ms = 2000 }
      ∷ [];
  tick = 7;
  writes = [];
}

-- The driver has withdrawn its readiness.
app-Starved : Starved fleet all_up 0
unfolding new_handle
app-Starved = follows 0 1 (omega arith) refl refl (cut_off 1 2 (omega arith) refl refl refl)

starve-Starved_example : (starve fleet all_up 0 ≡ true) ↔ Starved fleet all_up 0
starve-Starved_example = starve-Starved fleet all_up (λ j d m. m) chain_short chain_sorted 0

abbrev pub undisturbed : Return
undisturbed = record { others = λ j k s. s; bring = λ _. slow; tick = λ _. 7; writes = λ _. [] }

abbrev cut : Selection
cut = select_bound fleet all_up

abbrev stopped : Wave
stopped = (run (stop_plan bound_graph cut.chosen false) good (start_wave cut.sites)).0

cut_ends :
    apply_bind fleet undisturbed true good all_up
    ≡ ends_reviving stopped (return_all fleet undisturbed stopped.sites)
unfolding apply_bind run turn all_resolved each backwards new_handle collect_phase collect_one
    signal_phase signal_one start_wave held signal_shutdown
cut_ends = refl

apply_bind-Starved_example : has_flag running (stopped.sites 0).handle ≡ false
apply_bind-Starved_example =
    apply_bind-Starved fleet undisturbed good all_up stopped
      (return_all fleet undisturbed stopped.sites) (λ j d m. m) chain_short chain_sorted
      (answer-IsCalm 1, (answer-IsCalm 2, (answer-IsCalm 3, (answer-IsCalm 4, tt)))) cut_ends 0
      app-Starved

-- The application is disabled.
abbrev pub held_back : ℕ → Site
held_back j = if j == 0 then record up { handle = new_handle true } else up

-- A `Pause` node that was never spawned: its bound dependency was not ready in time, so its start
-- parks it. When the provider serves, it is resumed and marked running without an instance.
abbrev pausing : Fleet
pausing = record fleet {
  graph = record bound_graph {
    cfg = λ j. record plain_cfg { mode = pause; ready_deps = chain j; bound_deps = chain j };
  };
}

abbrev late_dep : Bringup
late_dep = record slow { is_ready_late = λ _. true }

abbrev unspawned : Site
unspawned = record up { handle = new_handle false }

abbrev phantom : ℕ → Site
phantom j =
    if j == 1
    then (start_node pausing 1 late_dep unspawned).site
    else on_handle (set_flags (ready ∷ [])) up

phantom_resumed :
    ((start_node pausing 1 late_dep unspawned).log ≡ (1, spawning) ∷ [])
    × ((return_all pausing undisturbed phantom).log ≡ (1, resumed) ∷ [])
    × (has_flag running ((return_all pausing undisturbed phantom).sites 1).handle ≡ true)
unfolding start_node return_all each new_handle set_running
phantom_resumed = (refl, refl, refl)
