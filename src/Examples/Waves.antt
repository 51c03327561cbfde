-- ===== src/Examples/Waves.antt =====
-- Stop waves over the chain of three nodes: one that everybody answers, and one with a silent node.
use embassy_supervisor.Base.{
  ℕ, ◌+◌, zero, suc, ◌≡◌, ◌≢◌, refl, if◌then◌else◌, true, false, Option, none, some, List, [], ◌∷◌,
  arith,
}
use embassy_supervisor.Node.Flags.{shutdown, dropped, running}
use embassy_supervisor.Node.State.{terminate, NodeCfg, new_handle, Site}
use embassy_supervisor.Node.Task.{has_flag, on_handle, set_flags, signal_shutdown, release_claims}
use embassy_supervisor.Lifecycle.{NodeFault, shutdown_timeout}
use embassy_supervisor.Stop.{
  Plan, Tick, returned, panicked, held, signal_one, collect_one, expire, check_one, all_resolved,
  signal_phase, collect_phase, check_phase, after_check, turn, run, start_wave, each, backwards,
}
use embassy_supervisor.Stop.Order.{IsOrderly, run-IsOrderly}
use embassy_supervisor.Stop.Progress.{sorted_run-ne-panicked}
use embassy_supervisor.Stop.Down.{IsCalm, AllDown, run_ok-AllDown}
use embassy_supervisor.Stop.Ends.{punctual_turns, sorted_run-returns}
use embassy_supervisor.Stop.Faults.{Tells, run-result}
use embassy_supervisor.Examples.Graphs.{chain, chain_short, chain_sorted}

abbrev pub plain_cfg : NodeCfg
plain_cfg = record {
  mode = terminate;
  shelled = false;
  ready_deps = [];
  bound_deps = [];
  slot_timeout = 1000;
  ack_timeout = 500;
  beat_timeout = some 100;
  beat_window = 2;
  ready_on_write = false;
  restart_budget = none;
}

-- A node that runs.
abbrev pub up : Site
up = record {
  handle = set_flags (running ∷ []) (new_handle false);
  events = record {
    gate_evt = false;
    stop_evt = false;
    bind_req = false;
    scale_req = false;
    serving = false;
  };
  provided = [];
  claims = [];
}

abbrev chain_plan : Plan
chain_plan = record {
  n = 3;
  deps = chain;
  order = 2 ∷ 1 ∷ 0 ∷ [];
  cfg = λ _. plain_cfg;
  has_claims = true;
  chosen = λ _. true;
  keep_going = true;
}

-- A task that acknowledges when it is asked to stop.
abbrev pub answer : ℕ → Site → Site
answer k s = if has_flag shutdown s.handle then on_handle (set_flags (dropped ∷ [])) s else s

-- The same, but the node 0 does not answer.
abbrev stubborn : ℕ → Site → Site
stubborn zero s = s
stubborn (suc k) s = answer (suc k) s

abbrev pub tick : (ℕ → Site → Site) → ℕ → Tick
tick change ms = record { signal_ms = λ _. ms; change = change; check_ms = ms + 5000000000 }

abbrev pub good : List Tick
good = tick answer 1 ∷ tick answer 2 ∷ tick answer 3 ∷ tick answer 4 ∷ []

abbrev bad : List Tick
bad = tick stubborn 1 ∷ tick stubborn 2 ∷ tick stubborn 3 ∷ tick stubborn 4 ∷ []

good_ok : (run chain_plan good (start_wave (λ _. up))).1 ≡ returned none
unfolding run turn start_wave signal_phase collect_phase check_phase after_check signal_one
    collect_one check_one expire held all_resolved each backwards signal_shutdown new_handle
good_ok = refl

abbrev blamed : NodeFault
blamed = record { node = 0; kind = shutdown_timeout }

bad_fails : (run chain_plan bad (start_wave (λ _. up))).1 ≡ returned (some blamed)
unfolding run turn start_wave signal_phase collect_phase check_phase after_check signal_one
    collect_one check_one expire held all_resolved each backwards signal_shutdown new_handle
    release_claims
bad_fails = refl

run-IsOrderly_example : IsOrderly chain_plan (run chain_plan bad (start_wave (λ _. up))).0.log
run-IsOrderly_example = run-IsOrderly chain_plan (λ _. up) bad

sorted_run-ne-panicked_example : (run chain_plan bad (start_wave (λ _. up))).1 ≢ panicked
sorted_run-ne-panicked_example =
    sorted_run-ne-panicked chain_plan bad (start_wave (λ _. up)) chain_short chain_sorted

-- The silent node is asked at once, the wave wakes early once, and its window ends at 500 ms.
abbrev at_ms : ℕ → Tick
at_ms ms = record { signal_ms = λ _. ms; change = stubborn; check_ms = ms }

abbrev slow : List Tick
slow =
    at_ms 0
    ∷ at_ms 200
    ∷ at_ms 500
    ∷ at_ms 501
    ∷ at_ms 1100
    ∷ at_ms 1101
    ∷ at_ms 1700
    ∷ at_ms 1701
    ∷ at_ms 2300
    ∷ []

slow_punctual : punctual_turns chain_plan slow (start_wave (λ _. up)) ≡ 8
unfolding turn start_wave signal_phase collect_phase check_phase after_check signal_one collect_one
    check_one expire held all_resolved each backwards signal_shutdown new_handle release_claims
slow_punctual = refl

sorted_run-returns_example :
    (r : Option NodeFault) × ((run chain_plan slow (start_wave (λ _. up))).1 ≡ returned r)
sorted_run-returns_example =
    sorted_run-returns chain_plan (λ _. up) slow chain_short chain_sorted
      (omega (arith, slow_punctual))

pub answer-IsCalm : (ms : ℕ) → IsCalm (tick answer ms)
answer-IsCalm ms k s down = ground (arith, down)

run_ok-AllDown_example : AllDown chain_plan (run chain_plan good (start_wave (λ _. up))).0
run_ok-AllDown_example =
    run_ok-AllDown chain_plan (λ _. up) good
      (answer-IsCalm 1, (answer-IsCalm 2, (answer-IsCalm 3, (answer-IsCalm 4, tt)))) good_ok

run-result_example : Tells chain_plan (some blamed) (run chain_plan bad (start_wave (λ _. up))).0
run-result_example = run-result chain_plan (λ _. up) bad (some blamed) bad_fails
