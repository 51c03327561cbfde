-- ===== src/Examples/Restarts.antt =====
-- A restart of the chain's driver, which cycles the whole chain.
use embassy_supervisor.Base.{◌≡◌, refl, true, false, none, List, [], ◌∷◌, arith}
use embassy_supervisor.Node.Flags.{running}
use embassy_supervisor.Node.State.{new_handle}
use embassy_supervisor.Node.Task.{
  has_flag, reset, set_running, write_mark_of, has_acked_stop, is_settled, signal_shutdown,
}
use embassy_supervisor.Stop.{
  returned, held, signal_one, collect_one, expire, check_one, all_resolved, signal_phase,
  collect_phase, check_phase, after_check, turn, run, start_wave, each, backwards,
}
use embassy_supervisor.Start.{
  Round, resolve, first_unready, gate, give_up, retry, try_spawn, attempt, arm, visit, round,
  next_due, after_round, rounds, begin_start,
}
use embassy_supervisor.Start.Rule.{is_up}
use embassy_supervisor.Start.Order.{logged}
use embassy_supervisor.Control.{seed, seed_one, seed_pools, collect_dependent, collect_dependents}
use embassy_supervisor.Restart.{cycled, goes_down, comes_up}
use embassy_supervisor.Verbs.{Fleet, cycle_down, cycle_up}
use embassy_supervisor.Verbs.Cycle.{may_return, restart-cycles}
use embassy_supervisor.Examples.Graphs.{chain_short, chain_sorted}
use embassy_supervisor.Examples.Waves.{good, answer-IsCalm}
use embassy_supervisor.Examples.Starts.{quiet_round}
use embassy_supervisor.Examples.Verbs.{chain_graph, all_up, app-Affected}

abbrev fleet : Fleet
fleet = record {
  graph = chain_graph;
  self_spawned = λ _. true;
  slotted = λ _. false;
  has_pause = true;
  has_exec_slots = true;
  has_resources = true;
  has_ready_deps = true;
}

abbrev two_rounds : List Round
two_rounds = quiet_round 0 (λ j s. s) ∷ quiet_round 1 (λ j s. s) ∷ []

comes_down : (cycle_down fleet 2 good all_up).1 ≡ returned none
unfolding cycle_down goes_down cycled seed seed_one seed_pools collect_dependents collect_dependent
    run turn start_wave signal_phase collect_phase check_phase after_check signal_one collect_one
    check_one expire held all_resolved each backwards signal_shutdown new_handle
comes_down = refl

comes_back :
    (cycle_up fleet
      (cycled chain_graph all_up 2)
      two_rounds
      (cycle_down fleet 2 good all_up).0.sites).1
    ≡ returned none
unfolding cycle_up comes_up rounds round after_round next_due visit arm attempt try_spawn retry
    give_up gate first_unready resolve begin_start reset set_running write_mark_of has_acked_stop
    is_settled cycle_down goes_down cycled seed seed_one seed_pools collect_dependents
    collect_dependent run turn start_wave signal_phase collect_phase check_phase after_check
    signal_one collect_one check_one expire held all_resolved each backwards signal_shutdown
    new_handle
comes_back = refl

restart-cycles_example :
    let (w, _) = cycle_down fleet 2 good all_up in
    let (w', _) = cycle_up fleet (cycled chain_graph all_up 2) two_rounds w.sites in
    (has_flag running (w.sites 0).handle ≡ false)
    × (may_return fleet w.sites 0 ≡ true → logged is_up 0 w'.log ≡ true)
unfolding new_handle
restart-cycles_example =
    restart-cycles fleet 2 good two_rounds all_up chain_short chain_sorted
      (answer-IsCalm 1, (answer-IsCalm 2, (answer-IsCalm 3, (answer-IsCalm 4, tt)))) comes_down
      comes_back 0 (omega arith) refl app-Affected
