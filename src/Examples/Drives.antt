-- ===== src/Examples/Drives.antt =====
-- A held application through every verb of the driver.
use embassy_supervisor.Base.{ℕ, ◌≡◌, refl, true, false, none, List, [], ◌∷◌, arith}
use embassy_supervisor.Node.State.{new_handle}
use embassy_supervisor.Stop.{
  Tick, returned, run, turn, start_wave, signal_phase, collect_phase, check_phase, after_check,
  signal_one, collect_one, check_one, expire, held, all_resolved, each, backwards,
}
use embassy_supervisor.Node.Task.{signal_shutdown}
use embassy_supervisor.Stop.Unchosen.{TickKeeps}
use embassy_supervisor.Start.{Round}
use embassy_supervisor.Control.{
  seed, seed_one, seed_pools, pull_deps, needed, is_managed, collect_dependent, collect_dependents,
  mark_down, select_down, deactivate,
}
use embassy_supervisor.Verbs.{Fleet}
use embassy_supervisor.Driver.{
  PoolVisit, Command, starts, tears_down, respawns, resumes_all, activates, deactivates, restarts,
  drives, elapses, exec_all,
}
use embassy_supervisor.Driver.Verbs.{IsHeld}
use embassy_supervisor.Driver.Sticks.{exec_all-IsHeld}
use embassy_supervisor.Driver.Stopped.{IsLatched, deactivate-Sticks}
use embassy_supervisor.Examples.Graphs.{chain_short, chain_sorted}
use embassy_supervisor.Examples.Verbs.{all_up, chain_graph}
use embassy_supervisor.Examples.Waves.{tick, answer, good, answer-IsCalm}
use embassy_supervisor.Examples.Starts.{quiet_round}
use embassy_supervisor.Examples.Singles.{slow, fleet as bound_fleet, held_back}

-- The chain, with no bound dependency.
abbrev fleet : Fleet
fleet = record bound_fleet { graph = chain_graph }

abbrev quiet_ticks : List Tick
quiet_ticks = tick (λ k s. s) 1 ∷ []

abbrev quiet_rounds : List Round
quiet_rounds = quiet_round 0 (λ k s. s) ∷ []

abbrev small_pool : PoolVisit
small_pool = record {
  pool = record { nodes = 0 ∷ []; min_size = 0; max_size = 1 };
  cooldown = 10;
  pending = none;
  others = λ k s. s;
  bring = slow;
  ack = record { before = λ s. s; during = λ s. s };
}

abbrev day : List Command
day =
    activates 2 quiet_rounds
    ∷ starts (λ _. false) quiet_rounds
    ∷ drives 5 (small_pool ∷ [])
    ∷ restarts 2 9 quiet_ticks quiet_rounds
    ∷ tears_down true quiet_ticks
    ∷ respawns quiet_rounds
    ∷ resumes_all (λ _. 3) (λ _. [])
    ∷ deactivates 2 quiet_ticks
    ∷ elapses (λ k s. s)
    ∷ []

-- The activation of the driver does not need the application.
driver_alone : needed fleet.graph held_back 2 0 ≡ false
unfolding needed seed seed_one seed_pools pull_deps each backwards new_handle
driver_alone = refl

held_back-IsHeld : IsHeld (held_back 0)
unfolding new_handle
held_back-IsHeld = record { down = refl; latched = refl }

exec_all-IsHeld_example : IsHeld (exec_all fleet day held_back 0)
exec_all-IsHeld_example =
    exec_all-IsHeld fleet 0 day held_back (λ j. refl)
      (
        (driver_alone, (λ s h. h, tt)),
        (
          (λ s h. h, tt),
          (
            (λ s h. h, tt),
            (
              ((λ s h. h, tt), (λ s h. h, tt)),
              ((λ s h. h, tt), ((λ s h. h, tt), (tt, ((λ s h. h, tt), (λ s h. h, tt))))),
            ),
          ),
        ),
      )
      held_back-IsHeld

-- The driver is stopped by hand, with the application above it; then the graph starts again, the
-- pools are driven, and the application is restarted.
abbrev after_stop : List Command
after_stop =
    starts (λ _. false) quiet_rounds
    ∷ drives 5 (small_pool ∷ [])
    ∷ restarts 0 9 quiet_ticks quiet_rounds
    ∷ respawns quiet_rounds
    ∷ []

stop_ok : (deactivate fleet.graph 2 good all_up).1 ≡ returned none
unfolding deactivate seed seed_one seed_pools collect_dependents collect_dependent select_down
    mark_down run turn start_wave signal_phase collect_phase check_phase after_check signal_one
    collect_one check_one expire held all_resolved each backwards signal_shutdown new_handle
stop_ok = refl

answer-IsLatched : (ms : ℕ) → TickKeeps IsLatched 2 (tick answer ms)
answer-IsLatched ms s h = ground (arith, h)

driver_is_seed : seed fleet.graph 2 2 ≡ true
unfolding seed seed_one seed_pools new_handle each
driver_is_seed = refl

driver_managed : is_managed fleet.graph all_up 2 ≡ true
unfolding new_handle
driver_managed = refl

deactivate-Sticks_example : IsHeld (exec_all fleet (deactivates 2 good ∷ after_stop) all_up 2)
deactivate-Sticks_example =
    deactivate-Sticks fleet 2 2 good after_stop all_up (λ j. refl) chain_short chain_sorted
      (answer-IsCalm 1, (answer-IsCalm 2, (answer-IsCalm 3, (answer-IsCalm 4, tt))))
      (answer-IsLatched 1, (answer-IsLatched 2, (answer-IsLatched 3, (answer-IsLatched 4, tt))))
      stop_ok (omega arith) driver_managed driver_is_seed
      ((λ s h. h, tt), ((λ s h. h, tt), (((λ s h. h, tt), (λ s h. h, tt)), ((λ s h. h, tt), tt))))
