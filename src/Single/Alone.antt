-- ===== src/Single/Alone.antt =====
-- A stop wave that is asked for one node only, beside the verb that stops the node.
use embassy_supervisor.Base.{
  any_below-none, all_below-all, ℕ, ◌+◌, ◌≤◌, ◌<◌, ◌≡◌, refl, sym, ap, ◌∙◌, ◌⊎◌, ◌==◌, ==_refl, ltb,
  if◌then◌else◌, true, false, none, some, [], ◌∷◌, arith, inl, inr, Bool-cases, Option-cases, count,
  contains, update, all_below-true,
}
use embassy_supervisor.Node.Flags.{dropped, running, detached}
use embassy_supervisor.Node.State.{Site}
use embassy_supervisor.Lifecycle.{stop_requested, shutdown_timeout, acked}
use embassy_supervisor.Node.Task.{has_flag, on_handle, signal_shutdown, set_running, release_claims}
use embassy_supervisor.Stop.{
  Plan, Wave, Tick, Outcome, returned, backwards, unsignaled, stamp, held, signal_one, collect_one,
  check_one, expire, timeout_fault, due, all_resolved, signal_phase, collect_phase, check_phase,
  after_check, turn, start_wave, changed,
}
use embassy_supervisor.Stop.Loops.{each_alone, count-backwards}
use embassy_supervisor.Control.{stop_plan}
use embassy_supervisor.Verbs.{Fleet}
use embassy_supervisor.Single.{
  AckWait, Verb, fails, stop_node, shutdown_and_wait, await_ack, wait_dropped,
}

-- A node behind a wait that took the latch of its acknowledgement.
abbrev pub taken : Site → Site
taken s = on_handle (λ h. record h { dropped_wake = false }) s

untaken : (s : Site) → s.handle.dropped_wake ≡ false → taken s ≡ s
untaken s h = ap (λ b. on_handle (λ g. record g { dropped_wake = b }) s) (sym h)

-- The wave and the verb end alike, note the same, and leave the same node but for the latch that
-- the verb's wait takes; no other node is touched.
pub record Agrees (j : ℕ) (t : Tick) (sites : ℕ → Site) (w : Wave) (o : Outcome) (v : Verb)
    : Type 0 where
  pub same_end : o ≡ v.outcome
  pub same_log : w.log ≡ v.log
  pub same_site : taken (w.sites j) ≡ v.site
  pub others : (k : ℕ) → (k == j) ≡ false → w.sites k ≡ t.change k (sites k)

module _ (fl : Fleet) (j : ℕ) where
  open fl use {graph}

  -- `stop_nodes` for the node alone.
  abbrev pub plan_alone : Plan
  plan_alone = stop_plan graph (λ k. k == j) false

  -- The wave's wait in the place of the verb's.
  abbrev pub wait_of : Tick → AckWait
  wait_of t = record { before = λ s. s; during = t.change j }

  module _ (listed : count j graph.order ≡ 1) (t : Tick) where
    once : count j (backwards graph.order) ≡ 1
    once = count-backwards j graph.order ∙ listed

    signal_alone : (w : Wave) → signal_phase plan_alone t w ≡ signal_one plan_alone t.signal_ms j w
    unfolding signal_phase signal_one
    signal_alone w =
        each_alone (signal_one plan_alone t.signal_ms) j (λ k e v. ground (arith, e))
          (backwards graph.order) once w

    collect_alone :
        (w : Wave) → collect_phase plan_alone t w ≡ collect_one plan_alone j (changed t w)
    unfolding collect_phase collect_one
    collect_alone w =
        each_alone (collect_one plan_alone) j (λ k e v. ground (arith, e)) (backwards graph.order)
          once (changed t w)

    check_alone : (w : Wave) → check_phase plan_alone t w ≡ check_one plan_alone t.check_ms j w
    unfolding check_phase check_one
    check_alone w =
        each_alone (check_one plan_alone t.check_ms) j
          (λ k e v. elim (Option-cases v.failed) [
            | inl n ↦ ground (arith, n, e)
            | inr (f, n) ↦ ground (arith, n, e)
          ])
          (backwards graph.order) once w

    module _ (sites : ℕ → Site) (free : contains j (graph.deps j) ≡ false) where
      -- What the tasks make of the signalled node.
      abbrev pub seen : Site
      seen = t.change j (on_handle signal_shutdown (sites j))

      not_held : held plan_alone (start_wave sites) j ≡ false
      unfolding held start_wave
      not_held = any_below-none graph.n _ (λ k. elim (Bool-cases (k == j)) [
        | inr e ↦ ground (arith, e)
        | inl e ↦
            let same : k ≡ j = ground (arith, e) in
            let own : contains j (graph.deps k) ≡ false =
              ap (λ i. contains j (graph.deps i)) same ∙ free in
            ground (arith, own)
      ])

      signalled : Wave
      unfolding start_wave
      signalled = record (start_wave sites) {
        sites = update sites j (on_handle signal_shutdown (sites j));
        signaled = update (λ _. unsignaled) j (stamp (t.signal_ms j));
        log = (j, stop_requested) ∷ [];
      }

      signal-signalled : signal_phase plan_alone t (start_wave sites) ≡ signalled
      unfolding signal_one start_wave signalled
      signal-signalled = signal_alone (start_wave sites) ∙ rw (==_refl j, not_held)

      site_seen : (changed t signalled).sites j ≡ seen
      unfolding signalled
      site_seen = rw (==_refl j)

      -- The wave behind the acknowledgement.
      answered_wave : Wave
      answered_wave = record (changed t signalled) {
        sites = update (changed t signalled).sites j (on_handle (set_running 0 [] false) seen);
        resolved = update (λ _. false) j true;
        progress = true;
        log = (j, acked seen.handle) ∷ (j, stop_requested) ∷ [];
      }

      collect-answered :
          has_flag dropped seen.handle ≡ true
          → collect_one plan_alone j (changed t signalled) ≡ answered_wave
      unfolding collect_one answered_wave signalled
      collect-answered e = rw (==_refl j, e)

      collect-silent :
          has_flag dropped seen.handle ≡ false
          → collect_one plan_alone j (changed t signalled) ≡ changed t signalled
      unfolding collect_one signalled
      collect-silent e = rw (==_refl j, e)

      all_resolved-answered : all_resolved plan_alone answered_wave ≡ true
      unfolding all_resolved answered_wave
      all_resolved-answered = all_below-all graph.n _ (λ k. ground arith)

      all_resolved-silent : j < graph.n → all_resolved plan_alone (changed t signalled) ≡ false
      unfolding all_resolved signalled start_wave
      all_resolved-silent below =
          elim (Bool-cases (all_resolved plan_alone (changed t signalled))) [
            | inr e ↦ e
            | inl e ↦ let own = all_below-true graph.n _ j e below in absurd (ground (arith, own))
          ]

      collect_turn :
          collect_phase plan_alone t (signal_phase plan_alone t (start_wave sites))
          ≡ collect_one plan_alone j (changed t signalled)
      collect_turn = ap (collect_phase plan_alone t) signal-signalled ∙ collect_alone signalled

      turn-answered :
          has_flag dropped seen.handle ≡ true
          → turn plan_alone t (start_wave sites) ≡ (answered_wave, returned none)
      unfolding turn answered_wave signalled start_wave
      turn-answered e = rw (collect_turn, collect-answered e, all_resolved-answered)

      late_wave : Wave
      unfolding expire
      late_wave = expire plan_alone j (changed t signalled)

      sent_at : (changed t signalled).signaled j ≡ stamp (t.signal_ms j)
      unfolding signalled
      sent_at = rw (==_refl j)

      is_sent : ((changed t signalled).signaled j == unsignaled) ≡ false
      is_sent = rw sent_at (ground arith)

      check-late :
          stamp (t.signal_ms j) + (graph.cfg j).ack_timeout ≤ t.check_ms
          → check_phase plan_alone t (changed t signalled) ≡ late_wave
      unfolding check_one signalled late_wave start_wave
      check-late late =
          let passed : ltb t.check_ms (due plan_alone (changed t signalled) j) ≡ false =
            rw sent_at (ground (arith, late)) in
          check_alone (changed t signalled) ∙ rw (is_sent, passed, ==_refl j)

      turn-late :
          j < graph.n
          → has_flag dropped seen.handle ≡ false
          → stamp (t.signal_ms j) + (graph.cfg j).ack_timeout ≤ t.check_ms
          → turn plan_alone t (start_wave sites)
            ≡ (late_wave, returned (some (timeout_fault plan_alone j)))
      unfolding turn late_wave after_check
      turn-late below e late =
          rw (collect_turn, collect-silent e, all_resolved-silent below, check-late late)

      -- The verb's wait, where the latch says what the flag says.
      waited :
          has_flag dropped (sites j).handle ≡ false
          → (sites j).handle.dropped_wake ≡ false
          → seen.handle.dropped_wake ≡ has_flag dropped seen.handle
          → wait_dropped (wait_of t) (on_handle signal_shutdown (sites j))
            ≡ (taken seen, has_flag dropped seen.handle)
      unfolding wait_dropped signal_shutdown
      waited fresh unlatched agree =
          let same = untaken (on_handle signal_shutdown (sites j)) unlatched in
          rw (fresh, unlatched, same, agree)

      verb-answered :
          has_flag running (sites j).handle ≡ true
          → has_flag detached (sites j).handle ≡ false
          → wait_dropped (wait_of t) (on_handle signal_shutdown (sites j)) ≡ (taken seen, true)
          → stop_node fl j (wait_of t) (sites j) ≡ record {
            site = on_handle (set_running 0 [] false) (taken seen);
            log = (j, acked (taken seen).handle) ∷ (j, stop_requested) ∷ [];
            outcome = returned none;
          }
      unfolding stop_node shutdown_and_wait await_ack
      verb-answered on own e = rw (on, own, e)

      verb-late :
          has_flag running (sites j).handle ≡ true
          → has_flag detached (sites j).handle ≡ false
          → wait_dropped (wait_of t) (on_handle signal_shutdown (sites j)) ≡ (taken seen, false)
          → stop_node fl j (wait_of t) (sites j)
            ≡ fails fl j shutdown_timeout ((j, stop_requested) ∷ []) (record (taken seen) {
              claims = if graph.has_claims then release_claims seen.claims else seen.claims;
            })
      unfolding stop_node shutdown_and_wait await_ack
      verb-late on own e = rw (on, own, e)

      answered-Agrees : Agrees j t sites answered_wave (returned none) (record {
        site = on_handle (set_running 0 [] false) (taken seen);
        log = (j, acked (taken seen).handle) ∷ (j, stop_requested) ∷ [];
        outcome = returned none;
      })
      unfolding answered_wave signalled set_running acked
      answered-Agrees = record {
        same_end = refl;
        same_log = refl;
        same_site = rw (==_refl j);
        others = λ k e. ground (arith, e);
      }

      late-Agrees : Agrees j t sites late_wave (returned (some (timeout_fault plan_alone j))) (
          fails fl j shutdown_timeout ((j, stop_requested) ∷ []) (record (taken seen) {
            claims = if graph.has_claims then release_claims seen.claims else seen.claims;
          }))
      unfolding late_wave expire signalled start_wave
      late-Agrees = record {
        same_end = refl;
        same_log = refl;
        same_site = rw (==_refl j);
        others = λ k e. ground (arith, e);
      }

      -- A stop wave over one node, in the turn that decides (the node has answered, or its window
      -- is over), and `stop_node` agree over the same doings of the task: the result, the notes,
      -- the node but for the latch, and no other node is touched. The node runs, is not detached,
      -- has not dropped yet, stands once in the order and not among its own dependencies, and its
      -- latch says at the end of the wait what its flag says.
      pub turn-stop_node :
          j < graph.n
          → has_flag running (sites j).handle ≡ true
          → has_flag detached (sites j).handle ≡ false
          → has_flag dropped (sites j).handle ≡ false
          → (sites j).handle.dropped_wake ≡ false
          → seen.handle.dropped_wake ≡ has_flag dropped seen.handle
          → (has_flag dropped seen.handle ≡ true)
            ⊎ (stamp (t.signal_ms j) + (graph.cfg j).ack_timeout ≤ t.check_ms)
          → Agrees j t sites
              (turn plan_alone t (start_wave sites)).0
              (turn plan_alone t (start_wave sites)).1
              (stop_node fl j (wait_of t) (sites j))
      turn-stop_node below on own fresh unlatched agree decided =
          elim (Bool-cases (has_flag dropped seen.handle)) [
            | inl e ↦
                rw (turn-answered e, verb-answered on own (waited fresh unlatched agree ∙ rw e))
                  (answered-Agrees)
            | inr e ↦
                rw
                  (
                    turn-late below e
                        (elim decided [ inl d ↦ absurd (ground (arith, d, e)) | inr l ↦ l ]),
                    verb-late on own (waited fresh unlatched agree ∙ rw e),
                  )
                  (late-Agrees)
          ]
