-- ===== src/Start/Handled.antt =====
-- Every slot that a round visits is resolved, unless the round waits or failed.
use embassy_supervisor.Base.{
  ℕ, ◌≡◌, refl, subst, ◌==◌, if◌then◌else◌, Bool, true, ◌||◌, not, Option, none, some, List, [],
  ◌∷◌, arith, inl, inr, Bool-cases, Option-cases, contains, any, update,
}
use embassy_supervisor.Node.Flags.{bound_stopped}
use embassy_supervisor.Node.State.{Site}
use embassy_supervisor.Node.Task.{on_handle, set_flags, reset}
use embassy_supervisor.Lifecycle.{
  SpawnError, FaultKind, NodeFault, spawning, started, resumed, spawn_refused,
}
use embassy_supervisor.Stop.{unsignaled, stamp, each}
use embassy_supervisor.Start.{
  StartPlan, StartWave, Round, Entry, note, parking, Gate, open_gate, parks, closed, resolve, gate,
  give_up, retry, try_spawn, attempt, arm, is_overdue, is_parked, run_now, unbind, visit, round,
}
use embassy_supervisor.Start.Rule.{Keeps, visits_inv}

module _ (p : StartPlan) where
  open p use {n, order, deps, keep_going, self_spawned}

  -- The slot is resolved, or the round waits or failed.
  abbrev pub is_handled : ℕ → StartWave → Bool
  is_handled i w = elim w.failed [ none ↦ w.waiting || not (w.pending i) | some f ↦ true ]

  abbrev pub Handled : ℕ → StartWave → Type 0
  Handled i w = is_handled i w ≡ true

  Handled-kept : (i : ℕ) → Keeps p (Handled i)
  unfolding resolve give_up
  Handled-kept i = record {
    site = λ w s h. h;
    armed_now = λ j ms w h. h;
    waits = λ w h. ground (arith, h);
    retries = λ w own ps h. ground (arith, h);
    announces = λ j w free h. h;
    resolves = λ r j s w e is free h. ground (arith, h);
    gives_up = λ r j k w free h. ground (arith, h);
  }

  module _ (r : Round) where
    give_up-Handled : (j : ℕ) (k : FaultKind) (w : StartWave) → Handled j (give_up p r j k w)
    unfolding give_up resolve
    give_up-Handled j k w = ground (arith, Option-cases w.failed)

    resolve-Handled :
        (j : ℕ) (e : Entry) (s : Site) (w : StartWave) → Handled j (resolve p r j e s w)
    unfolding resolve
    resolve-Handled j e s w = ground (arith, Option-cases w.failed)

    waits-Handled : (j : ℕ) (w : StartWave) → Handled j (record w { waiting = true })
    waits-Handled j w = ground (arith, Option-cases w.failed)

    answer-Handled :
        (a : Option SpawnError) (j : ℕ) (w : StartWave)
        → Handled j (elim a [
          | none ↦
              resolve p r j
                (note started)
                (on_handle (λ h. unbind p r (run_now p r j h)) (on_handle reset (w.sites j)))
                w
          | some e ↦
              let w' = record w { sites = update w.sites j (on_handle reset (w.sites j)) } in
              if is_overdue p r j w then give_up p r j (spawn_refused e) w' else retry p r j w'
        ])
    unfolding retry resolve
    answer-Handled none j w = resolve-Handled j (note started) (w.sites j) w
    answer-Handled (some err) j w = elim (Bool-cases (is_overdue p r j w)) [
      | inl over ↦ rw over (
          give_up-Handled j (spawn_refused err)
            (record w { sites = update w.sites j (on_handle reset (w.sites j)) }))
      | inr early ↦ rw early (ground (arith, Option-cases w.failed))
    ]

    gate-Handled :
        (g : Gate) (j : ℕ) (w : StartWave)
        → Handled j (elim g [
          | open_gate ↦ try_spawn p r j w
          | parks ↦ resolve p r j parking (on_handle (set_flags (bound_stopped ∷ [])) (w.sites j)) w
          | closed k ↦ if is_overdue p r j w then give_up p r j k w else record w { waiting = true }
        ])
    unfolding try_spawn resolve
    gate-Handled open_gate j w = answer-Handled (r.refuses j) j w
    gate-Handled parks j w = resolve-Handled j parking (w.sites j) w
    gate-Handled (closed k) j w = elim (Bool-cases (is_overdue p r j w)) [
      | inl over ↦ rw over (give_up-Handled j k w)
      | inr early ↦ rw early (waits-Handled j w)
    ]

    attempt-Handled : (j : ℕ) (w : StartWave) → Handled j (attempt p r j w)
    unfolding attempt resolve
    attempt-Handled j w = elim (Bool-cases (self_spawned j)) [
      | inl e ↦ rw e (gate-Handled (gate p r j w) j w)
      | inr e ↦ rw e (resolve-Handled j (note started) (w.sites j) w)
    ]

    arm-Handled : (j : ℕ) (w : StartWave) → Handled j (arm p r j w)
    unfolding arm resolve
    arm-Handled j w = elim (Bool-cases (w.armed j == unsignaled)) [
      | inr e ↦ rw e (attempt-Handled j w)
      | inl e ↦ rw e (elim (Bool-cases (is_parked p r j w)) [
        | inl parked ↦ rw parked (resolve-Handled j (note resumed) (w.sites j) w)
        | inr live ↦ rw live (
            attempt-Handled j (record w {
              armed = update w.armed j (stamp (r.arm_ms j));
              log = (j, note spawning) ∷ w.log;
            }))
      ])
    ]

    failed-Handled :
        (f : Option NodeFault) (j : ℕ) (w : StartWave)
        → w.failed ≡ f
        → Handled j (elim f [
          | some e ↦ w
          | none ↦
              if w.pending j
              then if any w.pending (deps j) then record w { waiting = true } else arm p r j w
              else w
        ])
    failed-Handled (some e) j w ended = ground (arith, ended)
    failed-Handled none j w going = elim (Bool-cases (w.pending j)) [
      | inr e ↦ rw e (ground (arith, e, going))
      | inl e ↦ rw e (elim (Bool-cases (any w.pending (deps j))) [
        | inl held ↦ rw held (waits-Handled j w)
        | inr clear ↦ rw clear (arm-Handled j w)
      ])
    ]

    visit-Handled : (j : ℕ) (w : StartWave) → Handled j (visit p r j w)
    unfolding visit
    visit-Handled j w =
        failed-Handled w.failed j (record w { sites = update w.sites j (r.change j (w.sites j)) })
          refl

    visits-Handled :
        (js : List ℕ) (w : StartWave) (i : ℕ)
        → contains i js ≡ true
        → Handled i (each (visit p r) js w)
    unfolding each
    visits-Handled [] w i inside = absurd (ground (arith, inside))
    visits-Handled (j ∷ js) w i inside = elim (Bool-cases (j == i)) [
      | inr e ↦ visits-Handled js (visit p r j w) i (ground (arith, inside, e))
      | inl e ↦
          visits_inv p (Handled-kept i) r js (visit p r j w)
            (subst (λ (k : ℕ). Handled k (visit p r j w)) (ground (arith, e)) (visit-Handled j w))
    ]

    pub round-Handled : (w : StartWave) (i : ℕ) → contains i order ≡ true → Handled i (round p r w)
    unfolding round
    round-Handled w i inside = visits-Handled order _ i inside
