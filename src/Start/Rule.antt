-- ===== src/Start/Rule.antt =====
-- The proof rule of the start wave: what each of its actions keeps, the wave keeps.
use embassy_supervisor.Base.{
  ℕ, ◌≡◌, refl, ◌==◌, if◌then◌else◌, Bool, true, false, ◌||◌, Option, none, some, List, [], ◌∷◌,
  any, inl, inr, Bool-cases, update,
}
use embassy_supervisor.Node.Flags.{bound_stopped}
use embassy_supervisor.Node.State.{Site}
use embassy_supervisor.Node.Task.{on_handle, set_flags, reset}
use embassy_supervisor.Lifecycle.{
  SpawnError, FaultKind, NodeFault, started, resumed, spawning, spawn_refused,
}
use embassy_supervisor.Stop.{goes_on, each, unsignaled, stamp}
use embassy_supervisor.Start.{
  StartPlan, StartWave, Round, Entry, note, parking, Gate, open_gate, parks, closed, resolve, gate,
  give_up, retry, unbind, run_now, try_spawn, attempt, is_parked, is_overdue, arm, visit, round,
  rounds, after_round,
}

-- A node that came up, or was left parked for a bound dependency.
abbrev pub is_up : Entry → Bool
is_up (note started) = true
is_up (note resumed) = true
is_up parking = true
is_up _ = false

-- A round's start resets its locals.
abbrev pub KeepsFresh : (StartWave → Type 0) → Type 0
KeepsFresh P =
    (w : StartWave) → P w → P (record w { progress = false; waiting = false; own_pass = false })

module _ (p : StartPlan) where
  open p use {deps, order, self_spawned}

  -- What a wave keeps, by the actions that it is made of. `Free j w` says that the slot `j` is
  -- pending and none of its dependencies is.
  abbrev pub Free : ℕ → StartWave → Type 0
  Free j w = (w.pending j ≡ true) × (any w.pending (deps j) ≡ false) × (w.failed ≡ none)

  pub record Keeps (P : StartWave → Type 0) : Type 0 where
    pub site : (w : StartWave) (sites : ℕ → Site) → P w → P (record w { sites = sites })
    pub armed_now :
        (j ms : ℕ) (w : StartWave) → P w → P (record w { armed = update w.armed j (stamp ms) })
    pub waits : (w : StartWave) → P w → P (record w { waiting = true })
    pub retries :
        (w : StartWave) (own : Bool) (passes : List ℕ)
        → P w
        → P (record w { waiting = true; own_pass = w.own_pass || own; passes = passes })
    pub announces :
        (j : ℕ) (w : StartWave) → Free j w → P w → P (record w { log = (j, note spawning) ∷ w.log })
    pub resolves :
        (r : Round) (j : ℕ) (s : Site) (w : StartWave) (e : Entry)
        → is_up e ≡ true
        → Free j w
        → P w
        → P (resolve p r j e s w)
    pub gives_up :
        (r : Round) (j : ℕ) (k : FaultKind) (w : StartWave) → Free j w → P w → P (give_up p r j k w)

  module _ {P : StartWave → Type 0} (keeps : Keeps P) (r : Round) where
    open keeps use {site, armed_now, waits, retries, announces, resolves, gives_up}

    through_answer :
        (a : Option SpawnError) (j : ℕ) (w : StartWave)
        → Free j w
        → P w
        → P (elim a [
          | none ↦
              resolve p r j
                (note started)
                (on_handle (λ h. unbind p r (run_now p r j h)) (on_handle reset (w.sites j)))
                w
          | some e ↦
              let w' = record w { sites = update w.sites j (on_handle reset (w.sites j)) } in
              if is_overdue p r j w then give_up p r j (spawn_refused e) w' else retry p r j w'
        ])
    unfolding retry
    through_answer none j w free h = resolves r j _ w (note started) refl free h
    through_answer (some err) j w free h = elim (Bool-cases (is_overdue p r j w)) [
      | inl over ↦ rw over (gives_up r j (spawn_refused err) _ free (site w _ h))
      | inr early ↦ rw early (retries _ _ _ (site w _ h))
    ]

    try_spawn_inv : (j : ℕ) (w : StartWave) → Free j w → P w → P (try_spawn p r j w)
    unfolding try_spawn
    try_spawn_inv j w free h = through_answer (r.refuses j) j w free h

    through_gate :
        (g : Gate) (j : ℕ) (w : StartWave)
        → Free j w
        → P w
        → P (elim g [
          | open_gate ↦ try_spawn p r j w
          | parks ↦ resolve p r j parking (on_handle (set_flags (bound_stopped ∷ [])) (w.sites j)) w
          | closed k ↦ if is_overdue p r j w then give_up p r j k w else record w { waiting = true }
        ])
    through_gate open_gate j w free h = try_spawn_inv j w free h
    through_gate parks j w free h = resolves r j _ w parking refl free h
    through_gate (closed k) j w free h = elim (Bool-cases (is_overdue p r j w)) [
      | inl over ↦ rw over (gives_up r j k w free h)
      | inr early ↦ rw early (waits w h)
    ]

    pub attempt_inv : (j : ℕ) (w : StartWave) → Free j w → P w → P (attempt p r j w)
    unfolding attempt
    attempt_inv j w free h = elim (Bool-cases (self_spawned j)) [
      | inl e ↦ rw e (through_gate (gate p r j w) j w free h)
      | inr e ↦ rw e (resolves r j _ w (note started) refl free h)
    ]

    arm_inv : (j : ℕ) (w : StartWave) → Free j w → P w → P (arm p r j w)
    unfolding arm
    arm_inv j w free h = elim (Bool-cases (w.armed j == unsignaled)) [
      | inr e ↦ rw e (attempt_inv j w free h)
      | inl e ↦ rw e (elim (Bool-cases (is_parked p r j w)) [
        | inl parked ↦
            rw parked (resolves r j _ _ (note resumed) refl free (armed_now j (r.arm_ms j) w h))
        | inr live ↦ rw live (
            attempt_inv j
              (record w {
                armed = update w.armed j (stamp (r.arm_ms j));
                log = (j, note spawning) ∷ w.log;
              })
              free (announces j _ free (armed_now j (r.arm_ms j) w h)))
      ])
    ]

    through_failed :
        (f : Option NodeFault) (j : ℕ) (w : StartWave)
        → w.failed ≡ f
        → P w
        → P (elim f [
          | some e ↦ w
          | none ↦
              if w.pending j
              then if any w.pending (deps j) then record w { waiting = true } else arm p r j w
              else w
        ])
    through_failed (some e) j w going h = h
    through_failed none j w going h = elim (Bool-cases (w.pending j)) [
      | inr e ↦ rw e h
      | inl e ↦ rw e (elim (Bool-cases (any w.pending (deps j))) [
        | inl held ↦ rw held (waits w h)
        | inr clear ↦ rw clear (arm_inv j w (e, clear, going) h)
      ])
    ]

    pub visit_inv : (j : ℕ) (w : StartWave) → P w → P (visit p r j w)
    unfolding visit
    visit_inv j w h = through_failed w.failed j _ refl (site w _ h)

    pub visits_inv : (js : List ℕ) (w : StartWave) → P w → P (each (visit p r) js w)
    unfolding each
    visits_inv [] w h = h
    visits_inv (j ∷ js) w h = visits_inv js (visit p r j w) (visit_inv j w h)

    pub round_inv : KeepsFresh P → (w : StartWave) → P w → P (round p r w)
    unfolding round
    round_inv fresh w h = visits_inv order _ (fresh w h)

  pub rounds_inv :
      {P : StartWave → Type 0}
      → Keeps P
      → KeepsFresh P
      → (rs : List Round) (w : StartWave) → P w
      → P (rounds p rs w).0
  unfolding rounds
  rounds_inv keeps fresh [] w h = h
  rounds_inv keeps fresh (r ∷ rs) w h = elim (Bool-cases (goes_on (after_round p (round p r w)))) [
    | inl e ↦ rw e (rounds_inv keeps fresh rs (round p r w) (round_inv keeps r fresh w h))
    | inr e ↦ rw e (round_inv keeps r fresh w h)
  ]
