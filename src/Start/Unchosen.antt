-- ===== src/Start/Unchosen.antt =====
-- A node that a start wave is not asked for is touched by its task only.
use embassy_supervisor.Base.{
  ℕ, ◌≡◌, refl, ap, ◌∙◌, sym, subst, ◌==◌, if◌then◌else◌, Bool, true, false, Option, none, some,
  List, [], ◌∷◌, arith, inl, inr, Bool-cases, if_inv, option_inv, update, any,
}
use embassy_supervisor.Node.State.{Site}
use embassy_supervisor.Lifecycle.{
  FaultKind, NodeFault, spawning, started, resumed, faulted, spawn_refused,
}
use embassy_supervisor.Node.Flags.{bound_stopped}
use embassy_supervisor.Node.Task.{on_handle, set_flags, reset}
use embassy_supervisor.Stop.{goes_on, unsignaled, stamp, Outcome}
use embassy_supervisor.Stop.Rule.{each-inv}
use embassy_supervisor.Start.{
  StartPlan, StartWave, Round, Entry, note, parking, Gate, open_gate, parks, closed, resolve, gate,
  give_up, retry, try_spawn, attempt, is_parked, is_overdue, arm, visit, round, rounds, after_round,
  begin_start,
}

abbrev pub AllRounds : (Round → Type 0) → List Round → Type 0
AllRounds Allowed [] = Unit
AllRounds Allowed (r ∷ rs) = Allowed r × AllRounds Allowed rs

-- A property of one node's state that its task keeps before every visit.
abbrev pub RoundKeeps : (Site → Type 0) → ℕ → Round → Type 0
RoundKeeps P k r = (s : Site) → P s → P (r.change k s)

module _ (p : StartPlan) (k : ℕ) where
  -- The slot's state and its place in the wave.
  abbrev view : StartWave → Site × Bool
  view w = (w.sites k, w.pending k)

  module _ (r : Round) (j : ℕ) (other : (j == k) ≡ false) where
    resolve-view : (e : Entry) (s : Site) (w : StartWave) → view (resolve p r j e s w) ≡ view w
    unfolding resolve
    resolve-view e s w = rw other

    give_up-view : (f : FaultKind) (w : StartWave) → view (give_up p r j f w) ≡ view w
    unfolding give_up
    give_up-view f w =
        if_inv (λ (v : StartWave). view v ≡ view w) p.keep_going
          (λ _. resolve-view (note (faulted f)) (w.sites j) w) (λ _. refl)

    -- The attempt's reset of the slot.
    retry-view :
        (s : Site) (w : StartWave) → view (record w { sites = update w.sites j s }) ≡ view w
    retry-view s w = rw other

    try_spawn-view : (w : StartWave) → view (try_spawn p r j w) ≡ view w
    unfolding try_spawn retry
    try_spawn-view w =
        let w' : StartWave = record w { sites = update w.sites j (on_handle reset (w.sites j)) } in
        option_inv (λ (v : StartWave). view v ≡ view w) (r.refuses j)
          (resolve-view (note started) _ w)
          (λ e.
            if_inv (λ (v : StartWave). view v ≡ view w) (is_overdue p r j w)
              (λ _. give_up-view (spawn_refused e) w' ∙ retry-view _ w) (λ _. retry-view _ w))

    through_gate :
        (g : Gate) (w : StartWave)
        → view (elim g [
          | open_gate ↦ try_spawn p r j w
          | parks ↦ resolve p r j parking (on_handle (set_flags (bound_stopped ∷ [])) (w.sites j)) w
          | closed f ↦ if is_overdue p r j w then give_up p r j f w else record w { waiting = true }
        ])
          ≡ view w
    through_gate open_gate w = try_spawn-view w
    through_gate parks w = resolve-view parking _ w
    through_gate (closed f) w =
        if_inv (λ (v : StartWave). view v ≡ view w) (is_overdue p r j w) (λ _. give_up-view f w)
          (λ _. refl)

    attempt-view : (w : StartWave) → view (attempt p r j w) ≡ view w
    unfolding attempt
    attempt-view w =
        if_inv (λ (v : StartWave). view v ≡ view w) (p.self_spawned j)
          (λ _. through_gate (gate p r j w) w) (λ _. resolve-view (note started) _ w)

    arm-view : (w : StartWave) → view (arm p r j w) ≡ view w
    unfolding arm
    arm-view w =
        let w' : StartWave = record w { armed = update w.armed j (stamp (r.arm_ms j)) } in
        if_inv (λ (v : StartWave). view v ≡ view w) (w.armed j == unsignaled)
          (λ _.
            if_inv (λ (v : StartWave). view v ≡ view w) (is_parked p r j w)
              (λ _. resolve-view (note resumed) _ w')
              (λ _. attempt-view (record w' { log = (j, note spawning) ∷ w.log })))
          (λ _. attempt-view w)

  apart : (j : ℕ) (w : StartWave) → w.pending j ≡ true → w.pending k ≡ false → (j == k) ≡ false
  apart j w on off = elim (Bool-cases (j == k)) [
    | inr e ↦ e
    | inl e ↦
        let same : j ≡ k = ground (arith, e) in absurd (ground (arith, on, off, ap w.pending same))
  ]

  module _ (P : Site → Type 0) where
    -- The slot is not pending, and its node is as its task keeps it.
    abbrev Spared : StartWave → Type 0
    Spared w = P (w.sites k) × (w.pending k ≡ false)

    Spared-view : (v w : StartWave) → view v ≡ view w → Spared w → Spared v
    Spared-view v w e h = subst (λ (x : Site × Bool). P x.0 × (x.1 ≡ false)) (sym e) h

    module _ (r : Round) (kept : RoundKeeps P k r) where
      change-Spared :
          (j : ℕ) (w : StartWave)
          → Spared w
          → Spared (record w { sites = update w.sites j (r.change j (w.sites j)) })
      change-Spared j w (h, out) = (
        elim (Bool-cases (j == k)) [
          | inr e ↦ rw e h
          | inl e ↦
              let same : j ≡ k = ground (arith, e) in
              rw e (subst (λ (i : ℕ). P (r.change i (w.sites i))) (sym same) (kept (w.sites k) h))
        ],
        out,
      )

      through_failed :
          (f : Option NodeFault) (j : ℕ) (w : StartWave)
          → Spared w
          → Spared (elim f [
            | some e ↦ w
            | none ↦
                if w.pending j
                then if any w.pending (p.deps j) then record w { waiting = true } else arm p r j w
                else w
          ])
      through_failed (some e) j w h = h
      through_failed none j w h =
          if_inv Spared (w.pending j)
            (λ pending.
              if_inv Spared (any w.pending (p.deps j)) (λ _. h)
                (λ _. Spared-view (arm p r j w) w (arm-view r j (apart j w pending h.1) w) h))
            (λ _. h)

      visit-Spared : (j : ℕ) (w : StartWave) → Spared w → Spared (visit p r j w)
      unfolding visit
      visit-Spared j w h =
          let w' : StartWave = record w { sites = update w.sites j (r.change j (w.sites j)) } in
          through_failed w.failed j w' (change-Spared j w h)

      round-Spared : (w : StartWave) → Spared w → Spared (round p r w)
      unfolding round
      round-Spared w h =
          each-inv Spared (visit p r) visit-Spared p.order
            (record w { progress = false; waiting = false; own_pass = false }) h

    rounds-Spared :
        (rs : List Round) (w : StartWave)
        → AllRounds (RoundKeeps P k) rs
        → Spared w
        → Spared (rounds p rs w).0
    unfolding rounds
    rounds-Spared [] w kept h = h
    rounds-Spared (r ∷ rs) w kept h =
        let h' = round-Spared r kept.0 w h in
        if_inv (λ (x : StartWave × Outcome). Spared x.0) (goes_on (after_round p (round p r w)))
          (λ _. rounds-Spared rs (round p r w) kept.1 h') (λ _. h')

    pub rounds-unchosen :
        (rs : List Round) (chosen : ℕ → Bool) (sites : ℕ → Site)
        → chosen k ≡ false
        → AllRounds (RoundKeeps P k) rs
        → P (sites k)
        → P ((rounds p rs (begin_start chosen sites)).0.sites k)
    unfolding begin_start
    rounds-unchosen rs chosen sites out kept h =
        (rounds-Spared rs (begin_start chosen sites) kept (h, out)).0
