-- ===== src/Driver/Verbs.antt =====
-- A held node, down and disabled, through one verb of the driver.
use embassy_supervisor.Base.{
  ℕ, ◌≡◌, refl, ap, ◌∙◌, sym, subst, ltb, if◌then◌else◌, Bool, true, false, ◌&&◌, not, List, [],
  ◌∷◌, arith, if_inv, update_inv,
}
use embassy_supervisor.Node.Flags.{running, disabled, collateral}
use embassy_supervisor.Node.State.{Site, WriteEntry}
use embassy_supervisor.Node.Task.{has_flag, on_handle, set_flags}
use embassy_supervisor.Stop.{Tick, backwards}
use embassy_supervisor.Stop.Rule.{AllTicks, each-inv}
use embassy_supervisor.Stop.Unchosen.{TickKeeps, run-unchosen}
use embassy_supervisor.Start.{Round}
use embassy_supervisor.Start.Unchosen.{RoundKeeps, AllRounds, rounds-unchosen}
use embassy_supervisor.Control.{
  Selection, set_disabled, is_managed, mark_down, select_down, stop_plan, deactivate,
  collect_dependents, seed,
}
use embassy_supervisor.Verbs.{Fleet, start_plan}
use embassy_supervisor.Single.{Resumes, resumes, resume_one, resume_pausable}
use embassy_supervisor.Driver.{
  latch_disabled, is_started, start_all, is_torn, teardown, is_respawned, respawn_terminate,
}

-- Down, and disabled.
pub record IsHeld (s : Site) : Type 0 where
  pub down : has_flag running s.handle ≡ false
  pub latched : has_flag disabled s.handle ≡ true

module _ (fl : Fleet) (k : ℕ) where
  open fl use {graph}

  -- The node's task keeps it so, between the turns of a stop wave and before the visits of a start wave.
  abbrev pub CalmTicks : List Tick → Type 0
  CalmTicks = AllTicks (TickKeeps IsHeld k)

  abbrev pub CalmRounds : List Round → Type 0
  CalmRounds = AllRounds (RoundKeeps IsHeld k)

  latch-IsHeld :
      (refusing : ℕ → Bool) (sites : ℕ → Site)
      → IsHeld (sites k)
      → IsHeld (latch_disabled fl refusing sites k)
  unfolding latch_disabled
  latch-IsHeld refusing sites h =
      if_inv IsHeld
        (ltb k graph.n
          && is_managed graph sites k
          && refusing k
          && not (has_flag running (sites k).handle))
        (λ _. record { down = h.down; latched = refl }) (λ _. h)

  pub start_all-IsHeld :
      (refusing : ℕ → Bool) (rs : List Round) (sites : ℕ → Site)
      → CalmRounds rs
      → IsHeld (sites k)
      → IsHeld ((start_all fl refusing rs sites).0.sites k)
  unfolding start_all is_started
  start_all-IsHeld refusing rs sites calm h =
      let h' = latch-IsHeld refusing sites h in
      rounds-unchosen (start_plan fl false) k IsHeld rs _ _ (ground (arith, h'.latched)) calm h'

  pub teardown-IsHeld :
      (keep_going : Bool) (ts : List Tick) (sites : ℕ → Site)
      → CalmTicks ts
      → IsHeld (sites k)
      → IsHeld ((teardown fl keep_going ts sites).0.sites k)
  unfolding teardown is_torn
  teardown-IsHeld keep_going ts sites calm h =
      run-unchosen (stop_plan graph _ keep_going) IsHeld k (ground (arith, h.down)) ts sites calm h

  pub respawn-IsHeld :
      (rs : List Round) (sites : ℕ → Site)
      → CalmRounds rs
      → IsHeld (sites k)
      → IsHeld ((respawn_terminate fl rs sites).0.sites k)
  unfolding respawn_terminate is_respawned
  respawn-IsHeld rs sites calm h =
      rounds-unchosen (start_plan fl false) k IsHeld rs _ sites (ground (arith, h.latched)) calm h

  resume_one-IsHeld :
      (tick : ℕ → ℕ) (writes : ℕ → List WriteEntry) (j : ℕ) (r : Resumes)
      → IsHeld (r.sites k)
      → IsHeld ((resume_one fl tick writes j r).sites k)
  unfolding resume_one resumes
  resume_one-IsHeld tick writes j r h =
      if_inv (λ (x : Resumes). IsHeld (x.sites k)) (graph.occupied j && resumes fl j (r.sites j))
        (λ yes. update_inv IsHeld r.sites j _ k h (λ same. absurd (
          ground
            (arith, yes, h.latched, ap (λ (i : ℕ). has_flag disabled (r.sites i).handle) same))))
        (λ _. h)

  pub resume_pausable-IsHeld :
      (tick : ℕ → ℕ) (writes : ℕ → List WriteEntry) (sites : ℕ → Site)
      → IsHeld (sites k)
      → IsHeld ((resume_pausable fl tick writes sites).sites k)
  unfolding resume_pausable
  resume_pausable-IsHeld tick writes sites h =
      if_inv (λ (r : Resumes). IsHeld (r.sites k)) fl.has_pause
        (λ _.
          each-inv (λ (r : Resumes). IsHeld (r.sites k)) (resume_one fl tick writes)
            (resume_one-IsHeld tick writes) graph.order _ h)
        (λ _. h)

  marked-IsHeld :
      (b : Bool) (s : Site)
      → IsHeld s
      → IsHeld (on_handle (if b then set_disabled true else set_flags (collateral ∷ [])) s)
  marked-IsHeld true s h = record { down = h.down; latched = refl }
  marked-IsHeld false s h = record { down = h.down; latched = h.latched }

  -- A choice that leaves the node held, and does not take it.
  record Passes (c : Selection) : Type 0 where
    held : IsHeld (c.sites k)
    out : c.chosen k ≡ false

  mark_down-Passes :
      (seeds set : ℕ → Bool) (j : ℕ) (c : Selection)
      → Passes c
      → Passes (mark_down graph seeds set j c)
  unfolding mark_down
  mark_down-Passes seeds set j c h =
      if_inv Passes (is_managed graph c.sites j && set j)
        (λ _. record {
          held = update_inv IsHeld c.sites j _ k h.held (λ same.
              marked-IsHeld (seeds j) (c.sites j)
                (subst (λ (i : ℕ). IsHeld (c.sites i)) (sym same) h.held));
          out =
              update_inv (λ b. b ≡ false) c.chosen j _ k h.out
                (λ same. ap (λ (i : ℕ). has_flag running (c.sites i).handle) same ∙ h.held.down);
        })
        (λ _. h)

  pub deactivate-IsHeld :
      (target : ℕ) (ts : List Tick) (sites : ℕ → Site)
      → CalmTicks ts
      → IsHeld (sites k)
      → IsHeld ((deactivate graph target ts sites).0.sites k)
  unfolding deactivate select_down
  deactivate-IsHeld target ts sites calm h =
      let seeds = seed graph target in
      let set = collect_dependents graph sites seeds in
      let start : Selection = record { sites = sites; chosen = λ _. false } in
      let c = select_down graph seeds set sites in
      let passed : Passes c =
        each-inv Passes (mark_down graph seeds set) (mark_down-Passes seeds set)
          (backwards graph.order) start (record { held = h; out = refl }) in
      run-unchosen (stop_plan graph c.chosen false) IsHeld k passed.out ts c.sites calm passed.held
