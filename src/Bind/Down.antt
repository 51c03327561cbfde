-- ===== src/Bind/Down.antt =====
-- What the two halves of `apply_bind` leave down.
use embassy_supervisor.Base.{
  ℕ, ◌≡◌, refl, ◌∙◌, sym, subst, ◌==◌, Bool, true, false, ◌||◌, not, none, some, List, [], ◌∷◌,
  arith, inl, inr, Bool-cases, if_inv, contains, count_pos-contains,
}
use embassy_supervisor.Node.Flags.{running, disabled, detached, bound_stopped, collateral}
use embassy_supervisor.Node.State.{Mode, terminate, pause, on_demand, Site}
use embassy_supervisor.Node.Task.{has_flag}
use embassy_supervisor.Topology.{topo_sort_const, sorted}
use embassy_supervisor.Topology.Order.{HasShortRows, topo_sort-IsOrdered}
use embassy_supervisor.Stop.{
  Wave, Tick, Outcome, again, asleep_until, returned, panicked, each, backwards, run, start_wave,
}
use embassy_supervisor.Stop.Rule.{AllTicks, each-inv}
use embassy_supervisor.Stop.Progress.{contains-backwards}
use embassy_supervisor.Stop.Down.{IsCalm, run_ok-AllDown}
use embassy_supervisor.Control.{Selection, stop_plan}
use embassy_supervisor.Verbs.{Fleet}
use embassy_supervisor.Bind.{
  Return, Rebind, return_as, restart_bound, resume_bound, release_bound, is_returnable, return_one,
  ends_reviving, starve, mark_bound, select_bound, return_all, after_stopping, apply_bind,
}
use embassy_supervisor.Bind.Starved.{Starved, starve-Starved, Starved-live}

module _ (fl : Fleet) (set : ℕ → Bool) where
  open fl use {graph}

  abbrev IsPicked : ℕ → Selection → Type 0
  IsPicked j c = c.chosen j ≡ true

  mark-IsPicked : (x j : ℕ) (c : Selection) → IsPicked j c → IsPicked j (mark_bound fl set x c)
  unfolding mark_bound
  mark-IsPicked x j c h = ground (arith, h)

  mark_own :
      (x : ℕ) (c : Selection)
      → graph.occupied x ≡ true
      → set x ≡ true
      → IsPicked x (mark_bound fl set x c)
  unfolding mark_bound
  mark_own x c there on = ground (arith, there, on)

  mark_hits :
      (x j : ℕ) (c : Selection)
      → x ≡ j
      → graph.occupied j ≡ true
      → set j ≡ true
      → IsPicked j (mark_bound fl set x c)
  mark_hits x j c same =
      subst (λ (y : ℕ). graph.occupied y ≡ true → set y ≡ true → IsPicked y (mark_bound fl set x c))
        same (mark_own x c)

  walk-IsPicked :
      (j : ℕ)
      → graph.occupied j ≡ true
      → set j ≡ true
      → (xs : List ℕ) (c : Selection) → contains j xs ≡ true
      → IsPicked j (each (mark_bound fl set) xs c)
  unfolding each
  walk-IsPicked j there on [] c m = absurd (ground (arith, m))
  walk-IsPicked j there on (x ∷ xs) c m = elim (Bool-cases (x == j)) [
    | inl e ↦
        each-inv (IsPicked j) (mark_bound fl set) (λ y. mark-IsPicked y j) xs _
          (mark_hits x j c (ground (arith, e)) there on)
    | inr e ↦ walk-IsPicked j there on xs _ (ground (arith, m, e))
  ]

-- The second half was reached: the stop wave returned without a fault, and left this.
after_stopping-none :
    (fl : Fleet) (w : Return) (o : Outcome) (v u : Wave) (r : Rebind)
    → after_stopping fl w v o ≡ ends_reviving u r
    → (o ≡ returned none) × (v ≡ u) × (return_all fl w v.sites ≡ r)
unfolding after_stopping
after_stopping-none fl w (returned none) v u r e = (refl, cc, cc)
after_stopping-none fl w (returned (some f)) v u r e = absurd cc
after_stopping-none fl w again v u r e = absurd cc
after_stopping-none fl w (asleep_until d) v u r e = absurd cc
after_stopping-none fl w panicked v u r e = absurd cc

module _ (fl : Fleet) where
  open fl use {graph}

  -- No task marks a node running meanwhile; bound dependencies are dependencies; and the order is
  -- the one that `topo_sort_const` returned. Where `apply_bind` comes to its second half, every
  -- node that lived and was cut off from a provider, directly or through live nodes, is not
  -- running.
  pub apply_bind-Starved :
      (w : Return) (ts : List Tick) (sites : ℕ → Site) (v : Wave) (r : Rebind)
      → ((j d : ℕ) → contains d (graph.cfg j).bound_deps ≡ true → contains d (graph.deps j) ≡ true)
      → HasShortRows graph.n graph.deps
      → topo_sort_const graph.n graph.deps ≡ sorted graph.order
      → AllTicks IsCalm ts
      → apply_bind fl w true ts sites ≡ ends_reviving v r
      → (j : ℕ) → Starved fl sites j
      → has_flag running (v.sites j).handle ≡ false
  unfolding apply_bind select_bound
  apply_bind-Starved w ts sites v r listed short e calm ends j starved =
      let (lt, live) = Starved-live fl sites j starved in
      let c = select_bound fl sites in
      let p = stop_plan graph c.chosen false in
      let (ok, same, _) = after_stopping-none fl w (run p ts (start_wave c.sites)).1 _ v r ends in
      let (counts, _) = topo_sort-IsOrdered graph.n graph.deps graph.order short e in
      let placed =
        contains-backwards j graph.order
        ∙ count_pos-contains j graph.order (ground (arith, counts j, lt)) in
      let picked =
        walk-IsPicked fl (starve fl sites) j (ground (arith, live))
          ((starve-Starved fl sites listed short e j).1 starved) (backwards graph.order)
          (record { sites = sites; chosen = λ _. false }) placed in
      subst (λ (u : Wave). has_flag running (u.sites j).handle ≡ false) same
        (run_ok-AllDown p c.sites ts calm ok j lt picked).1

-- A node that is down, and that is disabled, collateral, detached or not bound-stopped.
abbrev pub IsBarred : Site → Type 0
IsBarred s =
    (has_flag running s.handle ≡ false)
    × ((has_flag disabled s.handle
          || has_flag collateral s.handle
          || has_flag detached s.handle
          || not (has_flag bound_stopped s.handle))
        ≡ true)

module _ (fl : Fleet) (w : Return) where
  open fl use {graph}

  -- A slot's return touches no other slot.
  return_as_other :
      (m : Mode) (j k : ℕ) (r : Rebind)
      → (j == k) ≡ false
      → (return_as fl w m j r).sites k ≡ r.sites k
  unfolding restart_bound resume_bound release_bound
  return_as_other terminate j k r e = ground (arith, e)
  return_as_other pause j k r e = ground (arith, e)
  return_as_other on_demand j k r e = ground (arith, e)

  Barred-not_returnable :
      (sites : ℕ → Site) (j : ℕ) → IsBarred (sites j) → is_returnable fl sites j ≡ false
  unfolding is_returnable
  Barred-not_returnable sites j (off, barred) = ground (arith, off, barred)

  -- What the others keep of a node, and what bars it from its return, the second half keeps.
  module _ (k : ℕ) (P : Site → Type 0) (barred : (s : Site) → P s → IsBarred s)
      (calm : (j : ℕ) (s : Site) → P s → P (w.others j k s)) where
    abbrev Stays : Rebind → Type 0
    Stays r = P (r.sites k)

    return_one-Stays : (j : ℕ) (r : Rebind) → Stays r → Stays (return_one fl w j r)
    unfolding return_one
    return_one-Stays j r h =
        let r' : Rebind = record r { sites = λ i. w.others j i (r.sites i) } in
        let h' = calm j (r.sites k) h in
        if_inv Stays r.waiting (λ _. h)
          (λ _.
            if_inv Stays (is_returnable fl r'.sites j)
              (λ yields. elim (Bool-cases (j == k)) [
                | inr e ↦ subst P (sym (return_as_other (graph.cfg j).mode j k r' e)) h'
                | inl e ↦
                    let same : j ≡ k = ground (arith, e) in
                    let own = subst (λ (i : ℕ). is_returnable fl r'.sites i ≡ true) same yields in
                    absurd (ground (arith, own, Barred-not_returnable r'.sites k (barred _ h')))
              ])
              (λ _. h'))

    pub return_all_kept : (sites : ℕ → Site) → P (sites k) → P ((return_all fl w sites).sites k)
    unfolding return_all
    return_all_kept sites h = each-inv Stays (return_one fl w) return_one-Stays graph.order _ h
