-- ===== src/Control/Down.antt =====
-- A deactivation that meets no fault takes down the target, its pool, and all that depends on them.
use mathlib.Core.List.{append_assoc, append-nil}
use embassy_supervisor.Base.{
  ℕ, ◌<◌, ◌≡◌, refl, ap, subst, ◌∙◌, ◌==◌, if◌then◌else◌, Bool, true, false, ◌&&◌, none, List, [],
  ◌∷◌, ◌++◌, arith, inl, inr, Bool-cases, update, contains, count_pos-contains, contains-append,
}
use embassy_supervisor.Node.Flags.{running, detached, collateral}
use embassy_supervisor.Node.State.{Site}
use embassy_supervisor.Node.Task.{has_flag, on_handle, set_flags, signal_shutdown, set_running}
use embassy_supervisor.Topology.{topo_sort_const, sorted}
use embassy_supervisor.Topology.Order.{HasShortRows, topo_sort-IsOrdered}
use embassy_supervisor.Stop.{
  Plan, Wave, Tick, returned, each, backwards, signal_one, collect_one, check_one, expire,
  start_wave,
}
use embassy_supervisor.Stop.Rule.{AllTicks, Keeps, run_inv}
use embassy_supervisor.Stop.Progress.{contains-backwards}
use embassy_supervisor.Stop.Down.{IsCalm, run_ok-AllDown}
use embassy_supervisor.Control.{
  Graph, Selection, set_disabled, is_managed, seed, collect_dependents, mark_down, select_down,
  stop_plan, deactivate,
}
use embassy_supervisor.Control.Closure.{Affected, collect_dependents-Affected}

-- A node that is not running stays so in a wave.
module _ (p : Plan) (k : ℕ) where
  abbrev pub IsDown : Wave → Type 0
  IsDown w = has_flag running (w.sites k).handle ≡ false

  same_site : (j : ℕ) (w : Wave) → IsDown w → j ≡ k → has_flag running (w.sites j).handle ≡ false
  same_site j w h e = ap (λ (i : ℕ). has_flag running (w.sites i).handle) e ∙ h

  pub IsDown-keeps : Keeps p IsDown IsCalm
  unfolding signal_one signal_shutdown collect_one set_running check_one expire
  IsDown-keeps = record {
    signal = λ clock j w h. ground (arith, h, same_site j w h);
    change = λ t w calm h. calm k (w.sites k) h;
    collect = λ j w h. ground (arith, h);
    check = λ now j w h. ground (arith, h, same_site j w h);
  }

-- A write to a slot that keeps a reading of it keeps the reading of every slot.
update_same :
    (read : Site → Bool) (sites : ℕ → Site) (x : ℕ) (v : Site)
    → read v ≡ read (sites x)
    → (j : ℕ) → read (update sites x v j) ≡ read (sites j)
update_same read sites x v e j = elim (Bool-cases (x == j)) [
  | inl here ↦ rw here (e ∙ ap (λ (i : ℕ). read (sites i)) (ground (arith, here)))
  | inr other ↦ rw other
]

module _ (g : Graph) (seeds set : ℕ → Bool) (sites : ℕ → Site) where
  open g use {order}

  -- Behind the walk: who was managed still is, who ran still runs, and the chosen are those of the
  -- set that run.
  pub record Marks (seen : List ℕ) (c : Selection) : Type 0 where
    pub managed : (j : ℕ) → is_managed g c.sites j ≡ is_managed g sites j
    pub same_running :
        (j : ℕ) → has_flag running (c.sites j).handle ≡ has_flag running (sites j).handle
    pub picked :
        (j : ℕ)
        → contains j seen ≡ true
        → is_managed g sites j ≡ true
        → set j ≡ true
        → c.chosen j ≡ has_flag running (sites j).handle

  abbrev marked : ℕ → Selection → Site
  marked x c =
      on_handle (if seeds x then set_disabled true else set_flags (collateral ∷ [])) (c.sites x)

  mark-detached :
      (x : ℕ) (c : Selection) (j : ℕ)
      → has_flag detached ((mark_down g seeds set x c).sites j).handle
        ≡ has_flag detached (c.sites j).handle
  unfolding mark_down
  mark-detached x c j = elim (Bool-cases (is_managed g c.sites x && set x)) [
    | inl e ↦
        rw e (update_same (λ s. has_flag detached s.handle) c.sites x (marked x c) (ground arith) j)
    | inr e ↦ rw e
  ]

  mark-running :
      (x : ℕ) (c : Selection) (j : ℕ)
      → has_flag running ((mark_down g seeds set x c).sites j).handle
        ≡ has_flag running (c.sites j).handle
  unfolding mark_down
  mark-running x c j = elim (Bool-cases (is_managed g c.sites x && set x)) [
    | inl e ↦
        rw e (update_same (λ s. has_flag running s.handle) c.sites x (marked x c) (ground arith) j)
    | inr e ↦ rw e
  ]

  mark-chosen :
      (x : ℕ) (c : Selection) (j : ℕ)
      → (x == j) ≡ false
      → (mark_down g seeds set x c).chosen j ≡ c.chosen j
  unfolding mark_down
  mark-chosen x c j e = ground (arith, e)

  mark-chosen_here :
      (x : ℕ) (c : Selection)
      → is_managed g c.sites x ≡ true
      → set x ≡ true
      → (mark_down g seeds set x c).chosen x ≡ has_flag running (c.sites x).handle
  unfolding mark_down
  mark-chosen_here x c mg on = ground (arith, mg, on)

  mark-Marks :
      (seen : List ℕ) (x : ℕ) (c : Selection)
      → Marks seen c
      → Marks (seen ++ x ∷ []) (mark_down g seeds set x c)
  mark-Marks seen x c m = record {
    managed = λ j. ground (arith, mark-detached x c j, m.managed j);
    same_running = λ j. mark-running x c j ∙ m.same_running j;
    picked = λ j inside mg on. elim (Bool-cases (x == j)) [
      | inr e ↦
          mark-chosen x c j e
          ∙ m.picked j (ground (arith, inside, e, contains-append j seen (x ∷ []))) mg on
      | inl e ↦
          subst
            (λ (i : ℕ).
              is_managed g sites i ≡ true
              → set i ≡ true
              → (mark_down g seeds set x c).chosen i ≡ has_flag running (sites i).handle)
            (ground (arith, e))
            (λ mg' on'. mark-chosen_here x c (m.managed x ∙ mg') on' ∙ m.same_running x) mg on
    ];
  }

  walk-Marks :
      (seen xs : List ℕ) (c : Selection)
      → Marks seen c
      → Marks (seen ++ xs) (each (mark_down g seeds set) xs c)
  unfolding each
  walk-Marks seen [] c m = rw append-nil m
  walk-Marks seen (x ∷ xs) c m =
      rw append_assoc at
        (walk-Marks (seen ++ x ∷ []) xs (mark_down g seeds set x c) (mark-Marks seen x c m))

  pub select-Marks : Marks (backwards order) (select_down g seeds set sites)
  unfolding select_down
  select-Marks =
      walk-Marks [] (backwards order) (record { sites = sites; chosen = λ _. false })
        (record {
          managed = λ j. refl;
          same_running = λ j. refl;
          picked = λ j inside. absurd (ground (arith, inside));
        })

-- The order is the one that `topo_sort_const` returned, and no task marks a node running meanwhile.
-- A deactivation that returns without a fault leaves no managed node of the graph running that is
-- the target or in its pool, or that depends on one through managed nodes.
pub deactivate-down :
    (g : Graph) (target : ℕ) (ts : List Tick) (sites : ℕ → Site)
    → HasShortRows g.n g.deps
    → topo_sort_const g.n g.deps ≡ sorted g.order
    → AllTicks IsCalm ts
    → (deactivate g target ts sites).1 ≡ returned none
    → (j : ℕ) → j < g.n
    → is_managed g sites j ≡ true
    → Affected g sites (seed g target) j
    → has_flag running ((deactivate g target ts sites).0.sites j).handle ≡ false
unfolding deactivate start_wave select_down
deactivate-down g target ts sites short e calm ok j lt managed a =
    let seeds = seed g target in
    let set = collect_dependents g sites seeds in
    let c = select_down g seeds set sites in
    let marks = select-Marks g seeds set sites in
    let (counts, _) = topo_sort-IsOrdered g.n g.deps g.order short e in
    let placed =
      contains-backwards j g.order ∙ count_pos-contains j g.order (ground (arith, counts j, lt)) in
    let inside = (collect_dependents-Affected g sites seeds short e j).1 a in
    elim (Bool-cases (has_flag running (sites j).handle)) [
      | inl up ↦
          (run_ok-AllDown (stop_plan g c.chosen false) c.sites ts calm ok j lt
            (marks.picked j placed managed inside ∙ up)).1
      | inr down ↦
          run_inv (stop_plan g c.chosen false) (IsDown-keeps (stop_plan g c.chosen false) j) ts
            (start_wave c.sites) calm (marks.same_running j ∙ down)
    ]
