-- ===== src/Start/Result.antt =====
-- What a start wave's result says of the nodes.
use embassy_supervisor.Base.{
  ℕ, ◌<◌, ◌≡◌, ◌≢◌, ◌⊎◌, refl, ap, sym, ◌∙◌, Bool, true, false, Option, none, some, List, [], ◌∷◌,
  arith, inl, inr, Bool-cases, Option-cases, contains, count_pos-contains,
}
use embassy_supervisor.Node.State.{Site}
use embassy_supervisor.Lifecycle.{
  NodeFault, spawning, started, resumed, stop_requested, stopped, exited, faulted,
}
use embassy_supervisor.Topology.{topo_sort_const, sorted}
use embassy_supervisor.Topology.Order.{HasShortRows, topo_sort-IsOrdered}
use embassy_supervisor.Stop.{Outcome, returned, goes_on}
use embassy_supervisor.Start.{
  StartPlan, StartWave, Round, Entry, note, parking, resolve, give_up, first_error, round, rounds,
  next_due, after_round, begin_start,
}
use embassy_supervisor.Start.Rule.{is_up, Keeps, KeepsFresh, round_inv}
use embassy_supervisor.Start.Order.{logged}
use embassy_supervisor.Start.Handled.{round-Handled}

abbrev pub is_failure : Entry → Bool
is_failure (note (faulted k)) = true
is_failure e = false

first_error-cases :
    (o : Option NodeFault) (g f : NodeFault) → first_error o g ≡ some f → (o ≡ some f) ⊎ (g ≡ f)
first_error-cases none g f e =
    inr (ap (λ (q : Option NodeFault). elim q [ none ↦ g | some x ↦ x ]) e)
first_error-cases (some h) g f e = inl e

first_error-some : (o : Option NodeFault) (g : NodeFault) → first_error o g ≢ none
first_error-some none g e = absurd (ground (arith, e))
first_error-some (some h) g e = absurd (ground (arith, e))

same_node : (g f : NodeFault) → some g ≡ some f → g.node ≡ f.node
same_node g f e = ap (λ (q : Option NodeFault). elim q [ none ↦ g.node | some x ↦ x.node ]) e

abbrev fault_of : Outcome → Option NodeFault
fault_of (returned r) = r
fault_of _ = none

module _ (p : StartPlan) (chosen : ℕ → Bool) where
  open p use {n, order, deps, keep_going, self_spawned}

  -- Faults on record are in the log, and without one there is none; what is resolved came up then.
  record Inv (w : StartWave) : Type 0 where
    recorded : (f : NodeFault) → w.first_err ≡ some f → logged is_failure f.node w.log ≡ true
    returning : (f : NodeFault) → w.failed ≡ some f → logged is_failure f.node w.log ≡ true
    clean : w.first_err ≡ none → w.failed ≡ none → (k : ℕ) → logged is_failure k w.log ≡ false
    up :
        w.first_err ≡ none
        → (k : ℕ) → chosen k ≡ true
        → w.pending k ≡ false
        → logged is_up k w.log ≡ true

  up-not-failure : (e : Entry) → is_up e ≡ true → is_failure e ≡ false
  up-not-failure (note started) h = refl
  up-not-failure (note resumed) h = refl
  up-not-failure parking h = refl
  up-not-failure (note spawning) h = refl
  up-not-failure (note stop_requested) h = refl
  up-not-failure (note stopped) h = refl
  up-not-failure (note exited) h = refl
  up-not-failure (note (faulted k)) h = absurd (ground (arith, h))

  Inv-kept : Keeps p Inv
  unfolding resolve give_up
  Inv-kept = record {
    site = λ w s inv. record {
      recorded = inv.recorded;
      returning = inv.returning;
      clean = inv.clean;
      up = inv.up;
    };
    armed_now = λ j ms w inv. record {
      recorded = inv.recorded;
      returning = inv.returning;
      clean = inv.clean;
      up = inv.up;
    };
    waits = λ w inv. record {
      recorded = inv.recorded;
      returning = inv.returning;
      clean = inv.clean;
      up = inv.up;
    };
    retries = λ w own ps inv. record {
      recorded = inv.recorded;
      returning = inv.returning;
      clean = inv.clean;
      up = inv.up;
    };
    announces = λ j w free inv. record {
      recorded = λ f e. ground (arith, inv.recorded f e);
      returning = λ f e. ground (arith, inv.returning f e);
      clean = λ e e' k. ground (arith, inv.clean e e' k);
      up = λ e k c off. ground (arith, inv.up e k c off);
    };
    resolves = λ r j s w e is free inv. record {
      recorded = λ f err. ground (arith, inv.recorded f err);
      returning = λ f err. ground (arith, inv.returning f err);
      clean = λ err err' k. ground (arith, inv.clean err err' k, up-not-failure e is);
      up = λ err k c. ground (arith, inv.up err k c, is);
    };
    gives_up = λ r j k w free inv. elim (Bool-cases keep_going) [
      | inl e ↦ rw e (record {
        recorded = λ f err. elim (first_error-cases w.first_err _ f err) [
          | inl old ↦ ground (arith, inv.recorded f old)
          | inr new ↦ ground (arith, ap (λ (g : NodeFault). g.node) new)
        ];
        returning = λ f err. ground (arith, err, free);
        clean = λ err. absurd (first_error-some w.first_err _ err);
        up = λ err. absurd (first_error-some w.first_err _ err);
      })
      | inr e ↦ rw e (record {
        recorded = λ f err. ground (arith, inv.recorded f err);
        returning = λ f err. ground (arith, same_node _ f err);
        clean = λ err err'. absurd (ground (arith, err'));
        up = λ err i c off. ground (arith, inv.up err i c off);
      })
    ];
  }

  Inv-fresh : KeepsFresh Inv
  Inv-fresh w inv = record {
    recorded = inv.recorded;
    returning = inv.returning;
    clean = inv.clean;
    up = inv.up;
  }

  begin-Inv : (sites : ℕ → Site) → Inv (begin_start chosen sites)
  unfolding begin_start
  begin-Inv sites = record {
    recorded = λ f e. absurd (ground (arith, e));
    returning = λ f e. absurd (ground (arith, e));
    clean = λ e e' k. refl;
    up = λ e k c off. absurd (ground (arith, c, off));
  }

  -- No fault was noted and every chosen slot came up or is parked; or the fault that is returned
  -- was noted for its node.
  abbrev pub Tells : Option NodeFault → StartWave → Type 0
  Tells none w =
      ((k : ℕ) → logged is_failure k w.log ≡ false)
      × ((k : ℕ) → k < n → chosen k ≡ true → logged is_up k w.log ≡ true)
  Tells (some f) w = logged is_failure f.node w.log ≡ true

  return_cases :
      (w : StartWave) (r : Option NodeFault)
      → after_round p w ≡ returned r
      → (w.failed ≡ r) × (r ≢ none) ⊎ (w.failed ≡ none) × (w.waiting ≡ false) × (w.first_err ≡ r)
  unfolding after_round
  return_cases w r e = elim (Option-cases w.failed) [
    | inr (f, ended) ↦
        let value : fault_of (after_round p w) ≡ some f = rw ended refl in
        let same : r ≡ some f = ap fault_of (sym e) ∙ value in
        inl (ended ∙ sym same, λ none_r. absurd (ground (arith, same, none_r)))
    | inl going ↦ elim (Bool-cases w.waiting) [
      | inl waits ↦ absurd (ground (arith, e, going, waits, Option-cases (next_due p order w)))
      | inr idle ↦
          let value : fault_of (after_round p w) ≡ w.first_err = rw going (rw idle refl) in
          inr (going, idle, sym value ∙ ap fault_of e)
    ]
  ]

  round-Tells :
      ((k : ℕ) → k < n → contains k order ≡ true)
      → (q : Round) (w : StartWave) → Inv w
      → (r : Option NodeFault) → after_round p (round p q w) ≡ returned r
      → Tells r (round p q w)
  round-Tells full q w inv none e = elim (return_cases (round p q w) none e) [
    | inl (_, bad) ↦ absurd (bad refl)
    | inr (going, idle, clean) ↦
        let after = round_inv p Inv-kept q Inv-fresh w inv in
        (
          after.clean clean going,
          λ k lt c.
              after.up clean k c (ground (arith, round-Handled p q w k (full k lt), going, idle)),
        )
  ]
  round-Tells full q w inv (some f) e =
      let after = round_inv p Inv-kept q Inv-fresh w inv in
      elim (return_cases (round p q w) (some f) e) [
        | inl (ended, _) ↦ after.returning f ended
        | inr (_, _, first) ↦ after.recorded f first
      ]

  rounds-Tells :
      ((k : ℕ) → k < n → contains k order ≡ true)
      → (rs : List Round) (w : StartWave) (r : Option NodeFault) → Inv w
      → (rounds p rs w).1 ≡ returned r
      → Tells r (rounds p rs w).0
  unfolding rounds
  rounds-Tells full [] w r inv = λ e. absurd (ground (arith, e))
  rounds-Tells full (q ∷ qs) w r inv = elim (Bool-cases (goes_on (after_round p (round p q w)))) [
    | inl e ↦ rw e (rounds-Tells full qs (round p q w) r (round_inv p Inv-kept q Inv-fresh w inv))
    | inr e ↦ rw e (round-Tells full q w inv r)
  ]

-- The order is the one that `topo_sort_const` returned. If a start wave returns without a fault then
-- it noted none, and every chosen slot was started, resumed or parked for a bound dependency. If
-- it returns a fault then it noted a fault of the node that is named.
pub start-result :
    (p : StartPlan) (chosen : ℕ → Bool) (sites : ℕ → Site) (rs : List Round) (r : Option NodeFault)
    → HasShortRows p.n p.deps
    → topo_sort_const p.n p.deps ≡ sorted p.order
    → (rounds p rs (begin_start chosen sites)).1 ≡ returned r
    → Tells p chosen r (rounds p rs (begin_start chosen sites)).0
start-result p chosen sites rs r short e ends =
    let (counts, _) = topo_sort-IsOrdered p.n p.deps p.order short e in
    rounds-Tells p chosen (λ k lt. count_pos-contains k p.order (ground (arith, counts k, lt))) rs
      (begin_start chosen sites) r (begin-Inv p chosen sites) ends
