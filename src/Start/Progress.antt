-- ===== src/Start/Progress.antt =====
-- A start wave that waits has armed a pending node: its `expect` never fails.
use embassy_supervisor.Base.{
  ℕ, ◌+◌, ◌≡◌, ◌≢◌, refl, ap, subst, ◌∙◌, ◌==◌, if◌then◌else◌, Bool, true, false, ◌&&◌, ◌||◌, not,
  Option, none, some, List, [], ◌∷◌, ◌++◌, arith, inl, inr, Bool-cases, Option-cases, any, contains,
  subset-contains, update,
}
use embassy_supervisor.Lifecycle.{NodeFault, spawning}
use embassy_supervisor.Topology.{topo_sort_const, sorted}
use embassy_supervisor.Topology.Invariant.{IsOrdered}
use embassy_supervisor.Topology.Order.{HasShortRows, topo_sort-IsOrdered}
use embassy_supervisor.Control.Closure.{any-elim, any-intro}
use embassy_supervisor.Stop.{panicked, goes_on, unsignaled, stamp, each}
use embassy_supervisor.Start.{
  StartPlan, StartWave, Round, note, resolve, give_up, sooner, next_due, round, rounds, after_round,
  visit, arm, is_parked,
}
use embassy_supervisor.Start.Rule.{Free, Keeps, attempt_inv, visit_inv, visits_inv}

module _ (p : StartPlan) where
  open p use {n, deps, order, cfg, keep_going}

  -- Something moved in the round, or the wave failed.
  abbrev pub has_moved : StartWave → Bool
  has_moved w = elim w.failed [ none ↦ w.progress || w.own_pass | some f ↦ true ]

  abbrev Moved : StartWave → Type 0
  Moved w = has_moved w ≡ true

  Moved-kept : Keeps p Moved
  unfolding resolve give_up
  Moved-kept = record {
    site = λ w s h. h;
    armed_now = λ j ms w h. h;
    waits = λ w h. h;
    retries = λ w own ps h. ground (arith, h);
    announces = λ j w free h. h;
    resolves = λ r j s w e is free h. ground (arith, h);
    gives_up = λ r j k w free h. ground (arith, h);
  }

  -- While nothing moved, the pending slots are those of the round's start.
  abbrev Still : (ℕ → Bool) → StartWave → Type 0
  Still before w = has_moved w ≡ false → (k : ℕ) → w.pending k ≡ before k

  Still-kept : (before : ℕ → Bool) → Keeps p (Still before)
  unfolding resolve give_up
  Still-kept before = record {
    site = λ w s h. h;
    armed_now = λ j ms w h. h;
    waits = λ w h. h;
    retries = λ w own ps h e. h (ground (arith, e));
    announces = λ j w free h. h;
    resolves = λ r j s w e is free h m. absurd (ground (arith, m, free));
    gives_up = λ r j k w free h m. absurd (ground (arith, m, free));
  }

  abbrev IsArmed : ℕ → StartWave → Type 0
  IsArmed i w = (w.armed i == unsignaled) ≡ false

  IsArmed-kept : (i : ℕ) → Keeps p (IsArmed i)
  unfolding resolve give_up
  IsArmed-kept i = record {
    site = λ w s h. h;
    armed_now = λ j ms w h. ground (arith, h);
    waits = λ w h. h;
    retries = λ w own ps h. h;
    announces = λ j w free h. h;
    resolves = λ r j s w e is free h. h;
    gives_up = λ r j k w free h. ground (arith, h);
  }

  arm-IsArmed : (r : Round) (j : ℕ) (w : StartWave) → Free p j w → IsArmed j (arm p r j w)
  unfolding arm resolve
  arm-IsArmed r j w free = elim (Bool-cases (w.armed j == unsignaled)) [
    | inr e ↦ rw e (attempt_inv p (IsArmed-kept j) r j w free e)
    | inl e ↦ rw e (elim (Bool-cases (is_parked p r j w)) [
      | inl parked ↦ rw parked (ground arith)
      | inr live ↦ rw live (
          attempt_inv p (IsArmed-kept j) r j
            (record w {
              armed = update w.armed j (stamp (r.arm_ms j));
              log = (j, note spawning) ∷ w.log;
            })
            free (ground arith))
    ])
  ]

  through_going :
      (r : Round) (j : ℕ) (w : StartWave) (f : Option NodeFault)
      → w.failed ≡ f
      → Free p j w
      → IsArmed j (elim f [
        | some e ↦ w
        | none ↦
            if w.pending j
            then if any w.pending (deps j) then record w { waiting = true } else arm p r j w
            else w
      ])
  through_going r j w none e (pend, clear, going) =
      rw pend (rw clear (arm-IsArmed r j w (pend, clear, going)))
  through_going r j w (some f) e (pend, clear, going) = absurd (ground (arith, e, going))

  visit-IsArmed : (r : Round) (j : ℕ) (w : StartWave) → Free p j w → IsArmed j (visit p r j w)
  unfolding visit
  visit-IsArmed r j w free = through_going r j _ w.failed refl free

  -- A visit of a slot that is not pending changes nothing but the node.
  visit_skips :
      (r : Round) (j : ℕ) (w : StartWave)
      → w.pending j ≡ false
      → ((visit p r j w).waiting ≡ w.waiting) × ((visit p r j w).pending ≡ w.pending)
  unfolding visit
  visit_skips r j w e = elim (Option-cases w.failed) [
    | inl going ↦ rw (going, e) (refl, refl)
    | inr (f, ended) ↦ rw ended (refl, refl)
  ]

  visits_skip :
      (r : Round) (js : List ℕ) (w : StartWave)
      → any w.pending js ≡ false
      → (each (visit p r) js w).waiting ≡ w.waiting
  unfolding each
  visits_skip r [] w none_pending = refl
  visits_skip r (j ∷ js) w none_pending =
      let (same, still) = visit_skips r j w (ground (arith, none_pending)) in
      visits_skip r js (visit p r j w)
        (ap (λ (q : ℕ → Bool). any q js) still ∙ ground (arith, none_pending))
      ∙ same

  any_same : (q q' : ℕ → Bool) (xs : List ℕ) → ((k : ℕ) → q k ≡ q' k) → any q xs ≡ any q' xs
  any_same q q' [] h = refl
  any_same q q' (x ∷ xs) h = ground (arith, h x, any_same q q' xs h)

  -- A slot whose dependencies were not pending is armed by the end of a round that moved nothing.
  visits-arm :
      (r : Round) (before : ℕ → Bool) (i : ℕ) (js : List ℕ) (w : StartWave)
      → before i ≡ true
      → any before (deps i) ≡ false
      → contains i js ≡ true
      → Still before w
      → has_moved (each (visit p r) js w) ≡ false
      → IsArmed i (each (visit p r) js w)
  unfolding each
  visits-arm r before i [] w pend clear inside still quiet = absurd (ground (arith, inside))
  visits-arm r before i (j ∷ js) w pend clear inside still quiet = elim (Bool-cases (j == i)) [
    | inr e ↦
        visits-arm r before i js (visit p r j w) pend clear (ground (arith, inside, e))
          (visit_inv p (Still-kept before) r j w still) quiet
    | inl e ↦
        let unmoved : has_moved w ≡ false = elim (Bool-cases (has_moved w)) [
          | inr q ↦ q
          | inl m ↦
              let later =
                visits_inv p Moved-kept r js (visit p r j w) (visit_inv p Moved-kept r j w m) in
              absurd (ground (arith, later, quiet))
        ] in
        let going : w.failed ≡ none = elim (Option-cases w.failed) [
          | inl g ↦ g
          | inr (f, g) ↦ absurd (ground (arith, unmoved, g))
        ] in
        let free : Free p i w = (
          still unmoved i ∙ pend,
          any_same w.pending before (deps i) (still unmoved) ∙ clear,
          going,
        ) in
        let here : IsArmed i (visit p r j w) =
          subst (λ (k : ℕ). IsArmed i (visit p r k w)) (ground (arith, e))
            (visit-IsArmed r i w free) in
        visits_inv p (IsArmed-kept i) r js (visit p r j w) here
  ]

  any_snoc : (q : ℕ → Bool) (xs : List ℕ) (x : ℕ) → any q (xs ++ x ∷ []) ≡ (any q xs || q x)
  any_snoc q [] x = ground arith
  any_snoc q (y ∷ ys) x = ground (arith, any_snoc q ys x)

  -- The first pending slot of an ordered list has no pending dependency.
  first_pending :
      (q : ℕ → Bool) (seen xs : List ℕ)
      → IsOrdered deps seen xs
      → any q seen ≡ false
      → any q xs ≡ true
      → (i : ℕ) × (contains i xs ≡ true) × (q i ≡ true) × (any q (deps i) ≡ false)
  first_pending q seen [] ordered none_seen some_pending = absurd (ground (arith, some_pending))
  first_pending q seen (x ∷ xs) ordered none_seen some_pending = elim (Bool-cases (q x)) [
    | inl here ↦ (
      x,
      ground arith,
      here,
      elim (Bool-cases (any q (deps x))) [
        | inr clear ↦ clear
        | inl m ↦
            let (d, inside, on) = any-elim q (deps x) m in
            let known = any-intro q seen d (subset-contains (deps x) seen d ordered.0 inside) on in
            absurd (ground (arith, known, none_seen))
      ],
    )
    | inr off ↦
        let (i, inside, on, clear) =
          first_pending q (seen ++ x ∷ []) xs ordered.1
            (ground (arith, any_snoc q seen x, none_seen, off))
            (ground (arith, some_pending, off)) in
        (i, ground (arith, inside), on, clear)
  ]

  due-some :
      (js : List ℕ) (w : StartWave) (i : ℕ)
      → contains i js ≡ true
      → w.pending i ≡ true
      → IsArmed i w
      → (d : ℕ) × (next_due p js w ≡ some d)
  unfolding next_due
  due-some [] w i inside pend armed = absurd (ground (arith, inside))
  due-some (j ∷ js) w i inside pend armed =
      elim (Bool-cases (w.pending j && not (w.armed j == unsignaled))) [
        | inl e ↦ rw e (sooner (next_due p js w) (w.armed j + (cfg j).slot_timeout), refl)
        | inr e ↦
            let other : (j == i) ≡ false = elim (Bool-cases (j == i)) [
              | inr o ↦ o
              | inl same ↦
                  let at_j : (w.pending j && not (w.armed j == unsignaled)) ≡ true =
                    ap (λ (k : ℕ). w.pending k && not (w.armed k == unsignaled)) {x = j} {y = i}
                      (ground (arith, same))
                    ∙ ground (arith, pend, armed) in
                  absurd (ground (arith, e, at_j))
            ] in
            rw e (due-some js w i (ground (arith, inside, other)) pend armed)
      ]

  -- A round ends in a failed `expect` only if it waits, moved nothing and finds no deadline.
  panic_cases :
      (w : StartWave)
      → after_round p w ≡ panicked
      → (has_moved w ≡ false) × (w.waiting ≡ true) × (next_due p order w ≡ none)
  unfolding after_round
  panic_cases w e = ground (arith, e, Option-cases w.failed, Option-cases (next_due p order w))

  round-ne-panicked :
      IsOrdered deps [] order → (r : Round) (w : StartWave) → after_round p (round p r w) ≢ panicked
  unfolding round
  round-ne-panicked ordered r w e =
      let w₀ : StartWave = record w { progress = false; waiting = false; own_pass = false } in
      let w' : StartWave = each (visit p r) order w₀ in
      let (quiet, waits, no_due) = panic_cases w' e in
      elim (Bool-cases (any w.pending order)) [
        | inr idle ↦ absurd (ground (arith, waits, visits_skip r order w₀ idle))
        | inl busy_with ↦
            let (i, inside, on, clear) = first_pending w.pending [] order ordered refl busy_with in
            let armed = visits-arm r w.pending i order w₀ on clear inside (λ m k. refl) quiet in
            let still = visits_inv p (Still-kept w.pending) r order w₀ (λ m k. refl) quiet i in
            let (d, found) = due-some order w' i inside (still ∙ on) armed in
            absurd (ground (arith, no_due, found))
      ]

  rounds-ne-panicked :
      IsOrdered deps [] order → (rs : List Round) (w : StartWave) → (rounds p rs w).1 ≢ panicked
  unfolding rounds
  rounds-ne-panicked ordered [] w = λ e. absurd (ground (arith, e))
  rounds-ne-panicked ordered (r ∷ rs) w =
      elim (Bool-cases (goes_on (after_round p (round p r w)))) [
        | inl e ↦ rw e (rounds-ne-panicked ordered rs (round p r w))
        | inr e ↦ rw e (round-ne-panicked ordered r w)
      ]

-- The order is the one that `topo_sort_const` returned for the dependency table. Then the start
-- wave's `expect` never fails, from any state of the wave and whatever the tasks, the gates, the
-- executors and the clock do.
pub start-ne-panicked :
    (p : StartPlan) (rs : List Round) (w : StartWave)
    → HasShortRows p.n p.deps
    → topo_sort_const p.n p.deps ≡ sorted p.order
    → (rounds p rs w).1 ≢ panicked
start-ne-panicked p rs w short e =
    rounds-ne-panicked p (topo_sort-IsOrdered p.n p.deps p.order short e).1 rs w
