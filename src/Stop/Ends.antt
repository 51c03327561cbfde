-- ===== src/Stop/Ends.antt =====
-- A stop wave ends: it sleeps at most once before each slot that it resolves, and a turn that comes at
-- its deadline resolves one.
use embassy_supervisor.Base.{
  ℕ, ◌+◌, ◌*◌, ◌≤◌, ◌<◌, ◌⊎◌, leb, some, Option-cases, ◌≡◌, ◌≢◌, refl, Bool, true, false, Option,
  none, List, [], ◌∷◌, arith, inl, inr, Bool-cases, sum_below-le_bound, contains-count_pos,
}
use embassy_supervisor.Topology.{sorted, topo_sort_const}
use embassy_supervisor.Topology.Order.{HasShortRows, topo_sort-IsOrdered}
use embassy_supervisor.Node.State.{Site}
use embassy_supervisor.Lifecycle.{NodeFault}
use embassy_supervisor.Stop.{
  Plan, Wave, Tick, Outcome, again, asleep_until, returned, panicked, goes_on, is_open,
  all_resolved, conclude, after_check, signal_phase, collect_phase, check_phase, turn, run,
  start_wave,
}
use embassy_supervisor.Stop.Progress.{IsSound, sorted-IsSound, turn-ne-panicked}
use embassy_supervisor.Stop.Measure.{
  bit_of, open_count, Fewer, IsBounded, collect-Fewer, check-Fewer,
}
use embassy_supervisor.Stop.Due.{AwaitsDue, turn-AwaitsDue, has_moved, due-moves}

module _ (p : Plan) where
  open p use {n, chosen, order, keep_going}

  -- The turn comes no earlier than the deadline that the turn before left, if it left one.
  abbrev pub is_punctual : Tick → Wave → Bool
  is_punctual t w = elim w.deadline [ none ↦ true | some d ↦ leb d t.check_ms ]

  abbrev pub punctual_turns : List Tick → Wave → ℕ
  punctual_turns [] w = 0
  punctual_turns (t ∷ ts) w = bit_of p (is_punctual t w) + punctual_turns ts (turn p t w).0

  -- What a wave has left to do: to resolve its open slots, and to go to sleep before each.
  abbrev to_sleep : Wave → ℕ
  to_sleep w = elim w.deadline [ none ↦ 1 | some d ↦ 0 ]

  abbrev left_over : Wave → ℕ
  left_over w = 2 * open_count p w + to_sleep w

  -- Behind the checks of a turn that goes on: a slot is resolved, or the wave goes to sleep.
  after_check-cases :
      (w : Wave)
      → goes_on (after_check p w) ≡ true
      → (w.progress ≡ true) ⊎ ((has_moved p w ≡ false) × (to_sleep w ≡ 0))
  unfolding after_check
  after_check-cases w g = elim (Option-cases w.failed) [
    | inr (f, e) ↦ absurd (ground (arith, e, g))
    | inl e ↦ elim (Bool-cases w.progress) [
      | inl moved ↦ inl moved
      | inr idle ↦ inr (ground (arith, e, idle), ground (arith, e, idle, g))
    ]
  ]

  to_sleep-le : (w : Wave) → to_sleep w ≤ 1
  to_sleep-le w = ground arith

  conclude-left_over :
      (c : ℕ) (w : Wave) (punctual done moved : Bool) (w₁ w₂ : Wave)
      → Fewer p c w₁
      → Fewer p c w₂
      → moved ≡ w₁.progress
      → (punctual ≡ true → moved ≡ false → (to_sleep w ≡ 1) ⊎ (has_moved p w₂ ≡ true))
      → goes_on (conclude p done moved w₁ w₂).1 ≡ true
      → left_over (conclude p done moved w₁ w₂).0 + bit_of p punctual ≤ 2 * c + to_sleep w
  conclude-left_over c w punctual true moved w₁ w₂ f₁ f₂ e acts g = absurd (ground arith)
  conclude-left_over c w punctual false true w₁ w₂ f₁ f₂ e acts g =
      ground (arith, f₁, e, to_sleep-le w₁)
  conclude-left_over c w punctual false false w₁ w₂ f₁ f₂ e acts g = elim (after_check-cases w₂ g) [
    | inl moved ↦ ground (arith, f₂, moved, to_sleep-le w₂)
    | inr (still, asleep) ↦ elim (Bool-cases punctual) [
      | inr early ↦ ground (arith, f₂, early, asleep)
      | inl there ↦ elim (acts there refl) [
        | inl first ↦ ground (arith, f₂, there, asleep, first)
        | inr moved ↦ absurd (ground (arith, moved, still))
      ]
    ]
  ]

  punctual-cases :
      (t : Tick) (w : Wave)
      → is_punctual t w ≡ true
      → (to_sleep w ≡ 1) ⊎ ((d : ℕ) × (w.deadline ≡ some d) × (d ≤ t.check_ms))
  punctual-cases t w h = elim (Option-cases w.deadline) [
    | inl e ↦ inl (ground (arith, e))
    | inr (d, e) ↦ inr (d, e, ground (arith, e, h))
  ]

  -- A turn that goes on leaves no more to do, and less if it is punctual.
  turn-left_over :
      IsBounded p
      → (t : Tick) (w : Wave) → AwaitsDue p w
      → goes_on (turn p t w).1 ≡ true
      → left_over (turn p t w).0 + bit_of p (is_punctual t w) ≤ left_over w
  unfolding turn
  turn-left_over bounded t w inv g =
      let w₁ = collect_phase p t (signal_phase p t w) in
      let f₁ = collect-Fewer p bounded t w in
      conclude-left_over (open_count p w) w (is_punctual t w) (all_resolved p w₁) w₁.progress w₁
        (check_phase p t w₁) f₁ (check-Fewer p bounded t (open_count p w) w₁ f₁) refl
        (λ there idle. elim (punctual-cases t w there) [
          | inl first ↦ inl first
          | inr (d, e, late) ↦ inr (due-moves p t w d inv e late idle)
        ])
        g

  Outcome-returned :
      (o : Outcome) → goes_on o ≡ false → o ≢ panicked → (r : Option NodeFault) × (o ≡ returned r)
  Outcome-returned again g h = absurd (ground arith)
  Outcome-returned (asleep_until d) g h = absurd (ground arith)
  Outcome-returned (returned r) g h = (r, refl)
  Outcome-returned panicked g h = absurd (h refl)

  run-returns :
      IsSound p
      → IsBounded p
      → (ts : List Tick) (w : Wave) → AwaitsDue p w
      → left_over w < punctual_turns ts w
      → (r : Option NodeFault) × ((run p ts w).1 ≡ returned r)
  unfolding run
  run-returns sound bounded [] w inv enough = absurd (omega (arith, enough))
  run-returns sound bounded (t ∷ ts) w inv enough = elim (Bool-cases (goes_on (turn p t w).1)) [
    | inl h ↦ rw h (
        run-returns sound bounded ts (turn p t w).0 (turn-AwaitsDue p t w)
          (omega (arith, turn-left_over bounded t w inv h, enough)))
    | inr h ↦ rw h (Outcome-returned (turn p t w).1 h (turn-ne-panicked p sound t w))
  ]

-- The order is the one that `topo_sort_const` returned. A turn of the wave is punctual if the turn
-- before left no deadline to sleep for, or if the clock at its checks has reached that deadline.
-- Among any number of other turns, early wake-ups of any kind included, the wave has returned, with
-- or without a fault, once it made two punctual turns for each slot and two more.
pub sorted_run-returns :
    (p : Plan) (sites : ℕ → Site) (ts : List Tick)
    → HasShortRows p.n p.deps
    → topo_sort_const p.n p.deps ≡ sorted p.order
    → 2 * p.n + 2 ≤ punctual_turns p ts (start_wave sites)
    → (r : Option NodeFault) × ((run p ts (start_wave sites)).1 ≡ returned r)
unfolding start_wave
sorted_run-returns p sites ts short e enough =
    let (counts, ordered) = topo_sort-IsOrdered p.n p.deps p.order short e in
    run-returns p (sorted-IsSound p short e)
      (λ j m. ground (arith, counts j, contains-count_pos j p.order m)) ts (start_wave sites)
      (λ d e'. absurd (ground (arith, e')))
      (omega (
        arith,
        enough,
        sum_below-le_bound p.n (λ j. bit_of p (is_open p (start_wave sites) j)) (λ k. ground arith),
      ))
