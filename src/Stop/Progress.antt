-- ===== src/Stop/Progress.antt =====
-- A stop wave over a sorted graph always has somebody to wait for: its `expect` never fails.
use embassy_supervisor.Base.{
  ℕ, zero, suc, ◌+◌, ◌<◌, ◌≡◌, ◌≢◌, refl, sym, ap, ◌∙◌, subst, ◌==◌, Bool, true, false, ◌&&◌, ◌||◌,
  not, none, some, List, [], ◌∷◌, arith, inl, inr, Bool-cases, contains, contains-append, any_below,
  any_below-true, all_below-false, sum_below, le_sum_below, count_pos-contains,
}
use embassy_supervisor.Topology.{sorted, topo_sort_const}
use embassy_supervisor.Topology.Order.{HasShortRows, topo_sort-IsOrdered}
use embassy_supervisor.Topology.Acyclic.{IsAcyclic, sorted-IsAcyclic}
use embassy_supervisor.Node.Flags.{dropped}
use embassy_supervisor.Node.Task.{has_flag}
use embassy_supervisor.Stop.{
  Plan, Wave, Tick, panicked, goes_on, changed, unsignaled, is_open, each, backwards, held,
  signal_one, collect_one, check_one, expire, all_resolved, conclude, after_check, signal_phase,
  collect_phase, check_phase, turn, run,
}
use embassy_supervisor.Stop.Rule.{each-inv}

pub contains-backwards : (a : ℕ) (xs : List ℕ) → contains a (backwards xs) ≡ contains a xs
unfolding backwards
contains-backwards a [] = refl
contains-backwards a (x ∷ xs) =
    ground (arith, contains-append a (backwards xs) (x ∷ []), contains-backwards a xs)

module _ (p : Plan) where
  open p use {n, deps, chosen, order, keep_going}

  -- Signalling changes no resolution, so the held tests stay what they are.
  signal_one-resolved :
      (clock : ℕ → ℕ) (j : ℕ) (w : Wave) → (signal_one p clock j w).resolved ≡ w.resolved
  unfolding signal_one
  signal_one-resolved clock j w =
      elim (Bool-cases ((is_open p w j && (w.signaled j == unsignaled)) && not (held p w j))) [
        | inl h ↦ rw h
        | inr h ↦ rw h
      ]

  held-eq : (v w : Wave) (j : ℕ) → v.resolved ≡ w.resolved → held p v j ≡ held p w j
  unfolding held
  held-eq v w j e =
      ap (λ (r : ℕ → Bool). any_below n (λ k. (chosen k && not (r k)) && contains j (deps k))) e

  is_open-eq : (v w : Wave) (j : ℕ) → v.resolved ≡ w.resolved → is_open p v j ≡ is_open p w j
  is_open-eq v w j e = ap (λ (r : ℕ → Bool). chosen j && not (r j)) e

  signal_one-keeps :
      (clock : ℕ → ℕ) (i j : ℕ) (w : Wave)
      → (w.signaled j == unsignaled) ≡ false
      → ((signal_one p clock i w).signaled j == unsignaled) ≡ false
  unfolding signal_one
  signal_one-keeps clock i j w h = ground arith

  signal_one-signals :
      (clock : ℕ → ℕ) (j : ℕ) (w : Wave)
      → is_open p w j ≡ true
      → held p w j ≡ false
      → ((signal_one p clock j w).signaled j == unsignaled) ≡ false
  unfolding signal_one
  signal_one-signals clock j w o h = ground arith

  -- Behind the signalling loop every open slot that nothing holds back is signalled.
  signals :
      (clock : ℕ → ℕ) (j : ℕ) (js : List ℕ) (w : Wave)
      → is_open p w j ≡ true
      → held p w j ≡ false
      → contains j js ≡ true
      → ((each (signal_one p clock) js w).signaled j == unsignaled) ≡ false
  unfolding each
  signals clock j [] w o h m = absurd (ground arith)
  signals clock j (i ∷ js) w o h m =
      let next = signal_one p clock i w in
      let same = signal_one-resolved clock i w in
      elim (Bool-cases (i == j)) [
        | inl e ↦
            each-inv (λ (v : Wave). (v.signaled j == unsignaled) ≡ false) (signal_one p clock)
              (λ k v r. signal_one-keeps clock k j v r) js next
              (subst (λ (k : ℕ). ((signal_one p clock k w).signaled j == unsignaled) ≡ false)
                (sym (ground (arith, e))) (signal_one-signals clock j w o h))
        | inr e ↦
            signals clock j js next (is_open-eq next w j same ∙ o) (held-eq next w j same ∙ h)
              (ground (arith, e))
      ]

  pub signals-resolved :
      (clock : ℕ → ℕ) (js : List ℕ) (w : Wave)
      → (each (signal_one p clock) js w).resolved ≡ w.resolved
  signals-resolved clock js w =
      each-inv (λ (v : Wave). v.resolved ≡ w.resolved) (signal_one p clock)
        (λ k v r. signal_one-resolved clock k v ∙ r) js w refl

  -- What the plan needs of its order: all slots are in it, and the graph has no cycle.
  pub record IsSound : Type 0 where
    pub complete : (j : ℕ) → j < n → contains j order ≡ true
    pub acyclic : IsAcyclic n deps

  -- Some open slot is held back by no other: climb to a dependent while there is one.
  free_slot :
      (w : Wave) (fuel j : ℕ)
      → j < n
      → is_open p w j ≡ true
      → (ac : IsAcyclic n deps) → sum_below n ac.rank < ac.rank j + fuel
      → (k : ℕ) × (k < n) × (is_open p w k ≡ true) × (held p w k ≡ false)
  free_slot w zero j lt o ac enough = absurd (omega (arith, le_sum_below n ac.rank j lt))
  free_slot w (suc fuel) j lt o ac enough = elim (Bool-cases (held p w j)) [
    | inr h ↦ (j, lt, o, h)
    | inl h ↦
        let (k, below, both) =
          any_below-true n (λ k. is_open p w k && contains j (deps k)) (unfold held in h) in
        free_slot w fuel k below (ground (arith, both)) ac
          (omega (arith, ac.falls k j below (ground (arith, both))))
  ]

  -- Collecting with no progress leaves resolutions and signals alone.
  abbrev Idle : Wave → Wave → Type 0
  Idle w v = v.progress ≡ false → (v.resolved ≡ w.resolved) × (v.signaled ≡ w.signaled)

  collect_one-Idle : (w : Wave) (j : ℕ) (v : Wave) → Idle w v → Idle w (collect_one p j v)
  unfolding collect_one
  collect_one-Idle w j v idle =
      elim (Bool-cases (is_open p v j && has_flag dropped (v.sites j).handle)) [
        | inl h ↦ rw h (λ e. absurd (ground arith))
        | inr h ↦ rw h idle
      ]

  pub collect-Idle : (t : Tick) (w : Wave) → Idle w (collect_phase p t w)
  unfolding collect_phase
  collect-Idle t w =
      each-inv (Idle w) (collect_one p) (collect_one-Idle w) (backwards order) (changed t w)
        (λ e. (refl, refl))

  -- The checks have found something to do or to wait for.
  abbrev pub has_acted : Wave → Bool
  has_acted v = elim v.failed [
    | some f ↦ true
    | none ↦ v.progress || elim v.deadline [ none ↦ false | some d ↦ true ]
  ]

  check_one-stays :
      (now j : ℕ) (v : Wave) → has_acted v ≡ true → has_acted (check_one p now j v) ≡ true
  unfolding check_one expire
  check_one-stays now j v h = ground arith

  check_one-acts :
      (now j : ℕ) (v : Wave)
      → is_open p v j ≡ true
      → (v.signaled j == unsignaled) ≡ false
      → has_acted (check_one p now j v) ≡ true
  unfolding check_one expire
  check_one-acts now j v o s = ground arith

  -- Until they have, the checks leave the other slots alone.
  check_one-apart :
      (now i j : ℕ) (v : Wave)
      → has_acted (check_one p now i v) ≡ false
      → (is_open p (check_one p now i v) j ≡ is_open p v j)
        × ((check_one p now i v).signaled j ≡ v.signaled j)
  unfolding check_one expire
  check_one-apart now i j v h = ground arith

  pub checks_act :
      (now j : ℕ) (js : List ℕ) (v : Wave)
      → is_open p v j ≡ true
      → (v.signaled j == unsignaled) ≡ false
      → contains j js ≡ true
      → has_acted (each (check_one p now) js v) ≡ true
  unfolding each
  checks_act now j [] v o s m = absurd (ground arith)
  checks_act now j (i ∷ js) v o s m =
      let next = check_one p now i v in
      let onward =
        each-inv (λ (u : Wave). has_acted u ≡ true) (check_one p now)
          (λ k u r. check_one-stays now k u r) js next in
      elim (Bool-cases (has_acted next)) [
        | inl acted ↦ onward acted
        | inr still ↦ elim (Bool-cases (i == j)) [
          | inl e ↦ onward (
              subst (λ (k : ℕ). has_acted (check_one p now k v) ≡ true) (sym (ground (arith, e)))
                (check_one-acts now j v o s))
          | inr e ↦
              let (same, kept) = check_one-apart now i j v still in
              checks_act now j js next (same ∙ o) (rw kept s) (ground (arith, e))
        ]
      ]

  after_check-acted : (v : Wave) → has_acted v ≡ true → after_check p v ≢ panicked
  unfolding after_check
  after_check-acted v h e = ground arith

  -- An open slot that has been signalled.
  abbrev pub Awaited : Wave → Type 0
  Awaited v =
      (k : ℕ) × (k < n)
      × (is_open p v k ≡ true)
      × ((v.signaled k == unsignaled) ≡ false)
      × (contains k (backwards order) ≡ true)

  -- A turn that is not done and collected nothing awaits somebody.
  pub turn-Awaited :
      IsSound
      → (t : Tick) (w : Wave)
      → let w₁ = collect_phase p t (signal_phase p t w) in
        all_resolved p w₁ ≡ false → w₁.progress ≡ false → Awaited w₁
  unfolding signal_phase all_resolved
  turn-Awaited sound t w undone idle =
      let w₀ = each (signal_one p t.signal_ms) (backwards order) w in
      let w₁ = collect_phase p t w₀ in
      let (same₁, kept) = collect-Idle t w₀ idle in
      let same = same₁ ∙ signals-resolved t.signal_ms (backwards order) w in
      let (j, lt, shut) = all_below-false n (λ j. not (is_open p w₁ j)) undone in
      let o : is_open p w j ≡ true = sym (is_open-eq w₁ w j same) ∙ ground (arith, shut) in
      let (k, below, o', free) =
        free_slot w (suc (sum_below n sound.acyclic.rank)) j lt o sound.acyclic (omega arith) in
      let listed : contains k (backwards order) ≡ true =
        contains-backwards k order ∙ sound.complete k below in
      (
        k,
        below,
        is_open-eq w₁ w k same ∙ o',
        ap (λ (f : ℕ → ℕ). f k == unsignaled) kept
            ∙ signals t.signal_ms k (backwards order) w o' free listed,
        listed,
      )

  conclude-ne-panicked :
      (done moved : Bool) (w₁ w₂ : Wave)
      → (done ≡ false → moved ≡ false → has_acted w₂ ≡ true)
      → (conclude p done moved w₁ w₂).1 ≢ panicked
  conclude-ne-panicked true moved w₁ w₂ h e = ground arith
  conclude-ne-panicked false true w₁ w₂ h e = ground arith
  conclude-ne-panicked false false w₁ w₂ h e = after_check-acted w₂ (h refl refl) e

  pub turn-ne-panicked : IsSound → (t : Tick) (w : Wave) → (turn p t w).1 ≢ panicked
  unfolding turn check_phase
  turn-ne-panicked sound t w =
      let w₁ = collect_phase p t (signal_phase p t w) in
      conclude-ne-panicked (all_resolved p w₁) w₁.progress w₁ _ (λ undone idle.
        let (k, below, o, s, m) = turn-Awaited sound t w undone idle in
        checks_act t.check_ms k (backwards order) w₁ o s m)

  pub run-ne-panicked : IsSound → (ts : List Tick) (w : Wave) → (run p ts w).1 ≢ panicked
  unfolding run
  run-ne-panicked sound [] w e = ground arith
  run-ne-panicked sound (t ∷ ts) w e = elim (Bool-cases (goes_on (turn p t w).1)) [
    | inl h ↦ run-ne-panicked sound ts (turn p t w).0 (rw h at e)
    | inr h ↦ turn-ne-panicked sound t w (rw h at e)
  ]

-- An order that the sort returned makes the plan sound.
pub sorted-IsSound :
    (p : Plan) → HasShortRows p.n p.deps → topo_sort_const p.n p.deps ≡ sorted p.order → IsSound p
sorted-IsSound p short e =
    let (counts, ordered) = topo_sort-IsOrdered p.n p.deps p.order short e in
    record {
      complete = λ j lt. count_pos-contains j p.order (ground (arith, counts j));
      acyclic = sorted-IsAcyclic p.n p.deps p.order short e;
    }

-- The order is the one that `topo_sort_const` returned for the dependency table. Then the wave's
-- `expect` never fails, from any state of the wave and whatever the tasks and the clock do.
pub sorted_run-ne-panicked :
    (p : Plan) (ts : List Tick) (w : Wave)
    → HasShortRows p.n p.deps
    → topo_sort_const p.n p.deps ≡ sorted p.order
    → (run p ts w).1 ≢ panicked
sorted_run-ne-panicked p ts w short e = run-ne-panicked p (sorted-IsSound p short e) ts w
