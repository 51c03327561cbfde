-- ===== src/Stop/Due.antt =====
-- The deadline that a turn of the stop wave leaves, and the slot that it waits for.
use embassy_supervisor.Base.{
  ℕ, ◌≤◌, ◌<◌, ◌≡◌, refl, sym, ap, ◌∙◌, ◌⊎◌, subst, ltb, ◌==◌, Bool, true, false, ◌&&◌, not, Option,
  none, some, List, [], ◌∷◌, arith, inl, inr, Bool-cases, Option-cases, contains, min,
}
use embassy_supervisor.Stop.{
  Plan, Wave, Tick, changed, unsignaled, is_open, backwards, each, signal_one, collect_one,
  check_one, expire, due, earlier, all_resolved, conclude, signal_phase, collect_phase, check_phase,
  turn,
}
use embassy_supervisor.Stop.Rule.{each-inv}
use embassy_supervisor.Stop.Progress.{signals-resolved, collect-Idle}
use embassy_supervisor.Stop.Measure.{each-inv_mem, collect_one-deadline}

module _ (p : Plan) where
  open p use {n, chosen, order, keep_going}

  -- The slot is awaited, and its window is over at `d`.
  pub record IsDueAt (w : Wave) (d k : ℕ) : Type 0 where
    pub listed : contains k (backwards order) ≡ true
    pub still_open : is_open p w k ≡ true
    pub asked : (w.signaled k == unsignaled) ≡ false
    pub by_then : due p w k ≤ d

  -- The deadline is the window of a slot that is awaited.
  abbrev pub AwaitsDue : Wave → Type 0
  AwaitsDue w = (d : ℕ) → w.deadline ≡ some d → (k : ℕ) × IsDueAt w d k

  -- The same in the loop of the checks, where that window is not over.
  abbrev Awaits : ℕ → Wave → Type 0
  Awaits now w = (d : ℕ) → w.deadline ≡ some d → (k : ℕ) × IsDueAt w d k × (now < due p w k)

  expire_apart :
      (now j k d : ℕ) (v : Wave)
      → (j == k) ≡ false
      → IsDueAt v d k
      → now < due p v k
      → IsDueAt (expire p j v) d k × (now < due p (expire p j v) k)
  unfolding expire
  expire_apart now j k d v apart h early = elim (Bool-cases keep_going) [
    | inl e ↦ rw e (
      record {
        listed = h.listed;
        still_open = rw apart h.still_open;
        asked = h.asked;
        by_then = h.by_then;
      },
      early,
    )
    | inr e ↦ rw e (
      record { listed = h.listed; still_open = h.still_open; asked = h.asked; by_then = h.by_then },
      early,
    )
  ]

  expire-deadline : (j : ℕ) (v : Wave) → (expire p j v).deadline ≡ v.deadline
  unfolding expire
  expire-deadline j v = ground arith

  expire-Awaits :
      (now j : ℕ) (v : Wave)
      → ltb now (due p v j) ≡ false
      → Awaits now v
      → Awaits now (expire p j v)
  expire-Awaits now j v late inv d e =
      let (k, h, early) = inv d (sym (expire-deadline j v) ∙ e) in
      let apart : (j == k) ≡ false = elim (Bool-cases (j == k)) [
        | inr other ↦ other
        | inl here ↦
            let same : due p v j ≡ due p v k = ap (due p v) (ground (arith, here)) in
            absurd (ground (arith, late, early, same))
      ] in
      let (h', early') = expire_apart now j k d v apart h early in (k, h', early')

  some_inj : (c d : ℕ) → some c ≡ some d → c ≡ d
  some_inj c d e = ap (λ (o : Option ℕ). elim o [ none ↦ 0 | some x ↦ x ]) e

  -- The checked slot's window is not over: the deadline is now no later than it.
  wait-Awaits :
      (now j : ℕ) (v : Wave)
      → contains j (backwards order) ≡ true
      → is_open p v j ≡ true
      → (v.signaled j == unsignaled) ≡ false
      → ltb now (due p v j) ≡ true
      → Awaits now v
      → Awaits now (record v { deadline = earlier p v.deadline (due p v j) })
  wait-Awaits now j v m o s early inv d e = elim (Option-cases v.deadline) [
    | inl unset ↦
        let same : due p v j ≡ d = some_inj _ _ (rw unset at e) in
        (
          j,
          record { listed = m; still_open = o; asked = s; by_then = omega (arith, same) },
          ground (arith, early),
        )
    | inr (d₀, was) ↦
        let same : min d₀ (due p v j) ≡ d = some_inj _ _ (rw was at e) in
        elim (Bool-cases (ltb (due p v j) d₀)) [
          | inl sooner ↦ (
            j,
            record {
              listed = m;
              still_open = o;
              asked = s;
              by_then = ground (arith, same, sooner);
            },
            ground (arith, early),
          )
          | inr later ↦
              let (k, h, early') = inv d₀ was in
              (
                k,
                record {
                  listed = h.listed;
                  still_open = h.still_open;
                  asked = h.asked;
                  by_then = ground (arith, same, later, h.by_then);
                },
                early',
              )
        ]
  ]

  -- What a check does to a slot: nothing, or it waits for its window, or its window is over.
  check_one-cases :
      (now j : ℕ) (v : Wave)
      → (check_one p now j v ≡ v)
        ⊎ ((is_open p v j ≡ true)
            × ((v.signaled j == unsignaled) ≡ false)
            × (((ltb now (due p v j) ≡ true)
                  × (check_one p now j v
                      ≡ record v { deadline = earlier p v.deadline (due p v j) }))
                ⊎ ((ltb now (due p v j) ≡ false) × (check_one p now j v ≡ expire p j v))))
  unfolding check_one
  check_one-cases now j v = elim (Option-cases v.failed) [
    | inr (f, e) ↦ inl (ground (arith, e))
    | inl e ↦ elim (Bool-cases (is_open p v j && not (v.signaled j == unsignaled))) [
      | inr e' ↦ inl (ground (arith, e, e'))
      | inl e' ↦ inr (
        ground (arith, e'),
        ground (arith, e'),
        elim (Bool-cases (ltb now (due p v j))) [
          | inl early ↦ inl (early, ground (arith, e, e', early))
          | inr late ↦ inr (late, ground (arith, e, e', late))
        ],
      )
    ]
  ]

  check_one-Awaits :
      (now j : ℕ) (v : Wave)
      → contains j (backwards order) ≡ true
      → Awaits now v
      → Awaits now (check_one p now j v)
  check_one-Awaits now j v m inv = elim (check_one-cases now j v) [
    | inl e ↦ subst (Awaits now) (sym e) inv
    | inr (o, s, inl (early, e)) ↦ subst (Awaits now) (sym e) (wait-Awaits now j v m o s early inv)
    | inr (o, s, inr (late, e)) ↦ subst (Awaits now) (sym e) (expire-Awaits now j v late inv)
  ]

  check_phase-AwaitsDue : (t : Tick) (v : Wave) → v.deadline ≡ none → AwaitsDue (check_phase p t v)
  unfolding check_phase
  check_phase-AwaitsDue t v unset d e =
      let (k, h, early) =
        each-inv_mem (Awaits t.check_ms) (check_one p t.check_ms) (backwards order)
          (λ j u m. check_one-Awaits t.check_ms j u m) v
          (λ c e'. absurd (ground (arith, unset, e'))) d e in
      (k, h)

  pub collect_phase-deadline : (t : Tick) (w : Wave) → (collect_phase p t w).deadline ≡ none
  unfolding collect_phase
  collect_phase-deadline t w =
      each-inv (λ (v : Wave). v.deadline ≡ none) (collect_one p) (collect_one-deadline p)
        (backwards order) (changed t w) refl

  conclude-AwaitsDue :
      (done moved : Bool) (w₁ w₂ : Wave)
      → w₁.deadline ≡ none
      → AwaitsDue w₂
      → AwaitsDue (conclude p done moved w₁ w₂).0
  conclude-AwaitsDue true moved w₁ w₂ unset h d e = absurd (ground (arith, unset, e))
  conclude-AwaitsDue false true w₁ w₂ unset h d e = absurd (ground (arith, unset, e))
  conclude-AwaitsDue false false w₁ w₂ unset h d e = h d e

  -- Whatever it met, a turn leaves a deadline only for a slot that it awaits.
  pub turn-AwaitsDue : (t : Tick) (w : Wave) → AwaitsDue (turn p t w).0
  unfolding turn
  turn-AwaitsDue t w =
      let w₁ = collect_phase p t (signal_phase p t w) in
      let unset = collect_phase-deadline t (signal_phase p t w) in
      conclude-AwaitsDue (all_resolved p w₁) w₁.progress w₁ (check_phase p t w₁) unset
        (check_phase-AwaitsDue t w₁ unset)

  -- The checks have resolved a slot, or ended the wave.
  abbrev pub has_moved : Wave → Bool
  has_moved v = elim v.failed [ some f ↦ true | none ↦ v.progress ]

  check_one-stays :
      (now j : ℕ) (v : Wave) → has_moved v ≡ true → has_moved (check_one p now j v) ≡ true
  unfolding check_one expire
  check_one-stays now j v h = ground arith

  check_one-moves :
      (now j : ℕ) (v : Wave)
      → is_open p v j ≡ true
      → (v.signaled j == unsignaled) ≡ false
      → due p v j ≤ now
      → has_moved (check_one p now j v) ≡ true
  unfolding check_one expire
  check_one-moves now j v o s late = ground (arith, late)

  check_one-apart :
      (now i j : ℕ) (v : Wave)
      → has_moved (check_one p now i v) ≡ false
      → (is_open p (check_one p now i v) j ≡ is_open p v j)
        × ((check_one p now i v).signaled j ≡ v.signaled j)
  unfolding check_one expire
  check_one-apart now i j v h = ground arith

  checks_move :
      (now j : ℕ) (js : List ℕ) (v : Wave)
      → is_open p v j ≡ true
      → (v.signaled j == unsignaled) ≡ false
      → due p v j ≤ now
      → contains j js ≡ true
      → has_moved (each (check_one p now) js v) ≡ true
  unfolding each
  checks_move now j [] v o s late m = absurd (ground arith)
  checks_move now j (i ∷ js) v o s late m =
      let next = check_one p now i v in
      let onward =
        each-inv (λ (u : Wave). has_moved u ≡ true) (check_one p now)
          (λ k u r. check_one-stays now k u r) js next in
      elim (Bool-cases (has_moved next)) [
        | inl acted ↦ onward acted
        | inr still ↦ elim (Bool-cases (i == j)) [
          | inl e ↦ onward (
              subst (λ (k : ℕ). has_moved (check_one p now k v) ≡ true) (sym (ground (arith, e)))
                (check_one-moves now j v o s late))
          | inr e ↦
              let (same, kept) = check_one-apart now i j v still in
              checks_move now j js next (same ∙ o) (rw kept s) (omega (arith, kept, late))
                (ground (arith, e))
        ]
      ]

  signal_one-asked :
      (clock : ℕ → ℕ) (k s : ℕ) (j : ℕ) (w : Wave)
      → (s == unsignaled) ≡ false
      → w.signaled k ≡ s
      → (signal_one p clock j w).signaled k ≡ s
  unfolding signal_one
  signal_one-asked clock k s j w asked e = ground (arith, asked, e)

  -- A turn at or behind the deadline that the turn before left resolves a slot or ends the wave.
  pub due-moves :
      (t : Tick) (w : Wave) (d : ℕ)
      → AwaitsDue w
      → w.deadline ≡ some d
      → d ≤ t.check_ms
      → let w₁ = collect_phase p t (signal_phase p t w) in
        w₁.progress ≡ false → has_moved (check_phase p t w₁) ≡ true
  unfolding check_phase signal_phase
  due-moves t w d inv e late idle =
      let (k, h) = inv d e in
      let w₀ = each (signal_one p t.signal_ms) (backwards order) w in
      let w₁ = collect_phase p t w₀ in
      let (same₁, kept) = collect-Idle p t w₀ idle in
      let same = same₁ ∙ signals-resolved p t.signal_ms (backwards order) w in
      let asked : w₁.signaled k ≡ w.signaled k =
        ap (λ (f : ℕ → ℕ). f k) kept
        ∙ each-inv (λ (v : Wave). v.signaled k ≡ w.signaled k) (signal_one p t.signal_ms)
            (λ j v r. signal_one-asked t.signal_ms k (w.signaled k) j v h.asked r) (backwards order)
            w refl in
      checks_move t.check_ms k (backwards order) w₁
        (ap (λ (r : ℕ → Bool). chosen k && not (r k)) same ∙ h.still_open) (rw asked h.asked)
        (omega (arith, asked, h.by_then, late)) h.listed
