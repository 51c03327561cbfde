-- ===== src/Stop/Measure.antt =====
-- The measure of a stop wave: how many chosen slots are open, and whether the turn made progress.
use embassy_supervisor.Base.{
  ℕ, ◌+◌, ◌≤◌, ◌<◌, ◌≡◌, sym, ap, ◌∙◌, ltb, ◌==◌, if◌then◌else◌, Bool, true, ◌&&◌, not, none, List,
  [], ◌∷◌, arith, inl, inr, Bool-cases, Option-cases, contains, update, sum_below, sum_below-drop,
}
use embassy_supervisor.Node.Flags.{dropped}
use embassy_supervisor.Node.Task.{has_flag}
use embassy_supervisor.Stop.{
  Plan, Wave, Tick, changed, unsignaled, is_open, each, backwards, signal_one, collect_one,
  check_one, expire, due, signal_phase, collect_phase, check_phase,
}
use embassy_supervisor.Stop.Progress.{contains-backwards, signals-resolved}

-- The rule of a loop over slots, with the slot known to be one of them.
pub each-inv_mem {ℓ κ} :
    {S : Type ℓ} (P : S → Type κ) (body : ℕ → S → S) (js : List ℕ)
    → ((j : ℕ) (s : S) → contains j js ≡ true → P s → P (body j s))
    → (s : S) → P s
    → P (each body js s)
unfolding each
each-inv_mem P body [] keep s h = h
each-inv_mem P body (j ∷ js) keep s h =
    each-inv_mem P body js (λ k u m. keep k u (ground (arith, m))) (body j s)
      (keep j s (ground arith) h)

module _ (p : Plan) where
  open p use {n, chosen, order, keep_going}

  abbrev pub bit_of : Bool → ℕ
  bit_of b = if b then 1 else 0

  abbrev pub open_count : Wave → ℕ
  open_count w = sum_below n (λ j. bit_of (is_open p w j))

  -- Behind `w`: no more is open, and less if there was progress.
  abbrev pub Fewer : ℕ → Wave → Type 0
  Fewer c v = open_count v + bit_of v.progress ≤ c

  resolve-drop :
      (v : Wave) (j : ℕ)
      → j < n
      → is_open p v j ≡ true
      → sum_below n (λ k. bit_of (chosen k && not (update v.resolved j true k))) < open_count v
  resolve-drop v j lt o =
      sum_below-drop n j (λ k. bit_of (chosen k && not (update v.resolved j true k)))
        (λ k. bit_of (is_open p v k)) (λ k. ground arith) lt (ground (arith, o))

  collect_one-Fewer : (c j : ℕ) (v : Wave) → j < n → Fewer c v → Fewer c (collect_one p j v)
  unfolding collect_one
  collect_one-Fewer c j v lt h =
      elim (Bool-cases (is_open p v j && has_flag dropped (v.sites j).handle)) [
        | inl e ↦ rw e (omega (arith, resolve-drop v j lt (ground (arith, e)), h))
        | inr e ↦ rw e h
      ]

  expire-Fewer :
      (c j : ℕ) (v : Wave) → j < n → is_open p v j ≡ true → Fewer c v → Fewer c (expire p j v)
  unfolding expire
  expire-Fewer c j v lt o h = elim (Bool-cases keep_going) [
    | inl e ↦ rw e (omega (arith, resolve-drop v j lt o, h))
    | inr e ↦ rw e h
  ]

  check_one-Fewer : (c now j : ℕ) (v : Wave) → j < n → Fewer c v → Fewer c (check_one p now j v)
  unfolding check_one
  check_one-Fewer c now j v lt h = elim (Option-cases v.failed) [
    | inr (f, e) ↦ rw (e, check_one) h
    | inl e ↦
        rw (e, check_one)
          (elim (Bool-cases (is_open p v j && not (v.signaled j == unsignaled))) [
            | inr e' ↦ rw e' h
            | inl e' ↦ rw e' (elim (Bool-cases (ltb now (due p v j))) [
              | inl early ↦ rw early h
              | inr late ↦ rw late (expire-Fewer c j v lt (ground (arith, e')) h)
            ])
          ])
  ]

  pub collect_one-deadline :
      (j : ℕ) (v : Wave) → v.deadline ≡ none → (collect_one p j v).deadline ≡ none
  unfolding collect_one
  collect_one-deadline j v e = ground arith

  -- The order holds slots only.
  abbrev pub IsBounded : Type 0
  IsBounded = (j : ℕ) → contains j order ≡ true → j < n

  module _ (bounded : IsBounded) where
    in_range : (j : ℕ) → contains j (backwards order) ≡ true → j < n
    in_range j m = bounded j (sym (contains-backwards j order) ∙ m)

    pub collect-Fewer :
        (t : Tick) (w : Wave) → Fewer (open_count w) (collect_phase p t (signal_phase p t w))
    unfolding collect_phase signal_phase
    collect-Fewer t w =
        let w₀ = each (signal_one p t.signal_ms) (backwards order) w in
        let same : open_count w₀ ≡ open_count w =
          ap (λ (r : ℕ → Bool). sum_below n (λ j. bit_of (chosen j && not (r j))))
            (signals-resolved p t.signal_ms (backwards order) w) in
        each-inv_mem (Fewer (open_count w)) (collect_one p) (backwards order)
          (λ j v m. collect_one-Fewer (open_count w) j v (in_range j m)) (changed t w₀)
          (omega (arith, same))

    pub check-Fewer : (t : Tick) (c : ℕ) (v : Wave) → Fewer c v → Fewer c (check_phase p t v)
    unfolding check_phase
    check-Fewer t c v h =
        each-inv_mem (Fewer c) (check_one p t.check_ms) (backwards order)
          (λ j u m. check_one-Fewer c t.check_ms j u (in_range j m)) v h
