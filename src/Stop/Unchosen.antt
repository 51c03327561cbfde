-- ===== src/Stop/Unchosen.antt =====
-- A node that a stop wave is not asked for is touched by its task only.
use embassy_supervisor.Base.{
  ℕ, ◌≡◌, ap, sym, subst, ◌==◌, true, false, List, arith, inl, inr, Bool-cases,
}
use embassy_supervisor.Node.State.{Site}
use embassy_supervisor.Stop.{
  Plan, Wave, Tick, signal_one, collect_one, check_one, expire, run, start_wave, is_open,
}
use embassy_supervisor.Stop.Rule.{AllTicks, run_inv}

-- A property of one node's state that its task keeps between two turns.
abbrev pub TickKeeps : (Site → Type 0) → ℕ → Tick → Type 0
TickKeeps P k t = (s : Site) → P s → P (t.change k s)

module _ (p : Plan) (P : Site → Type 0) (k : ℕ) (out : p.chosen k ≡ false) where
  not_open : (j : ℕ) (w : Wave) → is_open p w j ≡ true → (j == k) ≡ false
  not_open j w h = elim (Bool-cases (j == k)) [
    | inr e ↦ e
    | inl e ↦
        let same : j ≡ k = ground (arith, e) in absurd (ground (arith, h, ap p.chosen same, out))
  ]

  signal_unchosen :
      (clock : ℕ → ℕ) (j : ℕ) (w : Wave) → (signal_one p clock j w).sites k ≡ w.sites k
  unfolding signal_one
  signal_unchosen clock j w = ground (arith, not_open j w)

  collect_unchosen : (j : ℕ) (w : Wave) → (collect_one p j w).sites k ≡ w.sites k
  unfolding collect_one
  collect_unchosen j w = ground (arith, not_open j w)

  check_unchosen : (now j : ℕ) (w : Wave) → (check_one p now j w).sites k ≡ w.sites k
  unfolding check_one expire
  check_unchosen now j w = ground (arith, not_open j w)

  pub run-unchosen :
      (ts : List Tick) (sites : ℕ → Site)
      → AllTicks (TickKeeps P k) ts
      → P (sites k)
      → P ((run p ts (start_wave sites)).0.sites k)
  unfolding start_wave
  run-unchosen ts sites kept h =
      run_inv p {P = λ (w : Wave). P (w.sites k)}
        (record {
          signal = λ clock j w g. subst P (sym (signal_unchosen clock j w)) g;
          change = λ t w keep g. keep (w.sites k) g;
          collect = λ j w g. subst P (sym (collect_unchosen j w)) g;
          check = λ now j w g. subst P (sym (check_unchosen now j w)) g;
        })
        ts (start_wave sites) kept h
