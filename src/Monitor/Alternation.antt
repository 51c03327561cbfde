-- ===== src/Monitor/Alternation.antt =====
-- While a node stays up, the monitor's reports about it alternate.
use embassy_supervisor.Base.{
  ℕ, subst, sym, ◌∙◌, ◌+◌, ◌≤◌, ◌≡◌, max, ltb, leb, ◌==◌, Bool, true, false, Option, none, some,
  List, [], ◌∷◌, arith, Bool-cases, inl, inr,
}
use embassy_supervisor.Node.Flags.{running, detached}
use embassy_supervisor.Node.State.{NodeCfg, TaskHandle, Site, WriteEntry}
use embassy_supervisor.Node.Task.{has_flag}
use embassy_supervisor.Node.Liveness.{
  HealthKind, stale, recovered, take_observed, is_stale, ticks_since_beat, strike, visit,
}
use embassy_supervisor.Monitor.{Look, push, watch}

-- Reports alternate; the flag says whether the last one was `stale`.
abbrev pub Alternates : Bool → List HealthKind → Type 0
Alternates reported [] = Unit
Alternates false (stale t ∷ es) = Alternates true es
Alternates true (recovered ∷ es) = Alternates false es
Alternates false (recovered ∷ es) = ⊥
Alternates true (stale t ∷ es) = ⊥

abbrev pub window : NodeCfg → ℕ
window cfg = max cfg.beat_window 1

-- At every visit the node runs, is not detached, and has the strikes that the last one left.
abbrev pub StaysUp : NodeCfg → List Look → Site → Type 0
StaysUp cfg [] s = Unit
StaysUp cfg (l ∷ ls) s =
    ((l.change s).handle.stale_strikes ≡ s.handle.stale_strikes)
    × (has_flag running (l.change s).handle ≡ true)
    × (has_flag detached (l.change s).handle ≡ false)
    × StaysUp cfg ls (visit cfg l.now l.writes (l.change s)).0

-- What an event says of the strikes before and after it.
abbrev Moves : ℕ → ℕ → ℕ → Option HealthKind → Type 0
Moves w before after none = leb w before ≡ leb w after
Moves w before after (some (stale t)) = (leb w before ≡ false) × (leb w after ≡ true)
Moves w before after (some recovered) = (leb w before ≡ true) × (leb w after ≡ false)

strike-Moves :
    (w : ℕ) (late : Bool) (ticks : ℕ) (h : TaskHandle)
    → 1 ≤ w
    → h.stale_strikes ≤ w
    → let (h', event) = strike w late ticks h in
      Moves w h.stale_strikes h'.stale_strikes event × (h'.stale_strikes ≤ w)
unfolding strike
strike-Moves w true ticks h pos le = elim (Bool-cases (ltb h.stale_strikes w)) [
  | inl more ↦ elim (Bool-cases ((h.stale_strikes + 1) == w)) [
    | inl e ↦ rw (more, e) (ground arith)
    | inr e ↦ rw (more, e) (ground arith)
  ]
  | inr full ↦ rw full (ground arith)
]
strike-Moves w false ticks h pos le = elim (Bool-cases (leb w h.stale_strikes)) [
  | inl e ↦ rw e (ground arith)
  | inr e ↦ rw e (ground arith)
]

take_observed-strikes :
    (cfg : NodeCfg) (ws : List WriteEntry) (s : Site)
    → (take_observed cfg ws s).handle.stale_strikes ≡ s.handle.stale_strikes
unfolding take_observed
take_observed-strikes cfg ws s = ground arith

is_stale-strikes :
    (now budget : ℕ) (h : TaskHandle) → (is_stale now budget h).0.stale_strikes ≡ h.stale_strikes
unfolding is_stale
is_stale-strikes now budget h = ground arith

visit-Moves :
    (cfg : NodeCfg) (budget now : ℕ) (ws : List WriteEntry) (s : Site)
    → cfg.beat_timeout ≡ some budget
    → has_flag running s.handle ≡ true
    → has_flag detached s.handle ≡ false
    → s.handle.stale_strikes ≤ window cfg
    → Moves
        (window cfg)
        s.handle.stale_strikes
        (visit cfg now ws s).0.handle.stale_strikes
        (visit cfg now ws s).1
      × ((visit cfg now ws s).0.handle.stale_strikes ≤ window cfg)
unfolding visit
visit-Moves cfg budget now ws s e up there le =
    let s₁ = take_observed cfg ws s in
    let h = (is_stale now budget s₁.handle).0 in
    let same : h.stale_strikes ≡ s.handle.stale_strikes =
      is_stale-strikes now budget s₁.handle ∙ take_observed-strikes cfg ws s in
    let late = (is_stale now budget s₁.handle).1 in
    let ticks = (ticks_since_beat now h).1 in
    let struck = strike (window cfg) late ticks h in
    rw (e, visit)
      (rw (up, there)
        (subst
          (λ (k : ℕ).
            Moves (window cfg) k struck.0.stale_strikes struck.1
            × (struck.0.stale_strikes ≤ window cfg))
          same (strike-Moves (window cfg) late ticks h (omega arith) (rw same le))))

push-Alternates :
    (w before after : ℕ) (event : Option HealthKind) (es : List HealthKind)
    → Moves w before after event
    → Alternates (leb w after) es
    → Alternates (leb w before) (push event es)
push-Alternates w before after none es m h = rw m h
push-Alternates w before after (some (stale t)) es m h = rw m.0 (rw m.1 at h)
push-Alternates w before after (some recovered) es m h = rw m.0 (rw m.1 at h)

-- The node is policed, and at every visit it runs and is not detached. Then the monitor's reports
-- about it alternate between stale and recovered, the first one being `stale` if the strikes at the
-- start lie below the window and `recovered` if they fill it.
pub watch-Alternates :
    (cfg : NodeCfg) (budget : ℕ) (looks : List Look) (s : Site)
    → cfg.beat_timeout ≡ some budget
    → s.handle.stale_strikes ≤ window cfg
    → StaysUp cfg looks s
    → Alternates (leb (window cfg) s.handle.stale_strikes) (watch cfg looks s)
unfolding watch
watch-Alternates cfg budget [] s e le up = tt
watch-Alternates cfg budget (l ∷ ls) s e le (kept, runs, attached, later) =
    let s₁ = l.change s in
    let step =
      visit-Moves cfg budget l.now l.writes s₁ e runs attached
        (subst (λ (k : ℕ). k ≤ window cfg) (sym kept) le) in
    subst (λ (k : ℕ). Alternates (leb (window cfg) k) (watch cfg (l ∷ ls) s)) kept
      (push-Alternates (window cfg) s₁.handle.stale_strikes _ _ _ step.0
        (watch-Alternates cfg budget ls (visit cfg l.now l.writes s₁).0 e step.1 later))
