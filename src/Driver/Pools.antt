-- ===== src/Driver/Pools.antt =====
-- A held node through the pools.
use embassy_supervisor.Base.{
  ℕ, ◌≡◌, refl, ap, ◌∙◌, sym, Bool, true, false, ◌&&◌, Option, none, some, List, [], ◌∷◌, arith,
  inl, inr, Bool-cases, if_inv, update_inv,
}
use embassy_supervisor.Node.Flags.{running, disabled}
use embassy_supervisor.Node.State.{Site, TaskHandle}
use embassy_supervisor.Node.Task.{has_flag}
use embassy_supervisor.Verbs.{Fleet}
use embassy_supervisor.Pool.{
  ElasticPool, PoolAction, no_action, start, stop, ScaleAction, no_change, grow, shrink, find,
  can_start, can_stop, act_on, act, decide, stats, evaluate,
}
use embassy_supervisor.Driver.{
  PoolVisit, Driven, is_done, apply_action, visit_pool, visit_pools, drive_pools, deps_running,
  ready_deps_ok,
}
use embassy_supervisor.Driver.Verbs.{IsHeld}

-- A pool starts no node that is disabled, and stops none that is down.
find-true : (p : ℕ → Bool) (ms : List ℕ) (m : ℕ) → find p ms ≡ some m → p m ≡ true
unfolding find
find-true p [] m e = absurd cc
find-true p (x ∷ ms) m e = elim (Bool-cases (p x)) [
  | inl t ↦ let same : x ≡ m = cc in ap p (sym same) ∙ t
  | inr f ↦ find-true p ms m (rw f at e)
]

module _ (fl : Fleet) (k : ℕ) where
  open fl use {graph}

  -- What a pool asks for.
  Fits : (ℕ → Site) → PoolAction → Type 0
  Fits sites no_action = Unit
  Fits sites (start m) = has_flag disabled (sites m).handle ≡ false
  Fits sites (stop m) = has_flag running (sites m).handle ≡ true

  start-Fits :
      (sites : ℕ → Site) (pool : ElasticPool) (o : Option ℕ)
      → find (can_start graph.cfg (λ j. (sites j).handle)) pool.nodes ≡ o
      → Fits sites (act_on graph.cfg (λ j. (sites j).handle) start o)
  unfolding Fits
  start-Fits sites pool none e = tt
  start-Fits sites pool (some m) e =
      ground (arith, find-true (can_start graph.cfg (λ j. (sites j).handle)) pool.nodes m e)

  stop-Fits :
      (sites : ℕ → Site) (pool : ElasticPool) (o : Option ℕ)
      → find (can_stop graph.cfg (λ j. (sites j).handle)) pool.nodes ≡ o
      → Fits sites (act_on graph.cfg (λ j. (sites j).handle) stop o)
  unfolding Fits
  stop-Fits sites pool none e = tt
  stop-Fits sites pool (some m) e =
      ground (arith, find-true (can_stop graph.cfg (λ j. (sites j).handle)) pool.nodes m e)

  act-Fits :
      (sites : ℕ → Site) (pool : ElasticPool) (a : ScaleAction)
      → Fits sites (act graph.cfg (λ j. (sites j).handle) pool a)
  unfolding act
  act-Fits sites pool no_change = (unfold Fits in tt)
  act-Fits sites pool grow = start-Fits sites pool _ refl
  act-Fits sites pool shrink = stop-Fits sites pool _ refl

  apply_action-IsHeld :
      (v : PoolVisit) (a : PoolAction) (r : Driven)
      → Fits r.sites a
      → IsHeld (r.sites k)
      → IsHeld ((apply_action fl v a r).sites k)
  unfolding apply_action Fits
  apply_action-IsHeld v no_action r fits h = h
  apply_action-IsHeld v (start m) r fits h =
      if_inv (λ (x : Driven). IsHeld (x.sites k))
        (deps_running fl r.sites m && ready_deps_ok fl r.sites m)
        (λ _. update_inv IsHeld r.sites m _ k h (λ same. absurd (
          ground
            (arith, fits, h.latched, ap (λ (i : ℕ). has_flag disabled (r.sites i).handle) same))))
        (λ _. h)
  apply_action-IsHeld v (stop m) r fits h = update_inv IsHeld r.sites m _ k h (λ same.
      absurd
        (ground (arith, fits, h.down, ap (λ (i : ℕ). has_flag running (r.sites i).handle) same)))

  visit_pool-IsHeld :
      (now : ℕ) (v : PoolVisit) (r : Driven)
      → ((s : Site) → IsHeld s → IsHeld (v.others k s))
      → IsHeld (r.sites k)
      → IsHeld ((visit_pool fl now v r).sites k)
  unfolding visit_pool evaluate
  visit_pool-IsHeld now v r₀ calm h =
      let r : Driven = record r₀ { sites = λ i. v.others i (r₀.sites i) } in
      let nodes : ℕ → TaskHandle = λ j. (r.sites j).handle in
      let a = (decide v.cooldown (stats graph.cfg nodes v.pool) now v.pending).1 in
      let action = act graph.cfg nodes v.pool a in
      let h' = apply_action-IsHeld v action r (act-Fits r.sites v.pool a) (calm (r₀.sites k) h) in
      if_inv (λ (x : Driven). IsHeld (x.sites k)) (is_done r₀) (λ _. h)
        (λ _.
          if_inv (λ (x : Driven). IsHeld (x.sites k)) (is_done (apply_action fl v action r))
            (λ _. h') (λ _. h'))

  -- The node's task keeps it held before every pool's evaluation.
  abbrev pub CalmVisits : List PoolVisit → Type 0
  CalmVisits [] = Unit
  CalmVisits (v ∷ vs) = ((s : Site) → IsHeld s → IsHeld (v.others k s)) × CalmVisits vs

  visit_pools-IsHeld :
      (now : ℕ) (vs : List PoolVisit) (r : Driven)
      → CalmVisits vs
      → IsHeld (r.sites k)
      → IsHeld ((visit_pools fl now vs r).sites k)
  unfolding visit_pools
  visit_pools-IsHeld now [] r calm h = h
  visit_pools-IsHeld now (v ∷ vs) r calm h =
      visit_pools-IsHeld now vs (visit_pool fl now v r) calm.1 (visit_pool-IsHeld now v r calm.0 h)

  pub drive_pools-IsHeld :
      (now : ℕ) (vs : List PoolVisit) (sites : ℕ → Site)
      → CalmVisits vs
      → IsHeld (sites k)
      → IsHeld ((drive_pools fl now vs sites).sites k)
  unfolding drive_pools
  drive_pools-IsHeld now vs sites calm h = visit_pools-IsHeld now vs _ calm h
