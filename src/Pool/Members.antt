-- ===== src/Pool/Members.antt =====
-- What an evaluation of a pool asks for, against the members' flags.
use embassy_supervisor.Base.{
  ℕ, ◌+◌, ◌%◌, ◌≤◌, ◌<◌, ◌≡◌, ap, ap₂, ◌∙◌, if◌then◌else◌, Bool, true, ◌&&◌, Option, some, List, [],
  ◌∷◌, arith, inl, inr, Bool-cases, Option-cases, contains, length,
}
use embassy_supervisor.Node.Flags.{running, busy}
use embassy_supervisor.Node.State.{NodeCfg, TaskHandle}
use embassy_supervisor.Node.Task.{has_flag}
use embassy_supervisor.Pool.{
  ScaleAction, no_change, grow, shrink, decide, start, stop, ElasticPool, count_members, stats,
  find, can_start, can_stop, act, evaluate,
}
use embassy_supervisor.Pool.Cooldown.{decide-shrink, decide-grow}

-- How many members pass a test.
abbrev pub how_many : (ℕ → Bool) → List ℕ → ℕ
how_many p [] = 0
how_many p (m ∷ ms) = (if p m then 1 else 0) + how_many p ms

find-some :
    (p : ℕ → Bool) (ms : List ℕ) (m : ℕ)
    → find p ms ≡ some m
    → (contains m ms ≡ true) × (p m ≡ true)
unfolding find
find-some p [] m e = absurd (ground (arith, e))
find-some p (k ∷ ms) m e = elim (Bool-cases (p k)) [
  | inl here ↦ ground (arith, e, here)
  | inr on ↦ ground (arith, e, on, find-some p ms m)
]

module _ (cfg : ℕ → NodeCfg) (nodes : ℕ → TaskHandle) where
  abbrev pub is_running : ℕ → Bool
  is_running m = has_flag running (nodes m)

  abbrev pub is_busy : ℕ → Bool
  is_busy m = is_running m && has_flag busy (nodes m)

  -- The 8-bit counts are the true ones as long as they cannot wrap.
  count_members_exact :
      (ms : List ℕ) (r b : ℕ)
      → r + length ms < 256
      → b + length ms < 256
      → count_members cfg nodes ms (r, b) ≡ (r + how_many is_running ms, b + how_many is_busy ms)
  unfolding count_members
  count_members_exact [] r b hr hb = ap₂ (λ x y. (x, y)) (omega arith) (omega arith)
  count_members_exact (m ∷ ms) r b hr hb = elim (Bool-cases (is_running m)) [
    | inl on ↦ elim (Bool-cases (has_flag busy (nodes m))) [
      | inl loaded ↦
          rw (on, loaded)
            (count_members_exact ms ((r + 1) % 256) ((b + 1) % 256) (omega arith) (omega arith)
              ∙ ap₂ (λ x y. (x, y)) (omega arith) (omega arith))
      | inr free ↦
          rw (on, free)
            (count_members_exact ms ((r + 1) % 256) ((b + 0) % 256) (omega arith) (omega arith)
              ∙ ap₂ (λ x y. (x, y)) (omega arith) (omega arith))
    ]
    | inr off ↦ rw off (
        count_members_exact ms r b (omega arith) (omega arith)
        ∙ ap₂ (λ x y. (x, y)) (omega arith) (omega arith))
  ]

  stats_exact :
      (pool : ElasticPool)
      → length pool.nodes < 256
      → ((stats cfg nodes pool).running_count ≡ how_many is_running pool.nodes)
        × ((stats cfg nodes pool).busy_count ≡ how_many is_busy pool.nodes)
  unfolding stats
  stats_exact pool short =
      let e = count_members_exact pool.nodes 0 0 (omega (arith, short)) (omega (arith, short)) in
      (ap (λ p. p.0) e ∙ omega arith, ap (λ p. p.1) e ∙ omega arith)

  act_start :
      (pool : ElasticPool) (a : ScaleAction) (m : ℕ)
      → act cfg nodes pool a ≡ start m
      → (a ≡ grow) × (find (can_start cfg nodes) pool.nodes ≡ some m)
  unfolding act
  act_start pool no_change m e = absurd (ground (arith, e))
  act_start pool grow m e = ground (arith, e, Option-cases (find (can_start cfg nodes) pool.nodes))
  act_start pool shrink m e = absurd (ground (arith, e))

  act_stop :
      (pool : ElasticPool) (a : ScaleAction) (m : ℕ)
      → act cfg nodes pool a ≡ stop m
      → (a ≡ shrink) × (find (can_stop cfg nodes) pool.nodes ≡ some m)
  unfolding act
  act_stop pool no_change m e = absurd (ground (arith, e))
  act_stop pool grow m e = absurd (ground (arith, e))
  act_stop pool shrink m e = ground (arith, e, Option-cases (find (can_stop cfg nodes) pool.nodes))

-- In a pool of fewer than 256 members, an evaluation starts only a member that is on demand, not
-- running, not disabled and not collateral, with fewer members running than the maximum and none
-- of them idle. It stops only a member that is on demand, running and not busy, with more members
-- running than the minimum and at least two of them idle.
pub evaluate-bounds :
    (cfg : ℕ → NodeCfg) (nodes : ℕ → TaskHandle) (cooldown : ℕ) (pool : ElasticPool) (now : ℕ)
    (pending : Option ℕ)
    → length pool.nodes < 256
    → let running_now = how_many (is_running cfg nodes) pool.nodes in
      let busy_now = how_many (is_busy cfg nodes) pool.nodes in
      let action = (evaluate cfg nodes cooldown pool now pending).1 in
      ((m : ℕ)
        → action ≡ start m
        → (contains m pool.nodes ≡ true)
          × (can_start cfg nodes m ≡ true)
          × (running_now < pool.max_size)
          × (running_now ≤ busy_now))
      × ((m : ℕ)
          → action ≡ stop m
          → (contains m pool.nodes ≡ true)
            × (can_stop cfg nodes m ≡ true)
            × (pool.min_size < running_now)
            × (2 + busy_now ≤ running_now))
unfolding evaluate stats
evaluate-bounds cfg nodes cooldown pool now pending short = (
  λ m e.
      let (grows, found) =
        act_start cfg nodes pool (decide cooldown (stats cfg nodes pool) now pending).1 m e in
      let (inside, able) = find-some (can_start cfg nodes) pool.nodes m found in
      let (none_idle, below) = decide-grow cooldown (stats cfg nodes pool) now pending grows in
      let (r, b) = stats_exact cfg nodes pool short in
      (inside, able, ground (arith, below, r), ground (arith, none_idle, r, b)),
  λ m e.
      let (shrinks, found) =
        act_stop cfg nodes pool (decide cooldown (stats cfg nodes pool) now pending).1 m e in
      let (inside, able) = find-some (can_stop cfg nodes) pool.nodes m found in
      let (slack, deadline) = decide-shrink cooldown (stats cfg nodes pool) now pending shrinks in
      let (r, b) = stats_exact cfg nodes pool short in
      (inside, able, ground (arith, slack, r), ground (arith, slack, r, b)),
)
