-- ===== src/Pool/Cooldown.antt =====
-- The deferred-shrink policy over any sequence of evaluations.
use embassy_supervisor.Base.{
  ℕ, ◌+◌, ◌≤◌, ◌<◌, ◌≡◌, ◌⊎◌, refl, Option, none, some, List, [], ◌∷◌, arith, inl, inr,
}
use embassy_supervisor.Pool.{PoolStats, idle_count, shrink, grow, decide}

-- What the policy was asked, newest first, and the state that it is left in.
abbrev pub Asked : Type 0
Asked = List (PoolStats × ℕ)

-- Two members idle, and more running than the minimum.
abbrev pub HasSlack : PoolStats → Type 0
HasSlack s = (2 ≤ idle_count s) × (s.min_size < s.running_count)

module _ (cooldown : ℕ) where
  abbrev pub after : Asked → Option ℕ
  after [] = none
  after ((s, now) ∷ past) = (decide cooldown s now (after past)).0

  -- At some past call the cooldown up to `deadline` began, and there was slack at it and ever since.
  abbrev pub SlackSince : ℕ → Asked → Type 0
  SlackSince deadline [] = ⊥
  SlackSince deadline ((s, now) ∷ past) =
      HasSlack s × ((now + cooldown ≡ deadline) ⊎ SlackSince deadline past)

  -- A policy with a deadline pending: the call had slack, and set the deadline or kept it.
  decide-pending :
      (s : PoolStats) (now : ℕ) (before : Option ℕ) (deadline : ℕ)
      → (decide cooldown s now before).0 ≡ some deadline
      → HasSlack s × ((now + cooldown ≡ deadline) ⊎ (before ≡ some deadline))
  unfolding decide
  decide-pending s now none deadline e = ground (arith, e)
  decide-pending s now (some d) deadline e = ground (arith, e)

  -- A policy that shrinks: its deadline has passed, with slack at the call.
  pub decide-shrink :
      (s : PoolStats) (now : ℕ) (before : Option ℕ)
      → (decide cooldown s now before).1 ≡ shrink
      → HasSlack s × ((deadline : ℕ) × (deadline ≤ now) × (before ≡ some deadline))
  unfolding decide
  decide-shrink s now none e = ground (arith, e)
  decide-shrink s now (some d) e = (ground (arith, e), (d, ground (arith, e), refl))

  pub decide-grow :
      (s : PoolStats) (now : ℕ) (before : Option ℕ)
      → (decide cooldown s now before).1 ≡ grow
      → (idle_count s ≡ 0) × (s.running_count < s.max_size)
  unfolding decide
  decide-grow s now none e = ground (arith, e)
  decide-grow s now (some d) e = ground (arith, e)

  pending-SlackSince :
      (past : Asked) (deadline : ℕ) → after past ≡ some deadline → SlackSince deadline past
  pending-SlackSince [] deadline e = absurd (ground (arith, e))
  pending-SlackSince ((s, now) ∷ past) deadline e =
      let (slack, began) = decide-pending s now (after past) deadline e in
      (
        slack,
        elim began [ inl set ↦ inl set | inr kept ↦ inr (pending-SlackSince past deadline kept) ],
      )

-- The policy shrinks only where there is slack, has been slack at every call of a whole cooldown
-- before, and the pool stays at or above its minimum. It grows only where nobody is idle and the
-- pool stays at or below its maximum.
pub decide-cooldown :
    (cooldown : ℕ) (past : Asked) (s : PoolStats) (now : ℕ)
    → let action = (decide cooldown s now (after cooldown past)).1 in
      (action ≡ shrink
        → (deadline : ℕ) × (deadline ≤ now) × SlackSince cooldown deadline past × HasSlack s)
      × (action ≡ grow → (idle_count s ≡ 0) × (s.running_count < s.max_size))
decide-cooldown cooldown past s now = (
  λ e.
      let (slack, (deadline, passed, was)) = decide-shrink cooldown s now (after cooldown past) e in
      (deadline, passed, pending-SlackSince cooldown past deadline was, slack),
  decide-grow cooldown s now (after cooldown past),
)
