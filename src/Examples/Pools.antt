-- ===== src/Examples/Pools.antt =====
-- A veto gate of three contributors, and a pool of three members.
use embassy_supervisor.Base.{
  ℕ, ◌+◌, ◌%◌, ◌≤◌, ◌<◌, ◌≡◌, refl, ◌==◌, if◌then◌else◌, true, false, none, some, List, [], ◌∷◌,
  arith, any_below, contains,
}
use embassy_supervisor.Node.Flags.{running, busy}
use embassy_supervisor.Node.State.{on_demand, NodeCfg, TaskHandle, new_handle}
use embassy_supervisor.Node.Task.{set_flags}
use embassy_supervisor.Veto.{VetoGate, new_gate, is_asserted}
use embassy_supervisor.Veto.Trace.{Call, calls, last_call, parity, calls-asserted}
use embassy_supervisor.Pool.{
  PoolStats, shrink, grow, idle_count, decide, start, stop, ElasticPool, can_start, can_stop,
  evaluate,
}
use embassy_supervisor.Pool.Cooldown.{Asked, after, HasSlack, SlackSince, decide-cooldown}
use embassy_supervisor.Pool.Members.{how_many, is_running, is_busy, evaluate-bounds}
use embassy_supervisor.Examples.Waves.{plain_cfg}

-- Two contributors assert, and one of them releases.
abbrev trace : List Call
trace = (0, true) ∷ (2, true) ∷ (0, false) ∷ []

calls-asserted_example :
    (g : VetoGate) × (calls 3 trace new_gate ≡ some g)
    × (is_asserted 3 g ≡ any_below 3 (λ slot. last_call 3 slot trace false))
    × (g.seq % 2 ≡ parity 3 (is_asserted 3 g))
calls-asserted_example = calls-asserted 3 trace (omega arith, (omega arith, (omega arith, tt)))

-- Four members run, and one is busy.
abbrev slack : PoolStats
slack = record { running_count = 4; busy_count = 1; min_size = 1; max_size = 5 }

abbrev past : Asked
past = (slack, 20) ∷ (slack, 10) ∷ []

past_shrinks : (decide 30 slack 45 (after 30 past)).1 ≡ shrink
unfolding decide
past_shrinks = refl

decide-cooldown_example :
    let action = (decide 30 slack 45 (after 30 past)).1 in
    (action ≡ shrink
      → (deadline : ℕ) × (deadline ≤ 45) × SlackSince 30 deadline past × HasSlack slack)
    × (action ≡ grow → (idle_count slack ≡ 0) × (slack.running_count < slack.max_size))
decide-cooldown_example = decide-cooldown 30 past slack 45

abbrev pool_cfg : ℕ → NodeCfg
pool_cfg m = record plain_cfg { mode = on_demand }

-- The member 0 runs and is busy, the others are down.
abbrev pool_nodes : ℕ → TaskHandle
pool_nodes m =
    if m == 0 then set_flags (running ∷ busy ∷ []) (new_handle false) else new_handle false

abbrev pool : ElasticPool
pool = record { nodes = 0 ∷ 1 ∷ 2 ∷ []; min_size = 1; max_size = 3 }

evaluate-bounds_example :
    let running_now = how_many (is_running pool_cfg pool_nodes) pool.nodes in
    let busy_now = how_many (is_busy pool_cfg pool_nodes) pool.nodes in
    let action = (evaluate pool_cfg pool_nodes 30 pool 7 none).1 in
    ((m : ℕ)
      → action ≡ start m
      → (contains m pool.nodes ≡ true)
        × (can_start pool_cfg pool_nodes m ≡ true)
        × (running_now < pool.max_size)
        × (running_now ≤ busy_now))
    × ((m : ℕ)
        → action ≡ stop m
        → (contains m pool.nodes ≡ true)
          × (can_stop pool_cfg pool_nodes m ≡ true)
          × (pool.min_size < running_now)
          × (2 + busy_now ≤ running_now))
evaluate-bounds_example = evaluate-bounds pool_cfg pool_nodes 30 pool 7 none (omega arith)
