-- ===== src/Pool.antt =====
-- Elastic pools (supervisor/src/pool.rs): the statistics, the deferred-shrink policy and a pool's
-- evaluation. Counters are 8-bit and wrap; a member is its slot in the graph.
pub mod Cooldown
pub mod Members
use embassy_supervisor.Base.{
  ℕ, ◌+◌, ◌-◌, ◌%◌, ◌^◌, ltb, leb, ◌==◌, if◌then◌else◌, Bool, true, false, ◌&&◌, ◌||◌, not, Option,
  none, some, List, [], ◌∷◌, min,
}
use embassy_supervisor.Node.Flags.{running, busy, disabled, collateral}
use embassy_supervisor.Node.State.{Mode, on_demand, is_on_demand, NodeCfg, TaskHandle}
use embassy_supervisor.Node.Task.{has_flag}

pub record PoolStats : Type 0 where
  pub running_count : ℕ
  pub busy_count : ℕ
  pub min_size : ℕ
  pub max_size : ℕ

-- `saturating_sub`.
abbrev pub idle_count : PoolStats → ℕ
idle_count s = s.running_count - s.busy_count

pub data ScaleAction : Type 0 where
  no_change grow shrink : ScaleAction

-- `DeferredShrink::decide`: the policy's pending instant is its state.
unfoldable pub decide : ℕ → PoolStats → ℕ → Option ℕ → Option ℕ × ScaleAction
decide cooldown s now pending =
    if (idle_count s == 0) && ltb s.running_count s.max_size
    then (none, grow)
    else if leb 2 (idle_count s) && ltb s.min_size s.running_count
    then elim pending [
      | none ↦ (some (now + cooldown), no_change)
      | some deadline ↦
          if leb deadline now
          then (if leb 3 (idle_count s) then some (now + cooldown) else none, shrink)
          else (some deadline, no_change)
    ]
    else (none, no_change)

pub data PoolAction : Type 0 where
  no_action : PoolAction
  start stop : ℕ → PoolAction

pub record ElasticPool : Type 0 where
  pub nodes : List ℕ
  pub min_size : ℕ
  pub max_size : ℕ

-- `iter().find`.
unfoldable pub find : (ℕ → Bool) → List ℕ → Option ℕ
find p [] = none
find p (m ∷ ms) = if p m then some m else find p ms

module _ (cfg : ℕ → NodeCfg) (nodes : ℕ → TaskHandle) where
  -- `stats`: the fold over the members.
  unfoldable pub count_members : List ℕ → ℕ × ℕ → ℕ × ℕ
  count_members [] (r, b) = (r, b)
  count_members (m ∷ ms) (r, b) = count_members ms (
      if has_flag running (nodes m)
      then ((r + 1) % 2 ^ 8, (b + (if has_flag busy (nodes m) then 1 else 0)) % 2 ^ 8)
      else (r, b))

  unfoldable pub stats : ElasticPool → PoolStats
  unfolding count_members
  stats pool =
      let (r, b) = count_members pool.nodes (0, 0) in
      record {
        running_count = r;
        busy_count = b;
        min_size = pool.min_size;
        max_size = pool.max_size;
      }

  abbrev pub can_start : ℕ → Bool
  can_start m =
      is_on_demand (cfg m).mode
      && not (has_flag running (nodes m))
      && not (has_flag disabled (nodes m))
      && not (has_flag collateral (nodes m))

  abbrev pub can_stop : ℕ → Bool
  can_stop m =
      is_on_demand (cfg m).mode && has_flag running (nodes m) && not (has_flag busy (nodes m))

  -- `map_or(PoolAction::None, ..)`.
  abbrev pub act_on : (ℕ → PoolAction) → Option ℕ → PoolAction
  act_on f none = no_action
  act_on f (some m) = f m

  unfoldable pub act : ElasticPool → ScaleAction → PoolAction
  unfolding find
  act pool no_change = no_action
  act pool grow = act_on start (find can_start pool.nodes)
  act pool shrink = act_on stop (find can_stop pool.nodes)

  -- `Pool::evaluate`, with the policy's new state.
  unfoldable pub evaluate : ℕ → ElasticPool → ℕ → Option ℕ → Option ℕ × PoolAction
  unfolding stats decide act
  evaluate cooldown pool now pending =
      let (pending', action) = decide cooldown (stats pool) now pending in
      (pending', act pool action)
