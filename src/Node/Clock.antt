-- ===== src/Node/Clock.antt =====
-- Staleness is exact although the stamp of a beat keeps only the low 32 bits of the clock.
use embassy_supervisor.Base.{
  ℕ, ◌+◌, ◌-◌, ◌%◌, ◌^◌, ◌≤◌, ◌<◌, ◌≡◌, ap, ltb, if◌then◌else◌, false, ◌&&◌, not, some, arith,
}
use embassy_supervisor.Node.Flags.{running}
use embassy_supervisor.Node.State.{NodeCfg, TaskHandle}
use embassy_supervisor.Node.Task.{has_flag}
use embassy_supervisor.Node.Liveness.{
  grant_beat, ticks_since_beat, is_stale, check_delay, ticks_until_check,
}

-- The wrapping difference of two truncated ticks is the true distance below 2^32.
wrapping_sub_exact :
    (now beat_at : ℕ)
    → beat_at ≤ now
    → now < beat_at + 2 ^ 32
    → (now % 2 ^ 32 + 2 ^ 32 - beat_at % 2 ^ 32) % 2 ^ 32 ≡ now - beat_at
wrapping_sub_exact now beat_at h k = omega arith

-- The handle was stamped at the tick `beat_at`, fewer than 2^32 ticks ago.
pub record IsStamped (now beat_at : ℕ) (h : TaskHandle) : Type 0 where
  pub stamp : h.last_beat ≡ beat_at % 2 ^ 32
  pub past : beat_at ≤ now
  pub recent : now < beat_at + 2 ^ 32

-- A node whose beat was stamped fewer than 2^32 ticks ago is stale exactly when it runs, no beat is
-- pending, and its age is above the limit. A pending beat is granted: it makes the age of a running
-- node zero.
pub is_stale_exact :
    (now beat_at max_age : ℕ) (h : TaskHandle)
    → IsStamped now beat_at h
    → ((is_stale now max_age h).1
        ≡ (has_flag running h && not h.pending_beat && ltb max_age (now - beat_at)))
      × ((ticks_since_beat now h).1 ≡ (if h.pending_beat then 0 else now - beat_at))
      × ((ticks_since_beat now h).0.pending_beat ≡ false)
unfolding is_stale ticks_since_beat grant_beat
is_stale_exact now beat_at max_age h st = ground (
  arith,
  wrapping_sub_exact now beat_at st.past st.recent,
  st.stamp,
  ap (λ (t : ℕ). (now % 2 ^ 32 + 2 ^ 32 - t) % 2 ^ 32) st.stamp,
  wrapping_sub_exact now now (omega arith) (omega arith),
)

-- A policed node with a budget above zero is looked at again after at least one tick and at most
-- one budget, whatever its state.
pub ticks_until_check_bounds :
    (cfg : NodeCfg) (now budget : ℕ) (h : TaskHandle)
    → cfg.beat_timeout ≡ some budget
    → 0 < budget
    → (sleep : ℕ) × ((ticks_until_check cfg now h).1 ≡ some sleep) × (1 ≤ sleep) × (sleep ≤ budget)
unfolding ticks_until_check
ticks_until_check_bounds cfg now budget h e pos =
    ((check_delay cfg budget now h).1, rw (e, ticks_until_check), ground arith, ground arith)
