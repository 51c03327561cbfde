-- ===== src/Node/Liveness.antt =====
-- Beats and staleness of a node, and the monitor's visit of one node (supervisor/src/lib.rs,
-- `beat` to `is_stale`, and the body of the loop of `Supervisor::monitor`). Times are ticks; a
-- method that reads the clock takes the tick `now`, and a visit reads it once.
use embassy_supervisor.Base.{
  ℕ, ◌+◌, ◌-◌, ◌/◌, ◌%◌, ◌^◌, max, ltb, leb, ◌==◌, if◌then◌else◌, Bool, true, false, ◌&&◌, ◌||◌,
  not, Option, none, some, List, [], ◌∷◌,
}
use embassy_supervisor.Node.Flags.{running, ready, detached}
use embassy_supervisor.Node.State.{NodeCfg, TaskHandle, Site, WriteEntry}
use embassy_supervisor.Node.Task.{has_flag, on_handle, set_ready, write_mark_of}

unfoldable pub beat : TaskHandle → TaskHandle
beat h = record h { pending_beat = true }

-- Does any write feed the beat through an observer?
unfoldable pub has_observed : List WriteEntry → Bool
has_observed [] = false
has_observed (w ∷ ws) =
    (w.beats && elim w.observed [ none ↦ false | some _ ↦ true ]) || has_observed ws

-- The mark is swapped only where there is something to observe.
unfoldable pub poll_observed_writes : List WriteEntry → TaskHandle → TaskHandle × Bool
unfolding has_observed write_mark_of
poll_observed_writes ws h =
    if has_observed ws
    then (record h { write_mark = write_mark_of ws }, not (h.write_mark == write_mark_of ws))
    else (h, false)

-- A pending beat is granted at the time of the check.
unfoldable pub grant_beat : ℕ → TaskHandle → TaskHandle
grant_beat now h = record h {
  last_beat = if h.pending_beat then now % 2 ^ 32 else h.last_beat;
  pending_beat = false;
}

unfoldable pub ticks_since_beat : ℕ → TaskHandle → TaskHandle × ℕ
unfolding grant_beat
ticks_since_beat now h =
    let h' = grant_beat now h in (h', (now % 2 ^ 32 + 2 ^ 32 - h'.last_beat) % 2 ^ 32)

-- A node that is down is not looked at.
unfoldable pub is_stale : ℕ → ℕ → TaskHandle → TaskHandle × Bool
unfolding ticks_since_beat
is_stale now max_age h =
    let (h', ticks) = ticks_since_beat now h in
    if has_flag running h then (h', ltb max_age ticks) else (h, false)

abbrev pub ready_probe_divisor : ℕ
ready_probe_divisor = 8

-- The delay of a policed node: down or detached, waiting to assert readiness, overdue, or running
-- normally.
unfoldable pub check_delay : NodeCfg → ℕ → ℕ → TaskHandle → TaskHandle × ℕ
unfolding ticks_since_beat
check_delay cfg budget now h =
    if has_flag detached h || not (has_flag running h)
    then (h, budget)
    else if cfg.ready_on_write && not (has_flag ready h)
    then (h, max (budget / ready_probe_divisor) 1)
    else (let (h', ticks) = ticks_since_beat now h in
        (h', if (budget - ticks) == 0 then max (budget / 2) 1 else budget - ticks))

unfoldable pub ticks_until_check : NodeCfg → ℕ → TaskHandle → TaskHandle × Option ℕ
unfolding check_delay
ticks_until_check cfg now h = elim cfg.beat_timeout [
  | none ↦ (h, none)
  | some budget ↦ let (h', delay) = check_delay cfg budget now h in (h', some delay)
]

pub data HealthKind : Type 0 where
  stale : ℕ → HealthKind
  recovered : HealthKind

-- Observed writes count as a beat, and assert readiness where that is declared.
unfoldable pub take_observed : NodeCfg → List WriteEntry → Site → Site
unfolding poll_observed_writes beat set_ready
take_observed cfg ws s =
    let (h, moved) = poll_observed_writes ws s.handle in
    let s' = record s { handle = if moved then beat h else h } in
    if moved && cfg.ready_on_write && not (has_flag ready h) then set_ready s' else s'

-- The strikes after a look that found the node stale, or found it beating, and the event.
unfoldable pub strike : ℕ → Bool → ℕ → TaskHandle → TaskHandle × Option HealthKind
strike window is_late ticks h =
    if is_late
    then if ltb h.stale_strikes window
      then (
        record h { stale_strikes = h.stale_strikes + 1 },
        if (h.stale_strikes + 1) == window then some (stale ticks) else none,
      )
      else (h, none)
    else (
      record h { stale_strikes = 0 },
      if leb window h.stale_strikes then some recovered else none,
    )

-- The monitor's visit of a node in a graph with observed signals.
unfoldable pub visit : NodeCfg → ℕ → List WriteEntry → Site → Site × Option HealthKind
visit cfg now ws s = elim cfg.beat_timeout [
  | none ↦ (s, none)
  | some budget ↦
      if has_flag detached s.handle || not (has_flag running s.handle)
      then (on_handle (λ h. record h { stale_strikes = 0 }) s, none)
      else (let s₁ = take_observed cfg ws s in
          let (h, is_late) = is_stale now budget s₁.handle in
          let (h', event) = strike (max cfg.beat_window 1) is_late (ticks_since_beat now h).1 h in
          (record s₁ { handle = h' }, event))
]
