-- ===== src/Node/Task.antt =====
-- The methods of a node (supervisor/src/lib.rs, `impl TaskNode`), each as a function of the state.
-- Every feature of the crate is on. Logging is left out.
use embassy_supervisor.Base.{
  ℕ, ◌+◌, ◌%◌, ◌^◌, if◌then◌else◌, Bool, true, false, ◌&&◌, ◌||◌, not, Option, none, some, List, [],
  ◌∷◌, map,
}
use embassy_supervisor.Node.Flags.{
  Flag, shutdown, dropped, running, busy, completed, ready, pending_ack, pending_exit, resident,
  idle, flag, flag_set, flag_clear, flag_put, flag_swap,
}
use embassy_supervisor.Node.Faults.{Duration, Fault, encode, decode, is_wedge, is_healthy}
use embassy_supervisor.Node.State.{is_pause, NodeCfg, TaskHandle, Claim, Site, WriteEntry}

abbrev pub set_flags : List Flag → TaskHandle → TaskHandle
set_flags bits h = record h { flags = flag_set bits h.flags }

abbrev pub clear_flags : List Flag → TaskHandle → TaskHandle
clear_flags bits h = record h { flags = flag_clear bits h.flags }

abbrev pub has_flag : Flag → TaskHandle → Bool
has_flag b h = flag h.flags b

abbrev pub on_handle : (TaskHandle → TaskHandle) → Site → Site
on_handle f s = record s { handle = f s.handle }

-- The task's side.

unfoldable pub current_fault : TaskHandle → Fault
current_fault h = decode h.fault h.hog_ms

unfoldable pub shutdown_requested : TaskHandle → Bool
unfolding current_fault
shutdown_requested h = if is_wedge (current_fault h) then false else has_flag shutdown h

-- Whether the poll is ready, and the latch that a completed poll of its signal takes.
unfoldable pub poll_shutdown : TaskHandle → TaskHandle × Bool
unfolding current_fault
poll_shutdown h =
    if is_wedge (current_fault h)
    then (h, false)
    else if has_flag shutdown h
    then (h, true)
    else (record h { shutdown_wake = false }, h.shutdown_wake)

unfoldable pub release_claims : List Claim → List Claim
release_claims = map (λ _. record { want = 0; grant = 0 })

-- A `Pause` instance keeps what it holds.
unfoldable pub release_provided : NodeCfg → Site → Site
unfolding release_claims
release_provided cfg s = record s {
  provided = if is_pause cfg.mode then s.provided else map (λ _. false) s.provided;
  claims = if is_pause cfg.mode then s.claims else release_claims s.claims;
}

unfoldable pub settle_dropped : Site → Site
settle_dropped s =
    let h = clear_flags (running ∷ []) s.handle in
    let h' = set_flags (dropped ∷ []) h in
    record s {
      handle = record h' { dropped_wake = true };
      events = record s.events { stop_evt = true; bind_req = true; serving = true };
    }

-- What other tasks do to the node at a point between two atomic accesses of a method.
abbrev pub Interference : Type 0
Interference = Site → Site

-- The gaps of `wedge_swallows`: behind the first read of the fault, behind the store of the
-- pending bits, and behind the second read.
pub record Gaps : Type 0 where
  pub before_set : Interference
  pub before_reread : Interference
  pub before_take : Interference

abbrev pub undisturbed : Gaps
undisturbed = record { before_set = λ s. s; before_reread = λ s. s; before_take = λ s. s }

unfoldable pub wedge_swallows : Gaps → List Flag → Site → Site × Bool
unfolding current_fault
wedge_swallows g bits s =
    if is_wedge (current_fault s.handle)
    then (let s₁ = g.before_reread (on_handle (set_flags bits) (g.before_set s)) in
        if is_wedge (current_fault s₁.handle)
        then (s₁, true)
        else (let s₂ = g.before_take s₁ in
            (on_handle (clear_flags bits) s₂, not (has_flag pending_ack s₂.handle))))
    else (s, false)

unfoldable pub ack_dropped : Gaps → NodeCfg → Site → Site
unfolding release_provided wedge_swallows settle_dropped
ack_dropped g cfg s =
    let (s', swallowed) = wedge_swallows g (pending_ack ∷ []) (release_provided cfg s) in
    if swallowed then s' else settle_dropped s'

unfoldable pub mark_exited : Gaps → NodeCfg → Site → Site
unfolding release_provided wedge_swallows settle_dropped
mark_exited g cfg s =
    let (s', swallowed) =
      wedge_swallows g (pending_exit ∷ pending_ack ∷ []) (release_provided cfg s) in
    if swallowed then s' else settle_dropped (on_handle (set_flags (completed ∷ [])) s')

unfoldable pub replay_swallowed : Site → Site
unfolding settle_dropped
replay_swallowed s =
    let pending = s.handle.flags in
    let s' = on_handle (clear_flags (pending_ack ∷ pending_exit ∷ [])) s in
    if flag pending pending_ack
    then settle_dropped
        (if flag pending pending_exit then on_handle (set_flags (completed ∷ [])) s' else s')
    else s'

-- The first store of `clear_fault`; the replay follows it.
unfoldable pub swap_fault : Site → Site
swap_fault s = on_handle (λ h. record h { fault = 0 }) s

unfoldable pub wake_fault : Site → Site
wake_fault s = on_handle (λ h. record h { fault_waker = true }) s

unfoldable pub clear_fault : Site → Site
unfolding swap_fault replay_swallowed wake_fault
clear_fault s = wake_fault (replay_swallowed (swap_fault s))

pub data InjectError : Type 0 where
  no_shell : InjectError

-- The refusal, if any, and the state.
unfoldable pub inject : (Duration → ℕ) → NodeCfg → Fault → Site → Site × Option InjectError
unfolding clear_fault encode
inject as_millis cfg f s =
    if is_healthy f
    then (clear_fault s, none)
    else if not (is_wedge f) && not cfg.shelled
    then (s, some no_shell)
    else (let stored =
          on_handle
            (λ h. record h { hog_ms = (encode as_millis f).1; fault = (encode as_millis f).0 }) s in
        (wake_fault (if is_wedge f then stored else replay_swallowed stored), none))

unfoldable pub set_ready : Site → Site
set_ready s = record s {
  handle = record (set_flags (ready ∷ []) s.handle) { ready_wake = true };
  events = record s.events { gate_evt = true; serving = true; bind_req = true; scale_req = true };
}

unfoldable pub clear_ready : Site → Site
clear_ready s = record s {
  handle = clear_flags (ready ∷ []) s.handle;
  events = record s.events { bind_req = true };
}

unfoldable pub mark_busy : Site → Site
mark_busy s =
    let (w, before) = flag_swap busy true s.handle.flags in
    record s {
      handle = record s.handle { flags = w };
      events = record s.events { scale_req = s.events.scale_req || not before };
    }

unfoldable pub mark_idle : Site → Site
mark_idle s =
    let (w, before) = flag_swap busy false s.handle.flags in
    record s {
      handle = record s.handle { flags = w };
      events = record s.events { scale_req = s.events.scale_req || before };
    }

-- The resident shell's side.

unfoldable pub is_settled : TaskHandle → Bool
is_settled h = not (has_flag resident h) || has_flag idle h

-- `none` is `Err(Busy)`.
unfoldable pub sv_resident : TaskHandle → Option Bool
sv_resident h =
    if has_flag resident h then if has_flag idle h then some true else none else some false

unfoldable pub sv_mark_resident : TaskHandle → TaskHandle
sv_mark_resident = set_flags (resident ∷ [])

unfoldable pub sv_start : TaskHandle → TaskHandle
sv_start h = record (clear_flags (idle ∷ []) h) { resume_wake = true }

-- `__sv_park` up to its wait.
unfoldable pub sv_park : Site → Site
sv_park s = record s {
  handle = set_flags (idle ∷ []) s.handle;
  events = record s.events { gate_evt = true };
}

-- The supervisor's side.

unfoldable pub signal_shutdown : TaskHandle → TaskHandle
signal_shutdown h = record (set_flags (shutdown ∷ []) h) { shutdown_wake = true }

unfoldable pub signal_resume : TaskHandle → TaskHandle
signal_resume h = record h { resume_wake = true }

unfoldable pub has_acked_stop : TaskHandle → Bool
has_acked_stop h = has_flag dropped h && not (has_flag completed h)

unfoldable pub reset : TaskHandle → TaskHandle
reset h =
    let stale = shutdown ∷ dropped ∷ busy ∷ completed ∷ ready ∷ pending_ack ∷ pending_exit ∷ [] in
    record (clear_flags stale h) { ready_wake = false; shutdown_wake = false; dropped_wake = false }

-- The wrapping sum of the counters that feed the beat.
unfoldable pub write_mark_of : List WriteEntry → ℕ
write_mark_of [] = 0
write_mark_of (w ∷ ws) =
    let rest = write_mark_of ws in
    if w.beats then elim w.observed [ none ↦ rest | some n ↦ (n + rest) % 2 ^ 32 ] else rest

-- At the tick `now`, over the current counters of the declared writes.
unfoldable pub set_running : ℕ → List WriteEntry → Bool → TaskHandle → TaskHandle
unfolding write_mark_of
set_running now writes on h =
    let h' = record h { flags = flag_put running on h.flags } in
    if on
    then record h' {
      last_beat = now % 2 ^ 32;
      write_mark = write_mark_of writes;
      pending_beat = false;
      status = none;
      epoch = (h.epoch + 1) % 2 ^ 32;
      epoch_wake = true;
    }
    else h'
