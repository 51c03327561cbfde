-- ===== src/Examples/Nodes.antt =====
-- One node: a wedge, a truncated clock, a monitor's sweeps, a crumb and a fault's words.
use embassy_supervisor.Base.{
  ℕ, ◌/◌, ◌-◌, ◌^◌, ◌≤◌, ◌<◌, ◌≡◌, refl, ltb, leb, if◌then◌else◌, true, false, ◌&&◌, not, none,
  some, List, [], ◌∷◌, arith,
}
use embassy_supervisor.Node.Flags.{running}
use embassy_supervisor.Node.Faults.{
  hog, encode, decode, cut_hog, Duration, from_ticks, from_millis, decode-encode,
}
use embassy_supervisor.Node.State.{TaskHandle, new_handle, Site}
use embassy_supervisor.Node.Task.{has_flag, on_handle, write_mark_of, ack_dropped, mark_exited}
use embassy_supervisor.Node.Wedge.{
  raced, reread_then_take, IsWedged, IsDelivered, task_end-IsDelivered,
}
use embassy_supervisor.Node.Flags.{pending_ack, pending_exit}
use embassy_supervisor.Node.Faults.{stall}
use embassy_supervisor.Node.State.{NodeCfg}
use embassy_supervisor.Node.Task.{set_flags, current_fault, inject}
use embassy_supervisor.Node.Injection.{IsReplayed, inject-IsReplayed}
use embassy_supervisor.Node.Liveness.{
  ticks_since_beat, ticks_until_check, is_stale, visit, take_observed, poll_observed_writes,
  has_observed, grant_beat, strike,
}
use embassy_supervisor.Node.Clock.{is_stale_exact, ticks_until_check_bounds}
use embassy_supervisor.Monitor.{Look, watch}
use embassy_supervisor.Monitor.Alternation.{Alternates, window, StaysUp, watch-Alternates}
use embassy_supervisor.Lifecycle.{stop_requested}
use embassy_supervisor.Lifecycle.Crumb.{
  phase_of, crumb_no_slot, crumb_word, decode_crumb, decode_crumb-crumb_word,
}
use embassy_supervisor.Examples.Waves.{plain_cfg, up}

abbrev wedged_up : Site
wedged_up = on_handle (λ h. record h { fault = 2 }) up

wedged_up-IsWedged : IsWedged wedged_up
unfolding new_handle
wedged_up-IsWedged = record { wedged = refl; no_ack = refl; no_exit = refl }

task_end-IsDelivered_example :
    IsDelivered wedged_up (raced reread_then_take (λ g. ack_dropped g plain_cfg) wedged_up) false
    × IsDelivered wedged_up (raced reread_then_take (λ g. mark_exited g plain_cfg) wedged_up) true
task_end-IsDelivered_example =
    task_end-IsDelivered reread_then_take plain_cfg wedged_up wedged_up-IsWedged

-- The clock is one turn of the low word further on: the stamp reads higher than the clock.
abbrev stamped : TaskHandle
stamped = record up.handle { last_beat = 4294967290 }

is_stale_exact_example :
    ((is_stale 4294967300 8 stamped).1
      ≡ (has_flag running stamped && not stamped.pending_beat && ltb 8 (4294967300 - 4294967290)))
    × ((ticks_since_beat 4294967300 stamped).1
        ≡ (if stamped.pending_beat then 0 else 4294967300 - 4294967290))
    × ((ticks_since_beat 4294967300 stamped).0.pending_beat ≡ false)
is_stale_exact_example =
    is_stale_exact 4294967300 4294967290 8 stamped
      (record { stamp = refl; past = omega arith; recent = omega arith })

ticks_until_check_bounds_example :
    (sleep : ℕ) × ((ticks_until_check plain_cfg 4294967300 stamped).1 ≡ some sleep)
    × (1 ≤ sleep)
    × (sleep ≤ 100)
ticks_until_check_bounds_example =
    ticks_until_check_bounds plain_cfg 4294967300 100 stamped refl (omega arith)

-- The node misses its beat for three sweeps, beats, and is looked at again.
abbrev quiet : ℕ → Look
quiet ms = record { change = λ s. s; now = ms; writes = [] }

abbrev beaten : ℕ → Look
beaten ms = record {
  change = on_handle (λ h. record h { pending_beat = true });
  now = ms;
  writes = [];
}

abbrev sweeps : List Look
sweeps = quiet 150 ∷ quiet 250 ∷ quiet 350 ∷ beaten 400 ∷ []

sweeps-StaysUp : StaysUp plain_cfg sweeps up
unfolding visit take_observed poll_observed_writes has_observed is_stale ticks_since_beat grant_beat
    strike write_mark_of new_handle
sweeps-StaysUp = (refl, refl, refl, (refl, refl, refl, (refl, refl, refl, (refl, refl, refl, tt))))

watch-Alternates_example :
    Alternates (leb (window plain_cfg) up.handle.stale_strikes) (watch plain_cfg sweeps up)
unfolding new_handle
watch-Alternates_example =
    watch-Alternates plain_cfg 100 sweeps up refl (omega arith) sweeps-StaysUp

decode_crumb-crumb_word_example :
    (decode_crumb (crumb_word (phase_of stop_requested) (some 5))
      ≡ some (phase_of stop_requested, 5))
    × (decode_crumb (crumb_word (phase_of stop_requested) none)
        ≡ some (phase_of stop_requested, crumb_no_slot))
    × (crumb_word (phase_of stop_requested) (some 5) < 2 ^ 32)
    × (decode_crumb 0 ≡ none)
decode_crumb-crumb_word_example = decode_crumb-crumb_word stop_requested 5 (omega arith)

-- A tick is a microsecond.
abbrev as_millis : Duration → ℕ
as_millis (from_ticks n) = n / 1000
as_millis (from_millis ms) = ms

decode-encode_example :
    let (code, ms) = encode as_millis (hog (from_ticks 1500)) in
    (decode code ms ≡ cut_hog as_millis (hog (from_ticks 1500)))
    × (encode as_millis (decode code ms) ≡ (code, ms))
    × (code < 2 ^ 8)
    × (ms < 2 ^ 32)
decode-encode_example = decode-encode as_millis (hog (from_ticks 1500)) (λ ms lt. refl)

-- The half millisecond is lost.
half_lost : cut_hog as_millis (hog (from_ticks 1500)) ≡ hog (from_millis 1)
half_lost = refl

abbrev shelled_cfg : NodeCfg
shelled_cfg = record plain_cfg { shelled = true }

-- An exit that the wedge held back.
abbrev held_back : Site
held_back = on_handle (λ h. record (set_flags (pending_ack ∷ pending_exit ∷ []) h) { fault = 2 }) up

inject-IsReplayed_example :
    (current_fault (inject as_millis shelled_cfg stall held_back).0.handle
      ≡ cut_hog as_millis stall)
    × IsReplayed held_back (inject as_millis shelled_cfg stall held_back).0
inject-IsReplayed_example =
    inject-IsReplayed as_millis shelled_cfg stall held_back refl (unfold inject in refl)
