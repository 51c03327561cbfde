-- ===== src/Lifecycle/Crumb.antt =====
-- The breadcrumb word (supervisor/src/lib.rs, `CrumbPhase`, `note` and `decode_crumb`). The masks
-- and shifts are written as the divisions and remainders that they are on a 32-bit word.
use embassy_supervisor.Base.{
  ℕ, ◌+◌, ◌*◌, ◌/◌, ◌%◌, ◌^◌, ◌<◌, ◌≡◌, ◌==◌, if◌then◌else◌, ◌||◌, not, Option, none, some, arith,
}
use embassy_supervisor.Lifecycle.{
  Transition, spawning, started, resumed, stop_requested, stopped, exited, faulted,
}

pub data CrumbPhase : Type 0 where
  idle_phase spawning_phase started_phase stop_signalled stopped_phase : CrumbPhase
  faulted_phase resumed_phase : CrumbPhase

-- `phase as u8`.
unfoldable pub to_u8 : CrumbPhase → ℕ
to_u8 idle_phase = 0
to_u8 spawning_phase = 1
to_u8 started_phase = 2
to_u8 stop_signalled = 3
to_u8 stopped_phase = 4
to_u8 faulted_phase = 5
to_u8 resumed_phase = 6

unfoldable pub from_u8 : ℕ → Option CrumbPhase
from_u8 v =
    if v == 0
    then some idle_phase
    else if v == 1
    then some spawning_phase
    else if v == 2
    then some started_phase
    else if v == 3
    then some stop_signalled
    else if v == 4
    then some stopped_phase
    else if v == 5
    then some faulted_phase
    else if v == 6
    then some resumed_phase
    else none

unfoldable pub phase_of : Transition → CrumbPhase
phase_of spawning = spawning_phase
phase_of started = started_phase
phase_of resumed = resumed_phase
phase_of stop_requested = stop_signalled
phase_of stopped = stopped_phase
phase_of exited = stopped_phase
phase_of (faulted k) = faulted_phase

-- The slot field of a node that is not in the driving graph.
abbrev pub crumb_no_slot : ℕ
crumb_no_slot = 65535

-- `0x8000_0000 | phase << 16 | slot`; the fields do not overlap, so `|` is a sum.
unfoldable pub crumb_word : CrumbPhase → Option ℕ → ℕ
unfolding to_u8
crumb_word phase slot =
    2 ^ 31 + to_u8 phase * 2 ^ 16 + elim slot [ none ↦ crumb_no_slot | some i ↦ i % 2 ^ 16 ]

unfoldable pub decode_crumb : ℕ → Option (CrumbPhase × ℕ)
unfolding from_u8
decode_crumb word =
    if ((word / 2 ^ 31) % 2 == 0) || not ((word / 2 ^ 24) % 128 == 0)
    then none
    else elim (from_u8 ((word / 2 ^ 16) % 2 ^ 8)) [
      | none ↦ none
      | some phase ↦ some (phase, word % 2 ^ 16)
    ]

-- The word that a transition of a slot below 2^16 leaves decodes to the phase and the slot, it fits
-- 32 bits, and the word of no transition, 0, decodes to none.
pub decode_crumb-crumb_word :
    (t : Transition) (slot : ℕ)
    → slot < 2 ^ 16
    → (decode_crumb (crumb_word (phase_of t) (some slot)) ≡ some (phase_of t, slot))
      × (decode_crumb (crumb_word (phase_of t) none) ≡ some (phase_of t, crumb_no_slot))
      × (crumb_word (phase_of t) (some slot) < 2 ^ 32)
      × (decode_crumb 0 ≡ none)
unfolding crumb_word decode_crumb phase_of
decode_crumb-crumb_word spawning slot h = ground arith
decode_crumb-crumb_word _ slot h = ground arith
