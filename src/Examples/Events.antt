-- ===== src/Examples/Events.antt =====
-- Lifecycle events over a queue of two.
use embassy_supervisor.Base.{
  ◌≡◌, refl, ◌==◌, if◌then◌else◌, Option, none, some, List, [], ◌∷◌, ◌++◌, arith, inl, inr,
  Bool-cases, length,
}
use embassy_supervisor.Lifecycle.{spawning, started, stop_requested, stopped}
use embassy_supervisor.Lifecycle.Events.{
  LifecycleEvent, Channel, kind_of, first_state, emit_lifecycle, store_crumb, note,
  try_wait_lifecycle, Call, notes, waits, calls,
}
use embassy_supervisor.Lifecycle.Events.Delivery.{Delivers, calls-Delivers}

abbrev send_two : LifecycleEvent → List LifecycleEvent → Option (List LifecycleEvent)
send_two a q = if length q == 2 then none else some (q ++ a ∷ [])

abbrev take_first : List LifecycleEvent → Option (LifecycleEvent × List LifecycleEvent)
take_first [] = none
take_first (a ∷ q) = some (a, q)

send_two-some :
    (a : LifecycleEvent) (q q' : List LifecycleEvent) → send_two a q ≡ some q' → q' ≡ q ++ a ∷ []
send_two-some a q q' e = elim (Bool-cases (length q == 2)) [
  | inl full ↦ absurd (ground (arith, e, full))
  | inr free ↦ ground (arith, e, free)
]

send_two-none : (a : LifecycleEvent) (q : List LifecycleEvent) → send_two a q ≡ none → length q ≡ 2
send_two-none a q e = ground (arith, e)

take_first-some :
    (a : LifecycleEvent) (q q' : List LifecycleEvent) → take_first q ≡ some (a, q') → q ≡ a ∷ q'
take_first-some a [] q' e = absurd cc
take_first-some a (b ∷ q) q' e = cc

take_first-none : (q : List LifecycleEvent) → take_first q ≡ none → q ≡ []
take_first-none [] e = refl
take_first-none (b ∷ q) e = absurd cc

abbrev two : Channel LifecycleEvent
two = record {
  Queue = List LifecycleEvent;
  capacity = 2;
  contents = λ q. q;
  new = [];
  try_send = send_two;
  try_receive = take_first;
  new_empty = refl;
  send_appends = send_two-some;
  send_full = send_two-none;
  receive_oldest = take_first-some;
  receive_none = take_first-none;
}

abbrev story : List Call
story =
    notes 0 (some 0) spawning
    ∷ notes 0 (some 0) started
    ∷ notes 0 (some 0) stop_requested
    ∷ notes 0 (some 0) stopped
    ∷ waits
    ∷ []

-- The third event finds the queue full.
one_dropped : (calls two story (first_state two)).0.dropped ≡ 1
unfolding calls first_state note kind_of emit_lifecycle store_crumb try_wait_lifecycle
one_dropped = refl

calls-Delivers_example : Delivers two story
calls-Delivers_example = calls-Delivers two story
