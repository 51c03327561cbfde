-- ===== src/Backed.antt =====
-- A signal whose producer runs while it is read (supervisor/src/data_deps/backed.rs, and `open` of
-- gated.rs): readers open it, and the producer retires once none is left. Each reader and the
-- producer take one atomic access in a step, and they interleave in any order.
pub mod Moves
mod Turns
pub mod Readers
pub mod Retired
use embassy_supervisor.Base.{
  ℕ, ◌+◌, ◌-◌, ◌%◌, ◌^◌, ◌<◌, ◌≡◌, ◌≢◌, Bool, true, false, List, [], ◌∷◌, ◌++◌, update,
}
use embassy_supervisor.Node.Flags.{Flag, running, ready, Flags, flag, flag_set, flag_clear}

pub data ControlOp : Type 0 where
  activate deactivate restart : ControlOp

-- `Backed<T>` without the signal that it wraps.
pub record Backed : Type 0 where
  pub requested : Bool
  pub openers : ℕ  -- AtomicU32
  pub watch : Bool  -- a latch

abbrev pub new_backed : Backed
new_backed = record { requested = false; openers = 0; watch = false }

-- `fetch_add(1)` and `fetch_sub(1)`.
abbrev pub count_in : Backed → Backed
count_in b = record b { openers = (b.openers + 1) % 2 ^ 32 }

abbrev pub count_out : Backed → Backed
count_out b = record b { openers = (b.openers + (2 ^ 32 - 1)) % 2 ^ 32 }

-- What the readers and the producer share: the gate, the flags of the producer, and what was
-- asked of the supervisor.
pub record Mem : Type 0 where
  pub gate : Backed
  pub flags : Flags
  pub posted : List ControlOp

abbrev pub on_gate : (Backed → Backed) → Mem → Mem
on_gate f m = record m { gate = f m.gate }

abbrev pub set_requested : Bool → Mem → Mem
set_requested b = on_gate (λ g. record g { requested = b })

abbrev pub set_watch : Bool → Mem → Mem
set_watch b = on_gate (λ g. record g { watch = b })

abbrev pub post : ControlOp → Mem → Mem
post op m = record m { posted = m.posted ++ (op ∷ []) }

-- Where a reader stands: `admit_reader` behind an increment from zero, the top of `ensure`'s loop,
-- `serving` behind its read of the running flag, past the loop, reading, asking for a start in
-- three accesses, `wait_serving`'s pause, its last `serving` in two, the store that takes the
-- request back, and `drop_reader` behind a decrement to zero.
pub data Pc : Type 0 where
  outside entering looping saw_running granted reading : Pc
  asking swapping posting pausing woke_running unasking last_out : Pc

-- A reader that may drop its guard, or its `open` in a pause of it.
pub data MayLeave : Pc → Type 0 where
  reads : MayLeave reading
  cancels_post : MayLeave posting
  cancels_pause : MayLeave pausing

-- One access of a reader. The pause of `wait_serving` may end at any time, by its retry timer.
pub data Move (m : Mem) : Pc → Mem → Pc → Type 0 where
  enters_first : m.gate.openers ≡ 0 → Move m outside (on_gate count_in m) entering
  enters : m.gate.openers ≢ 0 → Move m outside (on_gate count_in m) looping
  signals_in : Move m entering (set_watch true m) looping
  runs : flag m.flags running ≡ true → Move m looping m saw_running
  is_down : flag m.flags running ≡ false → Move m looping m asking
  serves : flag m.flags ready ≡ true → Move m saw_running m granted
  unready : flag m.flags ready ≡ false → Move m saw_running m asking
  ends_request : Move m granted (set_requested false m) reading
  needs_no_start : flag m.flags running ≡ true → Move m asking m pausing
  needs_start : flag m.flags running ≡ false → Move m asking m swapping
  asked_before : m.gate.requested ≡ true → Move m swapping m pausing
  asks : m.gate.requested ≡ false → Move m swapping (set_requested true m) posting
  posts : Move m posting (post activate m) pausing
  woke_up : flag m.flags running ≡ true → Move m pausing m woke_running
  woke_down : flag m.flags running ≡ false → Move m pausing m unasking
  woke_ready : flag m.flags ready ≡ true → Move m woke_running m looping
  woke_unready : flag m.flags ready ≡ false → Move m woke_running m unasking
  unasks : Move m unasking (set_requested false m) looping
  leaves_last : {p : Pc} → MayLeave p → m.gate.openers ≡ 1 → Move m p (on_gate count_out m) last_out
  leaves : {p : Pc} → MayLeave p → m.gate.openers ≢ 1 → Move m p (on_gate count_out m) outside
  signals_out : Move m last_out (set_watch true m) outside

-- Where the producer stands: in its body; in `unwatched` at the read of the count, waiting for the
-- latch, before its reset, in the cooldown, and behind it; in `retire` before and behind
-- `clear_ready`, before `set_ready`, before its request, and returned.
pub data Producer : Type 0 where
  serving looking parked resetting cooling rechecking : Producer
  clearing counting restoring leaving retired : Producer

-- One access of the producer. A `retire` may be dropped where it waits. The body sets and clears
-- its readiness at will, and a producer that has retired is in its body again at its next start.
pub data Turn (m : Mem) : Producer → Mem → Producer → Type 0 where
  sets_ready : Turn m serving (record m { flags = flag_set (ready ∷ []) m.flags }) serving
  clears_ready : Turn m serving (record m { flags = flag_clear (ready ∷ []) m.flags }) serving
  retires : Turn m serving m looking
  is_read : m.gate.openers ≢ 0 → Turn m looking m parked
  is_unread : m.gate.openers ≡ 0 → Turn m looking m resetting
  wakes : m.gate.watch ≡ true → Turn m parked (set_watch false m) looking
  resets : Turn m resetting (set_watch false m) cooling
  cools : Turn m cooling m rechecking
  is_watched : m.gate.watch ≡ true → Turn m cooling (set_watch false m) looking
  still_unread : m.gate.openers ≡ 0 → Turn m rechecking m clearing
  read_again : m.gate.openers ≢ 0 → Turn m rechecking m looking
  goes_unready : Turn m clearing (record m { flags = flag_clear (ready ∷ []) m.flags }) counting
  none_left : m.gate.openers ≡ 0 → Turn m counting m leaving
  some_came : m.gate.openers ≢ 0 → Turn m counting m restoring
  goes_ready : Turn m restoring (record m { flags = flag_set (ready ∷ []) m.flags }) looking
  asks_to_stop : Turn m leaving (post deactivate m) retired
  gives_up_parked : Turn m parked m serving
  gives_up_cooling : Turn m cooling m serving
  gives_up_leaving : Turn m leaving m serving
  starts_again : Turn m retired m serving

pub record System : Type 0 where
  pub mem : Mem
  pub pc : ℕ → Pc
  pub producer : Producer

-- A gate that nobody has opened yet, and a producer with any flags.
abbrev pub start : Flags → System
start w = record {
  mem = record { gate = new_backed; flags = w; posted = [] };
  pc = λ _. outside;
  producer = serving;
}

-- The interleaved steps of `n` readers, the producer, the monitor, and everybody else, who may change
-- any flag of the producer but sets no readiness. The monitor marks a `ready_on_write` producer
-- ready when it polls a write, at any later time, and only while the producer runs.
pub data Step (n : ℕ) (ready_on_write : Bool) (s : System) : System → Type 0 where
  reader :
      (i : ℕ) {m : Mem} {p : Pc}
      → i < n
      → Move s.mem (s.pc i) m p
      → Step n ready_on_write s (record s { mem = m; pc = update s.pc i p })
  turn :
      {m : Mem} {d : Producer}
      → Turn s.mem s.producer m d
      → Step n ready_on_write s (record s { mem = m; producer = d })
  monitor :
      ready_on_write ≡ true
      → flag s.mem.flags running ≡ true
      → Step n ready_on_write s
          (record s { mem = record s.mem { flags = flag_set (ready ∷ []) s.mem.flags } })
  others :
      (w : Flags)
      → (flag s.mem.flags ready ≡ false → flag w ready ≡ false)
      → Step n ready_on_write s (record s { mem = record s.mem { flags = w } })

pub data Steps (n : ℕ) (ready_on_write : Bool) (s : System) : System → Type 0 where
  here : Steps n ready_on_write s s
  then_step :
      {t u : System}
      → Steps n ready_on_write s t
      → Step n ready_on_write t u
      → Steps n ready_on_write s u
