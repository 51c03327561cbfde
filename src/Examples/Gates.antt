-- ===== src/Examples/Gates.antt =====
-- A reader that gives up its `open`, and a producer that it finds at its retirement.
use embassy_supervisor.Base.{ℕ, ◌<◌, ◌≡◌, ◌≢◌, refl, true, false, arith, inr, [], ◌∷◌}
use embassy_supervisor.Node.Flags.{running, ready, Flags, flag}
use embassy_supervisor.Backed.{
  new_backed, count_in, activate, cancels_pause, enters_first, signals_in, is_down, needs_start,
  asks, posts, leaves_last, is_read, is_unread, retires, resets, cools, still_unread, goes_unready,
  none_left, asks_to_stop, System, start, reader, turn, monitor, runs, serves, retired, Steps, here,
  then_step,
}
use embassy_supervisor.Backed.Moves.{is_past}
use embassy_supervisor.Backed.Retired.{retired-no_reader}

abbrev all_down : Flags
all_down _ = false

one_open : (count_in new_backed).openers ≢ 0
one_open e = absurd (ground (arith, e))

-- The reader opens the gate of a producer that is down, asks for it, and waits; the producer finds
-- it counted.
abbrev asked : (s : System) × Steps 1 false (start all_down) s
asked = (
  _,
  then_step
      (then_step
        (then_step
          (then_step
            (then_step
              (then_step (then_step here (reader 0 (omega arith) (enters_first refl)))
                (reader 0 (omega arith) signals_in))
              (reader 0 (omega arith) (is_down refl)))
            (reader 0 (omega arith) (needs_start refl)))
          (reader 0 (omega arith) (asks refl)))
        (reader 0 (omega arith) posts))
      (turn retires),
)

asked_once : asked.0.mem.posted ≡ activate ∷ []
asked_once = refl

-- The producer waits, and the reader drops its `open` but has not set the latch yet.
abbrev dropped_open : (s : System) × Steps 1 false (start all_down) s
dropped_open = (
  _,
  then_step (then_step asked.1 (turn (is_read one_open)))
      (reader 0 (omega arith) (leaves_last cancels_pause refl)),
)

-- Nobody came: the producer retires.
abbrev alone : (s : System) × Steps 1 false (start all_down) s
alone = (
  _,
  then_step
      (then_step
        (then_step
          (then_step
            (then_step
              (then_step (then_step (then_step here (turn retires)) (turn (is_unread refl)))
                (turn resets))
              (turn cools))
            (turn (still_unread refl)))
          (turn goes_unready))
        (turn (none_left refl)))
      (turn asks_to_stop),
)

-- A reader that enters behind it waits.
abbrev late : (s : System) × Steps 1 false (start all_down) s
late = (_, then_step alone.1 (reader 0 (omega arith) (enters_first refl)))

retired-no_reader_example :
    (flag late.0.mem.flags ready ≡ false) × ((i : ℕ) → i < 1 → is_past (late.0.pc i) ≡ false)
retired-no_reader_example = retired-no_reader 1 all_down late.0 (omega arith) late.1 (inr refl)

-- A `ready_on_write` producer: it runs and was ready, and retires; the monitor then polls its last
-- write, and a reader that comes behind that reads from a producer that goes down.
abbrev running_only : Flags
running_only running = true
running_only _ = false

abbrev written_late : (s : System) × Steps 1 true (start running_only) s
written_late = (
  _,
  then_step
      (then_step
        (then_step
          (then_step
            (then_step
              (then_step
                (then_step
                  (then_step
                    (then_step
                      (then_step
                        (then_step
                          (then_step (then_step here (turn retires)) (turn (is_unread refl)))
                          (turn resets))
                        (turn cools))
                      (turn (still_unread refl)))
                    (turn goes_unready))
                  (turn (none_left refl)))
                (turn asks_to_stop))
              (monitor refl refl))
            (reader 0 (omega arith) (enters_first refl)))
          (reader 0 (omega arith) signals_in))
        (reader 0 (omega arith) (runs refl)))
      (reader 0 (omega arith) (serves refl)),
)

read_from_retired : (written_late.0.producer ≡ retired) × (is_past (written_late.0.pc 0) ≡ true)
read_from_retired = (refl, refl)
