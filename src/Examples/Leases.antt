-- ===== src/Examples/Leases.antt =====
-- A drain that waits for the one lease that is held, and a drain that finds none.
use embassy_supervisor.Base.{ℕ, ◌+◌, ◌^◌, ◌<◌, ◌≡◌, ◌≢◌, refl, true, arith}
use embassy_supervisor.Leased.{
  count_of, leases, is_drained, holding, load, wins, closes, finds_none, finds_some, System, start,
  client, producer, Steps, here, then_step,
}
use embassy_supervisor.Leased.Drained.{drained-leases}

-- A closed word with one lease.
one_left : count_of (2 ^ 31 + 1) ≢ 0
one_left e = absurd (ground (arith, e))

-- The client takes its lease, and the drain finds it.
abbrev held_up : (s : System) × Steps 1 start s
held_up = (
  _,
  then_step
      (then_step
        (then_step (then_step here (client 0 (omega arith) load))
          (client 0 (omega arith) (wins refl refl)))
        (producer closes))
      (producer (finds_some one_left)),
)

abbrev all_back : (s : System) × Steps 1 start s
all_back = (_, then_step (then_step here (producer closes)) (producer (finds_none refl)))

drained-leases_example :
    (is_drained all_back.0.mem ≡ true)
    × (leases all_back.0.mem ≡ 0)
    × ((i : ℕ) → i < 1 → all_back.0.pc i ≢ holding)
drained-leases_example = drained-leases 1 all_back.0 (omega arith) all_back.1 refl
