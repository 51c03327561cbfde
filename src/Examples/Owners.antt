-- ===== src/Examples/Owners.antt =====
-- A resource that a shell takes, restores, and another takes; and an executor's fence.
use embassy_supervisor.Base.{ℕ, ◌≡◌, refl, true, false, none, some}
use embassy_supervisor.Slots.{
  SpawnerSlot, set, request_pass, poll_fence, Shells, at_boot, provides, takes, restores, Steps,
  here, then_step,
}
use embassy_supervisor.Slots.Owner.{IsExclusive, shells-IsExclusive}

abbrev handed_on : (s : Shells ℕ) × Steps at_boot s
handed_on = (
  _,
  then_step
      (then_step
        (then_step (then_step (then_step here (takes 2 refl)) (provides 7 refl)) (takes 0 refl))
        (restores 0 7 refl))
      (takes 1 refl),
)

second_has : handed_on.0.held 1 ≡ some 7
second_has = refl

shells-IsExclusive_example : IsExclusive handed_on.0
shells-IsExclusive_example = shells-IsExclusive handed_on.0 handed_on.1

abbrev fenced : SpawnerSlot ℕ
fenced = record {
  spawner = none;
  spawner_filled = false;
  has_fence = true;
  fence_up = false;
  fence_req = false;
  passes = 65535;
}

-- Two requests are one pass, and the count wraps.
one_pass : (poll_fence (request_pass (request_pass (set true 3 fenced)).0).0).passes ≡ 0
one_pass = refl

-- A fence that could not be spawned has no pass to offer.
no_fence : (request_pass (set false 3 fenced)).1 ≡ false
no_fence = refl
