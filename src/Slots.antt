-- ===== src/Slots.antt =====
-- The one-place cells of the supervisor (supervisor/src/lib.rs, `ResourceSlot` and `SpawnerSlot`),
-- and the task shells that take a resource and put it back. Each call is one critical section; the
-- event that wakes the waits for a gate is left out.
pub mod Owner
use embassy_supervisor.Base.{
  ℕ, ◌+◌, ◌%◌, ◌^◌, ◌≡◌, ◌==◌, if◌then◌else◌, Bool, true, false, ◌&&◌, not, Option, none, some,
  update,
}

pub record ResourceSlot {ℓ} (A : Type ℓ) : Type ℓ where
  pub slot : Option A
  pub filled : Bool  -- a latch

abbrev pub is_some {ℓ} : {A : Type ℓ} → Option A → Bool
is_some none = false
is_some (some v) = true

module _ {ℓ} {A : Type ℓ} where
  abbrev pub empty_slot : ResourceSlot A
  empty_slot = record { slot = none; filled = false }

  abbrev pub provide : A → ResourceSlot A → ResourceSlot A
  provide v c = record { slot = some v; filled = true }

  abbrev pub take : ResourceSlot A → ResourceSlot A × Option A
  take c = (record c { slot = none }, c.slot)

  -- `get` of a shared resource and `is_filled` put back what they took.
  abbrev pub get : ResourceSlot A → ResourceSlot A × Option A
  get c = (record c { slot = c.slot }, c.slot)

  abbrev pub is_filled : ResourceSlot A → ResourceSlot A × Bool
  is_filled c = (record c { slot = c.slot }, is_some c.slot)

  abbrev pub restore : A → ResourceSlot A → ResourceSlot A
  restore v c = provide v c

  abbrev pub clear : ResourceSlot A → ResourceSlot A
  clear c = record { slot = none; filled = false }

  -- One poll of `wait_take`: the value, or whether its wait took the latch and looks again.
  abbrev pub poll_wait_take : ResourceSlot A → ResourceSlot A × (Option A × Bool)
  poll_wait_take c =
      let (c', v) = take c in
      elim v [
        | some x ↦ (c', (some x, false))
        | none ↦ (record c' { filled = false }, (none, c'.filled))
      ]

-- `SpawnerSlot` over any type of spawners; whether the fence could be spawned is an argument.
pub record SpawnerSlot {ℓ} (A : Type ℓ) : Type ℓ where
  pub spawner : Option A
  pub spawner_filled : Bool
  pub has_fence : Bool
  pub fence_up : Bool
  pub fence_req : Bool
  pub passes : ℕ  -- AtomicU16

module _ {ℓ} {A : Type ℓ} where
  abbrev pub set : Bool → A → SpawnerSlot A → SpawnerSlot A
  set spawns v s = record s {
    spawner = some v;
    spawner_filled = true;
    fence_up = if s.has_fence && not s.fence_up then spawns else s.fence_up;
  }

  abbrev pub request_pass : SpawnerSlot A → SpawnerSlot A × Bool
  request_pass s = if s.fence_up then (record s { fence_req = true }, true) else (s, false)

  -- One poll of the fence: a request, however often it was made, is one pass.
  abbrev pub poll_fence : SpawnerSlot A → SpawnerSlot A
  poll_fence s =
      if s.fence_req then record s { fence_req = false; passes = (s.passes + 1) % 2 ^ 16 } else s

-- A slot, what each task shell holds of it, and what `main` moved in.
pub record Shells {ℓ} (A : Type ℓ) : Type ℓ where
  pub cell : ResourceSlot A
  pub held : ℕ → Option A
  pub moved_in : Option A

abbrev pub at_boot {ℓ} : {A : Type ℓ} → Shells A
at_boot = record { cell = empty_slot; held = λ _. none; moved_in = none }

-- `main` moves the resource in once. A shell takes it when it has none, and restores what it took;
-- a provider clears the slot.
pub data Step {ℓ} {A : Type ℓ} (s : Shells A) : Shells A → Type ℓ where
  provides :
      (v : A) → s.moved_in ≡ none → Step s (record s { cell = provide v s.cell; moved_in = some v })
  takes :
      (i : ℕ)
      → s.held i ≡ none
      → Step s (record s { cell = (take s.cell).0; held = update s.held i (take s.cell).1 })
  restores :
      (i : ℕ) (v : A)
      → s.held i ≡ some v
      → Step s (record s { cell = restore v s.cell; held = update s.held i none })
  clears : Step s (record s { cell = clear s.cell })

pub data Steps {ℓ} {A : Type ℓ} (s : Shells A) : Shells A → Type ℓ where
  here : Steps s s
  then_step : {t u : Shells A} → Steps s t → Step t u → Steps s u
