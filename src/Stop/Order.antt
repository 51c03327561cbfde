-- ===== src/Stop/Order.antt =====
-- The order of a stop wave: a node is signalled once, and only after its chosen dependents have
-- acknowledged or timed out.
use embassy_supervisor.Base.{
  ℕ, ◌<◌, ◌≡◌, ◌==◌, Bool, true, false, ◌&&◌, ◌||◌, not, List, [], ◌∷◌, arith, inl, inr, Bool-cases,
  Option-cases, ltb, contains, any_below-false,
}
use embassy_supervisor.Node.State.{Site, TaskHandle}
use embassy_supervisor.Node.Flags.{dropped, completed}
use embassy_supervisor.Node.Task.{has_flag}
use embassy_supervisor.Lifecycle.{Transition, stop_requested, Log, acked, is_ack, is_fault, noted}
use embassy_supervisor.Stop.{
  Plan, Wave, Tick, unsignaled, is_open, held, signal_one, collect_one, check_one, expire, run,
  start_wave, due,
}
use embassy_supervisor.Stop.Rule.{Keeps, run_inv, AllTicks-any}

abbrev pub is_stop : Transition → Bool
is_stop stop_requested = true
is_stop _ = false

abbrev pub is_resolution : Transition → Bool
is_resolution t = is_ack t || is_fault t

module _ (p : Plan) where
  open p use {n, deps, chosen, order, keep_going}

  -- All chosen dependents of the slot have a resolution in the log.
  abbrev pub DependentsResolved : ℕ → Log → Type 0
  DependentsResolved j log =
      (k : ℕ)
      → k < n
      → chosen k ≡ true
      → contains j (deps k) ≡ true
      → noted is_resolution k log ≡ true

  -- Newest first: each signal went to a chosen slot for the first time, with its chosen dependents
  -- resolved before it.
  abbrev pub IsOrderly : Log → Type 0
  IsOrderly [] = Unit
  IsOrderly ((j, stop_requested) ∷ log) =
      (chosen j ≡ true) × (noted is_stop j log ≡ false) × DependentsResolved j log × IsOrderly log
  IsOrderly ((j, t) ∷ log) = IsOrderly log

  pub record Inv (w : Wave) : Type 0 where
    pub orderly : IsOrderly w.log
    pub logged : (k : ℕ) → w.resolved k ≡ true → noted is_resolution k w.log ≡ true
    pub counted : (k : ℕ) → noted is_stop k w.log ≡ true → (w.signaled k == unsignaled) ≡ false

  pub start_wave-Inv : (sites : ℕ → Site) → Inv (start_wave sites)
  unfolding start_wave
  start_wave-Inv sites = record {
    orderly = tt;
    logged = λ k r. ground arith;
    counted = λ k r. ground arith;
  }

  -- A held test that fails shows the dependents resolved.
  held-resolved : (w : Wave) (j : ℕ) → Inv w → held p w j ≡ false → DependentsResolved j w.log
  unfolding held
  held-resolved w j inv h k lt c m =
      inv.logged k
        (ground (arith, any_below-false n (λ k. is_open p w k && contains j (deps k)) k h lt))

  signal_one-Inv : (clock : ℕ → ℕ) (j : ℕ) (w : Wave) → Inv w → Inv (signal_one p clock j w)
  unfolding signal_one
  signal_one-Inv clock j w inv =
      elim (Bool-cases ((is_open p w j && (w.signaled j == unsignaled)) && not (held p w j))) [
        | inl h ↦ rw h (record {
          orderly = (
            ground arith,
            ground (arith, Bool-cases (noted is_stop j w.log), inv.counted j),
            held-resolved w j inv (ground arith),
            inv.orderly,
          );
          logged = λ k r. ground (arith, inv.logged k r);
          counted = λ k r. ground (arith, inv.counted k);
        })
        | inr h ↦ rw h inv
      ]

  acked-IsOrderly : (j : ℕ) (w : Wave) → Inv w → IsOrderly ((j, acked (w.sites j).handle) ∷ w.log)
  unfolding acked
  acked-IsOrderly j w inv = elim (Bool-cases (has_flag completed (w.sites j).handle)) [
    | inl h ↦ rw h inv.orderly
    | inr h ↦ rw h inv.orderly
  ]

  pub is_ack-acked : (h : TaskHandle) → is_ack (acked h) ≡ true
  unfolding acked
  is_ack-acked h = ground arith

  pub is_stop-acked : (h : TaskHandle) → is_stop (acked h) ≡ false
  unfolding acked
  is_stop-acked h = ground arith

  collect_one-Inv : (j : ℕ) (w : Wave) → Inv w → Inv (collect_one p j w)
  unfolding collect_one
  collect_one-Inv j w inv =
      elim (Bool-cases (is_open p w j && has_flag dropped (w.sites j).handle)) [
        | inl h ↦ rw h (record {
          orderly = acked-IsOrderly j w inv;
          logged = λ k r. ground (arith, inv.logged k, is_ack-acked (w.sites j).handle);
          counted = λ k r. ground (arith, inv.counted k, is_stop-acked (w.sites j).handle);
        })
        | inr h ↦ rw h inv
      ]

  expire-Inv : (j : ℕ) (w : Wave) → Inv w → Inv (expire p j w)
  unfolding expire
  expire-Inv j w inv = elim (Bool-cases keep_going) [
    | inl h ↦ rw h (record {
      orderly = inv.orderly;
      logged = λ k r. ground (arith, inv.logged k);
      counted = λ k r. ground (arith, inv.counted k);
    })
    | inr h ↦ rw h (record {
      orderly = inv.orderly;
      logged = λ k r. ground (arith, inv.logged k);
      counted = λ k r. ground (arith, inv.counted k);
    })
  ]

  check_one-Inv : (now j : ℕ) (w : Wave) → Inv w → Inv (check_one p now j w)
  unfolding check_one
  check_one-Inv now j w inv = elim (Option-cases w.failed) [
    | inr (f, e) ↦ rw (e, check_one) inv
    | inl e ↦
        rw (e, check_one)
          (elim (Bool-cases (is_open p w j && not (w.signaled j == unsignaled))) [
            | inr h ↦ rw h inv
            | inl h ↦ rw h (elim (Bool-cases (ltb now (due p w j))) [
              | inl early ↦
                  rw early
                    (record { orderly = inv.orderly; logged = inv.logged; counted = inv.counted })
              | inr late ↦ rw late (expire-Inv j w inv)
            ])
          ])
  ]

  pub Inv-kept : Keeps p Inv (λ _. Unit)
  Inv-kept = record {
    signal = signal_one-Inv;
    change =
        λ t w _ inv. record { orderly = inv.orderly; logged = inv.logged; counted = inv.counted };
    collect = collect_one-Inv;
    check = check_one-Inv;
  }

-- Whatever the tasks and the clock do, the log of a stop wave shows each signal as the first one of
-- a chosen slot, behind an acknowledgement or a timeout of every chosen slot that depends on it.
pub run-IsOrderly :
    (p : Plan) (sites : ℕ → Site) (ts : List Tick) → IsOrderly p (run p ts (start_wave sites)).0.log
run-IsOrderly p sites ts =
    (run_inv p (Inv-kept p) ts (start_wave sites) (AllTicks-any ts)
      (start_wave-Inv p sites)).orderly
