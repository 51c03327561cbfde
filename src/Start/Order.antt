-- ===== src/Start/Order.antt =====
-- The start wave goes along the dependencies.
use embassy_supervisor.Base.{
  ℕ, ◌≡◌, refl, ◌==◌, Bool, true, false, ◌&&◌, ◌||◌, none, List, [], ◌∷◌, arith, inl, inr,
  Bool-cases, contains,
}
use embassy_supervisor.Node.State.{Site}
use embassy_supervisor.Lifecycle.{
  spawning, started, resumed, stop_requested, stopped, exited, faulted,
}
use embassy_supervisor.Control.Closure.{any-intro}
use embassy_supervisor.Start.{
  StartPlan, StartWave, Round, Entry, note, parking, resolve, give_up, rounds, begin_start,
}
use embassy_supervisor.Start.Rule.{is_up, Free, Keeps, KeepsFresh, rounds_inv}

abbrev pub is_done : Entry → Bool
is_done (note (faulted k)) = true
is_done e = is_up e

up-done : (e : Entry) → is_up e ≡ true → is_done e ≡ true
up-done (note started) h = refl
up-done (note resumed) h = refl
up-done (note spawning) h = absurd (ground (arith, h))
up-done (note stop_requested) h = absurd (ground (arith, h))
up-done (note stopped) h = absurd (ground (arith, h))
up-done (note exited) h = absurd (ground (arith, h))
up-done (note (faulted k)) h = refl
up-done parking h = refl

-- Does such an entry stand in the log for the slot?
abbrev pub logged : (Entry → Bool) → ℕ → List (ℕ × Entry) → Bool
logged q k [] = false
logged q k ((j, e) ∷ log) = ((j == k) && q e) || logged q k log

module _ (p : StartPlan) (chosen : ℕ → Bool) where
  open p use {deps, keep_going}

  abbrev pub DepsDone : ℕ → List (ℕ × Entry) → Type 0
  DepsDone j log =
      (d : ℕ) → chosen d ≡ true → contains d (deps j) ≡ true → logged is_done d log ≡ true

  -- Newest first: each entry is about a chosen slot that is not resolved before it, behind the
  -- resolution of its chosen dependencies.
  abbrev pub IsOrderly : List (ℕ × Entry) → Type 0
  IsOrderly [] = Unit
  IsOrderly ((j, e) ∷ log) =
      (chosen j ≡ true) × (logged is_done j log ≡ false) × DepsDone j log × IsOrderly log

  pub record Inv (w : StartWave) : Type 0 where
    pub orderly : IsOrderly w.log
    pub among : (k : ℕ) → w.pending k ≡ true → chosen k ≡ true
    pub done : (k : ℕ) → chosen k ≡ true → w.pending k ≡ false → logged is_done k w.log ≡ true
    pub unresolved : w.failed ≡ none → (k : ℕ) → w.pending k ≡ true → logged is_done k w.log ≡ false

  Free-deps : (j : ℕ) (w : StartWave) → Inv w → Free p j w → DepsDone j w.log
  Free-deps j w inv (_, clear, _) d c m = inv.done d c (elim (Bool-cases (w.pending d)) [
    | inr e ↦ e
    | inl e ↦ absurd (ground (arith, clear, any-intro w.pending (deps j) d m e))
  ])

  next-IsOrderly :
      (j : ℕ) (e : Entry) (w : StartWave) → Inv w → Free p j w → IsOrderly ((j, e) ∷ w.log)
  next-IsOrderly j e w inv free =
      (inv.among j free.0, inv.unresolved free.2 j free.0, Free-deps j w inv free, inv.orderly)

  resolve-Inv :
      (r : Round) (j : ℕ) (s : Site) (w : StartWave) (e : Entry)
      → is_done e ≡ true
      → Free p j w
      → Inv w
      → Inv (resolve p r j e s w)
  unfolding resolve
  resolve-Inv r j s w e done_now free inv = record {
    orderly = next-IsOrderly j e w inv free;
    among = λ k. ground (arith, inv.among k);
    done = λ k c. ground (arith, inv.done k c, done_now);
    unresolved = λ going k pend. ground (arith, inv.unresolved going k, pend);
  }

  Inv-kept : Keeps p Inv
  unfolding give_up
  Inv-kept = record {
    site = λ w s inv. record {
      orderly = inv.orderly;
      among = inv.among;
      done = inv.done;
      unresolved = inv.unresolved;
    };
    armed_now = λ j ms w inv. record {
      orderly = inv.orderly;
      among = inv.among;
      done = inv.done;
      unresolved = inv.unresolved;
    };
    waits = λ w inv. record {
      orderly = inv.orderly;
      among = inv.among;
      done = inv.done;
      unresolved = inv.unresolved;
    };
    retries = λ w o ps inv. record {
      orderly = inv.orderly;
      among = inv.among;
      done = inv.done;
      unresolved = inv.unresolved;
    };
    announces = λ j w free inv. record {
      orderly = next-IsOrderly j (note spawning) w inv free;
      among = inv.among;
      done = λ k c e. ground (arith, inv.done k c e);
      unresolved = λ going k e. ground (arith, inv.unresolved going k e);
    };
    resolves = λ r j s w e is free inv. resolve-Inv r j s w e (up-done e is) free inv;
    gives_up = λ r j k w free inv. elim (Bool-cases keep_going) [
      | inl e ↦
          let next = resolve-Inv r j (w.sites j) w (note (faulted k)) refl free inv in
          rw e (record {
            orderly = next.orderly;
            among = next.among;
            done = next.done;
            unresolved = next.unresolved;
          })
      | inr e ↦ rw e (record {
        orderly = next-IsOrderly j (note (faulted k)) w inv free;
        among = inv.among;
        done = λ i c off. ground (arith, inv.done i c off);
        unresolved = λ going. absurd (ground (arith, going));
      })
    ];
  }

  Inv-fresh : KeepsFresh Inv
  Inv-fresh w inv = record {
    orderly = inv.orderly;
    among = inv.among;
    done = inv.done;
    unresolved = inv.unresolved;
  }

  pub begin-Inv : (sites : ℕ → Site) → Inv (begin_start chosen sites)
  unfolding begin_start
  begin-Inv sites = record {
    orderly = tt;
    among = λ k e. e;
    done = λ k c e. absurd (ground (arith, c, e));
    unresolved = λ going k e. refl;
  }

-- Whatever the tasks, the gates, the executors and the clock do, the log of a start wave holds
-- entries about chosen slots only, none behind the slot's own resolution, and each of them behind
-- the resolution of every chosen slot that it depends on: its start, its resumption, its parking or
-- its fault.
pub start-IsOrderly :
    (p : StartPlan) (chosen : ℕ → Bool) (sites : ℕ → Site) (rs : List Round)
    → IsOrderly p chosen (rounds p rs (begin_start chosen sites)).0.log
start-IsOrderly p chosen sites rs =
    (rounds_inv p (Inv-kept p chosen) (Inv-fresh p chosen) rs (begin_start chosen sites)
      (begin-Inv p chosen sites)).orderly
