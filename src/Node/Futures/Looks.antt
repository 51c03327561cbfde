-- ===== src/Node/Futures/Looks.antt =====
-- A poll of the injected future takes two looks at most, if nobody interferes.
use embassy_supervisor.Base.{
  ℕ, ltb, ◌≡◌, refl, Bool, true, false, Option, none, some, [], ◌∷◌, arith, if_inv,
}
use embassy_supervisor.Node.Flags.{shutdown}
use embassy_supervisor.Node.Faults.{Duration, Fault, healthy, stall, wedge, crash, hog}
use embassy_supervisor.Node.State.{Site}
use embassy_supervisor.Node.Task.{has_flag, current_fault}
use embassy_supervisor.Node.Futures.{
  Injected, Outer, waits, crashed, Look, again, pends, falls, polls, grace, look_at, look,
  poll_inner, poll_injected,
}

abbrev is_again : Look → Bool
is_again again = true
is_again _ = false

module _ (same : Duration → Duration → Bool) where
  -- A look asks for another one only where it takes the latch.
  look_at-again :
      (fault : Fault) (now : ℕ) (f : Injected) (s : Site)
      → s.handle.shutdown_wake ≡ false
      → is_again (look_at same fault now f s).2 ≡ false
  unfolding look_at
  look_at-again stall now f s h =
      if_inv (λ (x : Injected × Site × Look). is_again x.2 ≡ false) (has_flag shutdown s.handle)
        (λ _. refl) (λ _. rw h refl)
  look_at-again crash now f s h = refl
  look_at-again (hog d) now f s h =
      if_inv (λ (x : Injected × Site × Look). is_again x.2 ≡ false)
        (ltb now (grace same now d f.hogging).grace_end) (λ _. refl) (λ _. refl)
  look_at-again healthy now f s h = refl
  look_at-again wedge now f s h = refl

  look_at-latch :
      (fault : Fault) (now : ℕ) (f : Injected) (s : Site)
      → is_again (look_at same fault now f s).2 ≡ true
      → (look_at same fault now f s).1.handle.shutdown_wake ≡ false
  unfolding look_at
  look_at-latch stall now f s h =
      if_inv
        (λ (x : Injected × Site × Look). is_again x.2 ≡ true → x.1.handle.shutdown_wake ≡ false)
        (has_flag shutdown s.handle) (λ _ a. absurd (ground (arith, a))) (λ _ a. refl) h
  look_at-latch crash now f s h = absurd (ground (arith, h))
  look_at-latch (hog d) now f s h =
      if_inv
        (λ (x : Injected × Site × Look). is_again x.2 ≡ true → x.1.handle.shutdown_wake ≡ false)
        (ltb now (grace same now d f.hogging).grace_end) (λ _ a. absurd (ground (arith, a)))
        (λ _ a. absurd (ground (arith, a))) h
  look_at-latch healthy now f s h = absurd (ground (arith, h))
  look_at-latch wedge now f s h = absurd (ground (arith, h))

  module _ {Out : Type 0} where
    abbrev IsSome : Option (Injected × Site × Outer Out) → Type 0
    IsSome none = ⊥
    IsSome (some a) = Unit

    -- What follows a look.
    abbrev answer_of :
        Option Out
        → Injected × Site × Look
        → Option (Injected × Site × Outer Out)
        → Option (Injected × Site × Outer Out)
    answer_of answer (f, s, l) later = elim l [
      | again ↦ later
      | pends ↦ some (f, s, waits)
      | falls ↦ some (f, s, crashed)
      | polls ↦ some (poll_inner answer f s)
    ]

    answer_of-IsSome :
        (answer : Option Out) (f : Injected) (s : Site) (l : Look)
        (later : Option (Injected × Site × Outer Out))
        → (is_again l ≡ true → IsSome later)
        → IsSome (answer_of answer (f, s, l) later)
    answer_of-IsSome answer f s again later h = h refl
    answer_of-IsSome answer f s pends later h = tt
    answer_of-IsSome answer f s falls later h = tt
    answer_of-IsSome answer f s polls later h = tt

    -- Nobody disturbs the looks of a poll. Then two are enough: it gives an answer.
    poll_injected-IsSome :
        (now : ℕ) (answer : Option Out) (f : Injected) (s : Site)
        → IsSome (poll_injected same ((λ x. x) ∷ (λ x. x) ∷ []) now answer f s)
    unfolding poll_injected look
    poll_injected-IsSome now answer f s =
        let x = look_at same (current_fault s.handle) now f s in
        let y = look_at same (current_fault x.1.handle) now x.0 x.1 in
        answer_of-IsSome answer x.0 x.1 x.2 (answer_of answer y none) (λ a.
          answer_of-IsSome answer y.0 y.1 y.2 none (λ b.
            let latch = look_at-latch (current_fault s.handle) now f s a in
            let never = look_at-again (current_fault x.1.handle) now x.0 x.1 latch in
            absurd (ground (arith, b, never))))
