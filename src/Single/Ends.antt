-- ===== src/Single/Ends.antt =====
-- The end of `start_node`: it is reached once the clock passes the deadline, and says what became
-- of the node.
use embassy_supervisor.Base.{ℕ, ◌≤◌, ◌≡◌, true, false, Option, none, some, List, [], ◌∷◌, ◌⊎◌}
use embassy_supervisor.Node.Flags.{shutdown, dropped, running, completed, bound_stopped}
use embassy_supervisor.Node.State.{Site}
use embassy_supervisor.Node.Task.{has_flag}
use embassy_supervisor.Lifecycle.{SpawnError, Log, spawning, started, faulted}
use embassy_supervisor.Stop.{Outcome, again, asleep_until, returned, panicked}
use embassy_supervisor.Verbs.{Fleet}
use embassy_supervisor.Single.{Look, Attempt, Verb}

-- The clock reads the deadline or later behind some look, and behind some attempt.
abbrev pub LooksPass : ℕ → List Look → Type 0
LooksPass deadline [] = ⊥
LooksPass deadline (l ∷ ls) = (deadline ≤ l.now_ms) ⊎ LooksPass deadline ls

abbrev pub AttemptsPass : ℕ → List Attempt → Type 0
AttemptsPass deadline [] = ⊥
AttemptsPass deadline (a ∷ rest) = (deadline ≤ a.now_ms) ⊎ AttemptsPass deadline rest

abbrev IsSome {ℓ} : {A : Type ℓ} → Option A → Type 0
IsSome none = ⊥
IsSome (some a) = Unit

-- What a spawn that was not refused says of the node.
abbrev SpawnTells : Site → Option (Option SpawnError) → Type 0
SpawnTells s (some none) =
    (has_flag dropped s.handle ≡ false)
    × (has_flag shutdown s.handle ≡ false)
    × (has_flag completed s.handle ≡ false)
SpawnTells s _ = Unit

module _ (fl : Fleet) (j : ℕ) where
  open fl use {graph, self_spawned}

  abbrev asked : Log
  asked = (j, spawning) ∷ []

  -- What the end says: the node is up, fresh and noted as started, or parked for a dependency that
  -- it is bound to; a fault is the node's, and noted; a verb that still waits has noted nothing else.
  pub Tells : Outcome → Log → Site → Type 0
  Tells (returned none) log s =
      ((has_flag running s.handle ≡ true)
        × (has_flag dropped s.handle ≡ false)
        × (has_flag shutdown s.handle ≡ false)
        × (has_flag completed s.handle ≡ false)
        × (has_flag bound_stopped s.handle ≡ false)
        × (log ≡ (j, started) ∷ asked))
      ⊎ ((has_flag bound_stopped s.handle ≡ true) × (log ≡ asked))
  Tells (returned (some f)) log s = (f.node ≡ j) × (log ≡ (j, faulted f.kind) ∷ asked)
  Tells again log s = log ≡ asked
  Tells (asleep_until d) log s = ⊥
  Tells panicked log s = ⊥

  abbrev pub VerbTells : Verb → Type 0
  VerbTells v = Tells v.outcome v.log v.site
