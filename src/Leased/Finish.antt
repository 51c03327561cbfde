-- ===== src/Leased/Finish.antt =====
-- A drain in progress can always come to its end.
use embassy_supervisor.Base.{ℕ, ◌≡◌, ◌⊎◌}
use embassy_supervisor.Leased.{Leased, Drain, draining, waiting, drained, System, Steps}

-- What may follow.
abbrev pub CanFinish : ℕ → System → Type 0
CanFinish n s = (t : System) × Steps n s t × (t.drainer ≡ drained)

abbrev InProgress : Drain → Type 0
InProgress d = (d ≡ draining) ⊎ (d ≡ waiting)
