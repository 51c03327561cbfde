-- ===== src/Backed/Retired.antt =====
-- A retirement, and the readers that it meets.
use embassy_supervisor.Base.{Bool, ℕ, ◌^◌, ◌<◌, ◌≡◌, refl, ◌⊎◌, inl, inr, true, false}
use embassy_supervisor.Node.Flags.{Flags, flag, ready}
use embassy_supervisor.Backed.{leaving, retired, System, start, Steps}
use embassy_supervisor.Backed.Moves.{is_past}
use embassy_supervisor.Backed.Turns.{is_clear, is_clear-is_retiring}
use embassy_supervisor.Backed.Readers.{Steps-Inv}

-- There are fewer readers than the count can hold, the producer is not `ready_on_write`, nobody but
-- its own task sets its readiness, and the system was reached from its start by any interleaving
-- of such steps. From the last read of the count in a `retire` on, and until the producer starts
-- again, the producer is not ready, and no reader is past the wait for it: none reads from a
-- producer that goes down.
pub retired-no_reader :
    (n : ℕ) (w : Flags) (s : System)
    → n < 2 ^ 32
    → Steps n false (start w) s
    → (s.producer ≡ leaving) ⊎ (s.producer ≡ retired)
    → (flag s.mem.flags ready ≡ false) × ((i : ℕ) → i < n → is_past (s.pc i) ≡ false)
retired-no_reader n w s small r place =
    let inv = Steps-Inv n small false r in
    let clear : is_clear s.producer ≡ true = elim place [ inl e ↦ rw e refl | inr e ↦ rw e refl ] in
    (inv.unready refl (is_clear-is_retiring s.producer clear), inv.none_past refl clear)

-- Steps behind those that were taken.
abbrev pub CanRetire : ℕ → Bool → System → Type 0
CanRetire n ready_on_write s = (t : System) × Steps n ready_on_write s t × (t.producer ≡ retired)
