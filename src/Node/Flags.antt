-- ===== src/Node/Flags.antt =====
-- The lifecycle flags of a node (supervisor/src/lib.rs, `mod flag` and the flag operations of
-- `TaskHandle`). The atomic word is the function that gives each flag's bit.
use embassy_supervisor.Base.{ℕ, ◌==◌, if◌then◌else◌, Bool, true, false, ◌||◌, List, [], ◌∷◌}

pub data Flag : Type 0 where
  shutdown dropped running busy completed disabled detached ready bound_stopped : Flag
  collateral pending_ack pending_exit resident idle : Flag

-- The position of the flag's bit: the constant is `1 << position`.
abbrev pub bit : Flag → ℕ
bit shutdown = 0
bit dropped = 1
bit running = 2
bit busy = 3
bit completed = 4
bit disabled = 5
bit detached = 6
bit ready = 7
bit bound_stopped = 8
bit collateral = 9
bit pending_ack = 10
bit pending_exit = 11
bit resident = 12
bit idle = 13

abbrev pub Flags : Type 0
Flags = Flag → Bool

abbrev pub in_mask : Flag → List Flag → Bool
in_mask b [] = false
in_mask b (c ∷ cs) = (bit c == bit b) || in_mask b cs

abbrev pub flag : Flags → Flag → Bool
flag w b = w b

-- `fetch_or` and `fetch_and` with a mask, which leave the new word.
abbrev pub flag_set : List Flag → Flags → Flags
flag_set bits w b = if in_mask b bits then true else w b

abbrev pub flag_clear : List Flag → Flags → Flags
flag_clear bits w b = if in_mask b bits then false else w b

abbrev pub flag_put : Flag → Bool → Flags → Flags
flag_put b on w = if on then flag_set (b ∷ []) w else flag_clear (b ∷ []) w

-- The new word, and whether the bit was set before.
abbrev pub flag_swap : Flag → Bool → Flags → Flags × Bool
flag_swap b on w = (flag_put b on w, w b)
