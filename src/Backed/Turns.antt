-- ===== src/Backed/Turns.antt =====
-- What the producer may rely on at each place, and what one step of it does.
use embassy_supervisor.Base.{ℕ, ◌+◌, ◌<◌, ◌≡◌, refl, ◌⊎◌, Bool, true, false, arith, inl, inr}
use embassy_supervisor.Node.Flags.{ready, flag}
use embassy_supervisor.Backed.{
  Mem, Turn, Producer, sets_ready, clears_ready, retires, is_read, is_unread, wakes, resets, cools,
  is_watched, still_unread, read_again, goes_unready, none_left, some_came, goes_ready,
  asks_to_stop, gives_up_parked, gives_up_cooling, gives_up_leaving, starts_again, parked, counting,
  leaving, retired,
}

-- A parked producer has its latch set, or somebody is there who will set it. Between its last read
-- of the count and its return from `retire`, a producer is not ready; behind that read it has no
-- reader past the wait.
abbrev pub IsWoken : Producer → Mem → (readers senders : ℕ) → Type 0
IsWoken parked m readers senders = (m.gate.watch ≡ true) ⊎ (0 < readers + senders)
IsWoken _ m readers senders = Unit

abbrev pub is_retiring : Producer → Bool
is_retiring counting = true
is_retiring leaving = true
is_retiring retired = true
is_retiring _ = false

abbrev pub is_clear : Producer → Bool
is_clear leaving = true
is_clear retired = true
is_clear _ = false

-- A step of the producer leaves the count, and takes on what its new place promises.
pub record Turned (m m' : Mem) (d d' : Producer) (c s : ℕ) : Type 0 where
  pub count_kept : m'.gate.openers ≡ m.gate.openers
  pub woken : IsWoken d' m' c s
  pub unready :
      (is_retiring d ≡ true → flag m.flags ready ≡ false)
      → is_retiring d' ≡ true
      → flag m'.flags ready ≡ false
  pub none_past : is_clear d' ≡ true → (is_clear d ≡ true) ⊎ (m.gate.openers ≡ 0)

-- A turn to a place behind which nothing is retired.
to_service :
    {m m' : Mem} {d d' : Producer} (c s : ℕ)
    → m'.gate.openers ≡ m.gate.openers
    → IsWoken d' m' c s
    → is_retiring d' ≡ false
    → is_clear d' ≡ false
    → Turned m m' d d' c s
to_service c s same woken keeps opens = record {
  count_kept = same;
  woken = woken;
  unready = λ _ h. absurd (ground (arith, h, keeps));
  none_past = λ h. absurd (ground (arith, h, opens));
}

pub Turn-Turned :
    {m m' : Mem} {d d' : Producer} (c s : ℕ)
    → m.gate.openers ≡ c
    → Turn m d m' d'
    → Turned m m' d d' c s
Turn-Turned c s e (is_read some_in) =
    to_service c s refl (inr (ground (arith, some_in, e))) refl refl
Turn-Turned c s e goes_unready = record {
  count_kept = refl;
  woken = tt;
  unready = λ _ _. refl;
  none_past = λ h. absurd (ground (arith, h));
}
Turn-Turned c s e (none_left none_in) = record {
  count_kept = refl;
  woken = tt;
  unready = λ off _. off refl;
  none_past = λ _. inr none_in;
}
Turn-Turned c s e asks_to_stop = record {
  count_kept = refl;
  woken = tt;
  unready = λ off _. off refl;
  none_past = λ _. inl refl;
}
Turn-Turned c s e sets_ready = to_service c s refl tt refl refl
Turn-Turned c s e clears_ready = to_service c s refl tt refl refl
Turn-Turned c s e retires = to_service c s refl tt refl refl
Turn-Turned c s e (is_unread _) = to_service c s refl tt refl refl
Turn-Turned c s e (wakes _) = to_service c s refl tt refl refl
Turn-Turned c s e resets = to_service c s refl tt refl refl
Turn-Turned c s e cools = to_service c s refl tt refl refl
Turn-Turned c s e (is_watched _) = to_service c s refl tt refl refl
Turn-Turned c s e (still_unread _) = to_service c s refl tt refl refl
Turn-Turned c s e (read_again _) = to_service c s refl tt refl refl
Turn-Turned c s e (some_came _) = to_service c s refl tt refl refl
Turn-Turned c s e goes_ready = to_service c s refl tt refl refl
Turn-Turned c s e gives_up_parked = to_service c s refl tt refl refl
Turn-Turned c s e gives_up_cooling = to_service c s refl tt refl refl
Turn-Turned c s e gives_up_leaving = to_service c s refl tt refl refl
Turn-Turned c s e starts_again = to_service c s refl tt refl refl

pub is_clear-is_retiring : (d : Producer) → is_clear d ≡ true → is_retiring d ≡ true
is_clear-is_retiring leaving h = refl
is_clear-is_retiring retired h = refl
is_clear-is_retiring _ h = absurd (ground (arith, h))
