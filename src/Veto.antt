-- ===== src/Veto.antt =====
-- The veto gate (supervisor/src/veto.rs): one bit for each of `n` contributors. The word is the
-- function that gives each slot's bit; a slot beyond the gate panics, which is `none`.
pub mod Trace
use embassy_supervisor.Base.{
  ℕ, ◌+◌, ◌%◌, ◌^◌, ltb, leb, ◌==◌, if◌then◌else◌, Bool, true, false, ◌&&◌, ◌||◌, not, Option, none,
  some, update, any_below, all_below,
}

pub record VetoGate : Type 0 where
  pub bits : ℕ → Bool
  pub seq : ℕ
  pub changed : Bool

unfoldable pub new_gate : VetoGate
new_gate = record { bits = λ _. false; seq = 0; changed = false }

-- `const { assert!(N >= 1 && N <= 32) }`.
abbrev pub is_size : ℕ → Bool
is_size n = leb 1 n && leb n 32

module _ (n : ℕ) where
  -- `contributors() != 0`.
  unfoldable pub is_asserted : VetoGate → Bool
  is_asserted g = any_below n g.bits

  -- `before == mask`: the slot's bit is set, and no other.
  unfoldable pub is_only : (ℕ → Bool) → ℕ → Bool
  is_only bits slot = bits slot && all_below n (λ k. (k == slot) || not (bits k))

  -- `flipped`.
  abbrev pub flip : Bool → VetoGate → VetoGate
  flip flipped g = record g {
    seq = if flipped then (g.seq + 1) % 2 ^ 32 else g.seq;
    changed = g.changed || flipped;
  }

  unfoldable pub assert_slot : ℕ → VetoGate → Option (VetoGate × Bool)
  unfolding is_asserted
  assert_slot slot g =
      if ltb slot n
      then (let flipped = not (is_asserted g) in
          some (flip flipped (record g { bits = update g.bits slot true }), flipped))
      else none

  unfoldable pub release_slot : ℕ → VetoGate → Option (VetoGate × Bool)
  unfolding is_only
  release_slot slot g =
      if ltb slot n
      then (let flipped = is_only g.bits slot in
          some (flip flipped (record g { bits = update g.bits slot false }), flipped))
      else none
