-- ===== src/Node/Faults.antt =====
-- Injected faults and their encoding in two atomic words (supervisor/src/lib.rs, `Fault`).
use embassy_supervisor.Base.{
  ℕ, ◌^◌, ◌<◌, ◌≡◌, refl, ap, ◌∙◌, min, ◌==◌, if◌then◌else◌, Bool, true, false, arith,
}

-- `embassy_time::Duration`, by how it was made: what it comes to depends on the tick rate of the
-- build, so reading it back in milliseconds is a parameter.
pub data Duration : Type 0 where
  from_ticks from_millis : ℕ → Duration

pub data Fault : Type 0 where
  healthy stall wedge crash : Fault
  hog : Duration → Fault

abbrev pub u32_max : ℕ
u32_max = 4294967295

unfoldable pub encode : (Duration → ℕ) → Fault → ℕ × ℕ
encode as_millis healthy = (0, 0)
encode as_millis stall = (1, 0)
encode as_millis wedge = (2, 0)
encode as_millis crash = (3, 0)
encode as_millis (hog d) = (4, min (as_millis d) u32_max)

unfoldable pub decode : ℕ → ℕ → Fault
decode code ms =
    if code == 1
    then stall
    else if code == 2
    then wedge
    else if code == 3
    then crash
    else if code == 4
    then hog (from_millis ms)
    else healthy

abbrev pub is_wedge : Fault → Bool
is_wedge wedge = true
is_wedge _ = false

abbrev pub is_healthy : Fault → Bool
is_healthy healthy = true
is_healthy _ = false

module _ (as_millis : Duration → ℕ) where
  -- The fault with its hog bound cut to whole milliseconds, and to what 32 bits hold.
  abbrev pub cut_hog : Fault → Fault
  cut_hog (hog d) = hog (from_millis (min (as_millis d) u32_max))
  cut_hog f = f

  pub decode-cut_hog :
      (f : Fault) → decode (encode as_millis f).0 (encode as_millis f).1 ≡ cut_hog f
  unfolding encode decode
  decode-cut_hog healthy = refl
  decode-cut_hog stall = refl
  decode-cut_hog wedge = refl
  decode-cut_hog crash = refl
  decode-cut_hog (hog d) = refl

  -- A duration that is made of whole milliseconds reads as so many, at the build's tick rate. Every
  -- fault reads back from its two words as it was stored, but that a hog bound is cut to its whole
  -- milliseconds and to the 32-bit maximum; storing what was read gives the same words again; and
  -- both words fit their width.
  pub decode-encode :
      (f : Fault)
      → ((ms : ℕ) → ms < 2 ^ 32 → as_millis (from_millis ms) ≡ ms)
      → let (code, ms) = encode as_millis f in
        (decode code ms ≡ cut_hog f)
        × (encode as_millis (decode code ms) ≡ (code, ms))
        × (code < 2 ^ 8)
        × (ms < 2 ^ 32)
  unfolding encode decode
  decode-encode healthy whole = (refl, refl, omega arith, omega arith)
  decode-encode stall whole = (refl, refl, omega arith, omega arith)
  decode-encode wedge whole = (refl, refl, omega arith, omega arith)
  decode-encode crash whole = (refl, refl, omega arith, omega arith)
  decode-encode (hog d) whole = (
    refl,
    ap (λ (m : ℕ). (4, min m u32_max)) (whole (min (as_millis d) u32_max) (omega arith))
        ∙ ap (λ (m : ℕ). (4, m)) (omega arith),
    omega arith,
    omega arith,
  )
