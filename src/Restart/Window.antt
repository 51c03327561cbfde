-- ===== src/Restart/Window.antt =====
-- How many restarts the budget lets through in a window.
use embassy_supervisor.Base.{
  ℕ, ◌+◌, ◌-◌, ◌%◌, ◌^◌, ◌≤◌, ◌<◌, ◌≡◌, refl, ap, ◌∙◌, min, ltb, leb, leb→le, ◌==◌, if◌then◌else◌,
  true, false, ◌||◌, List, [], ◌∷◌, length, arith, Bool-cases, inl, inr,
}
use embassy_supervisor.Node.State.{TaskHandle}
use embassy_supervisor.Restart.{window_ticks, count_restart}

module _ (max_restarts window : ℕ) where
  -- The handle behind the calls at the given ticks, and how many of them were let through.
  unfoldable pub calls : List ℕ → TaskHandle → TaskHandle × ℕ
  calls [] h = (h, 0)
  calls (t ∷ ts) h =
      let (h', granted) = count_restart max_restarts window t h in
      let (h'', later) = calls ts h' in (h'', (if granted then 1 else 0) + later)

  -- All the ticks lie in the window that opened at `t₀`.
  abbrev pub AreInWindow : ℕ → List ℕ → Type 0
  AreInWindow t₀ [] = Unit
  AreInWindow t₀ (t ∷ ts) = (t₀ ≤ t) × (t ≤ t₀ + window_ticks window) × AreInWindow t₀ ts

  -- The window opened at `t₀`, and `c` calls were let through.
  record IsOpen (t₀ c : ℕ) (h : TaskHandle) : Type 0 where
    start : h.restart_window_start ≡ t₀ % 2 ^ 32
    counted : h.restarts ≡ c

  elapsed_exact :
      (t₀ t : ℕ) → t₀ ≤ t → t < t₀ + 2 ^ 32 → (t % 2 ^ 32 + 2 ^ 32 - t₀ % 2 ^ 32) % 2 ^ 32 ≡ t - t₀
  elapsed_exact t₀ t le lt = omega (arith, le, lt)

  age_exact :
      (t₀ c t : ℕ) (h : TaskHandle)
      → IsOpen t₀ c h
      → t₀ ≤ t
      → t < t₀ + 2 ^ 32
      → (t % 2 ^ 32 + 2 ^ 32 - h.restart_window_start) % 2 ^ 32 ≡ t - t₀
  age_exact t₀ c t h o le lt =
      ap (λ (s : ℕ). (t % 2 ^ 32 + 2 ^ 32 - s) % 2 ^ 32) o.start ∙ elapsed_exact t₀ t le lt

  counts_on :
      (t₀ c t : ℕ) (h : TaskHandle)
      → IsOpen t₀ c h
      → 1 ≤ c
      → t₀ ≤ t
      → t ≤ t₀ + window_ticks window
      → count_restart max_restarts window t h
        ≡ (if leb max_restarts c then (h, false) else (record h { restarts = c + 1 }, true))
  unfolding count_restart
  counts_on t₀ c t h o pos le late =
      let age = age_exact t₀ c t h o le (omega (arith, late)) in
      let shut : ((h.restarts == 0)
            || ltb (window_ticks window) ((t % 2 ^ 32 + 2 ^ 32 - h.restart_window_start) % 2 ^ 32))
          ≡ false =
        ground (arith, age, o.counted, pos, late) in
      rw shut (
        ap
          (λ (k : ℕ).
            if leb max_restarts k then (h, false) else (record h { restarts = k + 1 }, true))
          o.counted)

  opens :
      (t : ℕ) (h : TaskHandle)
      → h.restarts ≡ 0
      → count_restart max_restarts window t h
        ≡ (record h { restart_window_start = t % 2 ^ 32; restarts = 1 }, true)
  unfolding count_restart
  opens t h e = rw e refl

  reopens :
      (t₀ c t : ℕ) (h : TaskHandle)
      → IsOpen t₀ c h
      → t₀ + window_ticks window < t
      → t < t₀ + 2 ^ 32
      → count_restart max_restarts window t h
        ≡ (record h { restart_window_start = t % 2 ^ 32; restarts = 1 }, true)
  unfolding count_restart
  reopens t₀ c t h o late lt =
      let age = age_exact t₀ c t h o (omega (arith, late)) lt in
      let over : ((h.restarts == 0)
            || ltb (window_ticks window) ((t % 2 ^ 32 + 2 ^ 32 - h.restart_window_start) % 2 ^ 32))
          ≡ true =
        ground (arith, age, late) in
      rw over refl

  -- The window stays open over the calls.
  calls-IsOpen :
      (t₀ c : ℕ) (ts : List ℕ) (h : TaskHandle)
      → IsOpen t₀ c h
      → 1 ≤ c
      → AreInWindow t₀ ts
      → (c' : ℕ) × IsOpen t₀ c' (calls ts h).0
  unfolding calls
  calls-IsOpen t₀ c [] h o pos inside = (c, o)
  calls-IsOpen t₀ c (t ∷ ts) h o pos (le, late, later) = elim (Bool-cases (leb max_restarts c)) [
    | inl full ↦
        rw (counts_on t₀ c t h o pos le late) (rw full (calls-IsOpen t₀ c ts h o pos later))
    | inr free ↦
        let o' : IsOpen t₀ (c + 1) (record h { restarts = c + 1 }) = record {
          start = o.start;
          counted = refl;
        } in
        rw (counts_on t₀ c t h o pos le late) (
          rw free
            (calls-IsOpen t₀ (c + 1) ts (record h { restarts = c + 1 }) o' (omega arith) later))
  ]

  calls-granted :
      (t₀ c : ℕ) (ts : List ℕ) (h : TaskHandle)
      → IsOpen t₀ c h
      → 1 ≤ c
      → AreInWindow t₀ ts
      → (calls ts h).1 ≡ min (length ts) (max_restarts - c)
  unfolding calls
  calls-granted t₀ c [] h o pos inside = omega arith
  calls-granted t₀ c (t ∷ ts) h o pos (le, late, later) = elim (Bool-cases (leb max_restarts c)) [
    | inl full ↦
        rw (counts_on t₀ c t h o pos le late)
          (rw full (omega (arith, leb→le max_restarts c full, calls-granted t₀ c ts h o pos later)))
    | inr free ↦
        let o' : IsOpen t₀ (c + 1) (record h { restarts = c + 1 }) = record {
          start = o.start;
          counted = refl;
        } in
        rw (counts_on t₀ c t h o pos le late) (
          rw free (
            ground (
              arith,
              free,
              calls-granted t₀ (c + 1) ts (record h { restarts = c + 1 }) o' (omega arith) later,
            )))
  ]

-- A node with no counted restart, and calls at ticks of the window that the first of them opens.
-- The budget lets the first one through, and as many more as fit its maximum, so never more than
-- the maximum if that is not zero. Another call behind the window, and within 2^32 ticks of its
-- opening, opens a new one.
pub calls_within :
    (max_restarts window t₀ : ℕ) (ts : List ℕ) (h : TaskHandle)
    → h.restarts ≡ 0
    → AreInWindow max_restarts window t₀ ts
    → ((calls max_restarts window (t₀ ∷ ts) h).1 ≡ 1 + min (length ts) (max_restarts - 1))
      × ((t : ℕ)
          → t₀ + window_ticks window < t
          → t < t₀ + 2 ^ 32
          → let (h', _) = calls max_restarts window (t₀ ∷ ts) h in
            ((count_restart max_restarts window t h').1 ≡ true)
            × ((count_restart max_restarts window t h').0.restarts ≡ 1))
unfolding calls
calls_within max_restarts window t₀ ts h e inside =
    let h₁ : TaskHandle = record h { restart_window_start = t₀ % 2 ^ 32; restarts = 1 } in
    let first = opens max_restarts window t₀ h e in
    let o : IsOpen max_restarts window t₀ 1 h₁ = record { start = refl; counted = refl } in
    let (c, o') = calls-IsOpen max_restarts window t₀ 1 ts h₁ o (omega arith) inside in
    (
      rw first (
          ap (λ (k : ℕ). 1 + k)
            (calls-granted max_restarts window t₀ 1 ts h₁ o (omega arith) inside)),
      λ t late lt. rw first (
          rw (reopens max_restarts window t₀ c t (calls max_restarts window ts h₁).0 o' late lt)
            (refl, refl)),
    )
