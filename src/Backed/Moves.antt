-- ===== src/Backed/Moves.antt =====
-- What one step of a reader does to the gate.
use embassy_supervisor.Base.{
  ℕ, ◌+◌, ◌^◌, ◌≤◌, ◌<◌, ◌≡◌, refl, ◌∙◌, ◌⊎◌, Bool, true, false, arith, inl, inr,
}
use embassy_supervisor.Node.Flags.{ready, flag}
use embassy_supervisor.Backed.{
  Mem, Pc, outside, looping, saw_running, granted, reading, asking, swapping, posting, pausing,
  woke_running, unasking, last_out, MayLeave, reads, cancels_post, cancels_pause, Move,
  enters_first, enters, signals_in, runs, is_down, serves, unready, ends_request, needs_no_start,
  needs_start, asked_before, asks, posts, woke_up, woke_down, woke_ready, woke_unready, unasks,
  leaves_last, leaves, signals_out,
}

-- Whether a reader is counted, and whether it is past the wait for the producer.
abbrev pub inside : Pc → ℕ
inside outside = 0
inside last_out = 0
inside _ = 1

abbrev pub signalling : Pc → ℕ
signalling last_out = 1
signalling _ = 0

abbrev pub is_past : Pc → Bool
is_past granted = true
is_past reading = true
is_past _ = false

pub inside-le : (p : Pc) → inside p ≤ 1
inside-le outside = omega arith
inside-le last_out = omega arith
inside-le _ = omega arith

MayLeave-inside : {p : Pc} → MayLeave p → inside p ≡ 1
MayLeave-inside reads = refl
MayLeave-inside cancels_post = refl
MayLeave-inside cancels_pause = refl

MayLeave-signalling : {p : Pc} → MayLeave p → signalling p ≡ 0
MayLeave-signalling reads = refl
MayLeave-signalling cancels_post = refl
MayLeave-signalling cancels_pause = refl

pub inside-is_past : (p : Pc) → inside p ≡ 0 → is_past p ≡ false
inside-is_past granted h = absurd (omega (arith, h))
inside-is_past reading h = absurd (omega (arith, h))
inside-is_past _ h = refl

-- A step of a reader leaves the flags, moves the count with it, and keeps a promise to wake.
pub record Moved (m m' : Mem) (p p' : Pc) (c c' s s' : ℕ) : Type 0 where
  pub flags_kept : m'.flags ≡ m.flags
  pub recounted : m'.gate.openers ≡ c'
  pub not_past : flag m.flags ready ≡ false → is_past p ≡ false → is_past p' ≡ false
  pub woken : (m.gate.watch ≡ true) ⊎ (0 < c + s) → (m'.gate.watch ≡ true) ⊎ (0 < c' + s')

kept :
    (c c' s s' : ℕ) (b : Bool)
    → c' ≡ c
    → s' ≡ s
    → (b ≡ true) ⊎ (0 < c + s)
    → (b ≡ true) ⊎ (0 < c' + s')
kept c c' s s' b e k (inl h) = inl h
kept c c' s s' b e k (inr h) = inr (omega arith)

module _ (c c' s s' : ℕ) where
  stays :
      (m m' : Mem) (p p' : Pc)
      → m'.flags ≡ m.flags
      → m'.gate.openers ≡ m.gate.openers
      → m'.gate.watch ≡ m.gate.watch
      → m.gate.openers ≡ c
      → c' + inside p ≡ c + inside p'
      → s' + signalling p ≡ s + signalling p'
      → inside p ≡ inside p'
      → signalling p ≡ signalling p'
      → (flag m.flags ready ≡ false → is_past p ≡ false → is_past p' ≡ false)
      → Moved m m' p p' c c' s s'
  stays m m' p p' fl op wa e mv k same quiet past = record {
    flags_kept = fl;
    recounted = op ∙ e ∙ (omega (arith, mv, same));
    not_past = past;
    woken = λ h.
        rw wa (kept c c' s s' m.gate.watch (omega (arith, mv, same)) (omega (arith, k, quiet)) h);
  }

  pub Move-Moved :
      {m m' : Mem} {p p' : Pc}
      → m.gate.openers ≡ c
      → c < 2 ^ 32
      → c' < 2 ^ 32
      → inside p ≤ c
      → c' + inside p ≡ c + inside p'
      → s' + signalling p ≡ s + signalling p'
      → Move m p m' p'
      → Moved m m' p p' c c' s s'
  Move-Moved e lt lt' some_in mv k (enters_first none_in) = record {
    flags_kept = refl;
    recounted = omega arith;
    not_past = λ _ _. refl;
    woken = λ _. inr (omega arith);
  }
  Move-Moved e lt lt' some_in mv k (enters _) = record {
    flags_kept = refl;
    recounted = omega arith;
    not_past = λ _ _. refl;
    woken = λ _. inr (omega arith);
  }
  Move-Moved e lt lt' some_in mv k signals_in = record {
    flags_kept = refl;
    recounted = omega arith;
    not_past = λ _ _. refl;
    woken = λ _. inl refl;
  }
  Move-Moved e lt lt' some_in mv k signals_out = record {
    flags_kept = refl;
    recounted = omega arith;
    not_past = λ _ _. refl;
    woken = λ _. inl refl;
  }
  Move-Moved {p} e lt lt' some_in mv k (leaves_last may one) =
      let was = MayLeave-inside may in
      record {
        flags_kept = refl;
        recounted = omega (arith, was, mv, e, lt');
        not_past = λ _ _. refl;
        woken = λ _. inr (omega (arith, k, MayLeave-signalling may));
      }
  Move-Moved {p} e lt lt' some_in mv k (leaves may many) =
      let was = MayLeave-inside may in
      record {
        flags_kept = refl;
        recounted = omega (arith, was, mv, e, lt', lt, some_in);
        not_past = λ _ _. refl;
        woken = λ _. inr (ground (arith, many, was, mv, e));
      }
  Move-Moved {m} e lt lt' some_in mv k (serves is_up) =
      stays m m saw_running granted refl refl refl e mv k refl refl
        (λ off _. absurd (ground (arith, off, is_up)))
  Move-Moved {m} e lt lt' some_in mv k ends_request =
      stays m _ granted reading refl refl refl e mv k refl refl (λ _ h. h)
  Move-Moved {m} e lt lt' some_in mv k (runs _) =
      stays m m looping saw_running refl refl refl e mv k refl refl (λ _ h. h)
  Move-Moved {m} e lt lt' some_in mv k (is_down _) =
      stays m m looping asking refl refl refl e mv k refl refl (λ _ h. h)
  Move-Moved {m} e lt lt' some_in mv k (unready _) =
      stays m m saw_running asking refl refl refl e mv k refl refl (λ _ h. h)
  Move-Moved {m} e lt lt' some_in mv k (needs_no_start _) =
      stays m m asking pausing refl refl refl e mv k refl refl (λ _ h. h)
  Move-Moved {m} e lt lt' some_in mv k (needs_start _) =
      stays m m asking swapping refl refl refl e mv k refl refl (λ _ h. h)
  Move-Moved {m} e lt lt' some_in mv k (asked_before _) =
      stays m m swapping pausing refl refl refl e mv k refl refl (λ _ h. h)
  Move-Moved {m} e lt lt' some_in mv k (asks _) =
      stays m _ swapping posting refl refl refl e mv k refl refl (λ _ h. h)
  Move-Moved {m} e lt lt' some_in mv k posts =
      stays m _ posting pausing refl refl refl e mv k refl refl (λ _ h. h)
  Move-Moved {m} e lt lt' some_in mv k (woke_up _) =
      stays m m pausing woke_running refl refl refl e mv k refl refl (λ _ h. h)
  Move-Moved {m} e lt lt' some_in mv k (woke_down _) =
      stays m m pausing unasking refl refl refl e mv k refl refl (λ _ h. h)
  Move-Moved {m} e lt lt' some_in mv k (woke_ready _) =
      stays m m woke_running looping refl refl refl e mv k refl refl (λ _ h. h)
  Move-Moved {m} e lt lt' some_in mv k (woke_unready _) =
      stays m m woke_running unasking refl refl refl e mv k refl refl (λ _ h. h)
  Move-Moved {m} e lt lt' some_in mv k unasks =
      stays m _ unasking looping refl refl refl e mv k refl refl (λ _ h. h)
