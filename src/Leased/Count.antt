-- ===== src/Leased/Count.antt =====
-- The word counts the leases that are held, and a drain that waits is woken.
use embassy_supervisor.Base.{
  ℕ, ◌+◌, ◌^◌, ◌≤◌, ◌<◌, ◌≡◌, refl, sym, ◌∙◌, ◌⊎◌, Bool, true, false, arith, inl, inr, sum_below,
  sum_below-le_bound, sum_below-zero, sum_below-update, le_sum_below, update,
}
use embassy_supervisor.Leased.{
  Leased, closed_bit, has_closed, count_of, Pc, outside, holding, last_out, trying, Move, load,
  refused, wins, loses, drops_last, drops, signals, Drain, resting, draining, waiting, drained,
  reopening, Turn, closes, closes_again, finds_none, finds_some, wakes, gives_up, resets,
  resets_drained, reopens, System, start, Step, client, producer, Steps, here, then_step,
}
use embassy_supervisor.Leased.Word.{open_small, give_back_count, less_closed, close_word, not_open}

abbrev pub held : Pc → ℕ
held holding = 1
held _ = 0

-- In its `drop`, and about to signal.
abbrev pub signalling : Pc → ℕ
signalling last_out = 1
signalling _ = 0

held-le : (p : Pc) → held p ≤ 1
held-le outside = omega arith
held-le holding = omega arith
held-le last_out = omega arith
held-le (trying cur) = omega arith

-- Where a drain stands, the word is closed.
abbrev pub is_closing : Drain → Bool
is_closing draining = true
is_closing waiting = true
is_closing drained = true
is_closing _ = false

-- A drain that waits has its latch set, or somebody is there who will set it; one that has
-- returned has found nobody.
abbrev pub Promise : Drain → Bool → (inside signal : ℕ) → Type 0
Promise waiting latch inside signal = (latch ≡ true) ⊎ (0 < inside + signal)
Promise drained latch inside signal = inside ≡ 0
Promise _ latch inside signal = Unit

module _ (n : ℕ) where
  abbrev pub holders : (ℕ → Pc) → ℕ
  holders pc = sum_below n (λ k. held (pc k))

  abbrev pub signallers : (ℕ → Pc) → ℕ
  signallers pc = sum_below n (λ k. signalling (pc k))

  pub record Inv (s : System) : Type 0 where
    pub counted : count_of s.mem.state ≡ holders s.pc
    pub fits : s.mem.state < 2 ^ 32
    pub closed : is_closing s.drainer ≡ true → has_closed s.mem.state ≡ true
    pub promise : Promise s.drainer s.mem.idle (holders s.pc) (signallers s.pc)

  start-Inv : Inv start
  start-Inv = record {
    counted = sym (sum_below-zero n);
    fits = omega arith;
    closed = λ h. absurd (ground (arith, h));
    promise = tt;
  }

  pub holders-le : (pc : ℕ → Pc) → holders pc ≤ n
  holders-le pc = sum_below-le_bound n (λ k. held (pc k)) (λ k. held-le (pc k))

  -- The count moves with the holders.
  Move-count_of :
      {l l' : Leased} {p p' : Pc} (c c' : ℕ)
      → l.state < 2 ^ 32
      → count_of l.state ≡ c
      → c' < closed_bit
      → c' + held p ≡ c + held p'
      → Move l p l' p'
      → (count_of l'.state ≡ c') × (l'.state < 2 ^ 32)
  Move-count_of c c' fits e lt moved load = (omega arith, fits)
  Move-count_of c c' fits e lt moved (refused _) = (omega arith, fits)
  Move-count_of c c' fits e lt moved (wins free same) =
      let small = open_small _ fits (rw same free) in (omega arith, omega arith)
  Move-count_of c c' fits e lt moved (loses _) = (omega arith, fits)
  Move-count_of c c' fits e lt moved (drops_last one) = give_back_count _ c c' fits e lt moved
  Move-count_of c c' fits e lt moved (drops many) = give_back_count _ c c' fits e lt moved
  Move-count_of c c' fits e lt moved signals = (omega arith, fits)

  -- No move opens a closed word: nobody is let in, and a decrement borrows nothing.
  Move-has_closed :
      {l l' : Leased} {p p' : Pc}
      → l.state < 2 ^ 32
      → held p ≤ count_of l.state
      → has_closed l.state ≡ true
      → Move l p l' p'
      → has_closed l'.state ≡ true
  Move-has_closed fits inside shut load = shut
  Move-has_closed fits inside shut (refused _) = shut
  Move-has_closed fits inside shut (wins free same) =
      absurd (ground (arith, not_open shut same free))
  Move-has_closed fits inside shut (loses _) = shut
  Move-has_closed {l} fits inside shut (drops_last one) = less_closed l.state fits inside shut
  Move-has_closed {l} fits inside shut (drops many) = less_closed l.state fits inside shut
  Move-has_closed fits inside shut signals = shut

  Move-waiting :
      {l l' : Leased} {p p' : Pc} (c c' s s' : ℕ)
      → count_of l.state ≡ c
      → c' + held p ≡ c + held p'
      → s' + signalling p ≡ s + signalling p'
      → Move l p l' p'
      → (l.idle ≡ true) ⊎ (0 < c + s)
      → (l'.idle ≡ true) ⊎ (0 < c' + s')
  Move-waiting c c' s s' e m k load (inl h) = inl h
  Move-waiting c c' s s' e m k load (inr h) = inr (omega arith)
  Move-waiting c c' s s' e m k (refused _) (inl h) = inl h
  Move-waiting c c' s s' e m k (refused _) (inr h) = inr (omega arith)
  Move-waiting c c' s s' e m k (wins _ _) h = inr (omega arith)
  Move-waiting c c' s s' e m k (loses _) (inl h) = inl h
  Move-waiting c c' s s' e m k (loses _) (inr h) = inr (omega arith)
  Move-waiting c c' s s' e m k (drops_last one) h = inr (omega arith)
  Move-waiting c c' s s' e m k (drops many) h = inr (ground (arith, many))
  Move-waiting c c' s s' e m k signals h = inl refl

  Move-drained :
      {l l' : Leased} {p p' : Pc} (c c' : ℕ)
      → has_closed l.state ≡ true
      → c' + held p ≡ c + held p'
      → Move l p l' p'
      → c ≡ 0
      → c' ≡ 0
  Move-drained c c' shut m load h = omega arith
  Move-drained c c' shut m (refused _) h = omega arith
  Move-drained c c' shut m (wins free same) h = absurd (ground (arith, not_open shut same free))
  Move-drained c c' shut m (loses _) h = omega arith
  Move-drained c c' shut m (drops_last _) h = absurd (omega arith)
  Move-drained c c' shut m (drops _) h = absurd (omega arith)
  Move-drained c c' shut m signals h = omega arith

  Move-Promise :
      (d : Drain) {l l' : Leased} {p p' : Pc} (c c' s s' : ℕ)
      → (is_closing d ≡ true → has_closed l.state ≡ true)
      → count_of l.state ≡ c
      → c' + held p ≡ c + held p'
      → s' + signalling p ≡ s + signalling p'
      → Move l p l' p'
      → Promise d l.idle c s
      → Promise d l'.idle c' s'
  Move-Promise resting c c' s s' shut e m k mv h = tt
  Move-Promise draining c c' s s' shut e m k mv h = tt
  Move-Promise waiting c c' s s' shut e m k mv h = Move-waiting c c' s s' e m k mv h
  Move-Promise drained c c' s s' shut e m k mv h = Move-drained c c' (shut refl) m mv h
  Move-Promise reopening c c' s s' shut e m k mv h = tt

  Turn-Promise :
      {l l' : Leased} {d d' : Drain} (c s : ℕ)
      → count_of l.state ≡ c
      → Turn l d l' d'
      → Promise d' l'.idle c s
  Turn-Promise c s e closes = tt
  Turn-Promise c s e closes_again = tt
  Turn-Promise c s e (finds_none none_left) = omega arith
  Turn-Promise c s e (finds_some some_left) = inr (ground (arith, some_left))
  Turn-Promise c s e (wakes _) = tt
  Turn-Promise c s e gives_up = tt
  Turn-Promise c s e resets = tt
  Turn-Promise c s e resets_drained = tt
  Turn-Promise c s e reopens = tt

  -- The producer's accesses touch the closed bit only.
  Turn-Leased :
      {l l' : Leased} {d d' : Drain}
      → l.state < 2 ^ 32
      → (is_closing d ≡ true → has_closed l.state ≡ true)
      → Turn l d l' d'
      → (count_of l'.state ≡ count_of l.state)
        × (l'.state < 2 ^ 32)
        × (is_closing d' ≡ true → has_closed l'.state ≡ true)
  Turn-Leased {l} fits shut closes = close_word l fits
  Turn-Leased {l} fits shut closes_again = close_word l fits
  Turn-Leased fits shut (finds_none _) = (refl, fits, shut)
  Turn-Leased fits shut (finds_some _) = (refl, fits, shut)
  Turn-Leased fits shut (wakes _) = (refl, fits, shut)
  Turn-Leased fits shut gives_up = (refl, fits, λ h. absurd (ground (arith, h)))
  Turn-Leased fits shut resets = (refl, fits, λ h. absurd (ground (arith, h)))
  Turn-Leased fits shut resets_drained = (refl, fits, λ h. absurd (ground (arith, h)))
  Turn-Leased fits shut reopens = (omega arith, omega arith, λ h. absurd (ground (arith, h)))

  module _ (small : n < closed_bit) where
    -- Every step keeps the invariant.
    pub Step-Inv : {s t : System} → Step n s t → Inv s → Inv t
    Step-Inv {s} (client i {l} {p} lt mv) inv =
        let pc' = update s.pc i p in
        let c' : ℕ = holders pc' in
        let moved = sum_below-update held s.pc i p n lt in
        let sent = sum_below-update signalling s.pc i p n lt in
        let few : c' < closed_bit = omega (arith, holders-le pc') in
        let some_lease : held (s.pc i) ≤ count_of s.mem.state =
          omega (arith, inv.counted, le_sum_below n (λ k. held (s.pc k)) i lt) in
        let (recounted, fits) = Move-count_of (holders s.pc) c' inv.fits inv.counted few moved mv in
        record {
          counted = recounted;
          fits = fits;
          closed = λ h. Move-has_closed inv.fits some_lease (inv.closed h) mv;
          promise =
              Move-Promise s.drainer (holders s.pc) c' (signallers s.pc) (signallers pc') inv.closed
                inv.counted moved sent mv inv.promise;
        }
    Step-Inv {s} (producer turn) inv =
        let (same, fits, closed) = Turn-Leased inv.fits inv.closed turn in
        record {
          counted = same ∙ inv.counted;
          fits = fits;
          closed = closed;
          promise = Turn-Promise (holders s.pc) (signallers s.pc) inv.counted turn;
        }

    pub Steps-Inv : {s : System} → Steps n start s → Inv s
    Steps-Inv here = start-Inv
    Steps-Inv (then_step r st) = Step-Inv st (Steps-Inv r)
