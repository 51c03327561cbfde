-- ===== src/Backed/Readers.antt =====
-- The gate counts the readers that are inside, and the producer may rely on what it found.
use embassy_supervisor.Base.{
  Bool, [], ◌∷◌, ℕ, ◌^◌, ◌≤◌, ◌<◌, ◌≡◌, sym, ap, ◌∙◌, true, false, arith, inl, inr, sum_below,
  sum_below-le_bound, sum_below-zero, sum_below-update, le_sum_below, update, update_inv,
}
use embassy_supervisor.Node.Flags.{ready, Flags, flag, flag_set}
use embassy_supervisor.Backed.{
  Mem, System, start, Step, reader, turn, monitor, others, Steps, here, then_step, Producer, Pc,
  parked,
}
use embassy_supervisor.Backed.Moves.{
  inside, signalling, is_past, inside-le, inside-is_past, Moved, Move-Moved,
}
use embassy_supervisor.Backed.Turns.{
  IsWoken, is_retiring, is_clear, Turn-Turned, is_clear-is_retiring,
}

module _ (n : ℕ) where
  abbrev pub readers : (ℕ → Pc) → ℕ
  readers pc = sum_below n (λ k. inside (pc k))

  abbrev pub senders : (ℕ → Pc) → ℕ
  senders pc = sum_below n (λ k. signalling (pc k))

  -- The producer's readiness is the producer's own, unless the monitor marks it ready on a write.
  pub record Inv (ready_on_write : Bool) (s : System) : Type 0 where
    pub counted : s.mem.gate.openers ≡ readers s.pc
    pub woken : IsWoken s.producer s.mem (readers s.pc) (senders s.pc)
    pub unready :
        ready_on_write ≡ false → is_retiring s.producer ≡ true → flag s.mem.flags ready ≡ false
    pub none_past :
        ready_on_write ≡ false
        → is_clear s.producer ≡ true
        → (i : ℕ) → i < n
        → is_past (s.pc i) ≡ false

  start-Inv : (ready_on_write : Bool) (w : Flags) → Inv ready_on_write (start w)
  start-Inv ready_on_write w = record {
    counted = sym (sum_below-zero n);
    woken = tt;
    unready = λ _ h. absurd (ground (arith, h));
    none_past = λ _ h. absurd (ground (arith, h));
  }

  readers-le : (pc : ℕ → Pc) → readers pc ≤ n
  readers-le pc = sum_below-le_bound n (λ k. inside (pc k)) (λ k. inside-le (pc k))

  IsWoken-Moved :
      (d : Producer) {m m' : Mem} {p p' : Pc} {c c' s s' : ℕ}
      → Moved m m' p p' c c' s s'
      → IsWoken d m c s
      → IsWoken d m' c' s'
  IsWoken-Moved parked mv h = mv.woken h
  IsWoken-Moved _ mv h = tt

  IsWoken-others :
      (d : Producer) (m : Mem) (w : Flags) (c s : ℕ)
      → IsWoken d m c s
      → IsWoken d (record m { flags = w }) c s
  IsWoken-others parked m w c s h = h
  IsWoken-others _ m w c s h = tt

  module _ (small : n < 2 ^ 32) (ready_on_write : Bool) where
    -- Every step keeps the invariant.
    Step-Inv :
        {s t : System} → Step n ready_on_write s t → Inv ready_on_write s → Inv ready_on_write t
    Step-Inv {s} (reader i {m} {p} lt mv) inv =
        let pc' = update s.pc i p in
        let some_in = le_sum_below n (λ k. inside (s.pc k)) i lt in
        let moved =
          Move-Moved (readers s.pc) (readers pc') (senders s.pc) (senders pc') inv.counted
            (omega (arith, readers-le s.pc)) (omega (arith, readers-le pc')) some_in
            (sum_below-update inside s.pc i p n lt) (sum_below-update signalling s.pc i p n lt)
            mv in
        record {
          counted = moved.recounted;
          woken = IsWoken-Moved s.producer moved inv.woken;
          unready = λ own h. ap (λ (w : Flags). flag w ready) moved.flags_kept ∙ inv.unready own h;
          none_past = λ own h k lt'.
              update_inv (λ (q : Pc). is_past q ≡ false) s.pc i p k (inv.none_past own h k lt')
                (λ _.
                  moved.not_past (inv.unready own (is_clear-is_retiring s.producer h))
                    (inv.none_past own h i lt));
        }
    Step-Inv {s} (turn {m} {d} tr) inv =
        let turned = Turn-Turned (readers s.pc) (senders s.pc) inv.counted tr in
        record {
          counted = turned.count_kept ∙ inv.counted;
          woken = turned.woken;
          unready = λ own. turned.unready (inv.unready own);
          none_past = λ own h k lt. elim (turned.none_past h) [
            | inl clear ↦ inv.none_past own clear k lt
            | inr none_in ↦
                inside-is_past (s.pc k)
                  (omega (arith, inv.counted, none_in, le_sum_below n (λ j. inside (s.pc j)) k lt))
          ];
        }
    Step-Inv {s} (others w off) inv = record {
      counted = inv.counted;
      woken = IsWoken-others s.producer s.mem w (readers s.pc) (senders s.pc) inv.woken;
      unready = λ own h. off (inv.unready own h);
      none_past = inv.none_past;
    }
    Step-Inv {s} (monitor on_write up) inv = record {
      counted = inv.counted;
      woken =
          IsWoken-others s.producer s.mem (flag_set (ready ∷ []) s.mem.flags) (readers s.pc)
            (senders s.pc) inv.woken;
      unready = λ own. absurd (ground (arith, own, on_write));
      none_past = λ own. absurd (ground (arith, own, on_write));
    }

    pub Steps-Inv :
        {w : Flags} {s : System} → Steps n ready_on_write (start w) s → Inv ready_on_write s
    Steps-Inv here = start-Inv ready_on_write _
    Steps-Inv (then_step r st) = Step-Inv st (Steps-Inv r)
