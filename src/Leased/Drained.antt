-- ===== src/Leased/Drained.antt =====
-- What a drain that has returned promises.
use embassy_supervisor.Base.{ℕ, ◌<◌, ◌≡◌, ◌≢◌, ◌∙◌, ap, subst, Bool, true, arith, le_sum_below}
use embassy_supervisor.Leased.{
  closed_bit, leases, is_drained, holding, Drain, drained, System, start, Steps,
}
use embassy_supervisor.Leased.Count.{held, Promise, is_closing, Steps-Inv}

drained_none : (d : Drain) (latch : Bool) (c s : ℕ) → d ≡ drained → Promise d latch c s → c ≡ 0
drained_none d latch c s e h = subst (λ (x : Drain). Promise x latch c s) e h

-- There are fewer clients than the word can count, and the system was reached from its start by
-- any interleaving. When a drain has returned and the producer has not reopened since, the word is
-- closed, its count is zero, and no client holds a lease, whatever the clients do meanwhile.
pub drained-leases :
    (n : ℕ) (s : System)
    → n < closed_bit
    → Steps n start s
    → s.drainer ≡ drained
    → (is_drained s.mem ≡ true) × (leases s.mem ≡ 0) × ((i : ℕ) → i < n → s.pc i ≢ holding)
drained-leases n s small r e =
    let inv = Steps-Inv n small r in
    let none_held = drained_none s.drainer s.mem.idle _ _ e inv.promise in
    (
      inv.closed (ap is_closing e),
      inv.counted ∙ none_held,
      λ i lt here.
          let one : held (s.pc i) ≡ 1 = ap held here in
          omega (arith, one, none_held, le_sum_below n (λ k. held (s.pc k)) i lt),
    )
