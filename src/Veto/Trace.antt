-- ===== src/Veto/Trace.antt =====
-- The gate over any sequence of asserts and releases.
use embassy_supervisor.Base.{
  ℕ, zero, suc, ◌%◌, ◌<◌, ◌≡◌, refl, sym, ap, ◌∙◌, ◌==◌, if◌then◌else◌, Bool, true, false, ◌||◌,
  not, Option, none, some, List, [], ◌∷◌, arith, inl, inr, Bool-cases, update, any_below, all_below,
  any_below-true, all_below-true, all_below-false, any_below-intro, lt→ltb,
}
use embassy_supervisor.Veto.{
  VetoGate, new_gate, is_asserted, is_only, flip, assert_slot, release_slot,
}

-- A call by a contributor: its slot, and whether it asserts.
abbrev pub Call : Type 0
Call = ℕ × Bool

any_below-eq : (n : ℕ) (p q : ℕ → Bool) → ((k : ℕ) → p k ≡ q k) → any_below n p ≡ any_below n q
any_below-eq zero p q h = refl
any_below-eq (suc n) p q h = ground (arith, any_below-eq n p q h, h n)

module _ (n : ℕ) where
  -- A sole contributor's release is the flip from asserted to released.
  only-flips :
      (bits : ℕ → Bool) (slot : ℕ)
      → slot < n
      → is_only n bits slot ≡ true
      → (any_below n bits ≡ true) × (any_below n (update bits slot false) ≡ false)
  unfolding is_only
  only-flips bits slot lt h = (
    any_below-intro n bits slot lt (ground (arith, h)),
    elim (Bool-cases (any_below n (update bits slot false))) [
      | inr e ↦ e
      | inl e ↦
          let (k, below, on) = any_below-true n (update bits slot false) e in
          let others : all_below n (λ k. (k == slot) || not (bits k)) ≡ true = ground (arith, h) in
          absurd
            (ground (arith, all_below-true n (λ k. (k == slot) || not (bits k)) k others below, on))
    ],
  )

  -- Any other release is none.
  other-stays :
      (bits : ℕ → Bool) (slot : ℕ)
      → slot < n
      → is_only n bits slot ≡ false
      → any_below n bits ≡ any_below n (update bits slot false)
  unfolding is_only
  other-stays bits slot lt h = elim (Bool-cases (bits slot)) [
    | inr off ↦ any_below-eq n bits (update bits slot false) (λ k. elim (Bool-cases (slot == k)) [
      | inl e ↦ rw e (ap bits (sym (ground (arith, e))) ∙ off)
      | inr e ↦ rw e
    ])
    | inl on ↦
        let others : all_below n (λ k. (k == slot) || not (bits k)) ≡ false =
          ground (arith, h, on) in
        let (k, below, bad) = all_below-false n (λ k. (k == slot) || not (bits k)) others in
        any_below-intro n bits k below (ground (arith, bad))
        ∙ sym (any_below-intro n (update bits slot false) k below (ground (arith, bad)))
  ]

  unfoldable pub call : Call → VetoGate → Option (VetoGate × Bool)
  call (slot, on) g = if on then assert_slot n slot g else release_slot n slot g

  abbrev pub differ : Bool → Bool → Bool
  differ a b = if a then not b else b

  -- The gate with the caller's bit as the call leaves it.
  abbrev pub with_bit : Call → VetoGate → VetoGate
  with_bit (slot, on) g = record g { bits = update g.bits slot on }

  abbrev pub flips : Call → VetoGate → Bool
  flips c g = differ (is_asserted n g) (is_asserted n (with_bit c g))

  -- A call within the gate sets the caller's bit and reports exactly the flips of the state.
  call-flips :
      (c : Call) (g : VetoGate)
      → c.0 < n
      → call c g ≡ some (flip n (flips c g) (with_bit c g), flips c g)
  unfolding call assert_slot release_slot
  call-flips (slot, true) g lt =
      let on : any_below n (update g.bits slot true) ≡ true =
        any_below-intro n (update g.bits slot true) slot lt (ground arith) in
      rw (lt→ltb slot n lt)
        (rw on (elim (Bool-cases (any_below n g.bits)) [ inl e ↦ rw e | inr e ↦ rw e ]))
  call-flips (slot, false) g lt = elim (Bool-cases (is_only n g.bits slot)) [
    | inl e ↦
        let (before, after) = only-flips g.bits slot lt e in
        rw (lt→ltb slot n lt) (rw (e, before, after))
    | inr e ↦
        let same = other-stays g.bits slot lt e in
        rw (lt→ltb slot n lt) (
          rw e (
            rw (← same)
              (elim (Bool-cases (any_below n g.bits)) [ inl on ↦ rw on | inr off ↦ rw off ])))
  ]

  -- A sequence of calls; a call beyond the gate ends it.
  unfoldable pub calls : List Call → VetoGate → Option VetoGate
  calls [] g = some g
  calls (c ∷ cs) g = elim (call c g) [ none ↦ none | some (g', flipped) ↦ calls cs g' ]

  calls-first :
      (c : Call) (cs : List Call) (g next : VetoGate) (flipped : Bool)
      → call c g ≡ some (next, flipped)
      → calls (c ∷ cs) g ≡ calls cs next
  unfolding calls
  calls-first c cs g next flipped e =
      ap
        (λ (o : Option (VetoGate × Bool)). elim o [
          | none ↦ none
          | some (g', flipped') ↦ calls cs g'
        ])
        e

  abbrev pub AreInRange : List Call → Type 0
  AreInRange [] = Unit
  AreInRange (c ∷ cs) = (c.0 < n) × AreInRange cs

  -- Whether the slot's last call asserts; `held` is its bit before the calls.
  abbrev pub last_call : ℕ → List Call → Bool → Bool
  last_call slot [] held = held
  last_call slot ((s, on) ∷ cs) held = last_call slot cs (if s == slot then on else held)

  abbrev pub parity : Bool → ℕ
  parity b = if b then 1 else 0

  record Inv (g : VetoGate) : Type 0 where
    counted : g.seq % 2 ≡ parity (is_asserted n g)

  call-Inv : (c : Call) (g : VetoGate) → Inv g → Inv (flip n (flips c g) (with_bit c g))
  unfolding is_asserted
  call-Inv c g inv = record { counted = ground (arith, inv.counted) }

  calls-bits :
      (cs : List Call) (g : VetoGate)
      → AreInRange cs
      → Inv g
      → (g' : VetoGate) × (calls cs g ≡ some g')
        × ((slot : ℕ) → g'.bits slot ≡ last_call slot cs (g.bits slot))
        × Inv g'
  unfolding calls
  calls-bits [] g ok inv = (g, refl, λ slot. refl, inv)
  calls-bits (c ∷ cs) g ok inv =
      let next = flip n (flips c g) (with_bit c g) in
      let (g', runs, bits, inv') = calls-bits cs next ok.1 (call-Inv c g inv) in
      (g', calls-first c cs g next (flips c g) (call-flips c g ok.0) ∙ runs, bits, inv')

-- Any calls by contributors of the gate run, from the released gate on. Behind them the gate is
-- asserted exactly if the last call of some contributor asserts, and the transition counter is odd
-- exactly if it is asserted.
pub calls-asserted :
    (n : ℕ) (cs : List Call)
    → AreInRange n cs
    → (g : VetoGate) × (calls n cs new_gate ≡ some g)
      × (is_asserted n g ≡ any_below n (λ slot. last_call n slot cs false))
      × (g.seq % 2 ≡ parity n (is_asserted n g))
unfolding is_asserted new_gate
calls-asserted n cs ok =
    let (g, runs, bits, inv) = calls-bits n cs new_gate ok (record { counted = start n }) in
    (g, runs, any_below-eq n g.bits (λ slot. last_call n slot cs false) bits, inv.counted)
  where
    start : (m : ℕ) → 0 % 2 ≡ parity n (any_below m (λ _. false))
    start zero = refl
    start (suc m) = ground (arith, start m)
