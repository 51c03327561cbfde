-- ===== src/Slots/Owner.antt =====
-- Where a resource is, call by call.
use embassy_supervisor.Base.{
  ℕ, ◌≡◌, refl, sym, ap, ◌∙◌, subst, ◌==◌, ==_refl, true, false, arith, inl, inr, Bool-cases, none,
  some, update, update_inv,
}
use embassy_supervisor.Slots.{
  take, restore, clear, Shells, at_boot, Step, provides, takes, restores, clears, Steps, here,
  then_step,
}

none-some {ℓ} : {A : Type ℓ} {v : A} → none ≡ some v → true ≡ false
none-some e = ap (λ o. elim o [ none ↦ true | some x ↦ false ]) e

-- Nobody but at most the shell has the resource.
abbrev OthersNone {ℓ} : {A : Type ℓ} → Shells A → ℕ → Type ℓ
OthersNone s k = (j : ℕ) → (k == j) ≡ false → s.held j ≡ none

-- Where the resource is: dropped or not moved in yet, in the slot, or with a shell.
data Place {ℓ} {A : Type ℓ} (s : Shells A) : Type ℓ where
  nowhere : s.cell.slot ≡ none → ((j : ℕ) → s.held j ≡ none) → Place s
  stored : s.cell.slot ≡ s.moved_in → ((j : ℕ) → s.held j ≡ none) → Place s
  with_shell : (k : ℕ) → s.cell.slot ≡ none → s.held k ≡ s.moved_in → OthersNone s k → Place s

module _ {ℓ} {A : Type ℓ} where
  same_index :
      (s : Shells A) (k i : ℕ) (v : A) → OthersNone s k → s.held i ≡ some v → (k == i) ≡ true
  same_index s k i v rest h = elim (Bool-cases (k == i)) [
    | inl e ↦ e
    | inr e ↦ absurd (ground (arith, none-some (sym (rest i e) ∙ h)))
  ]

  -- Before the resource is moved in, nobody holds anything.
  unmoved : (s : Shells A) → s.moved_in ≡ none → Place s → (j : ℕ) → s.held j ≡ none
  unmoved s m (nowhere _ h) j = h j
  unmoved s m (stored _ h) j = h j
  unmoved s m (with_shell k _ own rest) j = elim (Bool-cases (k == j)) [
    | inl e ↦ subst (λ (i : ℕ). s.held i ≡ none) (ground (arith, e)) (own ∙ m)
    | inr e ↦ rest j e
  ]

  take-Place :
      (s : Shells A) (i : ℕ)
      → s.held i ≡ none
      → Place s
      → Place (record s { cell = (take s.cell).0; held = update s.held i (take s.cell).1 })
  take-Place s i free (nowhere e h) =
      nowhere refl (λ j. update_inv (λ o. o ≡ none) s.held i _ j (h j) (λ _. e))
  take-Place s i free (stored e h) =
      with_shell i refl (rw (==_refl i) e) (λ j other. rw other (h j))
  take-Place s i free (with_shell k e own rest) =
      with_shell k refl
        (update_inv (λ o. o ≡ s.moved_in) s.held i _ k own
          (λ same. e ∙ sym free ∙ ap s.held same ∙ own))
        (λ j other. update_inv (λ o. o ≡ none) s.held i _ j (rest j other) (λ _. e))

  restore-Place :
      (s : Shells A) (i : ℕ) (v : A)
      → s.held i ≡ some v
      → Place s
      → Place (record s { cell = restore v s.cell; held = update s.held i none })
  restore-Place s i v has (nowhere _ h) = absurd (ground (arith, none-some (sym (h i) ∙ has)))
  restore-Place s i v has (stored _ h) = absurd (ground (arith, none-some (sym (h i) ∙ has)))
  restore-Place s i v has (with_shell k _ own rest) =
      let here_too : i ≡ k = ground (arith, same_index s k i v rest has) in
      stored (sym has ∙ ap s.held here_too ∙ own) (λ j. elim (Bool-cases (i == j)) [
        | inl e ↦ rw e refl
        | inr e ↦ rw e (rest j (ground (arith, e, here_too)))
      ])

  clear-Place : (s : Shells A) → Place s → Place (record s { cell = clear s.cell })
  clear-Place s (nowhere _ h) = nowhere refl h
  clear-Place s (stored _ h) = nowhere refl h
  clear-Place s (with_shell k _ own rest) = with_shell k refl own rest

  Step-Place : {s t : Shells A} → Step s t → Place s → Place t
  Step-Place {s} (provides v m) p = stored refl (unmoved s m p)
  Step-Place {s} (takes i free) p = take-Place s i free p
  Step-Place {s} (restores i v has) p = restore-Place s i v has p
  Step-Place {s} clears p = clear-Place s p

  Steps-Place : {s : Shells A} → Steps at_boot s → Place s
  Steps-Place here = nowhere refl (λ j. refl)
  Steps-Place (then_step r st) = Step-Place st (Steps-Place r)

-- No two shells have the resource, none has it while the slot does, and it is the one that was
-- moved in.
pub record IsExclusive {ℓ} {A : Type ℓ} (s : Shells A) : Type ℓ where
  pub alone : (i j : ℕ) (v w : A) → s.held i ≡ some v → s.held j ≡ some w → i ≡ j
  pub not_stored : (i : ℕ) (v : A) → s.held i ≡ some v → s.cell.slot ≡ none
  pub same_held : (i : ℕ) (v : A) → s.held i ≡ some v → s.moved_in ≡ some v
  pub same_stored : (v : A) → s.cell.slot ≡ some v → s.moved_in ≡ some v

nobody-IsExclusive {ℓ} :
    {A : Type ℓ} (s : Shells A)
    → ((j : ℕ) → s.held j ≡ none)
    → ((v : A) → s.cell.slot ≡ some v → s.moved_in ≡ some v)
    → IsExclusive s
nobody-IsExclusive s h kept = record {
  alone = λ i j v w has _. absurd (ground (arith, none-some (sym (h i) ∙ has)));
  not_stored = λ i v has. absurd (ground (arith, none-some (sym (h i) ∙ has)));
  same_held = λ i v has. absurd (ground (arith, none-some (sym (h i) ∙ has)));
  same_stored = kept;
}

Place-IsExclusive {ℓ} : {A : Type ℓ} (s : Shells A) → Place s → IsExclusive s
Place-IsExclusive s (nowhere e h) =
    nobody-IsExclusive s h (λ v has. absurd (ground (arith, none-some (sym e ∙ has))))
Place-IsExclusive s (stored e h) = nobody-IsExclusive s h (λ v has. sym e ∙ has)
Place-IsExclusive s (with_shell k e own rest) = record {
  alone = λ i j v w has has'.
      let first = same_index s k i v rest has in
      let second = same_index s k j w rest has' in ground (arith, first, second);
  not_stored = λ i v has. e;
  same_held = λ i v has.
      let here_too : k ≡ i = ground (arith, same_index s k i v rest has) in
      sym own ∙ ap s.held here_too ∙ has;
  same_stored = λ v has. absurd (ground (arith, none-some (sym e ∙ has)));
}

-- The system was reached from its start by any sequence of the calls, of any number of task shells:
-- the resource is moved in at most once, a shell takes when it has none and restores what it has,
-- and a provider may clear the slot at any time. Then no two shells have the resource, none has it
-- while the slot is filled, and what a shell or the slot has is the one that was moved in.
pub shells-IsExclusive {ℓ} : {A : Type ℓ} (s : Shells A) → Steps at_boot s → IsExclusive s
shells-IsExclusive s r = Place-IsExclusive s (Steps-Place r)
