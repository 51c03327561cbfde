-- ===== src/Control/Held.antt =====
-- One step of the pass that frees collateral nodes: what it leaves final.
use embassy_supervisor.Base.{
  ℕ, ◌<◌, ◌≡◌, refl, sym, ap, ap₂, subst, ◌∙◌, ◌==◌, Bool, true, false, ◌&&◌, ◌||◌, not, List, [],
  ◌∷◌, ◌++◌, arith, inl, inr, Bool-cases, any, contains, contains-append, subset, subset-contains,
}
use embassy_supervisor.Node.Flags.{detached, disabled, collateral}
use embassy_supervisor.Node.State.{Site}
use embassy_supervisor.Node.Task.{has_flag}
use embassy_supervisor.Control.{Graph, Sweep, is_managed, sweep_one}
use embassy_supervisor.Control.Closure.{any-elim}

any-eq :
    (p q : ℕ → Bool) (xs : List ℕ)
    → ((d : ℕ) → contains d xs ≡ true → p d ≡ q d)
    → any p xs ≡ any q xs
any-eq p q [] h = refl
any-eq p q (x ∷ xs) h =
    ap₂ (λ a b. a || b) (h x (ground arith)) (any-eq p q xs (λ d m. h d (ground (arith, m))))

-- A slot is `x` or another one.
by_slot : (P : ℕ → Type 0) (x : ℕ) → P x → ((j : ℕ) → (x == j) ≡ false → P j) → (j : ℕ) → P j
by_slot P x here other j = elim (Bool-cases (x == j)) [
  | inl e ↦ subst P (ground (arith, e)) here
  | inr e ↦ other j e
]

-- A slot of a longer list is its last one or one of the list.
at_snoc :
    (P : ℕ → Type 0) (seen : List ℕ) (x : ℕ)
    → P x
    → ((j : ℕ) → contains j seen ≡ true → P j)
    → (j : ℕ) → contains j (seen ++ x ∷ []) ≡ true
    → P j
at_snoc P seen x here old =
    by_slot (λ j. contains j (seen ++ x ∷ []) ≡ true → P j) x (λ _. here)
      (λ j e m. old j (ground (arith, e, m, contains-append j seen (x ∷ []))))

module _ (g : Graph) (sites : ℕ → Site) where
  open g use {n, deps, order}

  abbrev pub is_disabled : ℕ → Bool
  is_disabled j = has_flag disabled (sites j).handle

  abbrev pub is_collateral : ℕ → Bool
  is_collateral j = has_flag collateral (sites j).handle

  -- A managed node that is disabled, or that depends on a held one.
  pub data Held : ℕ → Type 0 where
    own :
        (j : ℕ)
        → j < n
        → is_managed g sites j ≡ true
        → has_flag disabled (sites j).handle ≡ true
        → Held j
    above :
        (j d : ℕ)
        → j < n
        → is_managed g sites j ≡ true
        → contains d (deps j) ≡ true
        → Held d
        → Held j

  -- The pass behind the slots of `seen`: theirs is final, and nothing happened to the others.
  pub record Swept (seen : List ℕ) (w : Sweep) : Type 0 where
    pub below :
        (j d : ℕ) → contains j seen ≡ true → contains d (deps j) ≡ true → contains d seen ≡ true
    pub same_managed : (j : ℕ) → is_managed g w.sites j ≡ is_managed g sites j
    pub same_disabled : (j : ℕ) → has_flag disabled (w.sites j).handle ≡ is_disabled j
    pub unseen :
        (j : ℕ)
        → contains j seen ≡ false
        → (has_flag collateral (w.sites j).handle ≡ is_collateral j) × (w.revive j ≡ false)
    pub held_exact :
        (j : ℕ)
        → contains j seen ≡ true
        → is_managed g sites j ≡ true
        → w.held j ≡ (any w.held (deps j) || is_disabled j)
    pub freed :
        (j : ℕ)
        → contains j seen ≡ true
        → is_managed g sites j ≡ true
        → (has_flag collateral (w.sites j).handle ≡ (is_collateral j && any w.held (deps j)))
          × (w.revive j ≡ (is_collateral j && not (any w.held (deps j)) && not (is_disabled j)))
    pub reason : (j : ℕ) → w.held j ≡ true → Held j

  -- What the step at `x` does elsewhere, and at `x`.
  step_other :
      (x j : ℕ) (w : Sweep)
      → (x == j) ≡ false
      → let w' = sweep_one g x w in
        (w'.held j ≡ w.held j) × (w'.revive j ≡ w.revive j) × (w'.sites j ≡ w.sites j)
  unfolding sweep_one
  step_other x j w e = elim (Bool-cases (is_managed g w.sites x)) [
    | inr off ↦ rw off (refl, refl, refl)
    | inl on ↦
        elim (Bool-cases (not (any w.held (deps x)) && has_flag collateral (w.sites x).handle)) [
          | inl frees ↦ rw (on, frees, e) (refl, refl, refl)
          | inr stays ↦ rw (on, stays, e) (refl, refl, refl)
        ]
  ]

  step_skips : (x : ℕ) (w : Sweep) → is_managed g w.sites x ≡ false → sweep_one g x w ≡ w
  unfolding sweep_one
  step_skips x w e = rw e

  step_here :
      (x : ℕ) (w : Sweep)
      → is_managed g w.sites x ≡ true
      → let w' = sweep_one g x w in
        (w'.held x ≡ (any w.held (deps x) || has_flag disabled (w.sites x).handle))
        × (has_flag collateral (w'.sites x).handle
            ≡ (has_flag collateral (w.sites x).handle && any w.held (deps x)))
        × (has_flag disabled (w'.sites x).handle ≡ has_flag disabled (w.sites x).handle)
        × (has_flag detached (w'.sites x).handle ≡ has_flag detached (w.sites x).handle)
        × (w.revive x ≡ false
            → w'.revive x ≡ (
                has_flag collateral (w.sites x).handle
                && not (any w.held (deps x))
                && not (has_flag disabled (w.sites x).handle)))
  unfolding sweep_one
  step_here x w e = rw e (ground arith)

  module _ (seen : List ℕ) (x : ℕ) (w : Sweep) (new : contains x seen ≡ false)
      (before : subset (deps x) seen ≡ true) (s : Swept seen w) where
    apart : (d : ℕ) → contains d seen ≡ true → (x == d) ≡ false
    apart d m = elim (Bool-cases (x == d)) [
      | inr e ↦ e
      | inl e ↦
          let gone : contains d seen ≡ false =
            ap (λ (k : ℕ). contains k seen) (ground (arith, e)) ∙ new in
          ground (arith, m, gone)
    ]

    same_held : (d : ℕ) → contains d seen ≡ true → (sweep_one g x w).held d ≡ w.held d
    same_held d m = (step_other x d w (apart d m)).0

    same_any :
        (ds : List ℕ)
        → ((d : ℕ) → contains d ds ≡ true → contains d seen ≡ true)
        → any (sweep_one g x w).held ds ≡ any w.held ds
    same_any ds inside = any-eq (sweep_one g x w).held w.held ds (λ d m. same_held d (inside d m))

    same_deps : any (sweep_one g x w).held (deps x) ≡ any w.held (deps x)
    same_deps = same_any (deps x) (λ d m. subset-contains (deps x) seen d before m)

    step-disabled :
        (j : ℕ)
        → has_flag disabled ((sweep_one g x w).sites j).handle
          ≡ has_flag disabled (w.sites j).handle
    step-disabled =
        by_slot
          (λ j.
            has_flag disabled ((sweep_one g x w).sites j).handle
            ≡ has_flag disabled (w.sites j).handle)
          x
          (elim (Bool-cases (is_managed g w.sites x)) [
            | inl on ↦ (step_here x w on).2
            | inr off ↦
                ap (λ (v : Sweep). has_flag disabled (v.sites x).handle) (step_skips x w off)
          ])
          (λ j e. ap (λ t. has_flag disabled t.handle) (step_other x j w e).2)

    step-managed : (j : ℕ) → is_managed g (sweep_one g x w).sites j ≡ is_managed g w.sites j
    step-managed =
        by_slot (λ j. is_managed g (sweep_one g x w).sites j ≡ is_managed g w.sites j) x
          (elim (Bool-cases (is_managed g w.sites x)) [
            | inl on ↦ ground (arith, (step_here x w on).3)
            | inr off ↦ ap (λ (v : Sweep). is_managed g v.sites x) (step_skips x w off)
          ])
          (λ j e. ground (arith, ap (λ t. has_flag detached t.handle) (step_other x j w e).2))

    step-reason : (j : ℕ) → x < n → (sweep_one g x w).held j ≡ true → Held j
    step-reason j lt =
        by_slot (λ k. (sweep_one g x w).held k ≡ true → Held k) x
          (λ h. elim (Bool-cases (is_managed g w.sites x)) [
            | inr off ↦ s.reason x (sym (ap (λ (v : Sweep). v.held x) (step_skips x w off)) ∙ h)
            | inl on ↦ elim (Bool-cases (is_disabled x)) [
              | inl dis ↦ own x lt (sym (s.same_managed x) ∙ on) dis
              | inr able ↦
                  let blocked : any w.held (deps x) ≡ true =
                    ground (arith, h, (step_here x w on).0, s.same_disabled x, able) in
                  let (d, m, up) = any-elim w.held (deps x) blocked in
                  above x d lt (sym (s.same_managed x) ∙ on) m (s.reason d up)
            ]
          ])
          (λ k e h. s.reason k (sym (step_other x k w e).0 ∙ h)) j

    freed_here :
        is_managed g sites x ≡ true
        → (has_flag collateral ((sweep_one g x w).sites x).handle
            ≡ (is_collateral x && any (sweep_one g x w).held (deps x)))
          × ((sweep_one g x w).revive x ≡ (
              is_collateral x && not (any (sweep_one g x w).held (deps x)) && not (is_disabled x)))
    freed_here mg =
        let (_, flag_is, _, _, revive_is) = step_here x w (s.same_managed x ∙ mg) in
        let (kept, none_yet) = s.unseen x new in
        (
          ground (arith, flag_is, kept, same_deps),
          ground (arith, revive_is none_yet, kept, same_deps, s.same_disabled x),
        )

    freed_before :
        (k : ℕ)
        → contains k seen ≡ true
        → is_managed g sites k ≡ true
        → (has_flag collateral ((sweep_one g x w).sites k).handle
            ≡ (is_collateral k && any (sweep_one g x w).held (deps k)))
          × ((sweep_one g x w).revive k ≡ (
              is_collateral k && not (any (sweep_one g x w).held (deps k)) && not (is_disabled k)))
    freed_before k inside mg =
        let (_, still, at_k) = step_other x k w (apart k inside) in
        let (flag_was, revive_was) = s.freed k inside mg in
        let same = same_any (deps k) (λ d. s.below k d inside) in
        (
          ap (λ t. has_flag collateral t.handle) at_k
              ∙ flag_was
              ∙ ap (λ b. is_collateral k && b) (sym same),
          still ∙ revive_was ∙ ap (λ b. is_collateral k && not b && not (is_disabled k)) (sym same),
        )

    pub step-Swept : x < n → Swept (seen ++ x ∷ []) (sweep_one g x w)
    step-Swept lt = record {
      below = λ j d m dep.
          let known =
            at_snoc (λ k. contains d (deps k) ≡ true → contains d seen ≡ true) seen x
              (λ dep'. subset-contains (deps x) seen d before dep')
              (λ k inside dep'. s.below k d inside dep') j m dep in
          ground (arith, known, contains-append d seen (x ∷ []));
      same_managed = λ j. step-managed j ∙ s.same_managed j;
      same_disabled = λ j. step-disabled j ∙ s.same_disabled j;
      unseen = λ j m.
          let other : (x == j) ≡ false = ground (arith, m, contains-append j seen (x ∷ [])) in
          let (_, still, at_j) = step_other x j w other in
          let (kept, none_yet) = s.unseen j (ground (arith, m, contains-append j seen (x ∷ []))) in
          (ap (λ t. has_flag collateral t.handle) at_j ∙ kept, still ∙ none_yet);
      held_exact =
          at_snoc
            (λ k.
              is_managed g sites k ≡ true
              → (sweep_one g x w).held k ≡ (any (sweep_one g x w).held (deps k) || is_disabled k))
            seen x
            (λ mg.
              ground
                (arith, (step_here x w (s.same_managed x ∙ mg)).0, same_deps, s.same_disabled x))
            (λ k inside mg. ground (
              arith,
              same_held k inside,
              s.held_exact k inside mg,
              same_any (deps k) (λ d. s.below k d inside),
            ));
      freed =
          at_snoc
            (λ k.
              is_managed g sites k ≡ true
              → (has_flag collateral ((sweep_one g x w).sites k).handle
                  ≡ (is_collateral k && any (sweep_one g x w).held (deps k)))
                × ((sweep_one g x w).revive k ≡ (
                    is_collateral k
                    && not (any (sweep_one g x w).held (deps k))
                    && not (is_disabled k))))
            seen x (λ mg. freed_here mg) (λ k inside mg. freed_before k inside mg);
      reason = λ j h. step-reason j lt h;
    }
