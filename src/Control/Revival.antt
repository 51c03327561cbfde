-- ===== src/Control/Revival.antt =====
-- Which collateral nodes an activation frees: those that nothing disabled stands above.
use mathlib.Core.List.{append_assoc, append-nil}
use embassy_supervisor.Base.{
  ℕ, ◌≤◌, ◌<◌, ◌≡◌, refl, ◌↔◌, true, false, List, [], ◌∷◌, ◌++◌, arith, inl, inr, Bool-cases, any,
  count, count-append, contains, contains-count_pos, count_pos-contains,
}
use embassy_supervisor.Node.Flags.{disabled, collateral}
use embassy_supervisor.Node.State.{Site}
use embassy_supervisor.Node.Task.{has_flag}
use embassy_supervisor.Topology.{topo_sort_const, sorted}
use embassy_supervisor.Topology.Invariant.{IsOrdered}
use embassy_supervisor.Topology.Order.{HasShortRows, topo_sort-IsOrdered}
use embassy_supervisor.Stop.{each}
use embassy_supervisor.Control.{Graph, Sweep, is_managed, sweep_one, sweep}
use embassy_supervisor.Control.Closure.{any-elim, any-intro}
use embassy_supervisor.Control.Held.{Held, own, above, Swept, step-Swept}

module _ (g : Graph) (sites : ℕ → Site) where
  open g use {n, deps, order}

  start-Swept : Swept g sites [] (record { sites = sites; held = λ _. false; revive = λ _. false })
  start-Swept = record {
    below = λ j d m. absurd (ground (arith, m));
    same_managed = λ j. refl;
    same_disabled = λ j. refl;
    unseen = λ j m. (refl, refl);
    held_exact = λ j m. absurd (ground (arith, m));
    freed = λ j m. absurd (ground (arith, m));
    reason = λ j h. absurd (ground (arith, h));
  }

  walk-Swept :
      (seen xs : List ℕ) (w : Sweep)
      → IsOrdered deps seen xs
      → ((j : ℕ) → count j (seen ++ xs) ≤ 1)
      → ((j : ℕ) → contains j xs ≡ true → j < n)
      → Swept g sites seen w
      → Swept g sites (seen ++ xs) (each (sweep_one g) xs w)
  unfolding each
  walk-Swept seen [] w ordered once inside s = rw append-nil s
  walk-Swept seen (x ∷ xs) w ordered once inside s =
      let new : contains x seen ≡ false = elim (Bool-cases (contains x seen)) [
        | inr fresh ↦ fresh
        | inl old ↦
            absurd
              (ground (arith, once x, count-append x seen (x ∷ xs), contains-count_pos x seen old))
      ] in
      rw append_assoc at (
        walk-Swept (seen ++ x ∷ []) xs (sweep_one g x w) ordered.1 (λ j. rw append_assoc (once j))
          (λ j m. inside j (ground (arith, m)))
          (step-Swept g sites seen x w new ordered.0 s (inside x (ground arith))))

  Held-held :
      (w : Sweep)
      → Swept g sites order w
      → ((j : ℕ) → j < n → contains j order ≡ true)
      → (j : ℕ) → Held g sites j
      → w.held j ≡ true
  Held-held w s full j (own _ lt mg dis) = ground (arith, s.held_exact j (full j lt) mg, dis)
  Held-held w s full j (above _ d lt mg m up) =
      let some_held = any-intro w.held (deps j) d m (Held-held w s full d up) in
      ground (arith, s.held_exact j (full j lt) mg, some_held)

  -- Some dependency of the slot is held.
  abbrev pub Blocked : ℕ → Type 0
  Blocked j = (d : ℕ) × (contains d (deps j) ≡ true) × Held g sites d

-- The order is the one that `topo_sort_const` returned. A managed node is held if it is disabled or a
-- dependency of it is held; a node that is detached is not held, disabled or not, and passes
-- nothing on. Behind the pass, a managed node is collateral exactly if it was before and some
-- dependency of it is held; and it is to be revived exactly if it was collateral, no dependency of
-- it is held, and it is not disabled.
pub sweep-exact :
    (g : Graph) (sites : ℕ → Site)
    → HasShortRows g.n g.deps
    → topo_sort_const g.n g.deps ≡ sorted g.order
    → (j : ℕ) → j < g.n
    → is_managed g sites j ≡ true
    → let was_collateral = has_flag collateral (sites j).handle ≡ true in
      ((has_flag collateral ((sweep g sites).sites j).handle ≡ true)
        ↔ (was_collateral × Blocked g sites j))
      × (((sweep g sites).revive j ≡ true)
          ↔ (was_collateral × (¬ Blocked g sites j) × (has_flag disabled (sites j).handle ≡ false)))
unfolding sweep
sweep-exact g sites short e j lt mg =
    let (counts, ordered) = topo_sort-IsOrdered g.n g.deps g.order short e in
    let full : (k : ℕ) → k < g.n → contains k g.order ≡ true =
      λ k below. count_pos-contains k g.order (ground (arith, counts k)) in
    let s =
      walk-Swept g sites [] g.order
        (record { sites = sites; held = λ _. false; revive = λ _. false }) ordered
        (λ k. ground (arith, counts k))
        (λ k m. ground (arith, contains-count_pos k g.order m, counts k)) (start-Swept g sites) in
    let (flag_is, revive_is) = s.freed j (full j lt) mg in
    let blocked : any (sweep g sites).held (g.deps j) ≡ true → Blocked g sites j =
      λ h. let (d, m, up) = any-elim (sweep g sites).held (g.deps j) h in (d, m, s.reason d up) in
    let blocks : Blocked g sites j → any (sweep g sites).held (g.deps j) ≡ true = λ (d, m, up).
      any-intro (sweep g sites).held (g.deps j) d m
        (Held-held g sites (sweep g sites) s full d up) in
    (
      (
        λ h. (ground (arith, h, flag_is), blocked (ground (arith, h, flag_is))),
        λ (was, b). ground (arith, flag_is, was, blocks b),
      ),
      (
        λ h. (
          ground (arith, h, revive_is),
          λ b. ground (arith, h, revive_is, blocks b),
          ground (arith, h, revive_is),
        ),
        λ (was, free, able). elim (Bool-cases (any (sweep g sites).held (g.deps j))) [
          | inl held_up ↦ absurd (free (blocked held_up))
          | inr clear ↦ ground (arith, revive_is, was, able, clear)
        ],
      ),
    )
