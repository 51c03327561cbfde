-- ===== src/Single/Resume.antt =====
-- `resume_pausable` beside `resume_node`.
use embassy_supervisor.Base.{
  ℕ, ◌≡◌, refl, sym, ap, ◌∙◌, subst, ◌==◌, true, false, List, [], ◌∷◌, arith, inl, inr, Bool-cases,
  if_inv, count,
}
use embassy_supervisor.Node.State.{Site, WriteEntry}
use embassy_supervisor.Stop.{each}
use embassy_supervisor.Verbs.{Fleet}
use embassy_supervisor.Single.{Resumes, resumes, resume_node, resume_one, resume_pausable}

module _ (fl : Fleet) (tick : ℕ → ℕ) (writes : ℕ → List WriteEntry) (k : ℕ) where
  open fl use {graph, has_pause}

  resume_one_other :
      (j : ℕ) (r : Resumes) → (j == k) ≡ false → (resume_one fl tick writes j r).sites k ≡ r.sites k
  unfolding resume_one
  resume_one_other j r e = ground (arith, e)

  -- What `resume_node` makes of the slot.
  abbrev alone : Site → Site
  alone s = (resume_node fl k (tick k) (writes k) s).0

  resume_one-alone :
      (r : Resumes)
      → graph.occupied k ≡ true
      → (resume_one fl tick writes k r).sites k ≡ alone (r.sites k)
  unfolding resume_one resume_node
  resume_one-alone r there = ground (arith, there)

  walk_none :
      (js : List ℕ) (r : Resumes)
      → count k js ≡ 0
      → (each (resume_one fl tick writes) js r).sites k ≡ r.sites k
  unfolding each
  walk_none [] r h = refl
  walk_none (j ∷ js) r h = elim (Bool-cases (j == k)) [
    | inl e ↦ absurd (ground (arith, h, e))
    | inr e ↦ walk_none js _ (ground (arith, h, e)) ∙ resume_one_other j r e
  ]

  walk_once :
      (js : List ℕ) (r : Resumes)
      → graph.occupied k ≡ true
      → count k js ≡ 1
      → (each (resume_one fl tick writes) js r).sites k ≡ alone (r.sites k)
  unfolding each
  walk_once [] r there h = absurd (ground (arith, h))
  walk_once (j ∷ js) r there h = elim (Bool-cases (j == k)) [
    | inr e ↦ walk_once js _ there (ground (arith, h, e)) ∙ ap alone (resume_one_other j r e)
    | inl e ↦
        let same : k ≡ j = ground (arith, e) in
        walk_none js _ (ground (arith, h, e))
        ∙ subst (λ (i : ℕ). (resume_one fl tick writes i r).sites k ≡ alone (r.sites k)) same
            (resume_one-alone r there)
  ]

  alone-no_pause : has_pause ≡ false → (s : Site) → alone s ≡ s
  unfolding resume_node resumes
  alone-no_pause e s = rw e

  -- A node that stands in the order once is left by `resume_pausable` as `resume_node` would leave
  -- it, whatever the other nodes are.
  pub resume_pausable-resume_node :
      (sites : ℕ → Site)
      → graph.occupied k ≡ true
      → count k graph.order ≡ 1
      → (resume_pausable fl tick writes sites).sites k
        ≡ (resume_node fl k (tick k) (writes k) (sites k)).0
  unfolding resume_pausable
  resume_pausable-resume_node sites there once =
      if_inv (λ (r : Resumes). r.sites k ≡ alone (sites k)) has_pause
        (λ _. walk_once graph.order _ there once) (λ e. sym (alone-no_pause e (sites k)))
