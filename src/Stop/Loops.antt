-- ===== src/Stop/Loops.antt =====
-- Loops over slots that act on one slot only.
use embassy_supervisor.Base.{
  ℕ, ◌≡◌, refl, ap, ◌∙◌, ◌==◌, false, List, [], ◌∷◌, arith, inl, inr, Bool-cases, count,
  count-append,
}
use embassy_supervisor.Stop.{each, backwards}

-- A loop that acts on one slot only, and passes it once, is that slot's step.
module _ {ℓ} {S : Type ℓ} (body : ℕ → S → S) (j : ℕ)
    (quiet : (k : ℕ) → (k == j) ≡ false → (s : S) → body k s ≡ s) where
  each_none : (js : List ℕ) → count j js ≡ 0 → (s : S) → each body js s ≡ s
  unfolding each
  each_none [] h s = refl
  each_none (k ∷ js) h s = elim (Bool-cases (k == j)) [
    | inl e ↦ absurd (ground (arith, h, e))
    | inr e ↦ ap (each body js) (quiet k e s) ∙ each_none js (ground (arith, h, e)) s
  ]

  pub each_alone : (js : List ℕ) → count j js ≡ 1 → (s : S) → each body js s ≡ body j s
  unfolding each
  each_alone [] h s = absurd (ground (arith, h))
  each_alone (k ∷ js) h s = elim (Bool-cases (k == j)) [
    | inl e ↦
        each_none js (ground (arith, h, e)) (body k s) ∙ ap (λ i. body i s) (ground (arith, e))
    | inr e ↦ ap (each body js) (quiet k e s) ∙ each_alone js (ground (arith, h, e)) s
  ]

pub count-backwards : (j : ℕ) (js : List ℕ) → count j (backwards js) ≡ count j js
unfolding backwards
count-backwards j [] = refl
count-backwards j (k ∷ js) =
    ground (arith, count-append j (backwards js) (k ∷ []), count-backwards j js)
