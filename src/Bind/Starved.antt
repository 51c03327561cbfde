-- ===== src/Bind/Starved.antt =====
-- Which nodes `apply_bind` stops: the set of its first loop is a fixed point of "runs, and lacks a
-- provider", and its least one.
use mathlib.Core.List.{append_assoc, append-nil}
use embassy_supervisor.Base.{
  ℕ, ◌+◌, ◌≤◌, ◌<◌, ◌≡◌, refl, sym, ap, ap₂, ◌∙◌, subst, ◌↔◌, ltb, ◌==◌, Bool, true, false, ◌&&◌,
  ◌||◌, not, List, [], ◌∷◌, ◌++◌, arith, inl, inr, Bool-cases, any, contains, contains-append,
  subset-contains, count, count-append, contains-count_pos, count_pos-contains,
}
use embassy_supervisor.Node.State.{Site}
use embassy_supervisor.Topology.{topo_sort_const, sorted}
use embassy_supervisor.Topology.Invariant.{IsOrdered}
use embassy_supervisor.Topology.Order.{HasShortRows, topo_sort-IsOrdered}
use embassy_supervisor.Stop.{each}
use embassy_supervisor.Control.Closure.{any-elim, any-intro}
use embassy_supervisor.Verbs.{Fleet}
use embassy_supervisor.Bind.{is_serving, is_live, is_stopping, lacks, starve_one, starve}

pub any-cong :
    (p q : ℕ → Bool) (xs : List ℕ)
    → ((d : ℕ) → contains d xs ≡ true → p d ≡ q d)
    → any p xs ≡ any q xs
any-cong p q [] h = refl
any-cong p q (x ∷ xs) h =
    ap₂ (λ a b. a || b) (h x (ground arith)) (any-cong p q xs (λ d m. h d (ground (arith, m))))

module _ (fl : Fleet) (sites : ℕ → Site) where
  open fl use {graph}

  abbrev bound : ℕ → List ℕ
  bound j = (graph.cfg j).bound_deps

  -- What the loop asks of a slot, against a set of stopping slots.
  abbrev pub is_starved : (ℕ → Bool) → ℕ → Bool
  is_starved stopping j = is_live fl sites j && lacks fl sites stopping j

  -- A live node with a provider that does not serve, or that is starved itself.
  pub data Starved : ℕ → Type 0 where
    cut_off :
        (j d : ℕ)
        → j < graph.n
        → is_live fl sites j ≡ true
        → contains d (bound j) ≡ true
        → is_serving (sites d) ≡ false
        → Starved j
    follows :
        (j d : ℕ)
        → j < graph.n
        → is_live fl sites j ≡ true
        → contains d (bound j) ≡ true
        → Starved d
        → Starved j

  pub Starved-live : (j : ℕ) → Starved j → (j < graph.n) × (is_live fl sites j ≡ true)
  Starved-live j (cut_off _ d lt live m off) = (lt, live)
  Starved-live j (follows _ d lt live m s) = (lt, live)

  AllStarved : (ℕ → Bool) → Type 0
  AllStarved set = (j : ℕ) → set j ≡ true → Starved j

  starve-AllStarved :
      (j : ℕ) (set : ℕ → Bool)
      → j < graph.n
      → AllStarved set
      → AllStarved (starve_one fl sites j set)
  unfolding starve_one AllStarved
  starve-AllStarved j set lt h k = elim (Bool-cases (is_live fl sites j)) [
    | inr e ↦ rw e (h k)
    | inl live ↦ rw live (elim (Bool-cases (j == k)) [
      | inr other ↦ rw other (h k)
      | inl here ↦ rw here (λ lacking.
          let (d, m, why) = any-elim _ (bound j) lacking in
          let same : j ≡ k = ground (arith, here) in
          subst Starved same (elim (Bool-cases (is_serving (sites d))) [
            | inr off ↦ cut_off j d lt live m off
            | inl on ↦ follows j d lt live m (h d (ground (arith, why, on)))
          ]))
    ])
  ]

  -- The slots of `seen` are decided for good, and the others are not set.
  record Decided (seen : List ℕ) (set : ℕ → Bool) : Type 0 where
    below :
        (j d : ℕ) → contains j seen ≡ true → contains d (bound j) ≡ true → contains d seen ≡ true
    exact : (j : ℕ) → contains j seen ≡ true → set j ≡ is_starved set j
    clear : (j : ℕ) → contains j seen ≡ false → set j ≡ false

  starve_other : (x k : ℕ) (set : ℕ → Bool) → (x == k) ≡ false → starve_one fl sites x set k ≡ set k
  unfolding starve_one
  starve_other x k set e = ground (arith, e)

  -- A change of a slot that no provider of `j` stands in.
  lacks_apart :
      (x j : ℕ) (set : ℕ → Bool)
      → ((d : ℕ) → contains d (bound j) ≡ true → (x == d) ≡ false)
      → lacks fl sites (starve_one fl sites x set) j ≡ lacks fl sites set j
  lacks_apart x j set apart = any-cong _ _ (bound j) (λ d m.
      ap (λ b. not (is_serving (sites d)) || (ltb d graph.n && graph.occupied d && b))
        (starve_other x d set (apart d m)))

  starve_here :
      (x : ℕ) (set : ℕ → Bool) → set x ≡ false → starve_one fl sites x set x ≡ is_starved set x
  unfolding starve_one
  starve_here x set e = ground (arith, e)

  apart_of :
      (seen : List ℕ) (x d : ℕ)
      → contains x seen ≡ false
      → contains d seen ≡ true
      → (x == d) ≡ false
  apart_of seen x d fresh m = elim (Bool-cases (x == d)) [
    | inr e ↦ e
    | inl e ↦
        let same : x ≡ d = ground (arith, e) in
        absurd (ground (arith, fresh, m, ap (λ i. contains i seen) same))
  ]

  step-Decided :
      (seen : List ℕ) (x : ℕ) (set : ℕ → Bool)
      → contains x seen ≡ false
      → ((d : ℕ) → contains d (bound x) ≡ true → contains d seen ≡ true)
      → Decided seen set
      → Decided (seen ++ x ∷ []) (starve_one fl sites x set)
  step-Decided seen x set fresh before s = record {
    below = λ j d m dep. elim (Bool-cases (contains j seen)) [
      | inl old ↦ ground (arith, contains-append d seen (x ∷ []), s.below j d old dep)
      | inr new ↦
          let same : x ≡ j = ground (arith, contains-append j seen (x ∷ []), m, new) in
          let known = before d (ap (λ (k : ℕ). contains d (bound k)) same ∙ dep) in
          ground (arith, contains-append d seen (x ∷ []), known)
    ];
    exact = λ j m. elim (Bool-cases (contains j seen)) [
      | inl old ↦
          let kept = lacks_apart x j set (λ d dep. apart_of seen x d fresh (s.below j d old dep)) in
          starve_other x j set (apart_of seen x j fresh old)
          ∙ s.exact j old
          ∙ ap (λ b. is_live fl sites j && b) (sym kept)
      | inr new ↦
          let same : x ≡ j = ground (arith, contains-append j seen (x ∷ []), m, new) in
          let kept = lacks_apart x x set (λ d dep. apart_of seen x d fresh (before d dep)) in
          subst (λ (k : ℕ). starve_one fl sites x set k ≡ is_starved (starve_one fl sites x set) k)
            same
            (starve_here x set (s.clear x fresh) ∙ ap (λ b. is_live fl sites x && b) (sym kept))
    ];
    clear = λ j m.
        let both = contains-append j seen (x ∷ []) in
        starve_other x j set (ground (arith, both, m)) ∙ s.clear j (ground (arith, both, m));
  }

  walk-Decided :
      ((j d : ℕ) → contains d (bound j) ≡ true → contains d (graph.deps j) ≡ true)
      → (seen xs : List ℕ) (set : ℕ → Bool) → ((j : ℕ) → count j seen + count j xs ≤ 1)
      → IsOrdered graph.deps seen xs
      → Decided seen set
      → Decided (seen ++ xs) (each (starve_one fl sites) xs set)
  unfolding each
  walk-Decided listed seen [] set once ordered s = rw append-nil s
  walk-Decided listed seen (x ∷ xs) set once ordered s =
      let fresh : contains x seen ≡ false = ground (arith, once x, contains-count_pos x seen) in
      rw append_assoc at (
        walk-Decided listed (seen ++ x ∷ []) xs (starve_one fl sites x set)
          (λ j. ground (arith, once j, count-append j seen (x ∷ []))) ordered.1
          (step-Decided seen x set fresh
            (λ d m. subset-contains (graph.deps x) seen d ordered.0 (listed x d m)) s))

  walk-AllStarved :
      (xs : List ℕ) (set : ℕ → Bool)
      → ((j : ℕ) → contains j xs ≡ true → j < graph.n)
      → AllStarved set
      → AllStarved (each (starve_one fl sites) xs set)
  unfolding each
  walk-AllStarved [] set inside h = h
  walk-AllStarved (x ∷ xs) set inside h =
      walk-AllStarved xs (starve_one fl sites x set) (λ j m. inside j (ground (arith, m)))
        (starve-AllStarved x set (inside x (ground arith)) h)

  Starved-set :
      (set : ℕ → Bool)
      → ((j : ℕ) → j < graph.n → set j ≡ is_starved set j)
      → (j : ℕ) → Starved j
      → (j < graph.n) × (is_live fl sites j ≡ true) × (set j ≡ true)
  Starved-set set fixed j (cut_off _ d lt live m off) =
      let lacking =
        any-intro (λ i. not (is_serving (sites i)) || is_stopping fl set i) (bound j) d m
          (ground (arith, off)) in
      (lt, live, fixed j lt ∙ ap₂ (λ a b. a && b) live lacking)
  Starved-set set fixed j (follows _ d lt live m sd) =
      let (lt', live', on) = Starved-set set fixed d sd in
      let lacking =
        any-intro (λ i. not (is_serving (sites i)) || is_stopping fl set i) (bound j) d m
          (ground (arith, lt', live', on)) in
      (lt, live, fixed j lt ∙ ap₂ (λ a b. a && b) live lacking)

module _ (fl : Fleet) (sites : ℕ → Site) where
  open fl use {graph}

  module _
      (listed : (j d : ℕ)
        → contains d (graph.cfg j).bound_deps ≡ true
        → contains d (graph.deps j) ≡ true)
      (short : HasShortRows graph.n graph.deps)
      (e : topo_sort_const graph.n graph.deps ≡ sorted graph.order) where
    -- The order is the one that `topo_sort_const` returned, and bound dependencies are
    -- dependencies. A slot of the graph is in the set of the first loop exactly if its node lives
    -- and one of its providers does not serve or is in the set itself.
    pub starve-is_starved :
        (j : ℕ) → j < graph.n → starve fl sites j ≡ is_starved fl sites (starve fl sites) j
    unfolding starve
    starve-is_starved j lt =
        let (counts, ordered) = topo_sort-IsOrdered graph.n graph.deps graph.order short e in
        let decided =
          walk-Decided fl sites listed [] graph.order (λ _. false) (λ k. ground (arith, counts k))
            ordered
            (record {
              below = λ k d m. absurd (ground (arith, m));
              exact = λ k m. absurd (ground (arith, m));
              clear = λ k m. refl;
            }) in
        decided.exact j (count_pos-contains j graph.order (ground (arith, counts j)))

    -- The order is the one that `topo_sort_const` returned, and bound dependencies are dependencies.
    -- The first loop stops exactly the nodes that live and are cut off, through live nodes, from a
    -- provider that does not serve.
    pub starve-Starved : (j : ℕ) → (starve fl sites j ≡ true) ↔ Starved fl sites j
    unfolding starve AllStarved
    starve-Starved j =
        let (counts, ordered) = topo_sort-IsOrdered graph.n graph.deps graph.order short e in
        (
          walk-AllStarved fl sites graph.order (λ _. false)
              (λ k m. ground (arith, contains-count_pos k graph.order m, counts k))
              (λ k h. absurd (ground (arith, h))) j,
          λ s. (Starved-set fl sites (starve fl sites) starve-is_starved j s).2,
        )
