-- ===== src/Control/Closure.antt =====
-- What a stop reaches: the seeds and all that depends on them through managed nodes.
use mathlib.Core.List.{append_assoc, append-nil}
use embassy_supervisor.Base.{
  ℕ, ◌<◌, ◌≡◌, sym, ap, subst, ◌∙◌, ◌↔◌, ◌==◌, Bool, true, false, ◌&&◌, List, [], ◌∷◌, ◌++◌, arith,
  inl, inr, Bool-cases, any, contains-count_pos, count_pos-contains, contains, contains-append,
  subset, subset-contains,
}
use embassy_supervisor.Node.State.{Site}
use embassy_supervisor.Topology.{topo_sort_const, sorted}
use embassy_supervisor.Topology.Invariant.{IsOrdered}
use embassy_supervisor.Topology.Order.{HasShortRows, topo_sort-IsOrdered}
use embassy_supervisor.Stop.{each}
use embassy_supervisor.Control.{Graph, is_managed, collect_dependent, collect_dependents}

pub any-elim :
    (p : ℕ → Bool) (xs : List ℕ) → any p xs ≡ true → (d : ℕ) × (contains d xs ≡ true) × (p d ≡ true)
any-elim p [] h = absurd (ground (arith, h))
any-elim p (x ∷ xs) h = elim (Bool-cases (p x)) [
  | inl here ↦ (x, ground arith, here)
  | inr on ↦ let (d, m, t) = any-elim p xs (ground (arith, h, on)) in (d, ground (arith, m), t)
]

pub any-intro :
    (p : ℕ → Bool) (xs : List ℕ) (d : ℕ) → contains d xs ≡ true → p d ≡ true → any p xs ≡ true
any-intro p [] d m t = absurd (ground (arith, m))
any-intro p (x ∷ xs) d m t = elim (Bool-cases (x == d)) [
  | inl e ↦ let here : p x ≡ true = ap p (ground (arith, e)) ∙ t in ground (arith, here)
  | inr e ↦ ground (arith, e, m, any-intro p xs d)
]

module _ (g : Graph) (sites : ℕ → Site) where
  open g use {n, deps, order}

  -- A seed, or a managed node that depends on an affected one.
  pub data Affected (seeds : ℕ → Bool) : ℕ → Type 0 where
    seeded : (j : ℕ) → seeds j ≡ true → Affected seeds j
    dependent :
        (j d : ℕ)
        → j < n
        → is_managed g sites j ≡ true
        → contains d (deps j) ≡ true
        → Affected seeds d
        → Affected seeds j

  -- Nothing is set without a reason.
  AllAffected : (seeds set : ℕ → Bool) → Type 0
  AllAffected seeds set = (j : ℕ) → set j ≡ true → Affected seeds j

  collect-AllAffected :
      (seeds : ℕ → Bool) (j : ℕ) (set : ℕ → Bool)
      → j < n
      → AllAffected seeds set
      → AllAffected seeds (collect_dependent g sites j set)
  unfolding collect_dependent AllAffected
  collect-AllAffected seeds j set lt h k = elim (Bool-cases (set j)) [
    | inl e ↦ rw e (h k)
    | inr e ↦ rw e (elim (Bool-cases (is_managed g sites j && any set (deps j))) [
      | inr stays ↦ rw stays (h k)
      | inl joins ↦ rw joins (elim (Bool-cases (j == k)) [
        | inr other ↦ rw other (h k)
        | inl here ↦
            let (d, m, on) = any-elim set (deps j) (ground (arith, joins)) in
            λ t.
              subst (Affected seeds) (ground (arith, here))
                (dependent j d lt (ground (arith, joins)) m (h d on))
      ])
    ])
  ]

  -- The slots of `seen` are settled: what they depend on stands in `seen`, and each managed one
  -- that depends on a set slot is set.
  record Settled (seen : List ℕ) (set : ℕ → Bool) : Type 0 where
    below : (j d : ℕ) → contains j seen ≡ true → contains d (deps j) ≡ true → contains d seen ≡ true
    closed :
        (j d : ℕ)
        → contains j seen ≡ true
        → is_managed g sites j ≡ true
        → contains d (deps j) ≡ true
        → set d ≡ true
        → set j ≡ true

  -- The step at `x` changes no other slot, resets none, and sets `x` where it has a reason to.
  collect_other :
      (x k : ℕ) (set : ℕ → Bool) → (x == k) ≡ false → collect_dependent g sites x set k ≡ set k
  unfolding collect_dependent
  collect_other x k set e = ground (arith, e)

  collect_keeps :
      (x k : ℕ) (set : ℕ → Bool) → set k ≡ true → collect_dependent g sites x set k ≡ true
  unfolding collect_dependent
  collect_keeps x k set h = ground (arith, h)

  collect_joins :
      (x d : ℕ) (set : ℕ → Bool)
      → is_managed g sites x ≡ true
      → contains d (deps x) ≡ true
      → set d ≡ true
      → collect_dependent g sites x set x ≡ true
  unfolding collect_dependent
  collect_joins x d set managed m on =
      let some_dep : any set (deps x) ≡ true = any-intro set (deps x) d m on in
      ground (arith, managed, some_dep)

  -- A second visit of a settled slot changes nothing.
  collect_again :
      (seen : List ℕ) (x : ℕ) (set : ℕ → Bool)
      → Settled seen set
      → contains x seen ≡ true
      → collect_dependent g sites x set x ≡ true
      → set x ≡ true
  unfolding collect_dependent
  collect_again seen x set s inside h = elim (Bool-cases (set x)) [
    | inl e ↦ e
    | inr e ↦ elim (Bool-cases (is_managed g sites x && any set (deps x))) [
      | inr stays ↦ ground (arith, h, e, stays)
      | inl joins ↦
          let (d, m, on) = any-elim set (deps x) (ground (arith, joins)) in
          s.closed x d inside (ground (arith, joins)) m on
    ]
  ]

  -- What the step left set at a settled slot was set before.
  collect-Settled :
      (seen : List ℕ) (x d : ℕ) (set : ℕ → Bool)
      → Settled seen set
      → contains d seen ≡ true
      → collect_dependent g sites x set d ≡ true
      → set d ≡ true
  collect-Settled seen x d set s inside h = elim (Bool-cases (x == d)) [
    | inr e ↦ sym (collect_other x d set e) ∙ h
    | inl e ↦
        let same : x ≡ d = ground (arith, e) in
        subst
          (λ (k : ℕ).
            contains k seen ≡ true → collect_dependent g sites x set k ≡ true → set k ≡ true)
          same (λ i t. collect_again seen x set s i t) inside h
  ]

  step-Settled :
      (seen : List ℕ) (x : ℕ) (set : ℕ → Bool)
      → subset (deps x) seen ≡ true
      → Settled seen set
      → Settled (seen ++ x ∷ []) (collect_dependent g sites x set)
  step-Settled seen x set before s = record {
    below = λ j d m dep. elim (Bool-cases (contains j seen)) [
      | inl old ↦ ground (arith, contains-append d seen (x ∷ []), s.below j d old dep)
      | inr new ↦
          let same : x ≡ j = ground (arith, contains-append j seen (x ∷ []), m, new) in
          let known =
            subset-contains (deps x) seen d before
              (ap (λ (k : ℕ). contains d (deps k)) same ∙ dep) in
          ground (arith, contains-append d seen (x ∷ []), known)
    ];
    closed = λ j d m managed dep on. elim (Bool-cases (contains j seen)) [
      | inl old ↦
          let known = s.below j d old dep in
          collect_keeps x j set
            (s.closed j d old managed dep (collect-Settled seen x d set s known on))
      | inr new ↦
          let same : x ≡ j = ground (arith, contains-append j seen (x ∷ []), m, new) in
          subst
            (λ (k : ℕ).
              is_managed g sites k ≡ true
              → contains d (deps k) ≡ true
              → collect_dependent g sites x set k ≡ true)
            same
            (λ mg dp.
              collect_joins x d set mg dp
                (collect-Settled seen x d set s (subset-contains (deps x) seen d before dp) on))
            managed dep
    ];
  }

  walk-Settled :
      (seen xs : List ℕ) (set : ℕ → Bool)
      → IsOrdered deps seen xs
      → Settled seen set
      → Settled (seen ++ xs) (each (collect_dependent g sites) xs set)
  unfolding each
  walk-Settled seen [] set ordered s = rw append-nil s
  walk-Settled seen (x ∷ xs) set ordered s = rw append_assoc at (
      walk-Settled (seen ++ x ∷ []) xs (collect_dependent g sites x set) ordered.1
        (step-Settled seen x set ordered.0 s))

  grows :
      (k : ℕ) (xs : List ℕ) (set : ℕ → Bool)
      → set k ≡ true
      → each (collect_dependent g sites) xs set k ≡ true
  unfolding each
  grows k [] set h = h
  grows k (x ∷ xs) set h = grows k xs (collect_dependent g sites x set) (collect_keeps x k set h)

  walk-AllAffected :
      (seeds : ℕ → Bool) (xs : List ℕ) (set : ℕ → Bool)
      → ((j : ℕ) → contains j xs ≡ true → j < n)
      → AllAffected seeds set
      → AllAffected seeds (each (collect_dependent g sites) xs set)
  unfolding each
  walk-AllAffected seeds [] set inside h = h
  walk-AllAffected seeds (x ∷ xs) set inside h =
      walk-AllAffected seeds xs (collect_dependent g sites x set)
        (λ j m. inside j (ground (arith, m)))
        (collect-AllAffected seeds x set (inside x (ground arith)) h)

  Affected-set :
      (seeds set : ℕ → Bool)
      → ((j : ℕ) → j < n → contains j order ≡ true)
      → ((j : ℕ) → seeds j ≡ true → set j ≡ true)
      → Settled order set
      → (j : ℕ) → Affected seeds j
      → set j ≡ true
  Affected-set seeds set full started s j (seeded _ h) = started j h
  Affected-set seeds set full started s j (dependent _ d lt managed m a) =
      s.closed j d (full j lt) managed m (Affected-set seeds set full started s d a)

-- The order is the one that `topo_sort_const` returned. A slot is in the set behind
-- `collect_dependents` exactly if it is a seed, or a managed node of the graph that depends on one
-- through managed nodes.
pub collect_dependents-Affected :
    (g : Graph) (sites : ℕ → Site) (seeds : ℕ → Bool)
    → HasShortRows g.n g.deps
    → topo_sort_const g.n g.deps ≡ sorted g.order
    → (j : ℕ) → (collect_dependents g sites seeds j ≡ true) ↔ Affected g sites seeds j
unfolding collect_dependents AllAffected
collect_dependents-Affected g sites seeds short e j =
    let (counts, ordered) = topo_sort-IsOrdered g.n g.deps g.order short e in
    (
      walk-AllAffected g sites seeds g.order seeds
          (λ k m. ground (arith, contains-count_pos k g.order m, counts k)) (λ k h. seeded k h) j,
      Affected-set g sites seeds (each (collect_dependent g sites) g.order seeds)
          (λ k lt. count_pos-contains k g.order (ground (arith, counts k)))
          (λ k h. grows g sites k g.order seeds h)
          (walk-Settled g sites [] g.order seeds ordered (record {
            below = λ k d m. absurd (ground (arith, m));
            closed = λ k d m. absurd (ground (arith, m));
          }))
          j,
    )
