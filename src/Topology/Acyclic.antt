-- ===== src/Topology/Acyclic.antt =====
-- `topo_sort_const` succeeds exactly on the graphs without a cycle.
use mathlib.Core.List.{append_assoc}
use embassy_supervisor.Base.{
  ℕ, zero, suc, ◌≤◌, ◌<◌, ◌≡◌, ◌⊎◌, ◌↔◌, refl, subst, true, false, List, [], ◌∷◌, ◌++◌, arith, inl,
  inr, ◌==◌, Bool-cases, length, contains, contains-append, count, count_pos-contains, subset,
  subset-contains, subset-intro, subset-count_in, position, position-append_old,
  position-append_new,
}
use embassy_supervisor.Topology.{sorted, cycle, check_produced, topo_sort_const}
use embassy_supervisor.Topology.Pigeonhole.{length-full}
use embassy_supervisor.Topology.Invariant.{Inv, IsOrdered, IsTight}
use embassy_supervisor.Topology.Order.{HasShortRows, sort_cases, topo_sort-IsOrdered}

-- What the macro hands over: at most 256 slots, rows of slot indices, none twice in a row.
pub record IsTable (n : ℕ) (deps : ℕ → List ℕ) : Type 0 where
  pub size : n ≤ 256
  pub short : HasShortRows n deps
  pub in_range : (i j : ℕ) → i < n → contains j (deps i) ≡ true → j < n
  pub distinct : (i j : ℕ) → i < n → count j (deps i) ≤ 1

-- A rank that falls along every dependency: there is no cycle.
pub record IsAcyclic (n : ℕ) (deps : ℕ → List ℕ) : Type 0 where
  pub rank : ℕ → ℕ
  pub falls : (i j : ℕ) → i < n → contains j (deps i) ≡ true → rank j < rank i

module _ (n : ℕ) (deps : ℕ → List ℕ) (table : IsTable n deps) where
  module _ (acyclic : IsAcyclic n deps) {d : ℕ → ℕ} {order : List ℕ} (inv : Inv n deps d [] order)
      (tight : IsTight n deps d order) where
    all_placed : (k j : ℕ) → j < n → acyclic.rank j < k → count j order ≡ 1
    all_placed zero j lt below = absurd (omega arith)
    all_placed (suc k) j lt below =
        let known : subset (deps j) order ≡ true = subset-intro (deps j) order λ a m.
          count_pos-contains a order (
            omega (
              arith,
              all_placed k a (table.in_range j a lt m) (omega (arith, acyclic.falls j a lt m)),
            )) in
        ground (arith, inv.counted j, tight j lt, subset-count_in order (deps j) known)

    all_produced : length order ≡ n
    all_produced =
        length-full n order (λ j h. ground (arith, inv.counted j))
          (λ i lt. all_placed (suc (acyclic.rank i)) i lt (omega arith))

  acyclic-sorted : IsAcyclic n deps → (order : List ℕ) × (topo_sort_const n deps ≡ sorted order)
  unfolding check_produced
  acyclic-sorted acyclic =
      let (made, drained, runs) = sort_cases n deps table.short in
      let full = all_produced acyclic drained.inv (drained.tight (λ x j. table.distinct j x)) in
      (made, ground (arith, runs, full, table.size))

  -- Either the order or the panic; the loop does not run out of fuel.
  topo_sort_total :
      ((order : List ℕ) × (topo_sort_const n deps ≡ sorted order))
      ⊎ (topo_sort_const n deps ≡ cycle)
  unfolding check_produced
  topo_sort_total =
      let (made, drained, runs) = sort_cases n deps table.short in
      elim (Bool-cases (length made == n)) [
        | inl full ↦ inl (made, ground (arith, runs, full, table.size))
        | inr partial ↦ inr (ground (arith, runs, partial, table.size))
      ]

-- The place in an order falls along the dependencies of the slots that stand in it.
position-falls :
    (deps : ℕ → List ℕ) (i j : ℕ) (seen xs : List ℕ)
    → IsOrdered deps seen xs
    → contains i seen ≡ false
    → contains i xs ≡ true
    → contains j (deps i) ≡ true
    → position j (seen ++ xs) < position i (seen ++ xs)
position-falls deps i j seen [] h new m dep = absurd (ground arith)
position-falls deps i j seen (x ∷ xs) h new m dep = elim (Bool-cases (x == i)) [
  | inl same ↦
      let e : x ≡ i = ground arith in
      ground (
        arith,
        position-append_old j seen (x ∷ xs)
            (subset-contains (deps i) seen j (subst (λ k. subset (deps k) seen ≡ true) e h.0) dep),
        position-append_new i seen (x ∷ xs) new,
      )
  | inr other ↦ rw append_assoc at (
      position-falls deps i j (seen ++ x ∷ []) xs h.1
        (ground (arith, contains-append i seen (x ∷ []))) (ground arith) dep)
]

pub sorted-IsAcyclic :
    (n : ℕ) (deps : ℕ → List ℕ) (order : List ℕ)
    → HasShortRows n deps
    → topo_sort_const n deps ≡ sorted order
    → IsAcyclic n deps
sorted-IsAcyclic n deps order short e =
    let (counts, ordered) = topo_sort-IsOrdered n deps order short e in
    record {
      rank = λ i. position i order;
      falls = λ i j lt dep.
          position-falls deps i j [] order ordered refl
            (count_pos-contains i order (ground (arith, counts i))) dep;
    }

-- On a table of at most 256 rows of distinct slot indices, fewer than 256 in a row, the sort
-- returns an order if the graph has no cycle, and ends in the cycle panic if it has one.
pub topo_sort-decides :
    (n : ℕ) (deps : ℕ → List ℕ)
    → IsTable n deps
    → (IsAcyclic n deps ↔ ((order : List ℕ) × (topo_sort_const n deps ≡ sorted order)))
      × (¬ IsAcyclic n deps ↔ (topo_sort_const n deps ≡ cycle))
topo_sort-decides n deps table = (
  (acyclic-sorted n deps table, λ (order, e). sorted-IsAcyclic n deps order table.short e),
  (
    λ cyclic. elim (topo_sort_total n deps table) [
      | inl (order, e) ↦ absurd (cyclic (sorted-IsAcyclic n deps order table.short e))
      | inr e ↦ e
    ],
    λ e acyclic. let (order, e') = acyclic-sorted n deps table acyclic in cc,
  ),
)
