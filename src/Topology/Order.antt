-- ===== src/Topology/Order.antt =====
-- What `topo_sort_const` returns: an order of all slots, dependencies first.
use embassy_supervisor.Base.{
  ℕ, ◌≤◌, ◌<◌, ◌≡◌, sym, ◌∙◌, subst, some, List, [], arith, ltb, if◌then◌else◌, length, count,
  count_in-nil,
}
use embassy_supervisor.Topology.{
  sorted, too_many_nodes, initial_in_degree, seed_queue, check_produced, topo_sort_const,
}
use embassy_supervisor.Topology.Pigeonhole.{count-full}
use embassy_supervisor.Topology.Invariant.{
  Inv, Inv-start, IsOrdered, IsTight, Drained, drain-Drained,
}

-- The rows hold no more entries than the `u8` in-degree counts.
abbrev pub HasShortRows : ℕ → (ℕ → List ℕ) → Type 0
HasShortRows n deps = (i : ℕ) → i < n → length (deps i) < 256

module _ (n : ℕ) (deps : ℕ → List ℕ) (short : HasShortRows n deps) where
  start-IsTight : IsTight n deps (initial_in_degree deps) []
  unfolding initial_in_degree
  start-IsTight j lt = omega (arith, short j lt, count_in-nil (deps j))

  -- What the loop ends in, and what is returned from there.
  pub sort_cases :
      (order : List ℕ) × Drained n deps order
      × (topo_sort_const n deps
          ≡ (if ltb 256 n then too_many_nodes else check_produced n (some order)))
  unfolding topo_sort_const
  sort_cases =
      let (order, e, drained) =
        drain-Drained n deps n (initial_in_degree deps) (seed_queue (initial_in_degree deps) n) []
          (Inv-start n deps short) (λ _. start-IsTight) (omega arith) in
      (order, drained, ground (arith, e))

pub sorted-lem :
    (n : ℕ) (made order : List ℕ)
    → (if ltb 256 n then too_many_nodes else check_produced n (some made)) ≡ sorted order
    → (made ≡ order) × (length made ≡ n) × (n ≤ 256)
unfolding check_produced
sorted-lem n made order e = ground arith

-- In the order that is returned, every slot below `n` stands once and no other number does, and
-- all dependencies of a slot stand before it. The rows hold fewer than 256 entries each.
pub topo_sort-IsOrdered :
    (n : ℕ) (deps : ℕ → List ℕ) (order : List ℕ)
    → HasShortRows n deps
    → topo_sort_const n deps ≡ sorted order
    → ((i : ℕ) → count i order ≡ (if ltb i n then 1 else 0)) × IsOrdered deps [] order
topo_sort-IsOrdered n deps order short e =
    let (made, drained, runs) = sort_cases n deps short in
    let (same, full, _) = sorted-lem n made order (sym runs ∙ e) in
    subst (λ (l : List ℕ). ((i : ℕ) → count i l ≡ (if ltb i n then 1 else 0)) × IsOrdered deps [] l)
      same (counts made drained.inv full, drained.inv.ordered)
  where
    counts :
        {d : ℕ → ℕ} (made : List ℕ)
        → Inv n deps d [] made
        → length made ≡ n
        → (i : ℕ) → count i made ≡ (if ltb i n then 1 else 0)
    counts made inv full i = ground (
      arith,
      inv.counted i,
      count-full n made (λ j h. ground (arith, inv.counted j)) (λ j. ground (arith, inv.counted j))
          full i,
    )
