-- ===== src/Examples/Graphs.antt =====
-- A graph of three nodes, and one with a cycle.
use embassy_supervisor.Base.{
  ℕ, ◌≡◌, refl, ◌↔◌, ltb, ◌==◌, if◌then◌else◌, List, [], ◌∷◌, arith, count,
}
use embassy_supervisor.Topology.{
  sorted, cycle, initial_in_degree, relax_one, relax, drain, seed_queue, check_produced,
  topo_sort_const,
}
use embassy_supervisor.Topology.Invariant.{IsOrdered}
use embassy_supervisor.Topology.Order.{HasShortRows, topo_sort-IsOrdered}
use embassy_supervisor.Topology.Acyclic.{IsTable, IsAcyclic, topo_sort-decides}

-- A driver, a service on it, and an application on the service.
abbrev pub chain : ℕ → List ℕ
chain i = if i == 0 then 1 ∷ [] else if i == 1 then 2 ∷ [] else []

pub chain_sorted : topo_sort_const 3 chain ≡ sorted (2 ∷ 1 ∷ 0 ∷ [])
unfolding topo_sort_const check_produced seed_queue drain relax relax_one initial_in_degree
chain_sorted = refl

abbrev ring : ℕ → List ℕ
ring i = if i == 0 then 1 ∷ [] else if i == 1 then 0 ∷ [] else []

ring_cycle : topo_sort_const 2 ring ≡ cycle
unfolding topo_sort_const check_produced seed_queue drain relax relax_one initial_in_degree
ring_cycle = refl

pub chain_short : HasShortRows 3 chain
chain_short i lt = ground arith

topo_sort-IsOrdered_example :
    ((i : ℕ) → count i (2 ∷ 1 ∷ 0 ∷ []) ≡ (if ltb i 3 then 1 else 0))
    × IsOrdered chain [] (2 ∷ 1 ∷ 0 ∷ [])
topo_sort-IsOrdered_example = topo_sort-IsOrdered 3 chain (2 ∷ 1 ∷ 0 ∷ []) chain_short chain_sorted

ring-IsTable : IsTable 2 ring
ring-IsTable = record {
  size = omega arith;
  short = λ i lt. ground arith;
  in_range = λ i j lt m. ground (arith, m);
  distinct = λ i j lt. ground arith;
}

topo_sort-decides_example :
    (IsAcyclic 2 ring ↔ ((order : List ℕ) × (topo_sort_const 2 ring ≡ sorted order)))
    × (¬ IsAcyclic 2 ring ↔ (topo_sort_const 2 ring ≡ cycle))
topo_sort-decides_example = topo_sort-decides 2 ring ring-IsTable
