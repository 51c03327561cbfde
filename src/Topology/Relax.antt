-- ===== src/Topology/Relax.antt =====
-- What the inner loop of `topo_sort_const` does to each slot.
use embassy_supervisor.Base.{
  ℕ, zero, suc, ◌+◌, ◌-◌, ◌≡◌, ◌&&◌, List, [], ◌∷◌, arith, ltb, ◌==◌, if◌then◌else◌, contains,
  count, count-append,
}
use embassy_supervisor.Topology.{SortState, relax_one, relax}

module _ (deps : ℕ → List ℕ) (node : ℕ) where
  relax_one-in_degree :
      (j i : ℕ) (s : SortState)
      → (relax_one deps node j s).in_degree i
        ≡ (if (j == i) && contains node (deps i) then s.in_degree i - 1 else s.in_degree i)
  unfolding relax_one
  relax_one-in_degree j i s = ground arith

  relax_one-queue :
      (j i : ℕ) (s : SortState)
      → count i (relax_one deps node j s).queue
        ≡ count i s.queue
          + (if (j == i) && contains node (deps i) && (s.in_degree i == 1) then 1 else 0)
  unfolding relax_one
  relax_one-queue j i s = ground (arith, count-append i s.queue (j ∷ []))

  -- Slots below `n` have been visited once, the others not at all.
  pub relax-in_degree :
      (n i : ℕ) (s : SortState)
      → (relax deps node n s).in_degree i
        ≡ (if ltb i n && contains node (deps i) then s.in_degree i - 1 else s.in_degree i)
  unfolding relax
  relax-in_degree zero i s = ground arith
  relax-in_degree (suc j) i s =
      ground (arith, relax_one-in_degree j i (relax deps node j s), relax-in_degree j i s)

  -- A slot is queued exactly when this visit takes its last dependency.
  pub relax-queue :
      (n i : ℕ) (s : SortState)
      → count i (relax deps node n s).queue
        ≡ count i s.queue
          + (if ltb i n && contains node (deps i) && (s.in_degree i == 1) then 1 else 0)
  unfolding relax
  relax-queue zero i s = ground arith
  relax-queue (suc j) i s =
      ground
        (arith, relax_one-queue j i (relax deps node j s), relax-queue j i s, relax-in_degree j i s)
