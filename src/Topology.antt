-- ===== src/Topology.antt =====
-- The topological sort of a graph's `deps:` table (supervisor/src/lib.rs, `topo_sort_const`),
-- run at compile time by `Ordered::new`. A dependency row is a list of slot indices. The arrays
-- of the program are functions of the index; the queue is the list of its entries from `head` to
-- `tail`, and `order` the list of its first `produced` entries.
mod Relax
mod Pigeonhole
pub mod Invariant
pub mod Order
pub mod Acyclic
use embassy_supervisor.Base.{
  ℕ, zero, suc, ◌-◌, ◌%◌, Option, none, some, List, [], ◌∷◌, ◌++◌, ltb, ◌==◌, if◌then◌else◌, length,
  contains, update,
}

-- What the const evaluation ends in: an order, or one of its two panics. `out_of_fuel` is the
-- model's own, for a loop that does not end.
pub data SortResult : Type 0 where
  sorted : List ℕ → SortResult
  too_many_nodes cycle out_of_fuel : SortResult

pub record SortState : Type 0 where
  pub in_degree : ℕ → ℕ
  pub queue : List ℕ

module _ (deps : ℕ → List ℕ) where
  -- `deps[i].len() as u8`.
  unfoldable pub initial_in_degree : ℕ → ℕ
  initial_in_degree i = length (deps i) % 256

  -- One round of the inner loop: slot `j` loses the dependency `node`.
  unfoldable pub relax_one : ℕ → ℕ → SortState → SortState
  relax_one node j s =
      if s.in_degree j == 0
      then s
      else if contains node (deps j)
      then record {
        in_degree = update s.in_degree j (s.in_degree j - 1);
        queue = if (s.in_degree j - 1) == 0 then s.queue ++ j ∷ [] else s.queue;
      }
      else s

  -- The state after the inner loop's first `n` rounds.
  unfoldable pub relax : ℕ → ℕ → SortState → SortState
  relax node zero s = s
  relax node (suc j) s = relax_one node j (relax node j s)

  -- `while head < tail`. A node leaves the queue for the order, and its dependents are relaxed.
  unfoldable pub drain : ℕ → ℕ → (ℕ → ℕ) → List ℕ → List ℕ → Option (List ℕ)
  drain n fuel in_degree [] order = some order
  drain n zero in_degree (node ∷ queue) order = none
  drain n (suc fuel) in_degree (node ∷ queue) order =
      let s = relax node n (record { in_degree = in_degree; queue = queue }) in
      drain n fuel s.in_degree s.queue (order ++ node ∷ [])

-- The queue after the seeding loop's first `n` rounds.
unfoldable pub seed_queue : (ℕ → ℕ) → ℕ → List ℕ
seed_queue in_degree zero = []
seed_queue in_degree (suc i) =
    let queue = seed_queue in_degree i in if in_degree i == 0 then queue ++ i ∷ [] else queue

-- The check behind the loop: `produced != N` is a dependency cycle.
unfoldable pub check_produced : ℕ → Option (List ℕ) → SortResult
check_produced n none = out_of_fuel
check_produced n (some order) = if length order == n then sorted order else cycle

unfoldable pub topo_sort_const : ℕ → (ℕ → List ℕ) → SortResult
unfolding initial_in_degree seed_queue check_produced
topo_sort_const n deps =
    if ltb 256 n
    then too_many_nodes
    else check_produced n
        (drain deps n n (initial_in_degree deps) (seed_queue (initial_in_degree deps) n) [])
