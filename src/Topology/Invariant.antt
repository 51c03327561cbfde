-- ===== src/Topology/Invariant.antt =====
-- The invariant of the queue loop of `topo_sort_const`, and that the loop keeps it.
use embassy_supervisor.Base.{
  ℕ, zero, suc, ◌+◌, ◌≤◌, ◌<◌, ◌≡◌, refl, true, false, ◌&&◌, some, List, [], ◌∷◌, ◌++◌, arith, inl,
  inr, ltb, ◌==◌, if◌then◌else◌, Bool-cases, length, length-append, contains, contains-append,
  count, count-append, count_pos-contains, contains-count_pos, count_in, count_in_full-subset,
  count_in-le_length, subset,
}
use mathlib.Core.List.{append_assoc, append-nil}
use embassy_supervisor.Topology.{SortState, initial_in_degree, relax, drain, seed_queue}
use embassy_supervisor.Topology.Relax.{relax-in_degree, relax-queue}
use embassy_supervisor.Topology.Pigeonhole.{length-le_bound}

-- Every dependency of a slot stands in `seen` or before the slot in the list.
abbrev pub IsOrdered : (ℕ → List ℕ) → List ℕ → List ℕ → Type 0
IsOrdered deps seen [] = Unit
IsOrdered deps seen (x ∷ xs) = (subset (deps x) seen ≡ true) × IsOrdered deps (seen ++ x ∷ []) xs

IsOrdered-snoc :
    (deps : ℕ → List ℕ) (seen xs : List ℕ) (x : ℕ)
    → IsOrdered deps seen xs
    → subset (deps x) (seen ++ xs) ≡ true
    → IsOrdered deps seen (xs ++ x ∷ [])
IsOrdered-snoc deps seen [] x h e = (rw append-nil at e, tt)
IsOrdered-snoc deps seen (y ∷ ys) x h e =
    (h.0, IsOrdered-snoc deps (seen ++ y ∷ []) ys x h.1 (rw append_assoc e))

count_in-snoc :
    (order : List ℕ) (x : ℕ) (xs : List ℕ)
    → count_in (order ++ x ∷ []) xs
      ≡ count_in order xs + (if contains x order then 0 else count x xs)
count_in-snoc order x [] = ground arith
count_in-snoc order x (y ∷ ys) =
    ground (arith, count_in-snoc order x ys, contains-append y order (x ∷ []))

module _ (n : ℕ) (deps : ℕ → List ℕ) where
  pub record Inv (in_degree : ℕ → ℕ) (queue order : List ℕ) : Type 0 where
    -- The slots with no dependency left are queued or placed, once, and no others are.
    pub counted :
        (j : ℕ) → count j order + count j queue ≡ (if ltb j n && (in_degree j == 0) then 1 else 0)
    pub placed_all : (j : ℕ) → j < n → length (deps j) ≤ in_degree j + count_in order (deps j)
    pub ordered : IsOrdered deps [] order

  -- The other bound, which needs rows without repetitions.
  abbrev pub IsTight : (ℕ → ℕ) → List ℕ → Type 0
  IsTight in_degree order =
      (j : ℕ) → j < n → in_degree j + count_in order (deps j) ≤ length (deps j)

  seed_queue-count :
      (d : ℕ → ℕ) (m j : ℕ) → count j (seed_queue d m) ≡ (if ltb j m && (d j == 0) then 1 else 0)
  unfolding seed_queue
  seed_queue-count d zero j = ground arith
  seed_queue-count d (suc i) j =
      ground (arith, seed_queue-count d i j, count-append j (seed_queue d i) (i ∷ []))

  pub Inv-start :
      ((i : ℕ) → i < n → length (deps i) < 256)
      → Inv (initial_in_degree deps) (seed_queue (initial_in_degree deps) n) []
  unfolding initial_in_degree
  Inv-start short = record {
    counted = λ j. ground (arith, seed_queue-count (initial_in_degree deps) n j);
    placed_all = λ j lt. omega (arith, short j lt);
    ordered = tt;
  }

  module _ {d : ℕ → ℕ} {x : ℕ} {queue order : List ℕ} (inv : Inv d (x ∷ queue) order) where
    abbrev after : SortState
    after = relax deps x n (record { in_degree = d; queue = queue })

    fresh : contains x order ≡ false
    fresh = elim (Bool-cases (contains x order)) [
      | inl old ↦ absurd (ground (arith, inv.counted x, contains-count_pos x order))
      | inr new ↦ new
    ]

    x_in_range : (x < n) × (d x ≡ 0)
    x_in_range = ground (arith, inv.counted x)

    x_ready : subset (deps x) order ≡ true
    x_ready =
        count_in_full-subset order (deps x)
          (omega (arith, inv.placed_all x x_in_range.0, x_in_range.1))

    step-counted :
        (j : ℕ)
        → count j (order ++ x ∷ []) + count j after.queue
          ≡ (if ltb j n && (after.in_degree j == 0) then 1 else 0)
    step-counted j =
        let s : SortState = record { in_degree = d; queue = queue } in
        ground (
          arith,
          inv.counted j,
          count-append j order (x ∷ []),
          relax-queue deps x n j s,
          relax-in_degree deps x n j s,
        )

    step-placed_all :
        (j : ℕ) → j < n → length (deps j) ≤ after.in_degree j + count_in (order ++ x ∷ []) (deps j)
    step-placed_all j lt =
        let s : SortState = record { in_degree = d; queue = queue } in
        ground (
          arith,
          fresh,
          inv.placed_all j lt,
          count_in-snoc order x (deps j),
          contains-count_pos x (deps j),
          relax-in_degree deps x n j s,
        )

    pub step-Inv : Inv after.in_degree after.queue (order ++ x ∷ [])
    step-Inv = record {
      counted = step-counted;
      placed_all = step-placed_all;
      ordered = IsOrdered-snoc deps [] order x inv.ordered x_ready;
    }

    -- With no repetition in a row, a placed dependency is taken off exactly once.
    pub step-IsTight :
        ((j : ℕ) → j < n → count x (deps j) ≤ 1)
        → IsTight d order
        → IsTight after.in_degree (order ++ x ∷ [])
    step-IsTight once tight j lt =
        let s : SortState = record { in_degree = d; queue = queue } in
        ground (
          arith,
          fresh,
          once j lt,
          tight j lt,
          inv.counted j,
          count_in-snoc order x (deps j),
          count_in-le_length (order ++ x ∷ []) (deps j),
          count_pos-contains x (deps j),
          relax-in_degree deps x n j s,
        )

  -- Slots queued or placed are distinct and in range, so there are at most `n`.
  pub Inv-length :
      {d : ℕ → ℕ} {queue order : List ℕ} → Inv d queue order → length (order ++ queue) ≤ n
  Inv-length {d} {queue} {order} inv =
      length-le_bound n (order ++ queue)
        (λ j h. ground (arith, inv.counted j, count-append j order queue))
        (λ j. ground (arith, inv.counted j, count-append j order queue))

  -- The loop ends within its fuel, and its invariant holds of the result.
  pub record Drained (order : List ℕ) : Type 0 where
    pub in_degree : ℕ → ℕ
    pub inv : Inv in_degree [] order
    pub tight : ((x j : ℕ) → j < n → count x (deps j) ≤ 1) → IsTight in_degree order

  pub drain-Drained :
      (fuel : ℕ) (d : ℕ → ℕ) (queue order : List ℕ)
      → Inv d queue order
      → (((x j : ℕ) → j < n → count x (deps j) ≤ 1) → IsTight d order)
      → n ≤ fuel + length order
      → (result : List ℕ) × (drain deps n fuel d queue order ≡ some result) × Drained result
  unfolding drain
  drain-Drained fuel d [] order inv tight enough =
      (order, refl, record { in_degree = d; inv = inv; tight = tight })
  drain-Drained zero d (x ∷ queue) order inv tight enough =
      absurd (omega (arith, Inv-length inv, length-append order (x ∷ queue)))
  drain-Drained (suc fuel) d (x ∷ queue) order inv tight enough =
      drain-Drained fuel (after inv).in_degree (after inv).queue (order ++ x ∷ []) (step-Inv inv)
        (λ once. step-IsTight inv (once x) (tight once))
        (omega (arith, length-append order (x ∷ [])))
