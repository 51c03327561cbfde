-- ===== src/Leased/Word.antt =====
-- The arithmetic of the word: a closed bit above a count of leases.
use embassy_supervisor.Base.{
  ℕ, ◌+◌, ◌-◌, ◌%◌, ◌^◌, ◌≤◌, ◌<◌, ◌≡◌, refl, sym, ap, ◌∙◌, true, false, arith, if_inv,
}
use embassy_supervisor.Leased.{Leased, closed_bit, has_closed, count_of, close}

pub open_small : (w : ℕ) → w < 2 ^ 32 → has_closed w ≡ false → w < closed_bit
open_small w fits free = ground (arith, fits, free)

pub closed_large : (w : ℕ) → w < 2 ^ 32 → has_closed w ≡ true → closed_bit ≤ w
closed_large w fits is_set = ground (arith, fits, is_set)

pub large_closed : (w : ℕ) → w < 2 ^ 32 → closed_bit ≤ w → has_closed w ≡ true
large_closed w fits large = ground (arith, fits, large)

-- A decrement of a word that counts a lease.
pub less_one : (w : ℕ) → w < 2 ^ 32 → 0 < count_of w → (w + (2 ^ 32 - 1)) % 2 ^ 32 ≡ w - 1
less_one w fits some_lease = omega arith

pub count_of-less_one : (w : ℕ) → 0 < count_of w → count_of (w - 1) ≡ count_of w - 1
count_of-less_one w some_lease = omega arith

pub give_back_count :
    (w c c' : ℕ)
    → w < 2 ^ 32
    → count_of w ≡ c
    → c' < closed_bit
    → c' + 1 ≡ c + 0
    → (count_of ((w + (2 ^ 32 - 1)) % 2 ^ 32) ≡ c') × ((w + (2 ^ 32 - 1)) % 2 ^ 32 < 2 ^ 32)
give_back_count w c c' fits e lt moved =
    let less = less_one w fits (omega arith) in
    let counts = count_of-less_one w (omega arith) in (rw less (omega arith), omega arith)

pub less_closed :
    (w : ℕ)
    → w < 2 ^ 32
    → 1 ≤ count_of w
    → has_closed w ≡ true
    → has_closed ((w + (2 ^ 32 - 1)) % 2 ^ 32) ≡ true
less_closed w fits some_lease shut =
    let large = closed_large w fits shut in
    rw (less_one w fits (omega arith)) (large_closed (w - 1) (omega arith) (omega arith))

pub close_word :
    (l : Leased)
    → l.state < 2 ^ 32
    → (count_of (close l).state ≡ count_of l.state)
      × ((close l).state < 2 ^ 32)
      × (true ≡ true → has_closed (close l).state ≡ true)
close_word l fits =
    if_inv
      (λ (w : ℕ).
        (count_of w ≡ count_of l.state) × (w < 2 ^ 32) × (true ≡ true → has_closed w ≡ true))
      (has_closed l.state) (λ e. (refl, fits, λ _. e))
      (λ e.
        let small = open_small l.state fits e in
        (
          omega arith,
          omega arith,
          λ _. large_closed (l.state + closed_bit) (omega arith) (omega arith),
        ))

pub not_open : {w cur : ℕ} → has_closed w ≡ true → w ≡ cur → has_closed cur ≡ false → true ≡ false
not_open {w} shut same free = sym shut ∙ ap has_closed same ∙ free
