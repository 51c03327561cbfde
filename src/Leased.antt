-- ===== src/Leased.antt =====
-- Leases of a signal (supervisor/src/data_deps/leased.rs): a producer drains them before it frees
-- what they point to. Each client stands for one lease, and takes one atomic access in a step; the
-- drainer is the producer's task, and the two interleave in any order.
mod Word
pub mod Count
pub mod Drained
pub mod Finish
use embassy_supervisor.Base.{
  ℕ, ◌+◌, ◌-◌, ◌/◌, ◌%◌, ◌^◌, ◌<◌, ◌≡◌, ◌≢◌, ◌==◌, if◌then◌else◌, Bool, true, false, not, update,
}

-- `CLOSED`; the bits below it are `COUNT`.
abbrev pub closed_bit : ℕ
closed_bit = 2 ^ 31

-- `Leased<T>` without the signal that it wraps: the word and the latch.
pub record Leased : Type 0 where
  pub state : ℕ  -- AtomicU32
  pub idle : Bool

abbrev pub new_leased : Leased
new_leased = record { state = 0; idle = false }

abbrev pub has_closed : ℕ → Bool
has_closed w = not (w / closed_bit % 2 == 0)

abbrev pub count_of : ℕ → ℕ
count_of w = w % closed_bit

abbrev pub leases : Leased → ℕ
leases l = count_of l.state

abbrev pub is_drained : Leased → Bool
is_drained l = has_closed l.state

-- `fetch_or(CLOSED)`, `fetch_and(!CLOSED)`, `fetch_sub(1)`.
abbrev pub close : Leased → Leased
close l = record l { state = if has_closed l.state then l.state else l.state + closed_bit }

abbrev pub open_again : Leased → Leased
open_again l = record l { state = l.state % closed_bit }

abbrev pub give_back : Leased → Leased
give_back l = record l { state = (l.state + (2 ^ 32 - 1)) % 2 ^ 32 }

-- Where a lease stands: not held, in the loop of `lease` with the word that it read, held, or in
-- its `drop` behind a decrement that found it the last.
pub data Pc : Type 0 where
  outside holding last_out : Pc
  trying : (cur : ℕ) → Pc

-- One access of a client. A weak exchange may fail at any time.
pub data Move (l : Leased) : Pc → Leased → Pc → Type 0 where
  load : Move l outside l (trying l.state)
  refused : {cur : ℕ} → has_closed cur ≡ true → Move l (trying cur) l outside
  wins :
      {cur : ℕ}
      → has_closed cur ≡ false
      → l.state ≡ cur
      → Move l (trying cur) (record l { state = cur + 1 }) holding
  loses : {cur : ℕ} → has_closed cur ≡ false → Move l (trying cur) l (trying l.state)
  drops_last : leases l ≡ 1 → Move l holding (give_back l) last_out
  drops : leases l ≢ 1 → Move l holding (give_back l) outside
  signals : Move l last_out (record l { idle = true }) outside

-- Where the producer stands: `drain` before its read of the count, waiting, or returned; and
-- `reopen` behind the reset of its latch.
pub data Drain : Type 0 where
  resting draining waiting drained reopening : Drain

-- One access of the producer. A `drain` that waits may be dropped; `drain` and `reopen` may be
-- called whenever neither is in progress.
pub data Turn (l : Leased) : Drain → Leased → Drain → Type 0 where
  closes : Turn l resting (close l) draining
  closes_again : Turn l drained (close l) draining
  finds_none : leases l ≡ 0 → Turn l draining l drained
  finds_some : leases l ≢ 0 → Turn l draining l waiting
  wakes : l.idle ≡ true → Turn l waiting (record l { idle = false }) draining
  gives_up : Turn l waiting l resting
  resets : Turn l resting (record l { idle = false }) reopening
  resets_drained : Turn l drained (record l { idle = false }) reopening
  reopens : Turn l reopening (open_again l) resting

pub record System : Type 0 where
  pub mem : Leased
  pub pc : ℕ → Pc
  pub drainer : Drain

abbrev pub start : System
start = record { mem = new_leased; pc = λ _. outside; drainer = resting }

-- The interleaved steps of `n` clients and the producer.
pub data Step (n : ℕ) (s : System) : System → Type 0 where
  client :
      (i : ℕ) {l : Leased} {p : Pc}
      → i < n
      → Move s.mem (s.pc i) l p
      → Step n s (record s { mem = l; pc = update s.pc i p })
  producer :
      {l : Leased} {d : Drain}
      → Turn s.mem s.drainer l d
      → Step n s (record s { mem = l; drainer = d })

pub data Steps (n : ℕ) (s : System) : System → Type 0 where
  here : Steps n s s
  then_step : {t u : System} → Steps n s t → Step n t u → Steps n s u
