-- ===== src/Lifecycle/Events.antt =====
-- Lifecycle events (supervisor/src/lib.rs, `LifecycleEvent`, `note`, `emit_lifecycle` and their
-- readers): the sink that is called, the bounded queue and the counter of what it refused. The
-- queue is a channel of another crate: an interface, with the behaviour that it documents.
pub mod Delivery
use embassy_supervisor.Base.{
  ℕ, ◌+◌, ◌%◌, ◌^◌, ◌≡◌, Bool, true, false, if◌then◌else◌, Option, none, some, List, [], ◌∷◌, ◌++◌,
  update, length,
}
use embassy_supervisor.Lifecycle.{
  FaultKind, Transition, spawning, started, resumed, stop_requested, stopped, exited, faulted,
}
use embassy_supervisor.Lifecycle.Crumb.{to_u8, phase_of, crumb_word}

pub data LifecycleKind : Type 0 where
  has_started has_resumed stop_asked has_stopped has_exited : LifecycleKind
  has_faulted : FaultKind → LifecycleKind

pub record LifecycleEvent : Type 0 where
  pub node : ℕ
  pub kind : LifecycleKind

-- A bounded first-in first-out channel: a send is refused only by a full one, and a receive takes
-- the oldest.
pub record Channel (A : Type 0) : Type 1 where
  pub Queue : Type 0
  pub capacity : ℕ
  pub contents : Queue → List A
  pub new : Queue
  pub try_send : A → Queue → Option Queue
  pub try_receive : Queue → Option (A × Queue)
  pub new_empty : contents new ≡ []
  pub send_appends :
      (a : A) (q q' : Queue) → try_send a q ≡ some q' → contents q' ≡ contents q ++ a ∷ []
  pub send_full : (a : A) (q : Queue) → try_send a q ≡ none → length (contents q) ≡ capacity
  pub receive_oldest :
      (a : A) (q q' : Queue) → try_receive q ≡ some (a, q') → contents q ≡ a ∷ contents q'
  pub receive_none : (q : Queue) → try_receive q ≡ none → contents q ≡ []

-- What a transition is to the application; a spawn attempt is nothing.
unfoldable pub kind_of : Transition → Option LifecycleKind
kind_of spawning = none
kind_of started = some has_started
kind_of resumed = some has_resumed
kind_of stop_requested = some stop_asked
kind_of stopped = some has_stopped
kind_of exited = some has_exited
kind_of (faulted k) = some (has_faulted k)

module _ (ch : Channel LifecycleEvent) where
  open ch use {Queue, try_send, try_receive}

  -- The statics, and what the sink was called with, newest first.
  pub record EventState : Type 0 where
    pub queue : Queue
    pub dropped : ℕ
    pub has_sink : Bool
    pub sunk : List LifecycleEvent
    pub crumbs : ℕ → ℕ
    pub last_crumb : ℕ

  unfoldable pub first_state : EventState
  first_state = record {
    queue = ch.new;
    dropped = 0;
    has_sink = false;
    sunk = [];
    crumbs = λ _. 0;
    last_crumb = 0;
  }

  unfoldable pub emit_lifecycle : LifecycleEvent → EventState → EventState
  emit_lifecycle ev s =
      let s' = record s { sunk = if s.has_sink then ev ∷ s.sunk else s.sunk } in
      elim (try_send ev s.queue) [
        | some q ↦ record s' { queue = q }
        | none ↦ record s' { dropped = (s.dropped + 1) % 2 ^ 32 }
      ]

  unfoldable pub store_crumb : ℕ → Option ℕ → Transition → EventState → EventState
  unfolding to_u8 phase_of crumb_word
  store_crumb node slot t s = record s {
    crumbs = update s.crumbs node (to_u8 (phase_of t));
    last_crumb = crumb_word (phase_of t) slot;
  }

  unfoldable pub note : ℕ → Option ℕ → Transition → EventState → EventState
  unfolding kind_of emit_lifecycle store_crumb
  note node slot t s =
      let s' = store_crumb node slot t s in
      elim (kind_of t) [ none ↦ s' | some k ↦ emit_lifecycle (record { node = node; kind = k }) s' ]

  unfoldable pub try_wait_lifecycle : EventState → EventState × Option LifecycleEvent
  try_wait_lifecycle s = elim (try_receive s.queue) [
    | none ↦ (s, none)
    | some (ev, q) ↦ (record s { queue = q }, some ev)
  ]

-- What the supervisor and the application do to the statics.
pub data Call : Type 0 where
  notes : (node : ℕ) → (slot : Option ℕ) → Transition → Call
  waits sets_sink : Call

abbrev pub with_event : Option LifecycleEvent → List LifecycleEvent → List LifecycleEvent
with_event none evs = evs
with_event (some ev) evs = ev ∷ evs

module _ (ch : Channel LifecycleEvent) where
  -- The state behind the calls, and the events that the application received, in order.
  unfoldable pub calls : List Call → EventState ch → EventState ch × List LifecycleEvent
  unfolding note try_wait_lifecycle
  calls [] s = (s, [])
  calls (notes node slot t ∷ cs) s = calls cs (note ch node slot t s)
  calls (sets_sink ∷ cs) s = calls cs (record s { has_sink = true })
  calls (waits ∷ cs) s =
      let (s', got) = try_wait_lifecycle ch s in
      let (s'', later) = calls cs s' in (s'', with_event got later)
