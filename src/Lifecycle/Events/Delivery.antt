-- ===== src/Lifecycle/Events/Delivery.antt =====
-- What the application receives of the events: the queue and its counter refine a log that may lose
-- an event only while as many as the queue holds are pending.
use mathlib.Core.List.{append_assoc, append-nil}
use embassy_supervisor.Base.{
  ℕ, ◌+◌, ◌%◌, ◌^◌, ◌≡◌, refl, sym, subst, if◌then◌else◌, Option, none, some, List, [], ◌∷◌, ◌++◌,
  arith, length, length-append,
}
use embassy_supervisor.Lifecycle.{Transition}
use embassy_supervisor.Lifecycle.Events.{
  LifecycleKind, LifecycleEvent, Channel, kind_of, EventState, first_state, emit_lifecycle,
  store_crumb, note, try_wait_lifecycle, Call, notes, waits, sets_sink, with_event, calls,
}

-- The log: what was emitted, received and is pending, oldest first, and how many were lost.
pub data Lossy (capacity : ℕ) : (emitted received pending : List LifecycleEvent) → ℕ → Type 0 where
  nothing : Lossy capacity [] [] [] 0
  keeps :
      {es rs ps : List LifecycleEvent} {n : ℕ} (x : LifecycleEvent)
      → Lossy capacity es rs ps n
      → Lossy capacity (es ++ x ∷ []) rs (ps ++ x ∷ []) n
  loses :
      {es rs ps : List LifecycleEvent} {n : ℕ} (x : LifecycleEvent)
      → length ps ≡ capacity
      → Lossy capacity es rs ps n
      → Lossy capacity (es ++ x ∷ []) rs ps (n + 1)
  delivers :
      {es rs ps : List LifecycleEvent} {n : ℕ} (x : LifecycleEvent)
      → Lossy capacity es rs (x ∷ ps) n
      → Lossy capacity es (rs ++ x ∷ []) ps n

-- One list within another, in its order.
pub data Within : List LifecycleEvent → List LifecycleEvent → Type 0 where
  none_left : Within [] []
  takes :
      {xs ys : List LifecycleEvent} (x : LifecycleEvent) → Within xs ys → Within (x ∷ xs) (x ∷ ys)
  skips : {xs ys : List LifecycleEvent} (y : LifecycleEvent) → Within xs ys → Within xs (y ∷ ys)

Within-snoc :
    {xs ys : List LifecycleEvent} (x : LifecycleEvent)
    → Within xs ys
    → Within (xs ++ x ∷ []) (ys ++ x ∷ [])
Within-snoc x none_left = takes x none_left
Within-snoc x (takes y w) = takes y (Within-snoc x w)
Within-snoc x (skips y w) = skips y (Within-snoc x w)

Within-skip :
    {xs ys : List LifecycleEvent} (x : LifecycleEvent) → Within xs ys → Within xs (ys ++ x ∷ [])
Within-skip x none_left = skips x none_left
Within-skip x (takes y w) = takes y (Within-skip x w)
Within-skip x (skips y w) = skips y (Within-skip x w)

module _ (capacity : ℕ) where
  -- Nothing is reordered, and everything emitted is received, pending or lost.
  Lossy-Within :
      {es rs ps : List LifecycleEvent} {n : ℕ} → Lossy capacity es rs ps n → Within (rs ++ ps) es
  Lossy-Within nothing = none_left
  Lossy-Within (keeps {es} {rs} {ps} x l) = rw append_assoc at (Within-snoc x (Lossy-Within l))
  Lossy-Within (loses x full l) = Within-skip x (Lossy-Within l)
  Lossy-Within (delivers x l) = rw append_assoc (Lossy-Within l)

  Lossy-length :
      {es rs ps : List LifecycleEvent} {n : ℕ}
      → Lossy capacity es rs ps n
      → length es ≡ length rs + length ps + n
  Lossy-length nothing = refl
  Lossy-length (keeps {es} {rs} {ps} x l) =
      omega (arith, length-append es (x ∷ []), length-append ps (x ∷ []), Lossy-length l)
  Lossy-length (loses {es} x full l) = omega (arith, length-append es (x ∷ []), Lossy-length l)
  Lossy-length (delivers {es} {rs} x l) = omega (arith, length-append rs (x ∷ []), Lossy-length l)

-- The events that the calls emit.
abbrev pub event_of : ℕ → Option LifecycleKind → List LifecycleEvent
event_of node none = []
event_of node (some k) = record { node = node; kind = k } ∷ []

abbrev pub emitted : List Call → List LifecycleEvent
emitted [] = []
emitted (notes node slot t ∷ cs) = event_of node (kind_of t) ++ emitted cs
emitted (waits ∷ cs) = emitted cs
emitted (sets_sink ∷ cs) = emitted cs

module _ (ch : Channel LifecycleEvent) where
  -- The log that a state stands for.
  pub record Refines (es rs : List LifecycleEvent) (s : EventState ch) : Type 0 where
    pub lost : ℕ
    pub log : Lossy ch.capacity es rs (ch.contents s.queue) lost
    pub counted : s.dropped ≡ lost % 2 ^ 32

  after_send :
      (ev : LifecycleEvent) {es rs : List LifecycleEvent} (s : EventState ch) (o : Option ch.Queue)
      → ch.try_send ev s.queue ≡ o
      → Refines es rs s
      → let s' : EventState ch = record s { sunk = if s.has_sink then ev ∷ s.sunk else s.sunk } in
        Refines (es ++ ev ∷ []) rs (elim o [
          | some q ↦ record s' { queue = q }
          | none ↦ record s' { dropped = (s.dropped + 1) % 2 ^ 32 }
        ])
  after_send ev {es} {rs} s (some q) e h = record {
    lost = h.lost;
    log =
        subst (λ (p : List LifecycleEvent). Lossy ch.capacity (es ++ ev ∷ []) rs p h.lost)
          (sym (ch.send_appends ev s.queue q e)) (keeps ev h.log);
    counted = h.counted;
  }
  after_send ev s none e h = record {
    lost = h.lost + 1;
    log = loses ev (ch.send_full ev s.queue e) h.log;
    counted = omega (arith, h.counted);
  }

  emit-Refines :
      (ev : LifecycleEvent) {es rs : List LifecycleEvent} (s : EventState ch)
      → Refines es rs s
      → Refines (es ++ ev ∷ []) rs (emit_lifecycle ch ev s)
  unfolding emit_lifecycle
  emit-Refines ev s h = after_send ev s (ch.try_send ev s.queue) refl h

  after_kind :
      (node : ℕ) (k : Option LifecycleKind) {es rs : List LifecycleEvent} (s : EventState ch)
      → Refines es rs s
      → Refines
          (es ++ event_of node k)
          rs
          (elim k [ none ↦ s | some i ↦ emit_lifecycle ch (record { node = node; kind = i }) s ])
  after_kind node none {es} {rs} s h = rw append-nil h
  after_kind node (some i) s h = emit-Refines (record { node = node; kind = i }) s h

  note-Refines :
      (node : ℕ) (slot : Option ℕ) (t : Transition) {es rs : List LifecycleEvent}
      (s : EventState ch)
      → Refines es rs s
      → Refines (es ++ event_of node (kind_of t)) rs (note ch node slot t s)
  unfolding note store_crumb
  note-Refines node slot t s h =
      after_kind node (kind_of t) _ (record { lost = h.lost; log = h.log; counted = h.counted })

  after_receive :
      {es rs : List LifecycleEvent} (s : EventState ch) (o : Option (LifecycleEvent × ch.Queue))
      → ch.try_receive s.queue ≡ o
      → Refines es rs s
      → let r : EventState ch × Option LifecycleEvent = elim o [
        | none ↦ (s, none)
        | some (ev, q) ↦ (record s { queue = q }, some ev)
      ] in
        Refines es (rs ++ with_event r.1 []) r.0
  after_receive s none e h = rw append-nil h
  after_receive {es} {rs} s (some (ev, q)) e h = record {
    lost = h.lost;
    log = delivers ev (
        subst (λ (p : List LifecycleEvent). Lossy ch.capacity es rs p h.lost)
          (ch.receive_oldest ev s.queue q e) h.log);
    counted = h.counted;
  }

  wait-Refines :
      {es rs : List LifecycleEvent} (s : EventState ch)
      → Refines es rs s
      → Refines es (rs ++ with_event (try_wait_lifecycle ch s).1 []) (try_wait_lifecycle ch s).0
  unfolding try_wait_lifecycle
  wait-Refines s h = after_receive s (ch.try_receive s.queue) refl h

  with_event-append :
      (o : Option LifecycleEvent) (evs : List LifecycleEvent)
      → with_event o [] ++ evs ≡ with_event o evs
  with_event-append none evs = refl
  with_event-append (some ev) evs = refl

  calls-Refines :
      (cs : List Call) {es rs : List LifecycleEvent} (s : EventState ch)
      → Refines es rs s
      → Refines (es ++ emitted cs) (rs ++ (calls ch cs s).1) (calls ch cs s).0
  unfolding calls
  calls-Refines [] s h = rw (append-nil, append-nil) h
  calls-Refines (notes node slot t ∷ cs) s h =
      rw append_assoc at (calls-Refines cs (note ch node slot t s) (note-Refines node slot t s h))
  calls-Refines (sets_sink ∷ cs) s h =
      calls-Refines cs _ (record { lost = h.lost; log = h.log; counted = h.counted })
  calls-Refines (waits ∷ cs) s h =
      let (s', got) = try_wait_lifecycle ch s in
      rw⁻¹ (with_event-append got (calls ch cs s').1)
        (rw append_assoc at (calls-Refines cs s' (wait-Refines s h)))

-- What a client of the events may rely on.
pub record Delivers (ch : Channel LifecycleEvent) (cs : List Call) : Type 0 where
  pub lost : ℕ
  pub counted : (calls ch cs (first_state ch)).0.dropped ≡ lost % 2 ^ 32
  pub log :
      Lossy ch.capacity
        (emitted cs)
        (calls ch cs (first_state ch)).1
        (ch.contents (calls ch cs (first_state ch)).0.queue)
        lost
  pub in_order :
      Within
        ((calls ch cs (first_state ch)).1 ++ ch.contents (calls ch cs (first_state ch)).0.queue)
        (emitted cs)
  pub complete :
      length (emitted cs)
      ≡ length (calls ch cs (first_state ch)).1
        + length (ch.contents (calls ch cs (first_state ch)).0.queue)
        + lost

-- Over any bounded first-in first-out channel, and for any sequence of notes and receives, the
-- queue with its counter refines a log that loses an event only while the channel is full: what
-- was received, with what is still queued behind it, are emitted events in the order of their
-- emission; every emitted event is received, queued or lost; and the counter is the number of lost
-- ones, on 32 bits.
pub calls-Delivers : (ch : Channel LifecycleEvent) (cs : List Call) → Delivers ch cs
unfolding first_state
calls-Delivers ch cs =
    let start : Refines ch [] [] (first_state ch) = record {
      lost = 0;
      log =
          subst (λ (p : List LifecycleEvent). Lossy ch.capacity [] [] p 0) (sym ch.new_empty)
            nothing;
      counted = refl;
    } in
    let end = calls-Refines ch cs (first_state ch) start in
    record {
      lost = end.lost;
      counted = end.counted;
      log = end.log;
      in_order = Lossy-Within ch.capacity end.log;
      complete = Lossy-length ch.capacity end.log;
    }
