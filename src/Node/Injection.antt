-- ===== src/Node/Injection.antt =====
-- What an injected fault does to an acknowledgement that a wedge holds back (supervisor/src/lib.rs,
-- `TaskNode::inject`).
use embassy_supervisor.Base.{
  ℕ, ◌≡◌, ◌∙◌, refl, true, false, ◌||◌, none, arith, inl, inr, Bool-cases,
}
use embassy_supervisor.Node.Flags.{dropped, running, completed, pending_ack, pending_exit}
use embassy_supervisor.Node.Faults.{
  Fault, healthy, stall, wedge, crash, hog, encode, decode, is_wedge, is_healthy, cut_hog,
  decode-cut_hog, Duration,
}
use embassy_supervisor.Node.State.{NodeCfg, Site}
use embassy_supervisor.Node.Task.{
  has_flag, on_handle, current_fault, inject, clear_fault, swap_fault, wake_fault, replay_swallowed,
  settle_dropped,
}

-- Nothing is pending in `t`, and what was held back in `s` is delivered: the node is down and
-- dropped, its waiters are woken, and it counts as exited if an exit was held back.
pub record IsReplayed (s t : Site) : Type 0 where
  pub no_ack : has_flag pending_ack t.handle ≡ false
  pub no_exit : has_flag pending_exit t.handle ≡ false
  pub delivered :
      has_flag pending_ack s.handle ≡ true
      → (has_flag dropped t.handle ≡ true)
        × (has_flag running t.handle ≡ false)
        × (has_flag completed t.handle
            ≡ (has_flag pending_exit s.handle || has_flag completed s.handle))
        × (t.handle.dropped_wake ≡ true)
        × (t.events.stop_evt ≡ true)

replay-IsReplayed : (s : Site) → IsReplayed s (wake_fault (replay_swallowed s))
unfolding wake_fault replay_swallowed settle_dropped
replay-IsReplayed s = elim (Bool-cases (has_flag pending_ack s.handle)) [
  | inl held ↦ elim (Bool-cases (has_flag pending_exit s.handle)) [
    | inl out ↦ record {
      no_ack = rw (held, out) refl;
      no_exit = rw (held, out) refl;
      delivered = λ _. rw (held, out) (refl, refl, refl, refl, refl);
    }
    | inr in_place ↦ record {
      no_ack = rw (held, in_place) refl;
      no_exit = rw (held, in_place) refl;
      delivered = λ _. rw (held, in_place) (refl, refl, refl, refl, refl);
    }
  ]
  | inr free ↦ record {
    no_ack = rw free refl;
    no_exit = rw free refl;
    delivered = λ h. absurd (ground (arith, h, free));
  }
]

replay-fault :
    (s : Site) → current_fault (wake_fault (replay_swallowed s)).handle ≡ current_fault s.handle
unfolding wake_fault replay_swallowed settle_dropped current_fault
replay-fault s = elim (Bool-cases (has_flag pending_ack s.handle)) [
  | inr free ↦ rw free refl
  | inl held ↦ elim (Bool-cases (has_flag pending_exit s.handle)) [
    | inl out ↦ rw (held, out) refl
    | inr in_place ↦ rw (held, in_place) refl
  ]
]

cleared-IsReplayed :
    (s : Site) → (current_fault (clear_fault s).handle ≡ healthy) × IsReplayed s (clear_fault s)
unfolding clear_fault swap_fault
cleared-IsReplayed s =
    let stored : Site = on_handle (λ h. record h { fault = 0 }) s in
    let q = replay-IsReplayed stored in
    (
      replay-fault stored ∙ unfold current_fault decode in refl,
      record { no_ack = q.no_ack; no_exit = q.no_exit; delivered = q.delivered },
    )

module _ (as_millis : Duration → ℕ) where
  abbrev store : Fault → Site → Site
  store f s =
      on_handle (λ h. record h { hog_ms = (encode as_millis f).1; fault = (encode as_millis f).0 })
        s

  -- A fault that is stored is the one that is read behind the replay.
  stored-IsReplayed :
      (f : Fault) (s : Site)
      → let t = wake_fault (replay_swallowed (store f s)) in
        (current_fault t.handle ≡ cut_hog as_millis f) × IsReplayed s t
  unfolding current_fault
  stored-IsReplayed f s =
      let q = replay-IsReplayed (store f s) in
      (
        replay-fault (store f s) ∙ decode-cut_hog as_millis f,
        record { no_ack = q.no_ack; no_exit = q.no_exit; delivered = q.delivered },
      )

  inject_stores :
      (cfg : NodeCfg) (f : Fault) (s : Site)
      → is_healthy f ≡ false
      → is_wedge f ≡ false
      → (inject as_millis cfg f s).1 ≡ none
      → (inject as_millis cfg f s).0 ≡ wake_fault (replay_swallowed (store f s))
  unfolding inject
  inject_stores cfg f s ill other accepted = elim (Bool-cases cfg.shelled) [
    | inl shell ↦ rw (ill, other, shell) refl
    | inr bare ↦ absurd (ground (arith, accepted, ill, other, bare))
  ]

  -- An accepted injection of anything but a wedge leaves that fault, a hog bound cut to its whole milliseconds and to 32 bits, and
  -- nothing pending; it delivers an acknowledgement or exit that was held back.
  pub inject-IsReplayed :
      (cfg : NodeCfg) (f : Fault) (s : Site)
      → is_wedge f ≡ false
      → (inject as_millis cfg f s).1 ≡ none
      → (current_fault (inject as_millis cfg f s).0.handle ≡ cut_hog as_millis f)
        × IsReplayed s (inject as_millis cfg f s).0
  unfolding inject
  inject-IsReplayed cfg healthy s other accepted = cleared-IsReplayed s
  inject-IsReplayed cfg stall s other accepted =
      rw (inject_stores cfg stall s refl refl accepted) (stored-IsReplayed stall s)
  inject-IsReplayed cfg crash s other accepted =
      rw (inject_stores cfg crash s refl refl accepted) (stored-IsReplayed crash s)
  inject-IsReplayed cfg (hog d) s other accepted =
      rw (inject_stores cfg (hog d) s refl refl accepted) (stored-IsReplayed (hog d) s)
  inject-IsReplayed cfg wedge s other accepted = absurd (ground (arith, other))
