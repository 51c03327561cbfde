-- ===== src/Node/Wedge.antt =====
-- An acknowledgement that a wedge holds back is delivered when the wedge is cleared, however the
-- clearing task interleaves with the acknowledging one (supervisor/src/lib.rs, `wedge_swallows`,
-- `clear_fault`, `replay_swallowed`).
use embassy_supervisor.Base.{
  ◌≡◌, refl, sym, ap₂, fun_ext, subst, ℕ, [], ◌∷◌, if◌then◌else◌, Bool, true, false, arith,
}
use embassy_supervisor.Node.Flags.{
  Flag, Flags, flag_clear, shutdown, dropped, running, completed, disabled, pending_ack,
  pending_exit,
}
use embassy_supervisor.Node.Faults.{decode}
use embassy_supervisor.Node.State.{NodeCfg, Site}
use embassy_supervisor.Node.Task.{
  has_flag, on_handle, Interference, Gaps, undisturbed, ack_dropped, mark_exited, swap_fault,
  replay_swallowed, wake_fault, clear_fault,
}

-- Where the two atomic accesses of `clear_fault`, its store of the fault and its replay, fall among
-- the gaps of an acknowledgement: both at one place, or at two places in order.
pub data Schedule : Type 0 where
  both_before store_before both_before_set set_then_reread set_then_take set_then_after : Schedule
  both_before_reread reread_then_take reread_then_after both_after : Schedule

-- The replay, and what follows it.
abbrev replay : Interference
replay s = wake_fault (replay_swallowed s)

abbrev gaps : (before_set before_reread before_take : Interference) → Gaps
gaps f g h = record { before_set = f; before_reread = g; before_take = h }

abbrev calm : Interference
calm s = s

-- An acknowledgement under the schedule.
abbrev pub raced : Schedule → (Gaps → Site → Site) → Site → Site
raced both_before ack s = ack undisturbed (clear_fault s)
raced store_before ack s = replay (ack undisturbed (swap_fault s))
raced both_before_set ack s = ack (gaps clear_fault calm calm) s
raced set_then_reread ack s = ack (gaps swap_fault replay calm) s
raced set_then_take ack s = ack (gaps swap_fault calm replay) s
raced set_then_after ack s = replay (ack (gaps swap_fault calm calm) s)
raced both_before_reread ack s = ack (gaps calm clear_fault calm) s
raced reread_then_take ack s = ack (gaps calm swap_fault replay) s
raced reread_then_after ack s = replay (ack (gaps calm swap_fault calm) s)
raced both_after ack s = clear_fault (ack undisturbed s)

-- A wedged node with nothing held back yet.
pub record IsWedged (s : Site) : Type 0 where
  pub wedged : s.handle.fault ≡ 2
  pub no_ack : has_flag pending_ack s.handle ≡ false
  pub no_exit : has_flag pending_exit s.handle ≡ false

-- What a delivered acknowledgement looks like: the node is down and dropped, its waiter is woken,
-- nothing is left pending or injected, and all other flags are those of `s`.
pub record IsDelivered (s t : Site) (exited : Bool) : Type 0 where
  pub is_dropped : has_flag dropped t.handle ≡ true
  pub not_running : has_flag running t.handle ≡ false
  pub exit_recorded :
      has_flag completed t.handle ≡ (if exited then true else has_flag completed s.handle)
  pub nothing_pending :
      (has_flag pending_ack t.handle ≡ false) × (has_flag pending_exit t.handle ≡ false)
  pub shutdown_kept : has_flag shutdown t.handle ≡ has_flag shutdown s.handle
  pub disabled_kept : has_flag disabled t.handle ≡ has_flag disabled s.handle
  pub woken : (t.handle.dropped_wake ≡ true) × (t.events.stop_evt ≡ true)
  pub fault_gone : t.handle.fault ≡ 0

-- The site with its code of a wedge and its clear pending bits written out, so that the reads of
-- the fault and of the pending bits compute.
abbrev with_wedge : Site → Site
with_wedge s =
    on_handle
      (λ h. record h { fault = 2; flags = flag_clear (pending_ack ∷ pending_exit ∷ []) h.flags }) s

flag_clear-clear :
    (w : Flags)
    → w pending_ack ≡ false
    → w pending_exit ≡ false
    → (b : Flag) → flag_clear (pending_ack ∷ pending_exit ∷ []) w b ≡ w b
flag_clear-clear w h k pending_ack = sym h
flag_clear-clear w h k pending_exit = sym k
flag_clear-clear w h k _ = refl

with_wedge-eq : (s : Site) → IsWedged s → with_wedge s ≡ s
with_wedge-eq s w =
    ap₂ (λ (f : ℕ) (v : Flags). on_handle (λ h. record h { fault = f; flags = v }) s) (sym w.wedged)
      (fun_ext (flag_clear-clear s.handle.flags w.no_ack w.no_exit))

module _ (cfg : NodeCfg) (s : Site) where
  ack-IsDelivered :
      (c : Schedule)
      → IsDelivered (with_wedge s) (raced c (λ g. ack_dropped g cfg) (with_wedge s)) false
  unfolding ack_dropped clear_fault decode
  ack-IsDelivered both_before = ground arith
  ack-IsDelivered _ = ground arith

  exit-IsDelivered :
      (c : Schedule)
      → IsDelivered (with_wedge s) (raced c (λ g. mark_exited g cfg) (with_wedge s)) true
  unfolding mark_exited clear_fault decode
  exit-IsDelivered both_before = ground arith
  exit-IsDelivered _ = ground arith

-- The node is wedged and holds nothing back. Under every interleaving with `clear_fault` the
-- acknowledgement of a stop is delivered, and leaves no pending bit for the next instance.
ack_dropped-IsDelivered :
    (c : Schedule) (cfg : NodeCfg) (s : Site)
    → IsWedged s
    → IsDelivered s (raced c (λ g. ack_dropped g cfg) s) false
ack_dropped-IsDelivered c cfg s w =
    subst (λ (t : Site). IsDelivered t (raced c (λ g. ack_dropped g cfg) t) false)
      (with_wedge-eq s w) (ack-IsDelivered cfg s c)

-- The node is wedged and holds nothing back. Under every interleaving with `clear_fault` the exit
-- of its task is recorded and delivered, and leaves no pending bit for the next instance.
mark_exited-IsDelivered :
    (c : Schedule) (cfg : NodeCfg) (s : Site)
    → IsWedged s
    → IsDelivered s (raced c (λ g. mark_exited g cfg) s) true
mark_exited-IsDelivered c cfg s w =
    subst (λ (t : Site). IsDelivered t (raced c (λ g. mark_exited g cfg) t) true)
      (with_wedge-eq s w) (exit-IsDelivered cfg s c)

-- The node is wedged and holds nothing back. Under every interleaving with `clear_fault` the
-- acknowledgement of a stop is delivered, and so is the exit of the task, which is recorded; either
-- leaves no pending bit for the next instance.
pub task_end-IsDelivered :
    (c : Schedule) (cfg : NodeCfg) (s : Site)
    → IsWedged s
    → IsDelivered s (raced c (λ g. ack_dropped g cfg) s) false
      × IsDelivered s (raced c (λ g. mark_exited g cfg) s) true
task_end-IsDelivered c cfg s w =
    (ack_dropped-IsDelivered c cfg s w, mark_exited-IsDelivered c cfg s w)
