-- ===== src/Control.antt =====
-- The control verbs (supervisor/src/lib.rs, `Supervisor::seed`, `collect_dependents`, `deactivate`
-- and `activate`): which slots a verb reaches, and what it does to their flags. A node is its slot,
-- and one outside the graph is a slot that is not occupied.
pub mod Closure
pub mod Down
pub mod Held
pub mod Revival
use embassy_supervisor.Base.{
  ℕ, ltb, if◌then◌else◌, Bool, true, false, ◌&&◌, ◌||◌, not, List, [], ◌∷◌, any, contains, update,
}
use embassy_supervisor.Node.Flags.{running, disabled, detached, collateral, flag_put}
use embassy_supervisor.Node.State.{is_on_demand, NodeCfg, TaskHandle, Site}
use embassy_supervisor.Node.Task.{has_flag, set_flags, clear_flags, on_handle}
use embassy_supervisor.Stop.{Plan, Wave, Tick, Outcome, each, backwards, run, start_wave}

-- A graph, its pools, and the shape bits that the verbs test.
pub record Graph : Type 0 where
  pub n : ℕ
  pub deps : ℕ → List ℕ
  pub order : List ℕ
  pub cfg : ℕ → NodeCfg
  pub occupied : ℕ → Bool
  pub pools : List (List ℕ)
  pub has_pools : Bool
  pub has_on_demand : Bool
  pub has_claims : Bool

abbrev pub set_disabled : Bool → TaskHandle → TaskHandle
set_disabled on h = record h { flags = flag_put disabled on h.flags }

-- The chosen slots of a stop, with the sites as the choice left them.
pub record Selection : Type 0 where
  pub sites : ℕ → Site
  pub chosen : ℕ → Bool

-- The state of the pass of `activate` that frees collateral nodes.
pub record Sweep : Type 0 where
  pub sites : ℕ → Site
  pub held : ℕ → Bool
  pub revive : ℕ → Bool

module _ (g : Graph) where
  open g use {n, deps, order, cfg, occupied, pools, has_pools, has_on_demand, has_claims}

  -- The slot is set if it is one of the graph's: `if let Some(i) = self.index_of(m)`.
  unfoldable pub seed_one : ℕ → (ℕ → Bool) → ℕ → Bool
  seed_one i set = if ltb i n && occupied i then update set i true else set

  unfoldable pub seed_pools : ℕ → List (List ℕ) → (ℕ → Bool) → ℕ → Bool
  seed_pools target [] set = set
  seed_pools target (members ∷ rest) set =
      seed_pools target rest (if contains target members then each seed_one members set else set)

  unfoldable pub seed : ℕ → ℕ → Bool
  unfolding seed_one seed_pools
  seed target =
      let alone = seed_one target (λ _. false) in
      if has_pools then seed_pools target pools alone else alone

  -- Occupied, and not managing itself.
  abbrev pub is_managed : (ℕ → Site) → ℕ → Bool
  is_managed sites j = occupied j && not (has_flag detached (sites j).handle)

  unfoldable pub collect_dependent : (ℕ → Site) → ℕ → (ℕ → Bool) → ℕ → Bool
  collect_dependent sites j set =
      if set j
      then set
      else if is_managed sites j && any set (deps j)
      then update set j true
      else set

  unfoldable pub collect_dependents : (ℕ → Site) → (ℕ → Bool) → ℕ → Bool
  unfolding collect_dependent
  collect_dependents sites = each (collect_dependent sites) order

  -- `deactivate`'s choice of one slot: a seed is disabled and a dependent is collateral.
  unfoldable pub mark_down : (seeds set : ℕ → Bool) → ℕ → Selection → Selection
  mark_down seeds set j c =
      if is_managed c.sites j && set j
      then record {
        sites = update c.sites j (
            on_handle (if seeds j then set_disabled true else set_flags (collateral ∷ []))
              (c.sites j));
        chosen = update c.chosen j (has_flag running (c.sites j).handle);
      }
      else c

  -- `stop_nodes` walks the slots backwards.
  unfoldable pub select_down : (seeds set : ℕ → Bool) → (ℕ → Site) → Selection
  unfolding mark_down
  select_down seeds set sites =
      each (mark_down seeds set) (backwards order) (record { sites = sites; chosen = λ _. false })

  abbrev pub stop_plan : (ℕ → Bool) → Bool → Plan
  stop_plan chosen keep_going = record {
    n = n;
    deps = deps;
    order = order;
    cfg = cfg;
    has_claims = has_claims;
    chosen = chosen;
    keep_going = keep_going;
  }

  unfoldable pub deactivate : ℕ → List Tick → (ℕ → Site) → Wave × Outcome
  deactivate target ts sites =
      let seeds = seed target in
      let c = select_down seeds (collect_dependents sites seeds) sites in
      run (stop_plan c.chosen false) ts (start_wave c.sites)

  -- `activate` walks the slots backwards, and pulls in what a slot of the set needs.
  unfoldable pub pull_deps : (ℕ → Site) → ℕ → (ℕ → Bool) → ℕ → Bool
  pull_deps sites j set =
      if set j && not (occupied j && has_flag detached (sites j).handle)
      then each (λ d s. update s d true) (deps j) set
      else set

  unfoldable pub needed : (ℕ → Site) → ℕ → ℕ → Bool
  unfolding pull_deps
  needed sites target = each (pull_deps sites) (backwards order) (seed target)

  unfoldable pub enable_one : (ℕ → Bool) → ℕ → (ℕ → Site) → ℕ → Site
  enable_one set j sites =
      if set j && is_managed sites j
      then update sites j (on_handle (set_disabled false) (sites j))
      else sites

  -- A slot is held by a disabled node, its own or one that it depends on; a collateral one that
  -- is not blocked is freed.
  unfoldable pub sweep_one : ℕ → Sweep → Sweep
  sweep_one j w =
      if is_managed w.sites j
      then (let blocked = any w.held (deps j) in
          let frees = not blocked && has_flag collateral (w.sites j).handle in
          record {
            held = update w.held j (blocked || has_flag disabled (w.sites j).handle);
            sites =
                if frees
                then update w.sites j (on_handle (clear_flags (collateral ∷ [])) (w.sites j))
                else w.sites;
            revive =
                if frees
                then update w.revive j (not (has_flag disabled (w.sites j).handle))
                else w.revive;
          })
      else w

  unfoldable pub sweep : (ℕ → Site) → Sweep
  unfolding sweep_one
  sweep sites =
      each sweep_one order (record { sites = sites; held = λ _. false; revive = λ _. false })

  -- What `activate` leaves for its start wave.
  unfoldable pub free_and_enable : ℕ → (ℕ → Site) → Sweep
  unfolding enable_one
  free_and_enable target sites = sweep (each (enable_one (needed sites target)) order sites)

  -- The slots that the start wave is asked for.
  unfoldable pub is_startable : (ℕ → Bool) → Sweep → ℕ → Bool
  is_startable set w j =
      (set j || w.revive j)
      && is_managed w.sites j
      && not (has_flag running (w.sites j).handle)
      && not (has_flag collateral (w.sites j).handle)
      && not (has_on_demand && is_on_demand (cfg j).mode)
