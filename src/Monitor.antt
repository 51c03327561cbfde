-- ===== src/Monitor.antt =====
-- The liveness monitor over many sweeps (supervisor/src/lib.rs, `Supervisor::monitor`): the visits
-- of one node, with what happens to the node between them.
pub mod Alternation
use embassy_supervisor.Base.{ℕ, Option, none, some, List, [], ◌∷◌}
use embassy_supervisor.Node.State.{NodeCfg, Site, WriteEntry}
use embassy_supervisor.Node.Liveness.{HealthKind, visit}

-- One sweep's visit: what happened to the node since the last one, the tick, and the counters.
pub record Look : Type 0 where
  pub change : Site → Site
  pub now : ℕ
  pub writes : List WriteEntry

abbrev push : Option HealthKind → List HealthKind → List HealthKind
push none es = es
push (some e) es = e ∷ es

-- The health events that the sweeps emit about the node, in order.
unfoldable pub watch : NodeCfg → List Look → Site → List HealthKind
unfolding visit
watch cfg [] s = []
watch cfg (l ∷ ls) s =
    let (s', event) = visit cfg l.now l.writes (l.change s) in push event (watch cfg ls s')
