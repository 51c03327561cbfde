-- ===== src/Lib.antt =====
-- The supervisor of embassy tasks (supervisor/src): a graph of task nodes is started in the order
-- of its dependencies, watched, and stopped against that order.
--
-- The parts and the files that model them:
--   * Topology: `topo_sort_const` of supervisor/src/lib.rs, which orders a graph at compile time.
--   * Node: one node. Flags is the word of flag bits, Faults the injected faults, State the
--     records `TaskHandle` and `NodeCfg` with the shared latches, Task the methods of `TaskNode`,
--     Liveness the beats and the monitor's visit, Futures the polls that drive a task's body.
--     Wedge, Injection, Clock and Futures/Looks hold proofs about them.
--   * Monitor: the sweeps of `Supervisor::monitor`, as the visits of one node.
--   * Lifecycle: transitions and faults; Crumb is the breadcrumb word, and Events the queue of
--     lifecycle events over a channel of another crate, which is an interface.
--   * Stop: `Supervisor::stop_wave`, with its proofs by what they show: Order, Progress, Down,
--     Ends, Faults.
--   * Start: `Supervisor::start_nodes`, with its proof rule in Rule; Order, Progress, Handled and
--     Result hold the proofs.
--   * Control: `seed`, `collect_dependents`, `deactivate`, and the passes of `activate`, on the
--     stop wave. Closure, Down, Held and Revival hold the proofs.
--   * Restart: the restart budget and the choices of `Supervisor::restart`.
--   * Verbs: `activate` and `restart` over both waves, with its proofs in Cycle.
--   * Single: the verbs on one node, `start_node`, `stop_node`, `resume_node`, `resume_pausable`.
--     Alone holds the proof that a stop wave over one node is `stop_node`, Ends what a start ends
--     in, Resume that `resume_pausable` is `resume_node` at each slot.
--   * Bind: `Supervisor::apply_bind`. Starved and Down hold the proofs.
--   * Driver: `start`, `teardown`, `respawn_terminate`, `drive_pools`, and sequences of the verbs
--     as `run_driver_inner` performs them, one behind the other. Verbs, Cycle and Pools take a
--     held node through one verb each, Sticks through a sequence, and Stopped puts a deactivation
--     before it.
--   * Budget: supervisor/src/budget.rs, a divisible resource and its policies.
--   * Veto: supervisor/src/veto.rs. Pool: supervisor/src/pool.rs.
--   * Leased: supervisor/src/data_deps/leased.rs, as clients and a producer that interleave. Word
--     is its arithmetic, Count the invariant, Drained and Finish hold the proofs.
--   * Backed: supervisor/src/data_deps/backed.rs with `open` of gated.rs, as readers and a
--     producer that interleave. Moves and Turns are single steps of a reader and of the producer,
--     Readers is the invariant, Retired holds the proofs.
--   * Slots: `ResourceSlot` and `SpawnerSlot` of supervisor/src/lib.rs, and the task shells that
--     use a resource; Owner holds the proof.
--   * Base: shared names, tests, lists and tables. Examples: runs at concrete inputs.
--
-- How the code is read. A method of a node is a function from its state to its state; a latch
-- (`Signal`) is a Boolean that a signal sets and a completed wait takes. Every feature of the
-- crate is on, and logging is left out. A node is its slot in the graph, so an array over slots
-- is a function of the slot. Where other tasks can run between two atomic accesses of a method,
-- the model has an argument for what they do there: `Gaps` of an acknowledgement, `meanwhile` of
-- a rebalance, and the `change` of a tick of a wave, a look of the monitor or a wait of a verb.
-- Times are ticks or milliseconds; stamps keep 32 bits as in the code, with the wrap written out.
-- A panic of an indexed access is `none`, and a failed `expect` of the wave is the outcome
-- `panicked`.
--
-- Leased and Backed take the atomic accesses as sequentially consistent. In Backed, nobody but
-- the producer's own task sets its readiness, or also the monitor where the producer is
-- `ready_on_write`, and the graph declares a writer for the signal.
--
-- A `Duration` of embassy-time is how it was made, in ticks or in milliseconds; its reading in
-- milliseconds and the test for equality depend on the tick rate of the build and are parameters.
--
-- A start wave's gates, resource slots and executors are readings that each round is given.
--
-- Fuel. The sort's loop takes one unit for each node that leaves its queue, and `n` are enough
-- since each slot enters it once. A wave runs over the list of ticks that it is given, and is
-- still going on where they run out: each slot costs it at most two turns that come at the deadline
-- which it slept for, whatever other turns lie between.
--
-- Not modelled: the overlap of `run_binds` with the control verbs, `SpawnerSlot::ready`,
-- `producer_of`, trace hooks, stamped values, and the typed wrappers of the data flow; and the
-- macros, the parser, the tools and the firmware, which generate code, read text or drive hardware.
-- The claims of a node are kept beside it, apart from the budgets' cells.
mod Base
pub mod Topology
pub mod Node
pub mod Monitor
pub mod Lifecycle
pub mod Stop
pub mod Budget
pub mod Veto
pub mod Slots
pub mod Pool
pub mod Control
pub mod Restart
pub mod Start
pub mod Verbs
pub mod Single
pub mod Backed
pub mod Bind
pub mod Driver
pub mod Leased
mod Examples
