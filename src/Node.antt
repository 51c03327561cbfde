-- ===== src/Node.antt =====
-- One node of the graph (supervisor/src/lib.rs, `TaskNode` and `TaskHandle`): its flag word, its
-- wake latches and counters, and the methods of the task's and of the supervisor's side.
pub mod Flags
pub mod Faults
pub mod State
pub mod Task
pub mod Liveness
pub mod Wedge
pub mod Clock
pub mod Injection
pub mod Futures
