-- ===== src/Examples.antt =====
-- Runs of the model at concrete inputs.
mod Graphs
mod Waves
mod Budgets
mod Nodes
mod Pools
mod Starts
mod Verbs
mod Restarts
mod Singles
mod Leases
mod Drives
mod Events
mod Gates
mod Owners
