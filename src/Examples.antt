-- ===== src/Examples.antt =====
-- Concrete inputs at which the theorems are applied: a job of each kind, requests and messages, and
-- the runs of the service on them.
pub mod Samples
pub mod Worlds
mod Loops
mod Requests
mod Reports
mod Ownership
mod Stops
mod Calls
mod Chains
mod Commands
