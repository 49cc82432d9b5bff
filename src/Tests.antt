-- ===== src/Tests.antt =====
-- Concrete inputs, the theorems at those inputs, and runs of the model.
mod Golden
mod Planning
mod Lifecycle
mod Tasks
mod Decision
mod Timeline
mod Worker
mod Collaboration
mod Materialized
mod Streaming
mod Leases
mod TimelineAuthority
mod FactAuthority
