-- ===== src/Tasks.antt =====
-- The task component (tasks/ and the adapter protocol of adapters/).
pub mod Models
pub mod Adapter
pub mod Json
pub mod Policy
pub mod Outcomes
pub mod Payload
pub mod Pins
pub mod Evaluated
pub mod Turns
pub mod Worker
pub mod Closing
pub mod Finalizing
pub mod Retrying
pub mod Runtime
pub mod Deterministic
pub mod Materialized
pub mod Streaming
pub mod Ordering
