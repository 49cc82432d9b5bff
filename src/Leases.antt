-- ===== src/Leases.antt =====
-- The lease and its life: the functions on app.agent_tasks of migrations/versions/, as they stand
-- after the last revision.
pub mod Status
pub mod Rows
pub mod Calls
pub mod Claim
pub mod Finalize
pub mod Steps
pub mod Effects
pub mod Places
pub mod Ledger
pub mod Accounts
pub mod Journal
pub mod Invariant
pub mod Fencing
pub mod Failures
pub mod Lifecycle
pub mod Abandoned
pub mod Bounds
