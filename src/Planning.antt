-- ===== src/Planning.antt =====
-- The planning component (src/night_voyager/planning).
pub mod Enums
pub mod Models
pub mod Scope
pub mod Budget
pub mod Contract
pub mod Provenance
pub mod Routes
pub mod Policy
pub mod ScopeLaws
pub mod Admission
pub mod Recommendation
pub mod Transitions
pub mod Lifecycle
pub mod Authority
pub mod Report
pub mod Affordability
pub mod Totality
pub mod MixedBaseline
pub mod Frozen
pub mod Rows
pub mod Materialize
