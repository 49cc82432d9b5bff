-- ===== src/Decision.antt =====
-- The decision component (decision/): a family's decision on a brief, and its timeline.
pub mod Models
pub mod Intake
pub mod Policy
pub mod Application
pub mod Schedule
pub mod Choice
pub mod Recording
pub mod Brief
