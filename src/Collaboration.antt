-- ===== src/Collaboration.antt =====
-- Facts that a family proposes and an advisor confirms (collaboration/).
pub mod Models
pub mod Policy
pub mod Scopes
pub mod Facts
pub mod Months
