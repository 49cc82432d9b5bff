-- ===== src/TimelineAuthority.antt =====
-- The execution of a timeline in the database: the functions of
-- migrations/versions/0014_timeline_execution_authority.py.
pub mod Rows
pub mod Gate
pub mod Writes
pub mod Start
pub mod Attest
pub mod Verify
pub mod Reassess
pub mod Passed
pub mod Steps
pub mod Effects
pub mod Lines
pub mod Moves
pub mod Kept
pub mod Standing
pub mod Invariant
pub mod Read
pub mod Actions
pub mod Agreement
pub mod Calls
pub mod Replays
pub mod Recording
pub mod Again
