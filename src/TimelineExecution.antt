-- ===== src/TimelineExecution.antt =====
-- The execution of a timeline (timeline_execution/): checkpoints, risk, codes and current action.
pub mod Enums
pub mod Models
pub mod Policy
pub mod Action
pub mod Risk
pub mod Snapshot
pub mod Owner
pub mod View
pub mod Activity
