-- ===== src/FactAuthority.antt =====
-- The facts of a case in the database: the functions `propose_memory_candidate` and
-- `verify_memory_candidate` of migrations/versions/0007_conversation_and_memory.py and
-- 0017_controlled_intake_revision.py.
pub mod Rows
pub mod Values
pub mod Propose
pub mod Blocks
pub mod Verify
pub mod Confirm
pub mod Steps
pub mod Chain
pub mod Proposals
pub mod Effects
pub mod History
pub mod Refs
pub mod Invariant
