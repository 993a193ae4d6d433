-- ===== src/Collaboration.antt =====
-- internal/collaboration: the question rounds, human inputs and planning checkpoints of a Work Item.
pub mod Model
pub mod Evidence
pub mod References
pub mod Rounds
pub mod Planning
pub mod Inputs
pub mod Interpreting
pub mod Paging
pub mod Laws
pub mod History
pub mod Examples
