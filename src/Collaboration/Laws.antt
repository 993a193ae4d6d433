-- ===== src/Collaboration/Laws.antt =====
-- The proofs about the operations of internal/collaboration.
pub mod Naming
pub mod Sound
pub mod RoundSound
pub mod InputSound
pub mod PlanKeeps
pub mod PlanSound
pub mod Following
pub mod Replies
pub mod Freezing
pub mod Deliveries
pub mod Recording
pub mod Resolved
pub mod Confirming
pub mod Validated
