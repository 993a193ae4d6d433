-- ===== src/Collaboration/Planning.antt =====
-- internal/collaboration/planning.go: planning checkpoints, their confirmation and validation.
pub mod Checkpoints
pub mod Reserving
pub mod Validating
