-- ===== src/Workflow/Validation.antt =====
-- internal/workflow/validation.go: what the Reducer asks of an Event and of a Snapshot.
pub mod Parts
pub mod EventCheck
pub mod AssignmentCheck
pub mod SnapshotCheck
pub mod SnapshotRun
