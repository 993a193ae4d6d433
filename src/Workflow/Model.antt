-- ===== src/Workflow/Model.antt =====
-- internal/workflow/model.go: the vocabulary, the Snapshot, the Events and the Actions.
-- An enumeration over strings has the source's constants and `unset`, the empty string.
pub mod Vocabulary
pub mod Snapshots
pub mod Events
pub mod Actions
