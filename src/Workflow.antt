-- ===== src/Workflow.antt =====
-- internal/workflow: the Workflow Definition, the Snapshot of a Work Item, the Events, and the
-- Reducer that applies an Event to a Snapshot.
pub mod Model
pub mod Definition
pub mod Validation
pub mod Reducer
pub mod Laws
pub mod Interruptions
pub mod Scenarios
pub mod Runs
pub mod Examples
