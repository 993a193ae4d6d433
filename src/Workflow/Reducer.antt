-- ===== src/Workflow/Reducer.antt =====
-- internal/workflow/reducer.go: one handler for each Event, the dispatch, and Reduce. The source
-- clones the Snapshot before it changes it; here a Snapshot is a value.
pub mod Basics
pub mod Failures
pub mod Triggering
pub mod Developing
pub mod Reviewing
pub mod Settling
pub mod Revalidating
pub mod Observing
pub mod Closing
pub mod Step
pub mod Compatibility
