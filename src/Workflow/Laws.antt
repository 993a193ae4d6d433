-- ===== src/Workflow/Laws.antt =====
-- What the handlers of internal/workflow/reducer.go have in common.
pub mod Lawful
pub mod FailureLaws
pub mod TriggerLaws
pub mod ClosingLaws
pub mod ObservationLaws
pub mod RevalidationLaws
pub mod SettlementLaws
pub mod ReduceLaws
pub mod AppliedCases
pub mod Contract
pub mod Fencing
pub mod Incompatible
pub mod Retention
pub mod Retries
pub mod Admission
pub mod Beginning
pub mod Starting
pub mod Deferral
pub mod Totality
pub mod CheckTotality
pub mod SettlementTotality
pub mod Readiness
pub mod ReadyEvents
pub mod ReadyIntents
pub mod UnmarkingLaws
pub mod ReadyEntry
pub mod History
