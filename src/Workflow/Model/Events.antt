-- ===== src/Workflow/Model/Events.antt =====
-- The Events of internal/workflow/model.go. `foreign` stands for an Event value that is none of the
-- listed types, such as nil.
use omnigrex.Prelude.{ℕ, ℤ, String, Time, Bool, Option}
use omnigrex.Workflow.Model.Vocabulary.{Role, StageId, TurnOutcome, Reason}
use omnigrex.Workflow.Model.Snapshots.{WorkItem, TurnGuard, ChangeProposal, ReviewIdentity}

pub record EventMetadata : Type 0 where
  pub id : String
  pub observed_at : Time
  pub work_item : WorkItem
  pub expected_revision : ℕ

pub record TriggerEvent : Type 0 where
  pub planning_completed : Bool
  pub planning_only : Bool
  pub metadata : EventMetadata
  pub attempt_id : String
  pub attempt_number : ℕ
  pub prior_terminal_turn_id : String
  pub prior_terminal_stage : StageId
  pub prior_terminal_role : Role
  pub prior_terminal_control_blocked : Bool
  pub prior_terminal_expected_head_sha : String

pub record PendingEventsObservation : Type 0 where
  pub count : ℕ
  pub requires_reconciliation : Bool
  pub latest_observed_head_sha : String

pub record TurnSettledEvent : Type 0 where
  pub publication_association : Option ChangeProposal
  pub metadata : EventMetadata
  pub turn : TurnGuard
  pub outcome : TurnOutcome
  pub change_proposal : Option ChangeProposal
  pub review : Option ReviewIdentity
  pub existing_review : Option ReviewIdentity
  pub authorized_reviewer_actor_id : ℤ
  pub human_input_pending : Bool
  pub pending_events : PendingEventsObservation
  pub diagnostic : String
  pub corroboration_handoff_reason : Reason

pub record TerminalIntentRevalidatedEvent : Type 0 where
  pub human_input_pending : Bool
  pub metadata : EventMetadata
  pub attempt_id : String
  pub source_turn : TurnGuard
  pub outcome : TurnOutcome
  pub change_proposal : Option ChangeProposal
  pub review : Option ReviewIdentity
  pub existing_review : Option ReviewIdentity
  pub authorized_reviewer_actor_id : ℤ

pub record TerminalRevalidationFailedEvent : Type 0 where
  pub metadata : EventMetadata
  pub attempt_id : String
  pub source_turn_id : String
  pub reason : Reason
  pub diagnostic : String

pub record SynchronizationEvent : Type 0 where
  pub metadata : EventMetadata
  pub change_proposal_id : ℤ
  pub previous_head_sha : String
  pub head_sha : String

pub record ReviewObservedEvent : Type 0 where
  pub metadata : EventMetadata
  pub review : ReviewIdentity

pub record ChangeProposalObservedEvent : Type 0 where
  pub metadata : EventMetadata
  pub change_proposal : ChangeProposal

pub record IssueClosedEvent : Type 0 where
  pub metadata : EventMetadata
  pub closure_id : String
  pub retain_until : Time
  pub retention_token : String

pub record ClosureSettledEvent : Type 0 where
  pub metadata : EventMetadata
  pub closure_id : String
  pub turn : Option TurnGuard
  pub assignments_exist : Bool

pub record IssueReopenedEvent : Type 0 where
  pub metadata : EventMetadata

pub record AssignmentsCollectedEvent : Type 0 where
  pub metadata : EventMetadata
  pub retention_token : String
  pub retain_until : Time
  pub collected_at : Time

pub record AssignmentConfigurationConflictEvent : Type 0 where
  pub metadata : EventMetadata
  pub role : Role

pub record AgentTurnPreparationFailedEvent : Type 0 where
  pub metadata : EventMetadata
  pub role : Role
  pub diagnostic : String
  pub assignments_exist : Bool

pub record AgentTurnMutationReconciliationExhaustedEvent : Type 0 where
  pub metadata : EventMetadata
  pub role : Role
  pub diagnostic : String

pub record WorkflowActionExhaustedEvent : Type 0 where
  pub metadata : EventMetadata
  pub resume_role : Role
  pub diagnostic : String

pub data Event : Type 0 where
  trigger : TriggerEvent → Event
  turn_settled : TurnSettledEvent → Event
  terminal_intent_revalidated : TerminalIntentRevalidatedEvent → Event
  terminal_revalidation_failed : TerminalRevalidationFailedEvent → Event
  synchronization : SynchronizationEvent → Event
  review_observed : ReviewObservedEvent → Event
  change_proposal_observed : ChangeProposalObservedEvent → Event
  issue_closed : IssueClosedEvent → Event
  closure_settled : ClosureSettledEvent → Event
  issue_reopened : IssueReopenedEvent → Event
  assignments_collected : AssignmentsCollectedEvent → Event
  assignment_configuration_conflict : AssignmentConfigurationConflictEvent → Event
  agent_turn_preparation_failed : AgentTurnPreparationFailedEvent → Event
  agent_turn_mutation_reconciliation_exhausted :
      AgentTurnMutationReconciliationExhaustedEvent → Event
  workflow_action_exhausted : WorkflowActionExhaustedEvent → Event
  foreign : Event
