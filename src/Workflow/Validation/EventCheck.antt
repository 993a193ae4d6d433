-- ===== src/Workflow/Validation/EventCheck.antt =====
-- eventDetails and validEvent of internal/workflow/validation.go.
use omnigrex.Prelude.{
  Bool, true, false, not, Option, none, some, is_nil, ◌&&◌, ◌||◌, ltb, is_positive, is_empty,
  text_eq, int_eq, int_lt, pos, is_zero_time,
}
use omnigrex.Workflow.Model.Vocabulary.{
  TurnOutcome, EventKind, is_unset_reason, is_corroboration_reason, role_planner, role_developer,
}
use omnigrex.Workflow.Model.Snapshots.{ChangeProposal, TurnGuard, ReviewIdentity}
use omnigrex.Workflow.Model.Events.{
  Event, EventMetadata, TriggerEvent, TurnSettledEvent, TerminalIntentRevalidatedEvent,
}
use omnigrex.Workflow.Definition.Stages.{Definition, contains_role}
use omnigrex.Workflow.Validation.Parts.{
  valid_work_item, valid_turn_guard, valid_change_proposal, valid_proposal, valid_review,
  valid_pending_observation,
}

unfoldable pub event_details : Event → Option (EventMetadata × EventKind)
event_details (Event.trigger e) = some (e.metadata, EventKind.trigger)
event_details (Event.turn_settled e) = some (e.metadata, EventKind.turn_settled)
event_details (Event.terminal_intent_revalidated e) =
    some (e.metadata, EventKind.terminal_intent_revalidated)
event_details (Event.terminal_revalidation_failed e) =
    some (e.metadata, EventKind.terminal_revalidation_failed)
event_details (Event.synchronization e) = some (e.metadata, EventKind.synchronization)
event_details (Event.review_observed e) = some (e.metadata, EventKind.review_observed)
event_details (Event.change_proposal_observed e) =
    some (e.metadata, EventKind.change_proposal_observed)
event_details (Event.issue_closed e) = some (e.metadata, EventKind.issue_closed)
event_details (Event.closure_settled e) = some (e.metadata, EventKind.closure_settled)
event_details (Event.issue_reopened e) = some (e.metadata, EventKind.issue_reopened)
event_details (Event.assignments_collected e) = some (e.metadata, EventKind.assignments_collected)
event_details (Event.assignment_configuration_conflict e) =
    some (e.metadata, EventKind.assignment_configuration_conflict)
event_details (Event.agent_turn_preparation_failed e) =
    some (e.metadata, EventKind.agent_turn_preparation_failed)
event_details (Event.agent_turn_mutation_reconciliation_exhausted e) =
    some (e.metadata, EventKind.agent_turn_mutation_reconciliation_exhausted)
event_details (Event.workflow_action_exhausted e) =
    some (e.metadata, EventKind.workflow_action_exhausted)
event_details Event.foreign = none

unfoldable pub valid_trigger : Definition → TriggerEvent → Bool
valid_trigger definition e =
    not (is_empty e.attempt_id)
    && ltb 0 e.attempt_number
    && (not e.prior_terminal_control_blocked || not (is_empty e.prior_terminal_turn_id))
    && (is_empty e.prior_terminal_turn_id
          && is_empty e.prior_terminal_stage
          && is_empty e.prior_terminal_role
        || not (is_empty e.prior_terminal_turn_id)
          && not (is_empty e.prior_terminal_stage)
          && contains_role definition e.prior_terminal_role)

-- The publication association of a settled Turn: nil, or the first proposal of a Developer.
unfoldable pub valid_association : TurnSettledEvent → Bool
valid_association e = elim e.publication_association [
  | none ↦ true
  | some p ↦
      valid_proposal p
      && is_empty p.ready_for_sha
      && int_eq e.turn.change_proposal_id (pos 0)
      && text_eq e.turn.role role_developer
]

-- A proposal that is absent, or valid and not marked ready.
abbrev unready_proposal : Option ChangeProposal → Bool
unready_proposal none = true
unready_proposal (some p) = valid_proposal p && is_empty p.ready_for_sha

abbrev optional_review : Option ReviewIdentity → Bool
optional_review none = true
optional_review (some r) = valid_review (some r)

-- The switch over the outcome of a settled Turn.
unfoldable pub valid_settled_outcome : TurnOutcome → TurnSettledEvent → Bool
valid_settled_outcome TurnOutcome.planning_ready e =
    is_unset_reason e.corroboration_handoff_reason
    && text_eq e.turn.role role_planner
    && is_nil e.change_proposal
    && is_nil e.review
    && is_nil e.existing_review
valid_settled_outcome TurnOutcome.change_proposal_ready e =
    is_unset_reason e.corroboration_handoff_reason
    && valid_change_proposal e.change_proposal
    && is_nil e.review
    && is_nil e.existing_review
valid_settled_outcome TurnOutcome.changes_requested e =
    is_unset_reason e.corroboration_handoff_reason
    && is_positive e.authorized_reviewer_actor_id
    && valid_change_proposal e.change_proposal
    && valid_review e.review
    && optional_review e.existing_review
valid_settled_outcome TurnOutcome.approved e =
    is_unset_reason e.corroboration_handoff_reason
    && is_positive e.authorized_reviewer_actor_id
    && valid_change_proposal e.change_proposal
    && valid_review e.review
    && optional_review e.existing_review
valid_settled_outcome TurnOutcome.clarification_wait e =
    is_unset_reason e.corroboration_handoff_reason
    && unready_proposal e.change_proposal
    && is_nil e.review
    && is_nil e.existing_review
valid_settled_outcome TurnOutcome.blocked e =
    is_unset_reason e.corroboration_handoff_reason
    && is_nil e.change_proposal
    && is_nil e.review
    && is_nil e.existing_review
valid_settled_outcome TurnOutcome.prerequisite_failed e =
    is_unset_reason e.corroboration_handoff_reason
    && is_nil e.change_proposal
    && is_nil e.review
    && is_nil e.existing_review
valid_settled_outcome TurnOutcome.infrastructure_failed e =
    (is_unset_reason e.corroboration_handoff_reason
      || is_corroboration_reason e.corroboration_handoff_reason)
    && is_nil e.change_proposal
    && is_nil e.review
    && is_nil e.existing_review
valid_settled_outcome TurnOutcome.unset e = false

unfoldable pub valid_settled : Definition → TurnSettledEvent → Bool
valid_settled definition e =
    valid_turn_guard definition e.turn
    && valid_pending_observation e.pending_events
    && valid_association e
    && valid_settled_outcome e.outcome e

unfoldable pub valid_revalidated_outcome : TurnOutcome → TerminalIntentRevalidatedEvent → Bool
valid_revalidated_outcome TurnOutcome.clarification_wait e =
    is_nil e.change_proposal && is_nil e.review && is_nil e.existing_review
valid_revalidated_outcome TurnOutcome.change_proposal_ready e =
    valid_change_proposal e.change_proposal && is_nil e.review && is_nil e.existing_review
valid_revalidated_outcome TurnOutcome.changes_requested e =
    valid_change_proposal e.change_proposal
    && valid_review e.review
    && is_positive e.authorized_reviewer_actor_id
    && optional_review e.existing_review
valid_revalidated_outcome TurnOutcome.approved e =
    valid_change_proposal e.change_proposal
    && valid_review e.review
    && is_positive e.authorized_reviewer_actor_id
    && optional_review e.existing_review
valid_revalidated_outcome _ e = false

unfoldable pub valid_revalidated : Definition → TerminalIntentRevalidatedEvent → Bool
valid_revalidated definition e =
    not (is_empty e.attempt_id)
    && valid_turn_guard definition e.source_turn
    && not (text_eq e.source_turn.attempt_id e.attempt_id)
    && valid_revalidated_outcome e.outcome e

abbrev optional_guard : Definition → Option TurnGuard → Bool
optional_guard definition none = true
optional_guard definition (some turn) = valid_turn_guard definition turn

-- The switch over the type of the Event.
unfoldable pub valid_content : Definition → Event → EventMetadata → Bool
valid_content d (Event.trigger e) m = valid_trigger d e
valid_content d (Event.turn_settled e) m = valid_settled d e
valid_content d (Event.terminal_intent_revalidated e) m = valid_revalidated d e
valid_content d (Event.terminal_revalidation_failed e) m =
    not (is_empty e.attempt_id)
    && not (is_empty e.source_turn_id)
    && not (is_empty e.diagnostic)
    && is_corroboration_reason e.reason
valid_content d (Event.synchronization e) m =
    is_positive e.change_proposal_id
    && not (is_empty e.previous_head_sha)
    && not (is_empty e.head_sha)
valid_content d (Event.review_observed e) m = valid_review (some e.review)
valid_content d (Event.change_proposal_observed e) m = valid_proposal e.change_proposal
valid_content d (Event.issue_closed e) m =
    not (is_empty e.closure_id)
    && not (is_empty e.retention_token)
    && int_lt m.observed_at e.retain_until
valid_content d (Event.closure_settled e) m = not (is_empty e.closure_id) && optional_guard d e.turn
valid_content d (Event.issue_reopened e) m = true
valid_content d (Event.assignments_collected e) m =
    not (is_empty e.retention_token)
    && not (is_zero_time e.retain_until)
    && not (is_zero_time e.collected_at)
valid_content d (Event.assignment_configuration_conflict e) m = contains_role d e.role
valid_content d (Event.agent_turn_preparation_failed e) m =
    contains_role d e.role && not (is_empty e.diagnostic)
valid_content d (Event.agent_turn_mutation_reconciliation_exhausted e) m =
    contains_role d e.role && not (is_empty e.diagnostic)
valid_content d (Event.workflow_action_exhausted e) m =
    (is_empty e.resume_role || contains_role d e.resume_role) && not (is_empty e.diagnostic)
valid_content d Event.foreign m = false

unfoldable pub valid_event : Definition → Event → EventMetadata → Bool
valid_event d e m =
    not (is_empty m.id)
    && not (is_zero_time m.observed_at)
    && valid_work_item m.work_item
    && valid_content d e m
