-- ===== src/Workflow/Model/Vocabulary.antt =====
-- The enumerations of internal/workflow/model.go, and their `==`.
use omnigrex.Prelude.{ℕ, String, Bool, true, false, ◌≡◌, ◌↔◌, arith, ◌==◌}

pub data State : Type 0 where
  planning plan_ready absent dormant developing reviewing : State
  pr_ready needs_human closing closed unset : State

-- role.ID.
abbrev pub Role : Type 0
Role = String

abbrev pub role_planner : Role
role_planner = "PLANNER"

abbrev pub role_developer : Role
role_developer = "DEVELOPER"

abbrev pub role_reviewer : Role
role_reviewer = "REVIEWER"

abbrev pub StageId : Type 0
StageId = String

pub data Disposition : Type 0 where
  applied deferred duplicate stale unrelated illegal reconciliation_failed : Disposition

pub data Reason : Type 0 where
  triggered change_proposal_ready changes_requested approved review_budget_exhausted : Reason
  review_head_replaced agent_blocked infrastructure_retry infrastructure_retries_exhausted : Reason
  terminal_corroboration_exhausted terminal_corroboration_prerequisite : Reason
  terminal_revalidation_human_control closure_started closure_settled : Reason
  closure_cancellation_recorded issue_reopened active_turn event_duplicate : Reason
  review_duplicate review_identity_conflict state_revision_stale event_out_of_order : Reason
  synchronization_stale synchronization_duplicate work_item_unrelated : Reason
  reviewer_actor_unrelated turn_guard_stale change_proposal_unrelated assignments_collected : Reason
  retention_generation_stale retention_cancelled retention_not_due event_illegal_in_state : Reason
  invariant_violation invalid_event workflow_absent attempt_already_active : Reason
  corroboration_without_active_turn assignment_configuration_conflict : Reason
  agent_turn_preparation_failed agent_turn_mutation_reconciliation_exhausted : Reason
  workflow_action_exhausted workflow_definition_incompatible human_input_pending : Reason
  clarification_wait unset : Reason

pub data AttemptLifecycle : Type 0 where
  active unset : AttemptLifecycle

pub data AttemptCompletionReason : Type 0 where
  superseded issue_closed : AttemptCompletionReason

pub data AssignmentStatus : Type 0 where
  active waiting_for_human completed unset : AssignmentStatus

pub data RuntimeState : Type 0 where
  active retained collected unset : RuntimeState

pub data TurnOutcome : Type 0 where
  planning_ready clarification_wait change_proposal_ready changes_requested approved : TurnOutcome
  blocked prerequisite_failed infrastructure_failed unset : TurnOutcome

pub data TurnPurpose : Type 0 where
  initial_planning initial_development review requested_changes retry synchronization : TurnPurpose
  reactivation unset : TurnPurpose

pub data AssignmentGeneration : Type 0 where
  current retained new : AssignmentGeneration

pub data EventKind : Type 0 where
  trigger turn_settled terminal_intent_revalidated terminal_revalidation_failed : EventKind
  synchronization review_observed change_proposal_observed issue_closed closure_settled : EventKind
  issue_reopened assignments_collected assignment_configuration_conflict : EventKind
  agent_turn_preparation_failed agent_turn_mutation_reconciliation_exhausted : EventKind
  workflow_action_exhausted : EventKind

-- `==` on the enumerations, by the place of a constant in its list.
state_index : State → ℕ
state_index State.planning = 0
state_index State.plan_ready = 1
state_index State.absent = 2
state_index State.dormant = 3
state_index State.developing = 4
state_index State.reviewing = 5
state_index State.pr_ready = 6
state_index State.needs_human = 7
state_index State.closing = 8
state_index State.closed = 9
state_index State.unset = 10

unfoldable pub state_eq : State → State → Bool
unfolding state_index
state_eq a b = state_index a == state_index b

pub state_eq_iff : (a b : State) → (state_eq a b ≡ true) ↔ (a ≡ b)
unfolding state_eq
state_eq_iff a b = ground arith

outcome_index : TurnOutcome → ℕ
outcome_index TurnOutcome.planning_ready = 0
outcome_index TurnOutcome.clarification_wait = 1
outcome_index TurnOutcome.change_proposal_ready = 2
outcome_index TurnOutcome.changes_requested = 3
outcome_index TurnOutcome.approved = 4
outcome_index TurnOutcome.blocked = 5
outcome_index TurnOutcome.prerequisite_failed = 6
outcome_index TurnOutcome.infrastructure_failed = 7
outcome_index TurnOutcome.unset = 8

unfoldable pub outcome_eq : TurnOutcome → TurnOutcome → Bool
unfolding outcome_index
outcome_eq a b = outcome_index a == outcome_index b

pub outcome_eq_iff : (a b : TurnOutcome) → (outcome_eq a b ≡ true) ↔ (a ≡ b)
unfolding outcome_eq
outcome_eq_iff a b = ground arith

purpose_index : TurnPurpose → ℕ
purpose_index TurnPurpose.initial_planning = 0
purpose_index TurnPurpose.initial_development = 1
purpose_index TurnPurpose.review = 2
purpose_index TurnPurpose.requested_changes = 3
purpose_index TurnPurpose.retry = 4
purpose_index TurnPurpose.synchronization = 5
purpose_index TurnPurpose.reactivation = 6
purpose_index TurnPurpose.unset = 7

unfoldable pub purpose_eq : TurnPurpose → TurnPurpose → Bool
unfolding purpose_index
purpose_eq a b = purpose_index a == purpose_index b

pub purpose_eq_iff : (a b : TurnPurpose) → (purpose_eq a b ≡ true) ↔ (a ≡ b)
unfolding purpose_eq
purpose_eq_iff a b = ground arith

-- Tests against one constant.
unfoldable pub is_unset_reason : Reason → Bool
is_unset_reason Reason.unset = true
is_unset_reason _ = false

unfoldable pub is_corroboration_reason : Reason → Bool
is_corroboration_reason Reason.terminal_corroboration_exhausted = true
is_corroboration_reason Reason.terminal_corroboration_prerequisite = true
is_corroboration_reason _ = false

unfoldable pub is_active_status : AssignmentStatus → Bool
is_active_status AssignmentStatus.active = true
is_active_status _ = false

unfoldable pub is_waiting_status : AssignmentStatus → Bool
is_waiting_status AssignmentStatus.waiting_for_human = true
is_waiting_status _ = false

unfoldable pub is_completed_status : AssignmentStatus → Bool
is_completed_status AssignmentStatus.completed = true
is_completed_status _ = false

unfoldable pub is_unset_status : AssignmentStatus → Bool
is_unset_status AssignmentStatus.unset = true
is_unset_status _ = false

unfoldable pub is_active_runtime : RuntimeState → Bool
is_active_runtime RuntimeState.active = true
is_active_runtime _ = false

unfoldable pub is_retained : RuntimeState → Bool
is_retained RuntimeState.retained = true
is_retained _ = false

unfoldable pub is_collected : RuntimeState → Bool
is_collected RuntimeState.collected = true
is_collected _ = false

unfoldable pub is_unset_runtime : RuntimeState → Bool
is_unset_runtime RuntimeState.unset = true
is_unset_runtime _ = false

unfoldable pub is_active_lifecycle : AttemptLifecycle → Bool
is_active_lifecycle AttemptLifecycle.active = true
is_active_lifecycle _ = false
