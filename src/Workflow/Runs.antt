-- ===== src/Workflow/Runs.antt =====
-- The runs of Reduce at the concrete Snapshots and Events.
use omnigrex.Prelude.{◌≡◌, refl, done, int_eq, int_lt, is_positive, is_zero_time, text_eq}
use omnigrex.Workflow.Model.Vocabulary.{
  is_active_lifecycle, is_active_runtime, is_active_status, is_collected, is_completed_status,
  is_retained, is_unset_reason, is_unset_runtime, is_unset_status, is_waiting_status, outcome_eq,
  purpose_eq, state_eq,
}
use omnigrex.Workflow.Scenarios.{
  published, approved_decision, approving, developing, published_decision, reducer, run_label,
  started,
}
use omnigrex.Workflow.Interruptions.{
  busy, busy_reviewing, closed, closed_decision, closing, closing_decision, closure_settled,
  collected, collected_decision, exhausted, exhausted_decision, issue_closed, stale_decision,
  failing, retry_decision, intent,
}
use omnigrex.Workflow.Reducer.Reviewing.{
  accept_review, approve, compare_review, consume_cycle, review_unrelated, settle_review,
  stale_head,
}
use omnigrex.Workflow.Reducer.Developing.{developer_unrelated}
use omnigrex.Workflow.Validation.EventCheck.{
  event_details, valid_association, valid_content, valid_event, valid_settled,
  valid_settled_outcome, valid_trigger, valid_revalidated, valid_revalidated_outcome,
}
use omnigrex.Workflow.Reducer.Triggering.{
  enter_attempt, is_wrong_attempt, reduce_trigger, start_attempt, trigger_current, trigger_entry,
}
use omnigrex.Workflow.Reducer.Settling.{
  needs_transition, reduce_turn_settled, settle_current, settle_outcome, settle_turn, turn_missing,
  reduce_infrastructure_failure,
}
use omnigrex.Workflow.Definition.Stages.{
  accepts_purpose, contains_purpose, contains_role, find_stage, find_transition, initial_entry,
  stage_of, transition_of,
}
use omnigrex.Workflow.Model.Events.{Event}
use omnigrex.Workflow.Validation.SnapshotCheck.{
  is_blank, valid_attempt, valid_marks, valid_active_stage_state, turn_in_stage, turn_on_proposal,
}
use omnigrex.Workflow.Validation.SnapshotRun.{
  check_snapshot, check_present, check_state_shape, check_active_stage_state,
  check_optional_active_turn,
}
use omnigrex.Workflow.Validation.AssignmentCheck.{valid_assignments}
use omnigrex.Workflow.Validation.Parts.{
  is_working, legal_in_state, valid_identity, valid_pending_observation, valid_proposal,
  valid_state, valid_turn_guard, valid_work_item,
}
use omnigrex.Workflow.Reducer.Step.{
  dispatch, guard_decision, reduce, reduce_checked, unrelated_event,
}
use omnigrex.Workflow.Model.Snapshots.{absent_snapshot, set_usage, usage_of, work_item_eq}
use omnigrex.Workflow.Reducer.Basics.{
  expected_revision_decision, guard_from_turn, pending_requires_reconciliation, successor_actions,
  turn_matches, with_pending,
}
use omnigrex.Workflow.Reducer.Closing.{
  reduce_assignments_collected, reduce_closure_settled, reduce_issue_closed,
}
use omnigrex.Workflow.Reducer.Failures.{reduce_workflow_action_exhausted}
use omnigrex.Workflow.Reducer.Revalidating.{
  reduce_terminal_intent_revalidated, reused_event, revalidate_current, revalidate_in_stage,
}

pub trigger_run : reduce reducer absent_snapshot (Event.trigger run_label) ≡ done started
unfolding reduce reduce_checked check_snapshot check_present check_state_shape
    check_active_stage_state check_optional_active_turn valid_active_stage_state turn_in_stage
    turn_on_proposal valid_state state_eq is_blank work_item_eq is_unset_status is_unset_runtime
    int_eq text_eq event_details valid_event valid_content is_zero_time valid_work_item is_positive
    unrelated_event dispatch expected_revision_decision is_working legal_in_state stage_of
    find_stage guard_decision is_unset_reason valid_assignments is_active_status is_active_runtime
    is_waiting_status is_completed_status is_retained is_collected valid_attempt is_active_lifecycle
    valid_marks contains_role valid_trigger reduce_trigger trigger_current is_wrong_attempt
    enter_attempt trigger_entry initial_entry accepts_purpose contains_purpose purpose_eq
    start_attempt
trigger_run = refl

pub stale_run : reduce reducer developing (Event.trigger run_label) ≡ done stale_decision
unfolding reduce reduce_checked check_snapshot check_present check_state_shape
    check_active_stage_state check_optional_active_turn valid_active_stage_state turn_in_stage
    turn_on_proposal valid_state state_eq is_blank work_item_eq is_unset_status is_unset_runtime
    int_eq text_eq event_details valid_event valid_content is_zero_time valid_work_item is_positive
    unrelated_event dispatch expected_revision_decision is_working legal_in_state stage_of
    find_stage guard_decision is_unset_reason valid_assignments is_active_status is_active_runtime
    is_waiting_status is_completed_status is_retained is_collected valid_attempt is_active_lifecycle
    valid_marks contains_role valid_trigger reduce_trigger
stale_run = refl

pub exhausted_run :
    reduce reducer developing (Event.workflow_action_exhausted exhausted) ≡ done exhausted_decision
unfolding reduce reduce_checked check_snapshot check_present check_state_shape
    check_active_stage_state check_optional_active_turn valid_active_stage_state turn_in_stage
    turn_on_proposal valid_state state_eq is_blank work_item_eq is_unset_status is_unset_runtime
    int_eq text_eq event_details valid_event valid_content is_zero_time valid_work_item is_positive
    unrelated_event dispatch expected_revision_decision is_working legal_in_state stage_of
    find_stage guard_decision is_unset_reason valid_assignments is_active_status is_active_runtime
    is_waiting_status is_completed_status is_retained is_collected valid_attempt is_active_lifecycle
    valid_marks contains_role reduce_workflow_action_exhausted
exhausted_run = refl

pub published_run : reduce reducer busy (Event.turn_settled published) ≡ done published_decision
unfolding reduce reduce_checked check_snapshot check_present check_state_shape
    check_active_stage_state check_optional_active_turn valid_active_stage_state turn_in_stage
    turn_on_proposal valid_state state_eq is_blank work_item_eq is_unset_status is_unset_runtime
    int_eq text_eq event_details valid_event valid_content is_zero_time valid_work_item is_positive
    unrelated_event dispatch expected_revision_decision is_working legal_in_state stage_of
    find_stage guard_decision is_unset_reason valid_assignments is_active_status is_active_runtime
    is_waiting_status is_completed_status is_retained is_collected valid_attempt is_active_lifecycle
    valid_marks contains_role valid_settled valid_turn_guard valid_pending_observation
    valid_association valid_settled_outcome valid_proposal reduce_turn_settled settle_current
    turn_missing turn_matches settle_turn needs_transition transition_of find_transition outcome_eq
    settle_outcome developer_unrelated successor_actions pending_requires_reconciliation usage_of
published_run = refl

pub approved_run :
    reduce reducer busy_reviewing (Event.turn_settled approving) ≡ done approved_decision
unfolding reduce reduce_checked check_snapshot check_present check_state_shape
    check_active_stage_state check_optional_active_turn valid_active_stage_state turn_in_stage
    turn_on_proposal valid_state state_eq is_blank work_item_eq is_unset_status is_unset_runtime
    int_eq text_eq event_details valid_event valid_content is_zero_time valid_work_item is_positive
    unrelated_event dispatch expected_revision_decision is_working legal_in_state stage_of
    find_stage guard_decision is_unset_reason valid_assignments is_active_status is_active_runtime
    is_waiting_status is_completed_status is_retained is_collected valid_attempt is_active_lifecycle
    valid_marks contains_role valid_settled valid_turn_guard valid_pending_observation
    valid_association valid_settled_outcome valid_proposal valid_identity reduce_turn_settled
    settle_current turn_missing turn_matches settle_turn needs_transition transition_of
    find_transition outcome_eq settle_outcome compare_review review_unrelated settle_review
    stale_head accept_review consume_cycle usage_of set_usage approve with_pending
    pending_requires_reconciliation
approved_run = refl

pub closing_run : reduce reducer busy (Event.issue_closed issue_closed) ≡ done closing_decision
unfolding reduce reduce_checked check_snapshot check_present check_state_shape
    check_active_stage_state check_optional_active_turn valid_active_stage_state turn_in_stage
    turn_on_proposal valid_state state_eq is_blank work_item_eq is_unset_status is_unset_runtime
    int_eq text_eq event_details valid_event valid_content is_zero_time valid_work_item is_positive
    unrelated_event dispatch expected_revision_decision is_working legal_in_state stage_of
    find_stage guard_decision is_unset_reason valid_assignments is_active_status is_active_runtime
    is_waiting_status is_completed_status is_retained is_collected valid_attempt is_active_lifecycle
    valid_marks contains_role int_lt reduce_issue_closed guard_from_turn
closing_run = refl

pub closed_run :
    reduce reducer closing (Event.closure_settled closure_settled) ≡ done closed_decision
unfolding reduce reduce_checked check_snapshot check_present check_state_shape
    check_active_stage_state check_optional_active_turn valid_active_stage_state turn_in_stage
    turn_on_proposal valid_state state_eq is_blank work_item_eq is_unset_status is_unset_runtime
    int_eq text_eq event_details valid_event valid_content is_zero_time valid_work_item is_positive
    unrelated_event dispatch expected_revision_decision is_working legal_in_state stage_of
    find_stage guard_decision is_unset_reason valid_assignments is_active_status is_active_runtime
    is_waiting_status is_completed_status is_retained is_collected valid_attempt is_active_lifecycle
    valid_marks contains_role valid_turn_guard reduce_closure_settled turn_matches
closed_run = refl

pub collected_run :
    reduce reducer closed (Event.assignments_collected collected) ≡ done collected_decision
unfolding reduce reduce_checked check_snapshot check_present check_state_shape
    check_active_stage_state check_optional_active_turn valid_active_stage_state turn_in_stage
    turn_on_proposal valid_state state_eq is_blank work_item_eq is_unset_status is_unset_runtime
    int_eq text_eq event_details valid_event valid_content is_zero_time valid_work_item is_positive
    unrelated_event dispatch expected_revision_decision is_working legal_in_state stage_of
    find_stage guard_decision is_unset_reason valid_assignments is_active_status is_active_runtime
    is_waiting_status is_completed_status is_retained is_collected valid_attempt is_active_lifecycle
    valid_marks contains_role int_lt reduce_assignments_collected
collected_run = refl

pub retry_run : reduce reducer busy (Event.turn_settled failing) ≡ done retry_decision
unfolding reduce reduce_checked check_snapshot check_present check_state_shape
    check_active_stage_state check_optional_active_turn valid_active_stage_state turn_in_stage
    turn_on_proposal valid_state state_eq is_blank work_item_eq is_unset_status is_unset_runtime
    int_eq text_eq event_details valid_event valid_content is_zero_time valid_work_item is_positive
    unrelated_event dispatch expected_revision_decision is_working legal_in_state stage_of
    find_stage guard_decision is_unset_reason valid_assignments is_active_status is_active_runtime
    is_waiting_status is_completed_status is_retained is_collected valid_attempt is_active_lifecycle
    valid_marks contains_role valid_settled valid_turn_guard valid_pending_observation
    valid_association valid_settled_outcome valid_proposal reduce_turn_settled settle_current
    turn_missing turn_matches settle_turn needs_transition transition_of find_transition outcome_eq
    settle_outcome successor_actions pending_requires_reconciliation usage_of
    reduce_infrastructure_failure
retry_run = refl

pub intent_run :
    reduce reducer developing (Event.terminal_intent_revalidated intent) ≡ done published_decision
unfolding reduce reduce_checked check_snapshot check_present check_state_shape
    check_active_stage_state check_optional_active_turn valid_active_stage_state turn_in_stage
    turn_on_proposal valid_state state_eq is_blank work_item_eq is_unset_status is_unset_runtime
    int_eq text_eq event_details valid_event valid_content is_zero_time valid_work_item is_positive
    unrelated_event dispatch expected_revision_decision is_working legal_in_state stage_of
    find_stage guard_decision is_unset_reason valid_assignments is_active_status is_active_runtime
    is_waiting_status is_completed_status is_retained is_collected valid_attempt is_active_lifecycle
    valid_marks contains_role valid_settled valid_turn_guard valid_pending_observation
    valid_association valid_settled_outcome valid_proposal reduce_turn_settled settle_current
    turn_missing turn_matches settle_turn needs_transition transition_of find_transition outcome_eq
    settle_outcome developer_unrelated successor_actions pending_requires_reconciliation usage_of
    valid_revalidated valid_revalidated_outcome reduce_terminal_intent_revalidated
    revalidate_current revalidate_in_stage reused_event
intent_run = refl
