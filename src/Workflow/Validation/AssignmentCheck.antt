-- ===== src/Workflow/Validation/AssignmentCheck.antt =====
-- validAssignments of internal/workflow/validation.go, a function per group of states.
use omnigrex.Prelude.{
  Bool, false, not, Option, is_nil, is_some, ◌&&◌, ◌||◌, is_empty, is_zero_time, if◌then◌else◌,
}
use omnigrex.Workflow.Model.Vocabulary.{
  State, is_active_status, is_waiting_status, is_completed_status, is_active_runtime, is_retained,
  is_collected,
}
use omnigrex.Workflow.Model.Snapshots.{WorkflowAttempt, Assignments}

-- No retention is under way.
unfoldable pub unretained : Assignments → Bool
unretained a = is_zero_time a.retained_until && is_empty a.retention_token

unfoldable pub valid_working_assignments : Assignments → Bool
unfolding unretained
valid_working_assignments a =
    is_active_status a.status && is_active_runtime a.runtime_state && unretained a

unfoldable pub valid_waiting_assignments : Assignments → Bool
unfolding unretained
valid_waiting_assignments a =
    is_waiting_status a.status
    && (is_active_runtime a.runtime_state || is_collected a.runtime_state)
    && unretained a

unfoldable pub valid_dormant_assignments : Assignments → Bool
unfolding unretained
valid_dormant_assignments a =
    is_completed_status a.status
    && (is_retained a.runtime_state || is_collected a.runtime_state)
    && unretained a

unfoldable pub valid_closing_assignments : Assignments → Option WorkflowAttempt → Bool
unfolding unretained
valid_closing_assignments a attempt =
    if is_active_status a.status || is_waiting_status a.status
    then is_some attempt
      && (is_active_runtime a.runtime_state
          || is_waiting_status a.status && is_collected a.runtime_state)
      && unretained a
    else is_completed_status a.status
      && is_nil attempt
      && (is_retained a.runtime_state || is_collected a.runtime_state)
      && unretained a

unfoldable pub valid_closed_assignments : Assignments → Bool
unfolding unretained
valid_closed_assignments a =
    is_completed_status a.status
    && (is_retained a.runtime_state
          && not (is_zero_time a.retained_until)
          && not (is_empty a.retention_token)
        || is_collected a.runtime_state && unretained a)

unfoldable pub valid_assignments : State → Assignments → Option WorkflowAttempt → Bool
unfolding valid_working_assignments valid_waiting_assignments valid_dormant_assignments
    valid_closing_assignments valid_closed_assignments
valid_assignments State.planning a attempt = valid_working_assignments a
valid_assignments State.plan_ready a attempt = valid_working_assignments a
valid_assignments State.developing a attempt = valid_working_assignments a
valid_assignments State.reviewing a attempt = valid_working_assignments a
valid_assignments State.pr_ready a attempt = valid_working_assignments a
valid_assignments State.needs_human a attempt = valid_waiting_assignments a
valid_assignments State.closing a attempt = valid_closing_assignments a attempt
valid_assignments State.closed a attempt = valid_closed_assignments a
valid_assignments State.dormant a attempt = valid_dormant_assignments a
valid_assignments _ a attempt = false
