-- ===== src/Workflow/Reducer/Closing.antt =====
-- The handlers of internal/workflow/reducer.go for closing and reopening an Issue, and for the
-- retention of Assignments.
use omnigrex.Prelude.{
  Bool, true, false, not, List, [], ◌∷◌, ◌++◌, Option, none, some, is_some, ◌&&◌, ◌||◌,
  if◌then◌else◌, inc_64, text_eq, is_empty, int_eq, int_lt, zero_time, Run, done, ◌>>=◌, deref,
}
use omnigrex.Workflow.Model.Vocabulary.{
  State, Role, StageId, Reason, Disposition, EventKind, AssignmentStatus, RuntimeState,
  AttemptCompletionReason, state_eq, is_collected,
}
use omnigrex.Workflow.Model.Snapshots.{
  Snapshot, WorkflowAttempt, ActiveTurn, TurnGuard, Assignments, Closure,
}
use omnigrex.Workflow.Model.Events.{
  IssueClosedEvent, ClosureSettledEvent, IssueReopenedEvent, AssignmentsCollectedEvent,
}
use omnigrex.Workflow.Model.Actions.{Action, Decision}
use omnigrex.Workflow.Definition.Stages.{stage_of}
use omnigrex.Workflow.Validation.Parts.{legal_in_state, is_working}
use omnigrex.Workflow.Reducer.Basics.{
  Reducer, unchanged, applied, illegal_in_state, expected_revision_decision, defer_for_active_turn,
  turn_matches, guard_from_turn, unready_if_any, reconcile_state,
}

abbrev closing_stage : Snapshot → StageId
closing_stage s = elim s.current_attempt [
  | none ↦ s.continuation_stage
  | some attempt ↦ attempt.current_stage
]

abbrev closing_role : Reducer → Snapshot → Role
closing_role r s = elim s.active_turn [
  | some turn ↦ turn.role
  | none ↦
      if is_empty (closing_stage s)
      then s.resume_role
      else elim (stage_of r.definition (closing_stage s)) [
        | none ↦ s.resume_role
        | some stage ↦ stage.role
      ]
]

abbrev stopping : Option ActiveTurn → List Action
stopping none = []
stopping (some turn) =
    Action.close_mutation_admission (guard_from_turn turn)
    ∷ Action.stop_turn (guard_from_turn turn)
    ∷ []

unfoldable pub close_issue : Reducer → Snapshot → IssueClosedEvent → Decision
close_issue r s e =
    applied
      (record s {
        state = State.closing;
        continuation_stage = closing_stage s;
        closure = some (record {
          id = e.closure_id;
          retain_until = e.retain_until;
          retention_token = e.retention_token;
          reopen_requested = false;
        });
        resume_role = closing_role r s;
        change_proposal = unready_if_any s.change_proposal;
        revision = inc_64 s.revision;
      })
      Reason.closure_started
      (stopping s.active_turn
        ++ (Action.settle_closure e.closure_id ∷ reconcile_state State.closing ∷ []))

unfoldable pub reduce_issue_closed : Reducer → Snapshot → IssueClosedEvent → Decision
unfolding close_issue
reduce_issue_closed r s e = elim (expected_revision_decision s e.metadata) [
  | some stale ↦ stale
  | none ↦
      if not (legal_in_state s.state EventKind.issue_closed)
      then illegal_in_state s
      else close_issue r s e
]

-- The active Turn and the settled one: both nil, or one that matches the other.
unfoldable pub closure_turn_stale : Option ActiveTurn → Option TurnGuard → Bool
closure_turn_stale none none = false
closure_turn_stale none (some guard) = true
closure_turn_stale (some turn) none = true
closure_turn_stale (some turn) (some guard) = not (turn_matches turn guard)

-- RuntimeState after settlement: collected where no Assignments exist, retained otherwise.
unfoldable pub settled_runtime : RuntimeState → Bool → RuntimeState
settled_runtime runtime assignments_exist =
    if not assignments_exist || is_collected runtime
    then RuntimeState.collected
    else RuntimeState.retained

unfoldable pub settled_assignments : RuntimeState → Closure → Assignments
settled_assignments runtime closure =
    let scheduled = not closure.reopen_requested && not (is_collected runtime) in
    record {
      status = AssignmentStatus.completed;
      runtime_state = runtime;
      retained_until = if scheduled then closure.retain_until else zero_time;
      retention_token = if scheduled then closure.retention_token else "";
    }

abbrev completing : Option WorkflowAttempt → List Action
completing none = []
completing (some attempt) =
    Action.complete_attempt attempt.id AttemptCompletionReason.issue_closed ∷ []

unfoldable pub settle_closure : Snapshot → ClosureSettledEvent → Closure → Decision
unfolding settled_runtime settled_assignments
settle_closure s e closure =
    let runtime = settled_runtime s.assignments.runtime_state e.assignments_exist in
    let state = if closure.reopen_requested then State.dormant else State.closed in
    let retention =
      if not closure.reopen_requested && not (is_collected runtime)
      then Action.schedule_retention closure.retention_token closure.retain_until ∷ []
      else [] in
    applied
      (record s {
        current_attempt = none;
        active_turn = none;
        closure = none;
        change_proposal = unready_if_any s.change_proposal;
        assignments = settled_assignments runtime closure;
        state = state;
        revision = inc_64 s.revision;
      })
      Reason.closure_settled
      (completing s.current_attempt
        ++ (Action.complete_assignments ∷ (retention ++ reconcile_state state ∷ [])))

unfoldable pub reduce_closure_settled : Snapshot → ClosureSettledEvent → Decision
unfolding closure_turn_stale settle_closure
reduce_closure_settled s e = elim (expected_revision_decision s e.metadata) [
  | some stale ↦ stale
  | none ↦
      if not (legal_in_state s.state EventKind.closure_settled)
      then illegal_in_state s
      else elim s.closure [
        | none ↦ unchanged s Disposition.stale Reason.turn_guard_stale
        | some closure ↦
            if not (text_eq closure.id e.closure_id)
            then unchanged s Disposition.stale Reason.turn_guard_stale
            else if closure_turn_stale s.active_turn e.turn
            then unchanged s Disposition.stale Reason.turn_guard_stale
            else settle_closure s e closure
      ]
]

-- Reopening while the closure is being settled.
unfoldable pub cancel_closure : Snapshot → Closure → Decision
cancel_closure s closure =
    if closure.reopen_requested
    then unchanged s Disposition.duplicate Reason.event_duplicate
    else applied
        (record s {
          closure = some (record closure { reopen_requested = true });
          revision = inc_64 s.revision;
        })
        Reason.closure_cancellation_recorded
        (Action.cancel_retention closure.retention_token ∷ reconcile_state State.closing ∷ [])

unfoldable pub reopen : Snapshot → Decision
reopen s =
    applied
      (record s {
        state = State.dormant;
        assignments = record (s.assignments) { retention_token = ""; retained_until = zero_time };
        revision = inc_64 s.revision;
      })
      Reason.issue_reopened
      ((if is_empty s.assignments.retention_token
          then []
          else Action.cancel_retention s.assignments.retention_token ∷ [])
        ++ reconcile_state State.dormant ∷ [])

unfoldable pub reduce_issue_reopened : Snapshot → IssueReopenedEvent → Run Decision
unfolding cancel_closure reopen
reduce_issue_reopened s e = elim (expected_revision_decision s e.metadata) [
  | some stale ↦ done stale
  | none ↦
      if is_some s.active_turn && is_working s.state
      then done (defer_for_active_turn s e.metadata EventKind.issue_reopened)
      else if not (legal_in_state s.state EventKind.issue_reopened)
      then done (illegal_in_state s)
      else if state_eq s.state State.closing
      then (deref s.closure >>= λ closure. done (cancel_closure s closure))
      else if not (state_eq s.state State.closed)
      then done (illegal_in_state s)
      else done (reopen s)
]

unfoldable pub reduce_assignments_collected : Snapshot → AssignmentsCollectedEvent → Decision
reduce_assignments_collected s e = elim (expected_revision_decision s e.metadata) [
  | some stale ↦ stale
  | none ↦
      if not (legal_in_state s.state EventKind.assignments_collected)
      then illegal_in_state s
      else if state_eq s.state State.dormant
      then unchanged s Disposition.stale Reason.retention_cancelled
      else if is_collected s.assignments.runtime_state
      then unchanged s Disposition.duplicate Reason.event_duplicate
      else if not (text_eq e.retention_token s.assignments.retention_token)
          || not (int_eq e.retain_until s.assignments.retained_until)
      then unchanged s Disposition.stale Reason.retention_generation_stale
      else if int_lt e.collected_at e.retain_until
      then unchanged s Disposition.illegal Reason.retention_not_due
      else applied
          (record s {
            assignments = record (s.assignments) {
              runtime_state = RuntimeState.collected;
              retention_token = "";
              retained_until = zero_time;
            };
            revision = inc_64 s.revision;
          })
          Reason.assignments_collected []
]
