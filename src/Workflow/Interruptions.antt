-- ===== src/Workflow/Interruptions.antt =====
-- Concrete Events that interrupt or end the work: a failure, a closing, a collection.
use omnigrex.Prelude.{pos, true, false, [], ◌∷◌, none, some, zero_time}
use omnigrex.Workflow.Model.Vocabulary.{
  State, TurnPurpose, TurnOutcome, Reason, Disposition, AssignmentStatus, RuntimeState,
  role_developer, AttemptCompletionReason,
}
use omnigrex.Workflow.Model.Snapshots.{Snapshot}
use omnigrex.Workflow.Model.Events.{
  TurnSettledEvent, AssignmentsCollectedEvent, ClosureSettledEvent, IssueClosedEvent,
  WorkflowActionExhaustedEvent, TerminalIntentRevalidatedEvent,
}
use omnigrex.Workflow.Model.Actions.{Action, Decision}
use omnigrex.Workflow.Definition.Builtin.{stage_implementation}
use omnigrex.Workflow.Scenarios.{
  at, developer_turn, developing, first_attempt, guard, reviewer_turn, reviewing, settle, proposal,
}

abbrev pub stale_decision : Decision
stale_decision = record {
  snapshot = developing;
  disposition = Disposition.stale;
  reason = Reason.state_revision_stale;
  actions = [];
}

abbrev pub exhausted : WorkflowActionExhaustedEvent
exhausted = record { metadata = at 1; resume_role = ""; diagnostic = "No disk." }

abbrev pub exhausted_decision : Decision
exhausted_decision = record {
  snapshot = record developing {
    state = State.needs_human;
    revision = 2;
    resume_role = role_developer;
    assignments = record (developing.assignments) { status = AssignmentStatus.waiting_for_human };
  };
  disposition = Disposition.applied;
  reason = Reason.workflow_action_exhausted;
  actions =
      Action.mark_human_handoff Reason.workflow_action_exhausted "No disk."
      ∷ Action.reconcile_labels State.needs_human ""
      ∷ [];
}

abbrev pub busy : Snapshot
busy = record developing { active_turn = some developer_turn }

abbrev pub busy_reviewing : Snapshot
busy_reviewing = record reviewing { active_turn = some reviewer_turn }

abbrev pub issue_closed : IssueClosedEvent
issue_closed = record {
  metadata = at 1;
  closure_id = "closure";
  retain_until = pos 500;
  retention_token = "token";
}

abbrev pub closing : Snapshot
closing = record busy {
  state = State.closing;
  revision = 2;
  continuation_stage = stage_implementation;
  resume_role = role_developer;
  closure = some (record {
    id = "closure";
    retain_until = pos 500;
    retention_token = "token";
    reopen_requested = false;
  });
}

abbrev pub closing_decision : Decision
closing_decision = record {
  snapshot = closing;
  disposition = Disposition.applied;
  reason = Reason.closure_started;
  actions =
      Action.close_mutation_admission (guard developer_turn)
      ∷ Action.stop_turn (guard developer_turn)
      ∷ Action.settle_closure "closure"
      ∷ Action.reconcile_labels State.closing ""
      ∷ [];
}

abbrev pub closure_settled : ClosureSettledEvent
closure_settled = record {
  metadata = at 2;
  closure_id = "closure";
  turn = some (guard developer_turn);
  assignments_exist = true;
}

abbrev pub closed : Snapshot
closed = record closing {
  state = State.closed;
  revision = 3;
  current_attempt = none;
  active_turn = none;
  closure = none;
  assignments = record {
    status = AssignmentStatus.completed;
    runtime_state = RuntimeState.retained;
    retained_until = pos 500;
    retention_token = "token";
  };
}

abbrev pub closed_decision : Decision
closed_decision = record {
  snapshot = closed;
  disposition = Disposition.applied;
  reason = Reason.closure_settled;
  actions =
      Action.complete_attempt "attempt-1" AttemptCompletionReason.issue_closed
      ∷ Action.complete_assignments
      ∷ Action.schedule_retention "token" (pos 500)
      ∷ Action.reconcile_labels State.closed ""
      ∷ [];
}

abbrev pub collected : AssignmentsCollectedEvent
collected = record {
  metadata = at 3;
  retention_token = "token";
  retain_until = pos 500;
  collected_at = pos 500;
}

abbrev pub collected_decision : Decision
collected_decision = record {
  snapshot = record closed {
    revision = 4;
    assignments = record {
      status = AssignmentStatus.completed;
      runtime_state = RuntimeState.collected;
      retained_until = zero_time;
      retention_token = "";
    };
  };
  disposition = Disposition.applied;
  reason = Reason.assignments_collected;
  actions = [];
}

abbrev pub failing : TurnSettledEvent
failing = record (settle 1 developer_turn TurnOutcome.infrastructure_failed none) {
  change_proposal = none;
}

abbrev pub retrying : Snapshot
retrying = record developing {
  revision = 2;
  current_attempt =
      some (record first_attempt { infrastructure_retry_budget = record { used = 1; limit = 1 } });
}

abbrev pub retry_decision : Decision
retry_decision = record {
  snapshot = retrying;
  disposition = Disposition.applied;
  reason = Reason.infrastructure_retry;
  actions =
      Action.enqueue_turn (record {
        stage = stage_implementation;
        role = role_developer;
        purpose = TurnPurpose.retry;
        expected_head_sha = "";
        retry_of_turn_id = "turn-1";
      })
      ∷ [];
}

-- The intent of a Turn of an earlier Attempt.
abbrev pub intent : TerminalIntentRevalidatedEvent
intent = record {
  human_input_pending = false;
  metadata = at 1;
  attempt_id = "attempt-1";
  source_turn = record (guard developer_turn) { attempt_id = "attempt-0" };
  outcome = TurnOutcome.change_proposal_ready;
  change_proposal = some proposal;
  review = none;
  existing_review = none;
  authorized_reviewer_actor_id = pos 2;
}
