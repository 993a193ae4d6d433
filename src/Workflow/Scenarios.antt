-- ===== src/Workflow/Scenarios.antt =====
-- Concrete Snapshots and Events: a Work Item from its trigger to PR_READY, and to its closing.
use omnigrex.Prelude.{ℕ, ℤ, pos, String, true, false, [], ◌∷◌, Option, none, some, zero_time}
use omnigrex.Workflow.Model.Vocabulary.{
  State, Role, StageId, TurnPurpose, TurnOutcome, Reason, Disposition, AttemptLifecycle,
  AssignmentStatus, RuntimeState, AssignmentGeneration, role_developer, role_reviewer,
}
use omnigrex.Workflow.Model.Snapshots.{
  Snapshot, WorkItem, WorkflowAttempt, absent_snapshot, ActiveTurn, ChangeProposal, ReviewIdentity,
  TurnGuard,
}
use omnigrex.Workflow.Model.Events.{EventMetadata, TriggerEvent, TurnSettledEvent}
use omnigrex.Workflow.Model.Actions.{Action, Decision}
use omnigrex.Workflow.Definition.Stages.{Definition}
use omnigrex.Workflow.Definition.Builtin.{
  builtin_entry, planning_stage, implementation_stage, review_stage, stage_planning,
  stage_implementation, stage_review, builtin_infrastructure_retry_limit,
}
use omnigrex.Workflow.Reducer.Basics.{Reducer}

abbrev pub builtin : Definition
builtin = record {
  initial = builtin_entry;
  ordered = stage_planning ∷ stage_implementation ∷ stage_review ∷ [];
  stages =
      (stage_planning, planning_stage)
      ∷ (stage_implementation, implementation_stage "Implement.")
      ∷ (stage_review, review_stage "Review.")
      ∷ [];
}

abbrev pub reducer : Reducer
reducer = record { definition = builtin; retry_limit = builtin_infrastructure_retry_limit }

abbrev pub item : WorkItem
item = record { repository_id = pos 7; issue_id = pos 70; issue_number = pos 3 }

abbrev pub at : ℕ → EventMetadata
at revision = record {
  id = "event";
  observed_at = pos 100;
  work_item = item;
  expected_revision = revision;
}

abbrev pub run_label : TriggerEvent
run_label = record {
  planning_completed = false;
  planning_only = false;
  metadata = at 0;
  attempt_id = "attempt-1";
  attempt_number = 1;
  prior_terminal_turn_id = "";
  prior_terminal_stage = "";
  prior_terminal_role = "";
  prior_terminal_control_blocked = false;
  prior_terminal_expected_head_sha = "";
}

abbrev pub first_attempt : WorkflowAttempt
first_attempt = record {
  id = "attempt-1";
  number = 1;
  started_at = pos 100;
  lifecycle = AttemptLifecycle.active;
  current_stage = stage_implementation;
  review_usage = [];
  infrastructure_retry_budget = record { used = 0; limit = 1 };
}

abbrev pub developing : Snapshot
developing = record absent_snapshot {
  state = State.developing;
  revision = 1;
  work_item = item;
  current_attempt = some first_attempt;
  assignments = record {
    status = AssignmentStatus.active;
    runtime_state = RuntimeState.active;
    retained_until = zero_time;
    retention_token = "";
  };
  last_attempt_number = 1;
}

abbrev pub started : Decision
started = record {
  snapshot = developing;
  disposition = Disposition.applied;
  reason = Reason.triggered;
  actions =
      Action.ensure_assignments AssignmentGeneration.new
      ∷ Action.create_attempt first_attempt
      ∷ Action.consume_run_label
      ∷ Action.reconcile_labels State.developing ""
      ∷ Action.enqueue_turn (record {
        stage = stage_implementation;
        role = role_developer;
        purpose = TurnPurpose.initial_development;
        expected_head_sha = "";
        retry_of_turn_id = "";
      })
      ∷ [];
}

abbrev pub claim : String → StageId → Role → ℤ → String → ActiveTurn
claim id stage role proposal head = record {
  id = id;
  session_id = "session";
  attempt_id = "attempt-1";
  stage = stage;
  role = role;
  epoch = 1;
  control_revision = 1;
  change_proposal_id = proposal;
  expected_head_sha = head;
}

abbrev pub guard : ActiveTurn → TurnGuard
guard turn = record {
  retry_of_turn_id = "";
  turn_id = turn.id;
  session_id = turn.session_id;
  attempt_id = turn.attempt_id;
  stage = turn.stage;
  role = turn.role;
  epoch = turn.epoch;
  control_revision = turn.control_revision;
  change_proposal_id = turn.change_proposal_id;
  expected_head_sha = turn.expected_head_sha;
}

abbrev pub developer_turn : ActiveTurn
developer_turn = claim "turn-1" stage_implementation role_developer (pos 0) ""

abbrev pub reviewer_turn : ActiveTurn
reviewer_turn = claim "turn-2" stage_review role_reviewer (pos 9) "sha"

abbrev pub proposal : ChangeProposal
proposal = record {
  id = pos 9;
  number = pos 4;
  head_sha = "sha";
  is_open = true;
  ready_for_sha = "";
}

abbrev pub review : ReviewIdentity
review = record {
  id = pos 5;
  node_id = "node";
  change_proposal_id = pos 9;
  actor_id = pos 2;
  head_sha = "sha";
}

abbrev pub settle : ℕ → ActiveTurn → TurnOutcome → Option ReviewIdentity → TurnSettledEvent
settle revision turn outcome given = record {
  publication_association = none;
  metadata = at revision;
  turn = guard turn;
  outcome = outcome;
  change_proposal = some proposal;
  review = given;
  existing_review = none;
  authorized_reviewer_actor_id = pos 2;
  human_input_pending = false;
  pending_events = record {
    count = 0;
    requires_reconciliation = false;
    latest_observed_head_sha = "";
  };
  diagnostic = "";
  corroboration_handoff_reason = Reason.unset;
}

abbrev pub published : TurnSettledEvent
published = settle 1 developer_turn TurnOutcome.change_proposal_ready none

abbrev pub approving : TurnSettledEvent
approving = settle 2 reviewer_turn TurnOutcome.approved (some review)

abbrev pub reviewing : Snapshot
reviewing = record developing {
  state = State.reviewing;
  revision = 2;
  change_proposal = some proposal;
  current_attempt = some (record first_attempt { current_stage = stage_review });
}

abbrev pub pr_ready : Snapshot
pr_ready = record reviewing {
  state = State.pr_ready;
  revision = 3;
  change_proposal = some (record proposal { ready_for_sha = "sha" });
  current_attempt = some (record first_attempt {
    current_stage = stage_review;
    review_usage = (stage_review, 1) ∷ [];
  });
}

abbrev pub published_decision : Decision
published_decision = record {
  snapshot = reviewing;
  disposition = Disposition.applied;
  reason = Reason.change_proposal_ready;
  actions =
      Action.enqueue_turn (record {
        stage = stage_review;
        role = role_reviewer;
        purpose = TurnPurpose.review;
        expected_head_sha = "sha";
        retry_of_turn_id = "";
      })
      ∷ Action.reconcile_labels State.reviewing ""
      ∷ [];
}

abbrev pub approved_decision : Decision
approved_decision = record {
  snapshot = pr_ready;
  disposition = Disposition.applied;
  reason = Reason.approved;
  actions = Action.record_review review true ∷ Action.reconcile_labels State.pr_ready "sha" ∷ [];
}
