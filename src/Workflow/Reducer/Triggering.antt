-- ===== src/Workflow/Reducer/Triggering.antt =====
-- reduceTrigger of internal/workflow/reducer.go: a human starts or resumes an Attempt.
use omnigrex.Prelude.{
  Bool, true, false, not, List, [], ◌∷◌, ◌++◌, Option, none, some, is_some, is_nil, ◌&&◌, ◌||◌,
  ◌==◌, if◌then◌else◌, inc_64, text_eq, is_empty, zero_time,
}
use omnigrex.Workflow.Model.Vocabulary.{
  State, StageId, Reason, Disposition, EventKind, TurnPurpose, AssignmentStatus, RuntimeState,
  AttemptLifecycle, AttemptCompletionReason, AssignmentGeneration, state_eq, is_collected,
  is_retained,
}
use omnigrex.Workflow.Model.Snapshots.{Snapshot, WorkflowAttempt}
use omnigrex.Workflow.Model.Events.{TriggerEvent}
use omnigrex.Workflow.Model.Actions.{Action, Decision}
use omnigrex.Workflow.Definition.Stages.{
  StageEntry, StageDefinition, stage_of, initial_entry, accepts_purpose,
}
use omnigrex.Workflow.Definition.Builtin.{stage_planning}
use omnigrex.Workflow.Validation.Parts.{legal_in_state, is_working}
use omnigrex.Workflow.Reducer.Basics.{
  Reducer, unchanged, applied, illegal_in_state, expected_revision_decision, defer_for_active_turn,
  unready_if_any, head_of, reconcile_state, stage_or_zero,
}

-- The recorded completion of planning is projected again, with no Attempt and no Turn.
unfoldable pub completed_planning : Snapshot → Decision
completed_planning s =
    applied
      (record s {
        state = State.plan_ready;
        resume_role = "";
        assignments = record (s.assignments) { status = AssignmentStatus.active };
        revision = inc_64 s.revision;
      })
      Reason.triggered (Action.consume_run_label ∷ reconcile_state State.plan_ready ∷ [])

unfoldable pub control_blocked : Snapshot → Decision
control_blocked s =
    applied (record s { revision = inc_64 s.revision }) Reason.terminal_revalidation_human_control
      (Action.consume_run_label
        ∷ Action.mark_human_handoff Reason.terminal_revalidation_human_control
            "Agent Session is human-controlled; transfer control to automation before re-adding omnigrex:run"
        ∷ reconcile_state State.needs_human
        ∷ [])

-- `entry` and `purpose` before the Stage is looked up.
unfoldable pub trigger_entry : Reducer → Snapshot → TriggerEvent → StageEntry
trigger_entry r s e =
    let entry : StageEntry =
      if e.planning_only
      then record { stage = stage_planning; purpose = TurnPurpose.initial_planning }
      else initial_entry r.definition in
    if state_eq s.state State.absent then entry else record {
      stage = elim s.current_attempt [
        | some attempt ↦ attempt.current_stage
        | none ↦ if not (is_empty s.continuation_stage) then s.continuation_stage else entry.stage
      ];
      purpose = TurnPurpose.reactivation;
    }

unfoldable pub new_attempt : Reducer → TriggerEvent → StageId → WorkflowAttempt
new_attempt r e stage = record {
  id = e.attempt_id;
  number = e.attempt_number;
  started_at = e.metadata.observed_at;
  lifecycle = AttemptLifecycle.active;
  current_stage = stage;
  review_usage = [];
  infrastructure_retry_budget = record { used = 0; limit = r.retry_limit };
}

unfoldable pub assignment_mode : Snapshot → AssignmentGeneration
assignment_mode s =
    if state_eq s.state State.absent || is_collected s.assignments.runtime_state
    then AssignmentGeneration.new
    else if is_retained s.assignments.runtime_state
    then AssignmentGeneration.retained
    else AssignmentGeneration.current

abbrev is_new_generation : AssignmentGeneration → Bool
is_new_generation AssignmentGeneration.new = true
is_new_generation _ = false

abbrev superseding : Option WorkflowAttempt → List Action
superseding none = []
superseding (some attempt) =
    Action.complete_attempt attempt.id AttemptCompletionReason.superseded ∷ []

-- Labels wait while GitHub is verified before the first Turn.
unfoldable pub defer_labels : Snapshot → Bool
defer_labels s =
    is_some s.change_proposal
    && (state_eq s.state State.needs_human || state_eq s.state State.pr_ready)

-- The prior Turn's terminal intent is revalidated in place of a new Turn.
unfoldable pub revalidates : Snapshot → TriggerEvent → StageDefinition → Bool
unfolding assignment_mode
revalidates s e stage =
    not (is_empty e.prior_terminal_turn_id)
    && state_eq s.state State.needs_human
    && text_eq e.prior_terminal_stage stage.id
    && text_eq e.prior_terminal_role stage.role
    && text_eq s.resume_role stage.role
    && not (is_new_generation (assignment_mode s))
    && text_eq e.prior_terminal_expected_head_sha (head_of s.change_proposal)

unfoldable pub trigger_snapshot :
    Reducer → Snapshot → TriggerEvent → StageId → StageDefinition → Snapshot
unfolding new_attempt
trigger_snapshot r s e entry_stage stage = record s {
  planning_only = s.planning_only || e.planning_only;
  work_item = e.metadata.work_item;
  current_attempt = some (new_attempt r e entry_stage);
  last_attempt_number = e.attempt_number;
  active_turn = none;
  continuation_stage = "";
  closure = none;
  change_proposal = unready_if_any s.change_proposal;
  assignments = record {
    status = AssignmentStatus.active;
    runtime_state = RuntimeState.active;
    retained_until = zero_time;
    retention_token = "";
  };
  resume_role = "";
  state = stage.state;
  revision = inc_64 s.revision;
}

unfoldable pub trigger_actions :
    Reducer → Snapshot → TriggerEvent → StageId → StageDefinition → TurnPurpose → List Action
unfolding new_attempt assignment_mode defer_labels revalidates
trigger_actions r s e entry_stage stage purpose =
    superseding s.current_attempt
    ++ (Action.ensure_assignments (assignment_mode s)
        ∷ Action.create_attempt (new_attempt r e entry_stage)
        ∷ ((if defer_labels s
              then []
              else Action.consume_run_label ∷ reconcile_state stage.state ∷ [])
            ++ (if revalidates s e stage
                then Action.enqueue_terminal_revalidation e.prior_terminal_turn_id
                else Action.enqueue_turn (record {
                  stage = stage.id;
                  role = stage.role;
                  purpose = purpose;
                  expected_head_sha = head_of s.change_proposal;
                  retry_of_turn_id = "";
                }))
              ∷ []))

unfoldable pub start_attempt :
    Reducer → Snapshot → TriggerEvent → StageEntry → StageDefinition → Decision
unfolding trigger_snapshot trigger_actions
start_attempt r s e entry stage =
    applied (trigger_snapshot r s e entry.stage stage) Reason.triggered
      (trigger_actions r s e entry.stage stage entry.purpose)

-- From the lookup of the Stage: a review without a Change Proposal starts over.
unfoldable pub enter_attempt : Reducer → Snapshot → TriggerEvent → StageEntry → Decision
unfolding start_attempt
enter_attempt r s e entry = elim (stage_of r.definition entry.stage) [
  | none ↦ unchanged s Disposition.illegal Reason.invariant_violation
  | some stage ↦
      if not (accepts_purpose r.definition entry.stage entry.purpose)
      then unchanged s Disposition.illegal Reason.invariant_violation
      else if state_eq stage.state State.reviewing && is_nil s.change_proposal
      then start_attempt r s e (initial_entry r.definition)
          (stage_or_zero (stage_of r.definition (initial_entry r.definition).stage))
      else start_attempt r s e entry stage
]

-- `AttemptNumber != LastAttemptNumber+1 || CurrentAttempt has the same ID`.
unfoldable pub is_wrong_attempt : Snapshot → TriggerEvent → Bool
is_wrong_attempt s e =
    not (e.attempt_number == inc_64 s.last_attempt_number)
    || elim s.current_attempt [ none ↦ false | some attempt ↦ text_eq e.attempt_id attempt.id ]

-- From the test of the state on.
unfoldable pub trigger_current : Reducer → Snapshot → TriggerEvent → Decision
trigger_current r s e =
    if is_working s.state
    then if is_some s.active_turn
      then defer_for_active_turn s e.metadata EventKind.trigger
      else unchanged s Disposition.duplicate Reason.attempt_already_active
    else if not (legal_in_state s.state EventKind.trigger)
    then illegal_in_state s
    else if s.planning_only && state_eq s.state State.needs_human && e.planning_completed
    then completed_planning s
    else if e.prior_terminal_control_blocked && state_eq s.state State.needs_human
    then control_blocked s
    else if is_wrong_attempt s e
    then unchanged s Disposition.illegal Reason.invalid_event
    else enter_attempt r s e (trigger_entry r s e)

unfoldable pub reduce_trigger : Reducer → Snapshot → TriggerEvent → Decision
reduce_trigger r s e =
    if e.planning_only && not (state_eq s.state State.absent)
      || s.planning_only && not (state_eq s.state State.needs_human)
    then illegal_in_state s
    else elim (expected_revision_decision s e.metadata) [
      | some stale ↦ stale
      | none ↦ trigger_current r s e
    ]
