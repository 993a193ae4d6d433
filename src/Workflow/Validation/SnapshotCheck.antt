-- ===== src/Workflow/Validation/SnapshotCheck.antt =====
-- The parts of validSnapshot of internal/workflow/validation.go that read no pointer without a test, and
-- validSnapshot as a plain test: `valid_snapshot` and, of its parts, `valid_present`,
-- `valid_state_shape`, `valid_attempt_shape` and `valid_optional_active_turn` are false where the source
-- would read a nil pointer. SnapshotRun has the source's own order and reads.
use omnigrex.Prelude.{
  ℕ, Bool, true, false, not, Option, none, some, is_nil, is_some, ◌&&◌, ◌||◌, leb, ltb, ◌==◌, all,
  is_empty, text_eq, int_eq, pos, is_zero_time, if◌then◌else◌,
}
use omnigrex.Workflow.Model.Vocabulary.{
  State, StageId, state_eq, is_unset_status, is_unset_runtime, is_active_lifecycle,
}
use omnigrex.Workflow.Model.Snapshots.{
  Snapshot, WorkflowAttempt, ActiveTurn, ChangeProposal, Closure, usage_of, work_item_eq,
  zero_work_item,
}
use omnigrex.Workflow.Definition.Stages.{Definition, StageDefinition, stage_of, contains_role}
use omnigrex.Workflow.Definition.Builtin.{stage_planning}
use omnigrex.Workflow.Validation.Parts.{valid_work_item, valid_state, valid_change_proposal}
use omnigrex.Workflow.Validation.AssignmentCheck.{valid_assignments}

-- `snapshot == (Snapshot{State: StateAbsent})`.
unfoldable pub is_blank : Snapshot → Bool
is_blank s =
    not s.planning_only
    && not s.clarification_waiting
    && s.revision == 0
    && work_item_eq s.work_item zero_work_item
    && is_nil s.current_attempt
    && is_nil s.change_proposal
    && is_nil s.active_turn
    && is_empty s.continuation_stage
    && is_empty s.resume_role
    && is_unset_status s.assignments.status
    && is_unset_runtime s.assignments.runtime_state
    && is_zero_time s.assignments.retained_until
    && is_empty s.assignments.retention_token
    && is_nil s.closure
    && s.last_attempt_number == 0

-- `required` of validAttempt.
unfoldable pub requires_attempt : State → Bool
requires_attempt State.planning = true
requires_attempt State.plan_ready = true
requires_attempt State.developing = true
requires_attempt State.reviewing = true
requires_attempt State.pr_ready = true
requires_attempt State.needs_human = true
requires_attempt _ = false

unfoldable pub valid_usage : Definition → StageId × ℕ → Bool
valid_usage d (stage, used) = elim (stage_of d stage) [
  | none ↦ false
  | some configured ↦ not (configured.review_limit == 0) && leb used configured.review_limit
]

unfoldable pub valid_present_attempt :
    Definition → ℕ → Snapshot → WorkflowAttempt → StageDefinition → Bool
unfolding valid_usage
valid_present_attempt d retry_limit s a stage =
    not (is_empty a.id)
    && not (a.number == 0)
    && not (is_zero_time a.started_at)
    && is_active_lifecycle a.lifecycle
    && a.infrastructure_retry_budget.limit == retry_limit
    && leb a.infrastructure_retry_budget.used a.infrastructure_retry_budget.limit
    && all (valid_usage d) a.review_usage
    && a.number == s.last_attempt_number
    && (not (state_eq s.state State.reviewing)
        || stage.review_limit == 0
        || ltb (usage_of a.current_stage a.review_usage) stage.review_limit)

unfoldable pub valid_attempt : Definition → ℕ → Snapshot → Bool
unfolding valid_present_attempt requires_attempt
valid_attempt d retry_limit s = elim s.current_attempt [
  | none ↦ not (requires_attempt s.state) && ltb 0 s.last_attempt_number
  | some a ↦
      (requires_attempt s.state || state_eq s.state State.closing)
      && elim (stage_of d a.current_stage) [
        | none ↦ false
        | some stage ↦ valid_present_attempt d retry_limit s a stage
      ]
]

-- validActiveStageState.
unfoldable pub valid_active_stage_state : Definition → State → WorkflowAttempt → Bool
valid_active_stage_state d state a = elim (stage_of d a.current_stage) [
  | none ↦ false
  | some stage ↦ state_eq stage.state state
]

unfoldable pub turn_in_stage : WorkflowAttempt → StageDefinition → ActiveTurn → Bool
turn_in_stage a stage turn =
    not (is_empty turn.id)
    && not (is_empty turn.session_id)
    && text_eq turn.attempt_id a.id
    && text_eq turn.stage stage.id
    && text_eq turn.role stage.role
    && not (turn.epoch == 0)
    && not (turn.control_revision == 0)

unfoldable pub turn_on_proposal : Option ChangeProposal → ActiveTurn → Bool
turn_on_proposal none turn =
    int_eq turn.change_proposal_id (pos 0) && is_empty turn.expected_head_sha
turn_on_proposal (some p) turn =
    int_eq turn.change_proposal_id p.id && text_eq turn.expected_head_sha p.head_sha

unfoldable pub valid_optional_active_turn : Definition → Snapshot → WorkflowAttempt → Bool
unfolding turn_in_stage turn_on_proposal
valid_optional_active_turn d s a = elim s.active_turn [
  | none ↦ true
  | some turn ↦ elim (stage_of d a.current_stage) [
    | none ↦ false
    | some stage ↦ turn_in_stage a stage turn && turn_on_proposal s.change_proposal turn
  ]
]

abbrev pub valid_closing_turn : Option ActiveTurn → Option WorkflowAttempt → Bool
valid_closing_turn none a = true
valid_closing_turn (some turn) none = false
valid_closing_turn (some turn) (some a) =
    not (is_empty turn.id)
    && not (is_empty turn.session_id)
    && text_eq turn.attempt_id a.id
    && text_eq turn.stage a.current_stage
    && ltb 0 turn.epoch
    && ltb 0 turn.control_revision

abbrev pub valid_closure : Option Closure → Bool
valid_closure none = false
valid_closure (some c) =
    not (is_empty c.id) && not (is_empty c.retention_token) && not (is_zero_time c.retain_until)

abbrev pub ready_for_head : Option ChangeProposal → Bool
ready_for_head none = false
ready_for_head (some p) = text_eq p.ready_for_sha p.head_sha

-- The states that need an attempt.
unfoldable pub valid_attempt_shape : State → Definition → Snapshot → WorkflowAttempt → Bool
unfolding valid_active_stage_state valid_optional_active_turn
valid_attempt_shape State.planning d s a =
    is_nil s.closure && valid_active_stage_state d s.state a && valid_optional_active_turn d s a
valid_attempt_shape State.developing d s a =
    is_nil s.closure && valid_active_stage_state d s.state a && valid_optional_active_turn d s a
valid_attempt_shape State.reviewing d s a =
    is_nil s.closure
    && valid_change_proposal s.change_proposal
    && valid_active_stage_state d s.state a
    && valid_optional_active_turn d s a
valid_attempt_shape State.plan_ready d s a =
    s.planning_only
    && text_eq a.current_stage stage_planning
    && is_nil s.closure
    && is_nil s.active_turn
    && is_nil s.change_proposal
valid_attempt_shape State.pr_ready d s a =
    is_some (stage_of d a.current_stage)
    && is_nil s.closure
    && is_nil s.active_turn
    && valid_change_proposal s.change_proposal
    && ready_for_head s.change_proposal
valid_attempt_shape State.needs_human d s a =
    is_some (stage_of d a.current_stage) && is_nil s.closure && is_nil s.active_turn
valid_attempt_shape _ d s a = false

abbrev pub attempt_shape : Option WorkflowAttempt → Definition → Snapshot → Bool
attempt_shape none d s = false
attempt_shape (some a) d s = valid_attempt_shape s.state d s a

unfoldable pub valid_state_shape : State → Definition → Snapshot → Bool
unfolding valid_attempt_shape
valid_state_shape State.dormant d s =
    is_nil s.current_attempt && is_nil s.active_turn && is_nil s.closure
valid_state_shape State.closed d s =
    is_nil s.current_attempt && is_nil s.active_turn && is_nil s.closure
valid_state_shape State.closing d s =
    valid_closure s.closure && valid_closing_turn s.active_turn s.current_attempt
valid_state_shape _ d s = attempt_shape s.current_attempt d s

abbrev in_planning_stage : Option WorkflowAttempt → Bool
in_planning_stage none = false
in_planning_stage (some a) = text_eq a.current_stage stage_planning

abbrev outside_planning_stage : Option WorkflowAttempt → Bool
outside_planning_stage none = false
outside_planning_stage (some a) = not (text_eq a.current_stage stage_planning)

abbrev marked_ready : Option ChangeProposal → Bool
marked_ready none = false
marked_ready (some p) = not (is_empty p.ready_for_sha)

-- The three conditions behind the shape: planning only, the Role to resume, readiness.
unfoldable pub valid_marks : Definition → Snapshot → Bool
valid_marks d s =
    not (s.planning_only && (is_some s.change_proposal || outside_planning_stage s.current_attempt))
    && not (not s.planning_only && in_planning_stage s.current_attempt)
    && (is_empty s.resume_role || contains_role d s.resume_role)
    && not (not (state_eq s.state State.pr_ready) && marked_ready s.change_proposal)

unfoldable pub valid_present : Definition → ℕ → Snapshot → Bool
valid_present d retry_limit s =
    valid_work_item s.work_item
    && valid_assignments s.state s.assignments s.current_attempt
    && valid_attempt d retry_limit s
    && valid_state_shape s.state d s
    && valid_marks d s

unfoldable pub valid_snapshot : Definition → ℕ → Snapshot → Bool
valid_snapshot d retry_limit s =
    valid_state s.state
    && (if state_eq s.state State.absent then is_blank s else valid_present d retry_limit s)
