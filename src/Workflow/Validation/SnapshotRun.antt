-- ===== src/Workflow/Validation/SnapshotRun.antt =====
-- validSnapshot of internal/workflow/validation.go with its reads of pointers: `panic` where it reads
-- CurrentAttempt or ChangeProposal with no test of its own and finds nil.
use omnigrex.Prelude.{
  ℕ, Bool, true, false, not, Option, none, some, is_nil, is_some, ◌&&◌, if◌then◌else◌, text_eq, Run,
  done, deref, ◌>>=◌,
}
use omnigrex.Workflow.Model.Vocabulary.{State, state_eq}
use omnigrex.Workflow.Model.Snapshots.{Snapshot, WorkflowAttempt, ActiveTurn, ChangeProposal}
use omnigrex.Workflow.Definition.Stages.{Definition, StageDefinition, stage_of}
use omnigrex.Workflow.Definition.Builtin.{stage_planning}
use omnigrex.Workflow.Validation.Parts.{valid_work_item, valid_state, valid_change_proposal}
use omnigrex.Workflow.Validation.AssignmentCheck.{valid_assignments}
use omnigrex.Workflow.Validation.SnapshotCheck.{
  is_blank, valid_attempt, valid_active_stage_state, turn_in_stage, turn_on_proposal, valid_closure,
  valid_closing_turn, valid_marks,
}

-- `b && m`.
abbrev pub both : Bool → Run Bool → Run Bool
both b m = if b then m else done false

-- validActiveStageState.
unfoldable pub check_active_stage_state : Definition → Snapshot → Run Bool
unfolding valid_active_stage_state
check_active_stage_state d s =
    deref s.current_attempt >>= λ a. done (valid_active_stage_state d s.state a)

-- The tests behind the lookup of the Stage.
abbrev pub turn_valid :
    Option StageDefinition → WorkflowAttempt → Option ChangeProposal → ActiveTurn → Bool
turn_valid none a p turn = false
turn_valid (some stage) a p turn = turn_in_stage a stage turn && turn_on_proposal p turn

-- validOptionalActiveTurn.
unfoldable pub check_optional_active_turn : Definition → Snapshot → Run Bool
check_optional_active_turn d s = elim s.active_turn [
  | none ↦ done true
  | some turn ↦ deref s.current_attempt >>= λ a.
      done (turn_valid (stage_of d a.current_stage) a s.change_proposal turn)
]

-- validStateShape.
unfoldable pub check_state_shape : State → Definition → Snapshot → Run Bool
unfolding check_active_stage_state check_optional_active_turn
check_state_shape State.dormant d s =
    done (is_nil s.current_attempt && is_nil s.active_turn && is_nil s.closure)
check_state_shape State.closed d s =
    done (is_nil s.current_attempt && is_nil s.active_turn && is_nil s.closure)
check_state_shape State.planning d s =
    both (is_nil s.closure)
      (check_active_stage_state d s >>= λ ok. both ok (check_optional_active_turn d s))
check_state_shape State.developing d s =
    both (is_nil s.closure)
      (check_active_stage_state d s >>= λ ok. both ok (check_optional_active_turn d s))
check_state_shape State.reviewing d s =
    both (is_nil s.closure && valid_change_proposal s.change_proposal)
      (check_active_stage_state d s >>= λ ok. both ok (check_optional_active_turn d s))
check_state_shape State.plan_ready d s = both s.planning_only (
    deref s.current_attempt >>= λ a. done (
      text_eq a.current_stage stage_planning
      && is_nil s.closure
      && is_nil s.active_turn
      && is_nil s.change_proposal))
check_state_shape State.pr_ready d s = deref s.current_attempt >>= λ a.
    both
      (is_some (stage_of d a.current_stage)
        && is_nil s.closure
        && is_nil s.active_turn
        && valid_change_proposal s.change_proposal)
      (deref s.change_proposal >>= λ p. done (text_eq p.ready_for_sha p.head_sha))
check_state_shape State.needs_human d s = deref s.current_attempt >>= λ a.
    done (is_some (stage_of d a.current_stage) && is_nil s.closure && is_nil s.active_turn)
check_state_shape State.closing d s =
    done (valid_closure s.closure && valid_closing_turn s.active_turn s.current_attempt)
check_state_shape _ d s = done false

-- Behind the test for ABSENT, in the source's order.
unfoldable pub check_present : Definition → ℕ → Snapshot → Run Bool
unfolding check_state_shape
check_present d retry_limit s =
    both
      (valid_work_item s.work_item
        && valid_assignments s.state s.assignments s.current_attempt
        && valid_attempt d retry_limit s)
      (check_state_shape s.state d s >>= λ ok. both ok (done (valid_marks d s)))

unfoldable pub check_snapshot : Definition → ℕ → Snapshot → Run Bool
unfolding check_present
check_snapshot d retry_limit s =
    if not (valid_state s.state)
    then done false
    else if state_eq s.state State.absent
    then done (is_blank s)
    else check_present d retry_limit s
