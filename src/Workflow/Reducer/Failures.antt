-- ===== src/Workflow/Reducer/Failures.antt =====
-- The handlers of internal/workflow/reducer.go that return the work to a human after a failure
-- outside an Agent Turn.
use omnigrex.Prelude.{
  String, Bool, true, not, List, [], ◌∷◌, Option, none, some, is_some, ◌||◌, if◌then◌else◌, text_eq,
  Run, done, ◌>>=◌, deref,
}
use omnigrex.Workflow.Model.Vocabulary.{
  State, Reason, Disposition, EventKind, RuntimeState, state_eq,
}
use omnigrex.Workflow.Model.Snapshots.{Snapshot, WorkflowAttempt}
use omnigrex.Workflow.Model.Events.{
  AssignmentConfigurationConflictEvent, AgentTurnPreparationFailedEvent,
  AgentTurnMutationReconciliationExhaustedEvent, WorkflowActionExhaustedEvent,
  TerminalRevalidationFailedEvent,
}
use omnigrex.Workflow.Model.Actions.{Action, Decision}
use omnigrex.Workflow.Definition.Stages.{stage_of}
use omnigrex.Workflow.Validation.Parts.{legal_in_state, is_working}
use omnigrex.Workflow.Reducer.Basics.{
  Reducer, unchanged, applied, illegal_in_state, expected_revision_decision, handed_over,
  unready_if_any, reconcile_state,
}

-- The actions of a hand-off.
abbrev pub hand_off_actions : Reason → String → List Action
hand_off_actions reason diagnostic =
    Action.mark_human_handoff reason diagnostic ∷ reconcile_state State.needs_human ∷ []

unfoldable pub reduce_workflow_action_exhausted :
    Reducer → Snapshot → WorkflowActionExhaustedEvent → Run Decision
reduce_workflow_action_exhausted r s e = elim (expected_revision_decision s e.metadata) [
  | some stale ↦ done stale
  | none ↦
      if not (legal_in_state s.state EventKind.workflow_action_exhausted)
      then done (illegal_in_state s)
      else if state_eq s.state State.needs_human
      then done (unchanged s Disposition.duplicate Reason.workflow_action_exhausted)
      else if is_some s.active_turn
      then done (unchanged s Disposition.deferred Reason.active_turn)
      else do
        attempt ← deref s.current_attempt
        elim (stage_of r.definition attempt.current_stage) [
          | none ↦ done (unchanged s Disposition.stale Reason.turn_guard_stale)
          | some stage ↦ done (
              applied
                (handed_over (record s { change_proposal = unready_if_any s.change_proposal })
                  stage.role)
                Reason.workflow_action_exhausted
                (hand_off_actions Reason.workflow_action_exhausted e.diagnostic))
        ]
]

unfoldable pub reduce_agent_turn_mutation_reconciliation_exhausted :
    Reducer → Snapshot → AgentTurnMutationReconciliationExhaustedEvent → Run Decision
reduce_agent_turn_mutation_reconciliation_exhausted r s e =
    elim (expected_revision_decision s e.metadata) [
      | some stale ↦ done stale
      | none ↦
          if not (legal_in_state s.state EventKind.agent_turn_mutation_reconciliation_exhausted)
          then done (illegal_in_state s)
          else if is_some s.active_turn
          then done (unchanged s Disposition.stale Reason.active_turn)
          else do
            attempt ← deref s.current_attempt
            elim (stage_of r.definition attempt.current_stage) [
              | none ↦ done (unchanged s Disposition.stale Reason.turn_guard_stale)
              | some stage ↦
                  if not (text_eq e.role stage.role)
                  then done (unchanged s Disposition.stale Reason.turn_guard_stale)
                  else done (
                      applied (handed_over s e.role)
                        Reason.agent_turn_mutation_reconciliation_exhausted
                        (hand_off_actions Reason.agent_turn_mutation_reconciliation_exhausted
                          e.diagnostic))
            ]
    ]

unfoldable pub reduce_agent_turn_preparation_failed :
    Reducer → Snapshot → AgentTurnPreparationFailedEvent → Run Decision
reduce_agent_turn_preparation_failed r s e = elim (expected_revision_decision s e.metadata) [
  | some stale ↦ done stale
  | none ↦
      if not (legal_in_state s.state EventKind.agent_turn_preparation_failed)
      then done (illegal_in_state s)
      else if is_some s.active_turn
      then done (unchanged s Disposition.stale Reason.active_turn)
      else do
        attempt ← deref s.current_attempt
        elim (stage_of r.definition attempt.current_stage) [
          | none ↦ done (unchanged s Disposition.stale Reason.turn_guard_stale)
          | some stage ↦
              if not (text_eq e.role stage.role)
              then done (unchanged s Disposition.stale Reason.turn_guard_stale)
              else let next = handed_over s e.role in
                done (
                  applied
                    (record next {
                      assignments =
                          if e.assignments_exist
                          then next.assignments
                          else record (next.assignments) { runtime_state = RuntimeState.collected };
                    })
                    Reason.agent_turn_preparation_failed
                    (hand_off_actions Reason.agent_turn_preparation_failed e.diagnostic))
        ]
]

unfoldable pub reduce_assignment_configuration_conflict :
    Reducer → Snapshot → AssignmentConfigurationConflictEvent → Run Decision
reduce_assignment_configuration_conflict r s e = elim (expected_revision_decision s e.metadata) [
  | some stale ↦ done stale
  | none ↦
      if not (legal_in_state s.state EventKind.assignment_configuration_conflict)
      then done (illegal_in_state s)
      else if is_some s.active_turn
      then done (unchanged s Disposition.stale Reason.active_turn)
      else do
        attempt ← deref s.current_attempt
        elim (stage_of r.definition attempt.current_stage) [
          | none ↦ done (unchanged s Disposition.stale Reason.turn_guard_stale)
          | some stage ↦
              if not (text_eq e.role stage.role)
              then done (unchanged s Disposition.stale Reason.turn_guard_stale)
              else done (
                  applied (handed_over s e.role) Reason.assignment_configuration_conflict
                    (hand_off_actions Reason.assignment_configuration_conflict ""))
        ]
]

-- `CurrentAttempt == nil || CurrentAttempt.ID != attemptID`.
abbrev pub is_other_attempt : Option WorkflowAttempt → String → Bool
is_other_attempt none id = true
is_other_attempt (some attempt) id = not (text_eq attempt.id id)

unfoldable pub reduce_terminal_revalidation_failed :
    Reducer → Snapshot → TerminalRevalidationFailedEvent → Run Decision
reduce_terminal_revalidation_failed r s e = elim (expected_revision_decision s e.metadata) [
  | some stale ↦ done stale
  | none ↦
      if is_other_attempt s.current_attempt e.attempt_id
        || is_some s.active_turn
        || not (is_working s.state)
      then done (unchanged s Disposition.stale Reason.turn_guard_stale)
      else do
        attempt ← deref s.current_attempt
        elim (stage_of r.definition attempt.current_stage) [
          | none ↦ done (unchanged s Disposition.illegal Reason.invariant_violation)
          | some stage ↦
              if not (state_eq stage.state s.state)
              then done (unchanged s Disposition.illegal Reason.invariant_violation)
              else done (
                  applied (handed_over s stage.role) e.reason
                    (hand_off_actions e.reason e.diagnostic))
        ]
]
