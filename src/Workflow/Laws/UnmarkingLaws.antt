-- ===== src/Workflow/Laws/UnmarkingLaws.antt =====
-- The handlers other than those of a Turn's outcome mark no Change Proposal as ready.
use omnigrex.Prelude.{◌≡◌, true, done, Holds, arith, text_eq_self}
use omnigrex.Workflow.Laws.Readiness.{marked}
use omnigrex.Workflow.Reducer.Observing.{
  moved_head, reduce_change_proposal_observed, reduce_review_observed, reduce_synchronization,
  synchronize, synchronize_stage,
}
use omnigrex.Workflow.Model.Events.{
  AgentTurnMutationReconciliationExhaustedEvent, AgentTurnPreparationFailedEvent,
  AssignmentConfigurationConflictEvent, AssignmentsCollectedEvent, ChangeProposalObservedEvent,
  ClosureSettledEvent, IssueClosedEvent, IssueReopenedEvent, ReviewObservedEvent,
  SynchronizationEvent, TerminalRevalidationFailedEvent, TriggerEvent, WorkflowActionExhaustedEvent,
}
use omnigrex.Workflow.Reducer.Triggering.{
  completed_planning, control_blocked, enter_attempt, reduce_trigger, start_attempt,
  trigger_current, trigger_snapshot,
}
use omnigrex.Workflow.Reducer.Basics.{Reducer, expected_revision_decision}
use omnigrex.Workflow.Reducer.Failures.{
  reduce_agent_turn_mutation_reconciliation_exhausted, reduce_agent_turn_preparation_failed,
  reduce_assignment_configuration_conflict, reduce_terminal_revalidation_failed,
  reduce_workflow_action_exhausted,
}
use omnigrex.Workflow.Model.Snapshots.{Snapshot}
use omnigrex.Workflow.Model.Actions.{Decision}
use omnigrex.Workflow.Reducer.Closing.{
  cancel_closure, close_issue, reduce_assignments_collected, reduce_closure_settled,
  reduce_issue_closed, reduce_issue_reopened, reopen, settle_closure,
}

-- A handler that marks no Change Proposal.
abbrev pub Unmarking : Snapshot → Decision → Type 0
Unmarking s d = marked d.snapshot.change_proposal ≡ true → marked s.change_proposal ≡ true

module _ (r : Reducer) (s : Snapshot) where
  pub reduce_trigger-Unmarking :
      (e : TriggerEvent) → Holds (Unmarking s) (done (reduce_trigger r s e))
  unfolding reduce_trigger expected_revision_decision trigger_current completed_planning
      control_blocked enter_attempt start_attempt trigger_snapshot
  reduce_trigger-Unmarking e = ground (arith, text_eq_self "")

  pub reduce_terminal_revalidation_failed-Unmarking :
      (e : TerminalRevalidationFailedEvent)
      → Holds (Unmarking s) (reduce_terminal_revalidation_failed r s e)
  unfolding reduce_terminal_revalidation_failed expected_revision_decision
  reduce_terminal_revalidation_failed-Unmarking e = ground arith

  pub reduce_synchronization-Unmarking :
      (e : SynchronizationEvent) → Holds (Unmarking s) (reduce_synchronization r s e)
  unfolding reduce_synchronization expected_revision_decision synchronize synchronize_stage
      moved_head
  reduce_synchronization-Unmarking e = ground (arith, text_eq_self "")

  pub reduce_review_observed-Unmarking :
      (e : ReviewObservedEvent) → Holds (Unmarking s) (done (reduce_review_observed s e))
  unfolding reduce_review_observed expected_revision_decision
  reduce_review_observed-Unmarking e = ground arith

  pub reduce_change_proposal_observed-Unmarking :
      (e : ChangeProposalObservedEvent)
      → Holds (Unmarking s) (done (reduce_change_proposal_observed s e))
  unfolding reduce_change_proposal_observed expected_revision_decision
  reduce_change_proposal_observed-Unmarking e = ground arith

  pub reduce_issue_closed-Unmarking :
      (e : IssueClosedEvent) → Holds (Unmarking s) (done (reduce_issue_closed r s e))
  unfolding reduce_issue_closed expected_revision_decision close_issue
  reduce_issue_closed-Unmarking e = ground (arith, text_eq_self "")

  pub reduce_closure_settled-Unmarking :
      (e : ClosureSettledEvent) → Holds (Unmarking s) (done (reduce_closure_settled s e))
  unfolding reduce_closure_settled expected_revision_decision settle_closure
  reduce_closure_settled-Unmarking e = ground (arith, text_eq_self "")

  pub reduce_issue_reopened-Unmarking :
      (e : IssueReopenedEvent) → Holds (Unmarking s) (reduce_issue_reopened s e)
  unfolding reduce_issue_reopened expected_revision_decision cancel_closure reopen
  reduce_issue_reopened-Unmarking e = ground arith

  pub reduce_assignments_collected-Unmarking :
      (e : AssignmentsCollectedEvent)
      → Holds (Unmarking s) (done (reduce_assignments_collected s e))
  unfolding reduce_assignments_collected expected_revision_decision
  reduce_assignments_collected-Unmarking e = ground arith

  pub reduce_assignment_configuration_conflict-Unmarking :
      (e : AssignmentConfigurationConflictEvent)
      → Holds (Unmarking s) (reduce_assignment_configuration_conflict r s e)
  unfolding reduce_assignment_configuration_conflict expected_revision_decision
  reduce_assignment_configuration_conflict-Unmarking e = ground arith

  pub reduce_agent_turn_preparation_failed-Unmarking :
      (e : AgentTurnPreparationFailedEvent)
      → Holds (Unmarking s) (reduce_agent_turn_preparation_failed r s e)
  unfolding reduce_agent_turn_preparation_failed expected_revision_decision
  reduce_agent_turn_preparation_failed-Unmarking e = ground arith

  pub reduce_agent_turn_mutation_reconciliation_exhausted-Unmarking :
      (e : AgentTurnMutationReconciliationExhaustedEvent)
      → Holds (Unmarking s) (reduce_agent_turn_mutation_reconciliation_exhausted r s e)
  unfolding reduce_agent_turn_mutation_reconciliation_exhausted expected_revision_decision
  reduce_agent_turn_mutation_reconciliation_exhausted-Unmarking e = ground arith

  pub reduce_workflow_action_exhausted-Unmarking :
      (e : WorkflowActionExhaustedEvent)
      → Holds (Unmarking s) (reduce_workflow_action_exhausted r s e)
  unfolding reduce_workflow_action_exhausted expected_revision_decision
  reduce_workflow_action_exhausted-Unmarking e = ground (arith, text_eq_self "")
