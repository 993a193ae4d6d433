-- ===== src/Workflow/Laws/FailureLaws.antt =====
-- The handlers that return the work to a human are lawful.
use omnigrex.Prelude.{Holds, arith}
use omnigrex.Workflow.Model.Snapshots.{Snapshot}
use omnigrex.Workflow.Model.Events.{
  AssignmentConfigurationConflictEvent, AgentTurnPreparationFailedEvent,
  AgentTurnMutationReconciliationExhaustedEvent, WorkflowActionExhaustedEvent,
  TerminalRevalidationFailedEvent,
}
use omnigrex.Workflow.Reducer.Basics.{Reducer}
use omnigrex.Workflow.Reducer.Failures.{
  reduce_workflow_action_exhausted, reduce_agent_turn_mutation_reconciliation_exhausted,
  reduce_agent_turn_preparation_failed, reduce_assignment_configuration_conflict,
  reduce_terminal_revalidation_failed,
}
use omnigrex.Workflow.Laws.Lawful.{IsLawful, revised-IsLawful}

module _ (r : Reducer) (s : Snapshot) where
  pub reduce_workflow_action_exhausted-IsLawful :
      (e : WorkflowActionExhaustedEvent)
      → Holds (IsLawful s e.metadata) (reduce_workflow_action_exhausted r s e)
  unfolding reduce_workflow_action_exhausted
  reduce_workflow_action_exhausted-IsLawful e = revised-IsLawful s e.metadata _ (λ h. ground arith)

  pub reduce_agent_turn_mutation_reconciliation_exhausted-IsLawful :
      (e : AgentTurnMutationReconciliationExhaustedEvent)
      → Holds (IsLawful s e.metadata) (reduce_agent_turn_mutation_reconciliation_exhausted r s e)
  unfolding reduce_agent_turn_mutation_reconciliation_exhausted
  reduce_agent_turn_mutation_reconciliation_exhausted-IsLawful e =
      revised-IsLawful s e.metadata _ (λ h. ground arith)

  pub reduce_agent_turn_preparation_failed-IsLawful :
      (e : AgentTurnPreparationFailedEvent)
      → Holds (IsLawful s e.metadata) (reduce_agent_turn_preparation_failed r s e)
  unfolding reduce_agent_turn_preparation_failed
  reduce_agent_turn_preparation_failed-IsLawful e =
      revised-IsLawful s e.metadata _ (λ h. ground arith)

  pub reduce_assignment_configuration_conflict-IsLawful :
      (e : AssignmentConfigurationConflictEvent)
      → Holds (IsLawful s e.metadata) (reduce_assignment_configuration_conflict r s e)
  unfolding reduce_assignment_configuration_conflict
  reduce_assignment_configuration_conflict-IsLawful e =
      revised-IsLawful s e.metadata _ (λ h. ground arith)

  pub reduce_terminal_revalidation_failed-IsLawful :
      (e : TerminalRevalidationFailedEvent)
      → Holds (IsLawful s e.metadata) (reduce_terminal_revalidation_failed r s e)
  unfolding reduce_terminal_revalidation_failed
  reduce_terminal_revalidation_failed-IsLawful e =
      revised-IsLawful s e.metadata _ (λ h. ground arith)
