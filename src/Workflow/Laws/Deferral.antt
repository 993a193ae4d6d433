-- ===== src/Workflow/Laws/Deferral.antt =====
-- While an Agent Turn runs, Events from outside wait: they are recorded, and nothing changes.
use omnigrex.Prelude.{
  Bool-cases, inl, inr, Holds, Holds-done, ◌≡◌, refl, Bool, true, false, is_some, arith, Run, done,
}
use omnigrex.Workflow.Model.Events.{
  AgentTurnMutationReconciliationExhaustedEvent, AgentTurnPreparationFailedEvent,
  AssignmentConfigurationConflictEvent, AssignmentsCollectedEvent, ChangeProposalObservedEvent,
  ClosureSettledEvent, Event, IssueReopenedEvent, ReviewObservedEvent, SynchronizationEvent,
  TerminalIntentRevalidatedEvent, TerminalRevalidationFailedEvent, TriggerEvent,
  WorkflowActionExhaustedEvent,
}
use omnigrex.Workflow.Validation.Parts.{is_working, legal_in_state}
use omnigrex.Workflow.Reducer.Triggering.{reduce_trigger, trigger_current}
use omnigrex.Workflow.Reducer.Failures.{
  reduce_agent_turn_mutation_reconciliation_exhausted, reduce_agent_turn_preparation_failed,
  reduce_assignment_configuration_conflict, reduce_terminal_revalidation_failed,
  reduce_workflow_action_exhausted,
}
use omnigrex.Workflow.Reducer.Step.{dispatch, is_applied, reduce}
use omnigrex.Workflow.Reducer.Revalidating.{reduce_terminal_intent_revalidated, revalidate_current}
use omnigrex.Workflow.Reducer.Closing.{
  reduce_assignments_collected, reduce_closure_settled, reduce_issue_reopened,
}
use omnigrex.Workflow.Reducer.Basics.{Reducer, expected_revision_decision}
use omnigrex.Workflow.Reducer.Observing.{
  reduce_change_proposal_observed, reduce_review_observed, reduce_synchronization,
}
use omnigrex.Workflow.Laws.AppliedCases.{applied_cases}
use omnigrex.Workflow.Model.Snapshots.{Snapshot}
use omnigrex.Workflow.Model.Actions.{Decision}

-- The Events that end an Agent Turn, or stop it.
abbrev pub ends_turn : Event → Bool
ends_turn (Event.turn_settled e) = true
ends_turn (Event.issue_closed e) = true
ends_turn _ = false

-- A run of a handler that is not applied.
abbrev Waits : Run Decision → Type 0
Waits m = Holds (λ d. is_applied d.disposition ≡ false) m

module _ (r : Reducer) (s : Snapshot) (busy : is_some s.active_turn ≡ true)
    (working : is_working s.state ≡ true) where
  reduce_trigger-Waits : (e : TriggerEvent) → Waits (done (reduce_trigger r s e))
  unfolding reduce_trigger expected_revision_decision trigger_current
  reduce_trigger-Waits e = ground arith

  reduce_synchronization-Waits : (e : SynchronizationEvent) → Waits (reduce_synchronization r s e)
  unfolding reduce_synchronization expected_revision_decision
  reduce_synchronization-Waits e = ground arith

  reduce_issue_reopened-Waits : (e : IssueReopenedEvent) → Waits (reduce_issue_reopened s e)
  unfolding reduce_issue_reopened expected_revision_decision
  reduce_issue_reopened-Waits e = ground arith

  reduce_terminal_intent_revalidated-Waits :
      (e : TerminalIntentRevalidatedEvent) → Waits (reduce_terminal_intent_revalidated r s e)
  unfolding reduce_terminal_intent_revalidated expected_revision_decision revalidate_current
  reduce_terminal_intent_revalidated-Waits e = ground arith

  reduce_terminal_revalidation_failed-Waits :
      (e : TerminalRevalidationFailedEvent) → Waits (reduce_terminal_revalidation_failed r s e)
  unfolding reduce_terminal_revalidation_failed expected_revision_decision
  reduce_terminal_revalidation_failed-Waits e = ground arith

  reduce_assignments_collected-Waits :
      (e : AssignmentsCollectedEvent) → Waits (done (reduce_assignments_collected s e))
  unfolding reduce_assignments_collected expected_revision_decision is_working legal_in_state
  reduce_assignments_collected-Waits e = ground arith

  reduce_closure_settled-Waits :
      (e : ClosureSettledEvent) → Waits (done (reduce_closure_settled s e))
  unfolding reduce_closure_settled expected_revision_decision is_working legal_in_state
  reduce_closure_settled-Waits e = ground arith

  reduce_review_observed-Waits :
      (e : ReviewObservedEvent) → Waits (done (reduce_review_observed s e))
  unfolding reduce_review_observed expected_revision_decision
  reduce_review_observed-Waits e = ground arith

  reduce_change_proposal_observed-Waits :
      (e : ChangeProposalObservedEvent) → Waits (done (reduce_change_proposal_observed s e))
  unfolding reduce_change_proposal_observed expected_revision_decision
  reduce_change_proposal_observed-Waits e = ground arith

  reduce_assignment_configuration_conflict-Waits :
      (e : AssignmentConfigurationConflictEvent)
      → Waits (reduce_assignment_configuration_conflict r s e)
  unfolding reduce_assignment_configuration_conflict expected_revision_decision
  reduce_assignment_configuration_conflict-Waits e = ground arith

  reduce_agent_turn_preparation_failed-Waits :
      (e : AgentTurnPreparationFailedEvent) → Waits (reduce_agent_turn_preparation_failed r s e)
  unfolding reduce_agent_turn_preparation_failed expected_revision_decision
  reduce_agent_turn_preparation_failed-Waits e = ground arith

  reduce_agent_turn_mutation_reconciliation_exhausted-Waits :
      (e : AgentTurnMutationReconciliationExhaustedEvent)
      → Waits (reduce_agent_turn_mutation_reconciliation_exhausted r s e)
  unfolding reduce_agent_turn_mutation_reconciliation_exhausted expected_revision_decision
  reduce_agent_turn_mutation_reconciliation_exhausted-Waits e = ground arith

  reduce_workflow_action_exhausted-Waits :
      (e : WorkflowActionExhaustedEvent) → Waits (reduce_workflow_action_exhausted r s e)
  unfolding reduce_workflow_action_exhausted expected_revision_decision
  reduce_workflow_action_exhausted-Waits e = ground arith

  dispatch-Waits : (e : Event) → ends_turn e ≡ false → Waits (dispatch r s e)
  unfolding dispatch
  dispatch-Waits (Event.trigger e) h = reduce_trigger-Waits e
  dispatch-Waits (Event.turn_settled e) h = ground arith
  dispatch-Waits (Event.terminal_intent_revalidated e) h =
      reduce_terminal_intent_revalidated-Waits e
  dispatch-Waits (Event.terminal_revalidation_failed e) h =
      reduce_terminal_revalidation_failed-Waits e
  dispatch-Waits (Event.synchronization e) h = reduce_synchronization-Waits e
  dispatch-Waits (Event.review_observed e) h = reduce_review_observed-Waits e
  dispatch-Waits (Event.change_proposal_observed e) h = reduce_change_proposal_observed-Waits e
  dispatch-Waits (Event.issue_closed e) h = ground arith
  dispatch-Waits (Event.closure_settled e) h = reduce_closure_settled-Waits e
  dispatch-Waits (Event.issue_reopened e) h = reduce_issue_reopened-Waits e
  dispatch-Waits (Event.assignments_collected e) h = reduce_assignments_collected-Waits e
  dispatch-Waits (Event.assignment_configuration_conflict e) h =
      reduce_assignment_configuration_conflict-Waits e
  dispatch-Waits (Event.agent_turn_preparation_failed e) h =
      reduce_agent_turn_preparation_failed-Waits e
  dispatch-Waits (Event.agent_turn_mutation_reconciliation_exhausted e) h =
      reduce_agent_turn_mutation_reconciliation_exhausted-Waits e
  dispatch-Waits (Event.workflow_action_exhausted e) h = reduce_workflow_action_exhausted-Waits e
  dispatch-Waits Event.foreign h = refl

-- While an Agent Turn is active in PLANNING, DEVELOPING or REVIEWING, the only Events that are
-- applied are the settlement of a Turn and the closing of the Issue.
pub reduce-waits :
    (r : Reducer) (s : Snapshot) (e : Event) {d : Decision}
    → reduce r s e ≡ done d
    → is_some s.active_turn ≡ true
    → is_working s.state ≡ true
    → is_applied d.disposition ≡ true
    → ends_turn e ≡ true
reduce-waits r s e q busy working a =
    applied_cases (λ _ _. ends_turn e ≡ true) r s e q a
      (λ m kind d' p eq a'. elim (Bool-cases (ends_turn e)) [
        | inl ends ↦ ends
        | inr other ↦ absurd (
            waits_lem d' a' (
              Holds-done (λ d. is_applied d.disposition ≡ false) (dispatch r s e) eq
                (dispatch-Waits r s busy working e other)))
      ])
  where
    waits_lem :
        (d : Decision) → is_applied d.disposition ≡ true → is_applied d.disposition ≡ false → ⊥
    waits_lem d p q = ground arith
