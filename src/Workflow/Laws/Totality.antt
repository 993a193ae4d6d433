-- ===== src/Workflow/Laws/Totality.antt =====
-- The handlers never read a nil pointer on what Reduce has checked.
use omnigrex.Prelude.{ℕ, ◌≡◌, Bool, true, false, is_some, inl, inr, Returns, arith, ◌⊎◌}
use omnigrex.Workflow.Model.Vocabulary.{State, EventKind, state_eq_iff}
use omnigrex.Workflow.Model.Snapshots.{Snapshot, ChangeProposal}
use omnigrex.Workflow.Model.Events.{
  SynchronizationEvent, AssignmentConfigurationConflictEvent, AgentTurnPreparationFailedEvent,
  AgentTurnMutationReconciliationExhaustedEvent, WorkflowActionExhaustedEvent,
  TerminalRevalidationFailedEvent, IssueReopenedEvent,
}
use omnigrex.Workflow.Definition.Stages.{Definition}
use omnigrex.Workflow.Validation.Parts.{legal_in_state}
use omnigrex.Workflow.Validation.SnapshotCheck.{
  valid_snapshot, valid_present, valid_attempt, valid_state_shape, requires_attempt,
}
use omnigrex.Workflow.Reducer.Basics.{Reducer}
use omnigrex.Workflow.Reducer.Failures.{
  reduce_workflow_action_exhausted, reduce_agent_turn_mutation_reconciliation_exhausted,
  reduce_agent_turn_preparation_failed, reduce_assignment_configuration_conflict,
  reduce_terminal_revalidation_failed,
}
use omnigrex.Workflow.Reducer.Observing.{reduce_synchronization, synchronize}
use omnigrex.Workflow.Reducer.Closing.{reduce_issue_reopened}

-- What a valid Snapshot holds.
pub record HasPointers (s : Snapshot) : Type 0 where
  pub attempt : requires_attempt s.state ≡ true → is_some s.current_attempt ≡ true
  pub closure : s.state ≡ State.closing → is_some s.closure ≡ true

-- The Events whose handlers read the current Attempt behind the test of the state.
abbrev pub needs : EventKind → Bool
needs EventKind.turn_settled = true
needs EventKind.synchronization = true
needs EventKind.assignment_configuration_conflict = true
needs EventKind.agent_turn_preparation_failed = true
needs EventKind.agent_turn_mutation_reconciliation_exhausted = true
needs EventKind.workflow_action_exhausted = true
needs _ = false

pub attempt_lem :
    (d : Definition) (limit : ℕ) (s : Snapshot)
    → valid_attempt d limit s ≡ true
    → requires_attempt s.state ≡ true
    → is_some s.current_attempt ≡ true
unfolding valid_attempt
attempt_lem d limit s v h = ground arith

valid_present-HasPointers :
    (d : Definition) (limit : ℕ) (s : Snapshot) → valid_present d limit s ≡ true → HasPointers s
unfolding valid_present valid_state_shape
valid_present-HasPointers d limit s v = record {
  attempt = λ h. attempt_lem d limit s (ground arith) h;
  closure = λ h. ground arith;
}

-- A valid Snapshot is the absent one, or passes the checks of a present one.
pub valid_snapshot_cases :
    (d : Definition) (limit : ℕ) (s : Snapshot)
    → valid_snapshot d limit s ≡ true
    → (s.state ≡ State.absent) ⊎ (valid_present d limit s ≡ true)
unfolding valid_snapshot
valid_snapshot_cases d limit s v = ground (arith, state_eq_iff s.state State.absent)

absent_lem :
    (s : Snapshot)
    → s.state ≡ State.absent
    → requires_attempt s.state ≡ true
    → is_some s.current_attempt ≡ true
unfolding requires_attempt
absent_lem s a h = ground arith

pub valid_snapshot-HasPointers :
    (d : Definition) (limit : ℕ) (s : Snapshot) → valid_snapshot d limit s ≡ true → HasPointers s
valid_snapshot-HasPointers d limit s v = elim (valid_snapshot_cases d limit s v) [
  | inl a ↦ record { attempt = λ h. absent_lem s a h; closure = λ h. cc (a, h) }
  | inr p ↦ valid_present-HasPointers d limit s p
]

legal_needs_attempt :
    (s : State) (k : EventKind)
    → legal_in_state s k ≡ true
    → needs k ≡ true
    → requires_attempt s ≡ true
unfolding legal_in_state requires_attempt
legal_needs_attempt s k h n = ground arith

-- One handler after another, on a Snapshot that holds its pointers.
module _ (r : Reducer) (s : Snapshot) (h : HasPointers s) where
  pub attempt_when_legal :
      (k : EventKind)
      → legal_in_state s.state k ≡ true
      → needs k ≡ true
      → is_some s.current_attempt ≡ true
  attempt_when_legal k l n = h.attempt (legal_needs_attempt s.state k l n)

  pub reduce_workflow_action_exhausted-Returns :
      (e : WorkflowActionExhaustedEvent) → Returns (reduce_workflow_action_exhausted r s e)
  unfolding reduce_workflow_action_exhausted
  reduce_workflow_action_exhausted-Returns e =
      ground (arith, attempt_when_legal EventKind.workflow_action_exhausted)

  pub reduce_agent_turn_mutation_reconciliation_exhausted-Returns :
      (e : AgentTurnMutationReconciliationExhaustedEvent)
      → Returns (reduce_agent_turn_mutation_reconciliation_exhausted r s e)
  unfolding reduce_agent_turn_mutation_reconciliation_exhausted
  reduce_agent_turn_mutation_reconciliation_exhausted-Returns e =
      ground (arith, attempt_when_legal EventKind.agent_turn_mutation_reconciliation_exhausted)

  pub reduce_agent_turn_preparation_failed-Returns :
      (e : AgentTurnPreparationFailedEvent) → Returns (reduce_agent_turn_preparation_failed r s e)
  unfolding reduce_agent_turn_preparation_failed
  reduce_agent_turn_preparation_failed-Returns e =
      ground (arith, attempt_when_legal EventKind.agent_turn_preparation_failed)

  pub reduce_assignment_configuration_conflict-Returns :
      (e : AssignmentConfigurationConflictEvent)
      → Returns (reduce_assignment_configuration_conflict r s e)
  unfolding reduce_assignment_configuration_conflict
  reduce_assignment_configuration_conflict-Returns e =
      ground (arith, attempt_when_legal EventKind.assignment_configuration_conflict)

  pub reduce_terminal_revalidation_failed-Returns :
      (e : TerminalRevalidationFailedEvent) → Returns (reduce_terminal_revalidation_failed r s e)
  unfolding reduce_terminal_revalidation_failed
  reduce_terminal_revalidation_failed-Returns e = ground arith

  synchronize-Returns :
      (e : SynchronizationEvent) (p : ChangeProposal)
      → is_some s.current_attempt ≡ true
      → Returns (synchronize r s e p)
  unfolding synchronize
  synchronize-Returns e p a = ground arith

  pub reduce_synchronization-Returns :
      (e : SynchronizationEvent) → Returns (reduce_synchronization r s e)
  unfolding reduce_synchronization
  reduce_synchronization-Returns e = grind (arith, synchronize-Returns, attempt_when_legal)

  pub reduce_issue_reopened-Returns : (e : IssueReopenedEvent) → Returns (reduce_issue_reopened s e)
  unfolding reduce_issue_reopened
  reduce_issue_reopened-Returns e = ground (arith, h.closure, state_eq_iff s.state State.closing)
