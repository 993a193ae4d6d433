-- ===== src/Workflow/Reducer/Observing.antt =====
-- The handlers of internal/workflow/reducer.go for what is observed on GitHub: a new head, a review,
-- a Change Proposal.
use omnigrex.Prelude.{
  String, not, [], ◌∷◌, none, some, is_some, is_nil, ◌&&◌, ◌||◌, ltb, leb, if◌then◌else◌, inc_64,
  text_eq, int_eq, Run, done, ◌>>=◌, deref,
}
use omnigrex.Workflow.Model.Vocabulary.{
  State, Reason, Disposition, EventKind, TurnPurpose, state_eq,
}
use omnigrex.Workflow.Model.Snapshots.{Snapshot, WorkflowAttempt, ChangeProposal, usage_of}
use omnigrex.Workflow.Model.Events.{
  SynchronizationEvent, ReviewObservedEvent, ChangeProposalObservedEvent,
}
use omnigrex.Workflow.Model.Actions.{Action, Decision}
use omnigrex.Workflow.Definition.Stages.{StageDefinition, stage_of}
use omnigrex.Workflow.Validation.Parts.{legal_in_state, is_working}
use omnigrex.Workflow.Reducer.Basics.{
  Reducer, unchanged, applied, illegal_in_state, expected_revision_decision, defer_for_active_turn,
  handed_over, reconcile_state,
}

-- `next`: the head moves, readiness ends, no Turn is active.
unfoldable pub moved_head : Snapshot → ChangeProposal → String → Snapshot
moved_head s p head = record s {
  change_proposal = some (record p { head_sha = head; ready_for_sha = "" });
  active_turn = none;
}

-- From the Stage of the Attempt on.
unfoldable pub synchronize_stage :
    Snapshot → Snapshot → SynchronizationEvent → WorkflowAttempt → StageDefinition → Decision
synchronize_stage s next e attempt stage =
    if state_eq s.state State.needs_human
    then applied (record next { revision = inc_64 next.revision }) Reason.review_head_replaced
        (Action.preserve_human_handoff s.revision ∷ reconcile_state State.needs_human ∷ [])
    else if state_eq stage.state State.developing || s.clarification_waiting
    then applied (record next { revision = inc_64 next.revision }) Reason.review_head_replaced
        (reconcile_state stage.state ∷ [])
    else if ltb 0 stage.review_limit
        && leb stage.review_limit (usage_of stage.id attempt.review_usage)
    then applied (handed_over next stage.role) Reason.review_budget_exhausted (
        Action.mark_human_handoff Reason.review_budget_exhausted ""
        ∷ reconcile_state State.needs_human
        ∷ [])
    else applied (record next { state = stage.state; revision = inc_64 next.revision })
        Reason.review_head_replaced
        (Action.enqueue_turn (record {
          stage = stage.id;
          role = stage.role;
          purpose = TurnPurpose.synchronization;
          expected_head_sha = e.head_sha;
          retry_of_turn_id = "";
        })
          ∷ reconcile_state stage.state
          ∷ [])

unfoldable pub synchronize :
    Reducer → Snapshot → SynchronizationEvent → ChangeProposal → Run Decision
synchronize r s e p = do
  attempt ← deref s.current_attempt
  elim (stage_of r.definition attempt.current_stage) [
    | none ↦ done (unchanged s Disposition.illegal Reason.invariant_violation)
    | some stage ↦ done (synchronize_stage s (moved_head s p e.head_sha) e attempt stage)
  ]

unfoldable pub reduce_synchronization : Reducer → Snapshot → SynchronizationEvent → Run Decision
reduce_synchronization r s e = elim (expected_revision_decision s e.metadata) [
  | some stale ↦ done stale
  | none ↦
      if is_some s.active_turn && is_working s.state
      then done (defer_for_active_turn s e.metadata EventKind.synchronization)
      else if not (legal_in_state s.state EventKind.synchronization)
      then done (illegal_in_state s)
      else elim s.change_proposal [
        | none ↦ done (unchanged s Disposition.unrelated Reason.change_proposal_unrelated)
        | some p ↦
            if not (int_eq p.id e.change_proposal_id)
            then done (unchanged s Disposition.unrelated Reason.change_proposal_unrelated)
            else if text_eq e.head_sha p.head_sha
            then done (unchanged s Disposition.duplicate Reason.synchronization_duplicate)
            else if not (text_eq e.previous_head_sha p.head_sha)
            then done (unchanged s Disposition.stale Reason.synchronization_stale)
            else synchronize r s e p
      ]
]

unfoldable pub reduce_review_observed : Snapshot → ReviewObservedEvent → Decision
reduce_review_observed s e = elim (expected_revision_decision s e.metadata) [
  | some stale ↦ stale
  | none ↦
      if is_nil s.active_turn
      then unchanged s Disposition.unrelated Reason.corroboration_without_active_turn
      else if not (legal_in_state s.state EventKind.review_observed)
      then illegal_in_state s
      else defer_for_active_turn s e.metadata EventKind.review_observed
]

unfoldable pub reduce_change_proposal_observed : Snapshot → ChangeProposalObservedEvent → Decision
reduce_change_proposal_observed s e = elim (expected_revision_decision s e.metadata) [
  | some stale ↦ stale
  | none ↦
      if is_nil s.active_turn
      then unchanged s Disposition.unrelated Reason.corroboration_without_active_turn
      else if not (legal_in_state s.state EventKind.change_proposal_observed)
      then illegal_in_state s
      else defer_for_active_turn s e.metadata EventKind.change_proposal_observed
]
