-- ===== src/Workflow/Laws/ReadyEntry.antt =====
-- PR_READY is entered on the evidence of an approving review, and in no other way.
use omnigrex.Prelude.{
  ℕ, ap, ◌≡◌, refl, true, false, Option, Option-cases, Bool-cases, inl, inr, Run, done, Holds,
  Holds-done, arith, ◌⊎◌, text_eq_iff,
}
use omnigrex.Workflow.Laws.Readiness.{Approval, marked}
use omnigrex.Workflow.Model.Events.{Event, EventMetadata}
use omnigrex.Workflow.Validation.SnapshotCheck.{
  is_blank, valid_attempt_shape, valid_marks, valid_present, valid_snapshot, valid_state_shape,
}
use omnigrex.Workflow.Reducer.Basics.{Reducer}
use omnigrex.Workflow.Validation.Parts.{valid_proposal}
use omnigrex.Workflow.Model.Vocabulary.{State, state_eq, state_eq_iff}
use omnigrex.Workflow.Model.Snapshots.{ChangeProposal, Snapshot}
use omnigrex.Workflow.Validation.EventCheck.{valid_event}
use omnigrex.Workflow.Laws.Contract.{reduce-kept, reduce-valid}
use omnigrex.Workflow.Model.Actions.{Decision}
use omnigrex.Workflow.Laws.ReadyEvents.{reduce_turn_settled-ready, valid_settled_lem}
use omnigrex.Workflow.Laws.AppliedCases.{applied_cases}
use omnigrex.Workflow.Laws.ReadyIntents.{reduce_terminal_intent_revalidated-ready}
use omnigrex.Workflow.Reducer.Step.{dispatch, is_applied, reduce}
use omnigrex.Workflow.Definition.Stages.{Definition}
use omnigrex.Workflow.Laws.UnmarkingLaws.{
  Unmarking, reduce_agent_turn_mutation_reconciliation_exhausted-Unmarking,
  reduce_agent_turn_preparation_failed-Unmarking,
  reduce_assignment_configuration_conflict-Unmarking, reduce_assignments_collected-Unmarking,
  reduce_change_proposal_observed-Unmarking, reduce_closure_settled-Unmarking,
  reduce_issue_closed-Unmarking, reduce_issue_reopened-Unmarking, reduce_review_observed-Unmarking,
  reduce_synchronization-Unmarking, reduce_terminal_revalidation_failed-Unmarking,
  reduce_trigger-Unmarking, reduce_workflow_action_exhausted-Unmarking,
}

-- The evidence that an Event gives for the Change Proposal `next`.
abbrev pub Evidence : Event → Option ChangeProposal → Type 0
Evidence (Event.turn_settled e) next =
    Approval e.turn e.outcome e.review e.change_proposal e.authorized_reviewer_actor_id next
Evidence (Event.terminal_intent_revalidated e) next =
    Approval e.source_turn e.outcome e.review e.change_proposal e.authorized_reviewer_actor_id next
Evidence _ next = ⊥

abbrev Evident : Snapshot → Event → Decision → Type 0
Evident s e d =
    marked d.snapshot.change_proposal ≡ true
    → (marked s.change_proposal ≡ true) ⊎ Evidence e d.snapshot.change_proposal

unmarking :
    (s : Snapshot) (e : Event) (m : Run Decision) → Holds (Unmarking s) m → Holds (Evident s e) m
unmarking s e (Run.done d) h = λ k. inl (h k)
unmarking s e Run.panic h = tt

dispatch-Evident :
    (r : Reducer) (s : Snapshot) (e : Event) (m : EventMetadata)
    → valid_event r.definition e m ≡ true
    → Holds (Evident s e) (dispatch r s e)
unfolding dispatch
dispatch-Evident r s (Event.trigger e) m v =
    unmarking s (Event.trigger e) (dispatch r s (Event.trigger e)) (reduce_trigger-Unmarking r s e)
dispatch-Evident r s (Event.terminal_revalidation_failed e) m v =
    unmarking s (Event.terminal_revalidation_failed e)
      (dispatch r s (Event.terminal_revalidation_failed e))
      (reduce_terminal_revalidation_failed-Unmarking r s e)
dispatch-Evident r s (Event.synchronization e) m v =
    unmarking s (Event.synchronization e) (dispatch r s (Event.synchronization e))
      (reduce_synchronization-Unmarking r s e)
dispatch-Evident r s (Event.review_observed e) m v =
    unmarking s (Event.review_observed e) (dispatch r s (Event.review_observed e))
      (reduce_review_observed-Unmarking r s e)
dispatch-Evident r s (Event.change_proposal_observed e) m v =
    unmarking s (Event.change_proposal_observed e) (dispatch r s (Event.change_proposal_observed e))
      (reduce_change_proposal_observed-Unmarking r s e)
dispatch-Evident r s (Event.issue_closed e) m v =
    unmarking s (Event.issue_closed e) (dispatch r s (Event.issue_closed e))
      (reduce_issue_closed-Unmarking r s e)
dispatch-Evident r s (Event.closure_settled e) m v =
    unmarking s (Event.closure_settled e) (dispatch r s (Event.closure_settled e))
      (reduce_closure_settled-Unmarking r s e)
dispatch-Evident r s (Event.issue_reopened e) m v =
    unmarking s (Event.issue_reopened e) (dispatch r s (Event.issue_reopened e))
      (reduce_issue_reopened-Unmarking r s e)
dispatch-Evident r s (Event.assignments_collected e) m v =
    unmarking s (Event.assignments_collected e) (dispatch r s (Event.assignments_collected e))
      (reduce_assignments_collected-Unmarking r s e)
dispatch-Evident r s (Event.assignment_configuration_conflict e) m v =
    unmarking s (Event.assignment_configuration_conflict e)
      (dispatch r s (Event.assignment_configuration_conflict e))
      (reduce_assignment_configuration_conflict-Unmarking r s e)
dispatch-Evident r s (Event.agent_turn_preparation_failed e) m v =
    unmarking s (Event.agent_turn_preparation_failed e)
      (dispatch r s (Event.agent_turn_preparation_failed e))
      (reduce_agent_turn_preparation_failed-Unmarking r s e)
dispatch-Evident r s (Event.agent_turn_mutation_reconciliation_exhausted e) m v =
    unmarking s (Event.agent_turn_mutation_reconciliation_exhausted e)
      (dispatch r s (Event.agent_turn_mutation_reconciliation_exhausted e))
      (reduce_agent_turn_mutation_reconciliation_exhausted-Unmarking r s e)
dispatch-Evident r s (Event.workflow_action_exhausted e) m v =
    unmarking s (Event.workflow_action_exhausted e)
      (dispatch r s (Event.workflow_action_exhausted e))
      (reduce_workflow_action_exhausted-Unmarking r s e)
dispatch-Evident r s (Event.turn_settled e) m v =
    reduce_turn_settled-ready r s e (valid_settled_lem r.definition e m v)
dispatch-Evident r s (Event.terminal_intent_revalidated e) m v =
    reduce_terminal_intent_revalidated-ready r s e
dispatch-Evident r s Event.foreign m v = λ k. inl k

unmarked_unless_ready :
    (d : Definition) (n : ℕ) (s : Snapshot)
    → valid_snapshot d n s ≡ true
    → state_eq s.state State.pr_ready ≡ false
    → marked s.change_proposal ≡ true
    → ⊥
unfolding valid_snapshot valid_present valid_marks is_blank
unmarked_unless_ready d n s v k m = ground arith

marked_when_ready :
    (d : Definition) (n : ℕ) (s : Snapshot)
    → valid_snapshot d n s ≡ true
    → s.state ≡ State.pr_ready
    → marked s.change_proposal ≡ true
unfolding valid_snapshot valid_present valid_state_shape valid_attempt_shape valid_proposal
marked_when_ready d n s v q = elim (Option-cases s.change_proposal) [
  | inl none_given ↦ ground (arith, state_eq_iff s.state State.absent)
  | inr (p, given) ↦ ground (
    arith,
    state_eq_iff s.state State.absent,
    text_eq_iff p.ready_for_sha p.head_sha,
    text_eq_iff p.ready_for_sha "",
    text_eq_iff p.head_sha "",
  )
]

-- A Snapshot enters PR_READY only by a settled Turn or a revalidated terminal intent whose outcome
-- approves: the review is by the authorized actor and of the head that the Change Proposal has and
-- that the Turn was given, and the Change Proposal is marked ready for that head.
pub reduce-Evidence :
    (r : Reducer) (s : Snapshot) (e : Event) {d : Decision}
    → reduce r s e ≡ done d
    → state_eq s.state State.pr_ready ≡ false
    → d.snapshot.state ≡ State.pr_ready
    → Evidence e d.snapshot.change_proposal
reduce-Evidence r s e {d} q before after = elim (Bool-cases (is_applied d.disposition)) [
  | inr refused ↦ absurd (same_lem (reduce-kept r s e q refused))
  | inl a ↦ entered (
      applied_cases
        (λ next _.
          (valid_snapshot r.definition r.retry_limit s ≡ true)
          × (marked next.change_proposal ≡ true
              → (marked s.change_proposal ≡ true) ⊎ Evidence e next.change_proposal))
        r s e q a
        (λ m kind d' p eq _. (
          p.sound,
          Holds-done (Evident s e) (dispatch r s e) eq (dispatch-Evident r s e m p.admitted),
        )))
]
  where
    same_lem : d.snapshot ≡ s → ⊥
    same_lem k = cc (
      before,
      ap (λ (x : Snapshot). x.state) k,
      after,
      (state_eq_iff State.pr_ready State.pr_ready).1 refl,
    )

    entered :
        (valid_snapshot r.definition r.retry_limit s ≡ true)
          × (marked d.snapshot.change_proposal ≡ true
              → (marked s.change_proposal ≡ true) ⊎ Evidence e d.snapshot.change_proposal)
        → Evidence e d.snapshot.change_proposal
    entered (v, k) =
        elim (k (
          marked_when_ready r.definition r.retry_limit d.snapshot (reduce-valid r s e q v) after)) [
            | inl m ↦ absurd (unmarked_unless_ready r.definition r.retry_limit s v before m)
            | inr evidence ↦ evidence
          ]
