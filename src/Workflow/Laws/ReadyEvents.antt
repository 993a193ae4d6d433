-- ===== src/Workflow/Laws/ReadyEvents.antt =====
-- Readiness through every handler, and through Reduce.
use omnigrex.Prelude.{
  ◌≡◌, true, none, some, Option-cases, inl, inr, done, Holds, Holds-done, deref-Holds, if-Holds,
  arith, ap, ◌⊎◌, ◌||◌, not, text_eq_self, int_eq,
}
use omnigrex.Workflow.Model.Vocabulary.{TurnOutcome, Disposition, Reason}
use omnigrex.Workflow.Model.Snapshots.{Snapshot, review_eq}
use omnigrex.Workflow.Model.Events.{Event, EventMetadata, TurnSettledEvent}
use omnigrex.Workflow.Model.Actions.{Decision}
use omnigrex.Workflow.Definition.Stages.{Definition}
use omnigrex.Workflow.Validation.EventCheck.{
  valid_event, valid_content, valid_settled, valid_association, event_details,
}
use omnigrex.Workflow.Reducer.Basics.{
  Reducer, expected_revision_decision, unchanged, clarification_wait_decision,
}
use omnigrex.Workflow.Reducer.Developing.{reduce_developer_settled}
use omnigrex.Workflow.Reducer.Settling.{
  reduce_blocked, reduce_infrastructure_failure, reduce_terminal_corroboration_handoff,
  settle_clarification, settle_planning, settle_outcome, settle_turn, settled_snapshot,
  settle_current, reduce_turn_settled,
}
use omnigrex.Workflow.Laws.Lawful.{revised}
use omnigrex.Workflow.Laws.Readiness.{marked, Approval, ReadyBy, reduce_review_settled-ready}
use omnigrex.Workflow.Laws.AppliedCases.{applied_cases}
use omnigrex.Workflow.Reducer.Step.{dispatch, is_applied, reduce}

module _ (r : Reducer) (s next : Snapshot) (e : TurnSettledEvent)
    (k : marked next.change_proposal ≡ true → marked s.change_proposal ≡ true) where
  settle_clarification-ready : ReadyBy s e (settle_clarification s next e)
  unfolding settle_clarification clarification_wait_decision
  settle_clarification-ready = ground (arith, text_eq_self "")

  settle_planning-ready : ReadyBy s e (settle_planning s next e)
  unfolding settle_planning clarification_wait_decision
  settle_planning-ready = ground arith

  pub reduce_developer_settled-ready : Holds (ReadyBy s e) (reduce_developer_settled r s next e)
  unfolding reduce_developer_settled
  reduce_developer_settled-ready = ground (arith, text_eq_self "")

  reduce_infrastructure_failure-ready : Holds (ReadyBy s e) (reduce_infrastructure_failure next e)
  unfolding reduce_infrastructure_failure
  reduce_infrastructure_failure-ready = ground arith

  settle_outcome-ready : (o : TurnOutcome) → Holds (ReadyBy s e) (settle_outcome o r s next e)
  unfolding settle_outcome reduce_blocked reduce_terminal_corroboration_handoff
  settle_outcome-ready TurnOutcome.clarification_wait = settle_clarification-ready
  settle_outcome-ready TurnOutcome.planning_ready = settle_planning-ready
  settle_outcome-ready TurnOutcome.change_proposal_ready = reduce_developer_settled-ready
  settle_outcome-ready TurnOutcome.changes_requested = reduce_review_settled-ready r s next e
  settle_outcome-ready TurnOutcome.approved = reduce_review_settled-ready r s next e
  settle_outcome-ready TurnOutcome.infrastructure_failed =
      ground (arith, reduce_infrastructure_failure-ready)
  settle_outcome-ready _ = ground arith

settled_snapshot_lem :
    (s : Snapshot) (e : TurnSettledEvent)
    → valid_association e ≡ true
    → marked (settled_snapshot s e).change_proposal ≡ true
    → marked s.change_proposal ≡ true
unfolding settled_snapshot valid_association
settled_snapshot_lem s e v m = ground arith

pub stale_lem :
    (s : Snapshot) (m : EventMetadata) {d : Decision}
    → expected_revision_decision s m ≡ some d
    → d.snapshot ≡ s
unfolding expected_revision_decision
stale_lem s m h = ground arith

module _ (r : Reducer) (s : Snapshot) (e : TurnSettledEvent) (v : valid_association e ≡ true) where
  settle_current-ready : Holds (ReadyBy s e) (settle_current r s e)
  unfolding settle_current settle_turn
  settle_current-ready = ground (
    arith,
    settle_outcome-ready r s (settled_snapshot s e) e (settled_snapshot_lem s e v) e.outcome,
  )

  settle_known-ready : Holds (ReadyBy s e) (elim (expected_revision_decision s e.metadata) [
    | some stale ↦ done stale
    | none ↦ settle_current r s e
  ])
  settle_known-ready =
      revised (Holds (ReadyBy s e)) s e.metadata (settle_current r s e)
        (λ d h m. inl (cc (m, ap (λ x. marked x.change_proposal) (stale_lem s e.metadata h))))
        (λ _. settle_current-ready)

  pub reduce_turn_settled-ready : Holds (ReadyBy s e) (reduce_turn_settled r s e)
  unfolding reduce_turn_settled
  reduce_turn_settled-ready = elim (Option-cases e.existing_review) [
    | inl q ↦ rw (q, reduce_turn_settled) settle_known-ready
    | inr (x, q) ↦
        rw (q, reduce_turn_settled)
          (deref-Holds (ReadyBy s e) e.review _ (λ v _.
            if-Holds (ReadyBy s e) (not (int_eq x.id v.id) || not (review_eq x v))
              (done (unchanged s Disposition.illegal Reason.review_identity_conflict))
              (done (unchanged s Disposition.duplicate Reason.review_duplicate)) (λ _ m. inl m)
              (λ _ m. inl m)))
  ]

pub valid_settled_lem :
    (d : Definition) (e : TurnSettledEvent) (m : EventMetadata)
    → valid_event d (Event.turn_settled e) m ≡ true
    → valid_association e ≡ true
unfolding valid_event valid_content valid_settled
valid_settled_lem d e m h = ground arith

-- A settled Turn that is applied leaves a Change Proposal marked ready only where it was marked
-- before, or where the Turn approved: its review is by the authorized actor and of the head that
-- the Change Proposal has and that the Turn was given, and the mark is that head.
pub turn_settled-ready :
    (r : Reducer) (s : Snapshot) (e : TurnSettledEvent) {d : Decision}
    → reduce r s (Event.turn_settled e) ≡ done d
    → is_applied d.disposition ≡ true
    → marked d.snapshot.change_proposal ≡ true
    → (marked s.change_proposal ≡ true)
      ⊎ Approval e.turn e.outcome e.review e.change_proposal e.authorized_reviewer_actor_id
          d.snapshot.change_proposal
unfolding dispatch event_details
turn_settled-ready r s e q a =
    applied_cases
      (λ next _.
        marked next.change_proposal ≡ true
        → (marked s.change_proposal ≡ true)
          ⊎ Approval e.turn e.outcome e.review e.change_proposal e.authorized_reviewer_actor_id
              next.change_proposal)
      r s (Event.turn_settled e) q a
      (λ m kind d' p eq a'.
        Holds-done (ReadyBy s e) (reduce_turn_settled r s e) eq
          (reduce_turn_settled-ready r s e (valid_settled_lem r.definition e m p.admitted)))
