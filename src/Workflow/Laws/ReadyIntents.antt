-- ===== src/Workflow/Laws/ReadyIntents.antt =====
-- Readiness where a prior Turn's terminal intent is revalidated.
use omnigrex.Prelude.{
  ◌≡◌, true, false, some, Option-cases, inl, inr, done, Holds, option-Holds, deref-Holds, if-Holds,
  arith, ap, ◌⊎◌, text_eq_iff, int_eq_iff, text_eq_self,
}
use omnigrex.Workflow.Model.Actions.{Decision}
use omnigrex.Workflow.Laws.ReadyEvents.{reduce_developer_settled-ready, stale_lem}
use omnigrex.Workflow.Model.Snapshots.{ChangeProposal, ReviewIdentity, Snapshot, WorkflowAttempt}
use omnigrex.Workflow.Reducer.Basics.{Reducer, clarification_wait_decision, unchanged}
use omnigrex.Workflow.Laws.Readiness.{Approval, marked, reduce_review_settled-ready}
use omnigrex.Workflow.Reducer.Revalidating.{
  accepted_stale, accepted_unrelated, conflicts, is_clarification, is_proposal_ready, reactivate,
  reduce_previously_accepted_terminal_review, reduce_terminal_intent_revalidated, replay_review,
  reused_event, revalidate_current, revalidate_in_stage,
}
use omnigrex.Workflow.Definition.Stages.{
  OutcomeTransition, StageDefinition, stage_of, transition_of,
}
use omnigrex.Workflow.Reducer.Reviewing.{reduce_review_settled}
use omnigrex.Workflow.Reducer.Developing.{reduce_developer_settled}
use omnigrex.Workflow.Model.Vocabulary.{Disposition, Reason, TurnOutcome}
use omnigrex.Workflow.Laws.Lawful.{revised}
use omnigrex.Workflow.Model.Events.{TerminalIntentRevalidatedEvent}

module _ (r : Reducer) (s : Snapshot) (e : TerminalIntentRevalidatedEvent) where
  -- Marked before, or on the evidence of the source Turn.
  abbrev pub IntentReadyBy : Decision → Type 0
  IntentReadyBy d =
      marked d.snapshot.change_proposal ≡ true
      → (marked s.change_proposal ≡ true)
        ⊎ Approval e.source_turn e.outcome e.review e.change_proposal e.authorized_reviewer_actor_id
            d.snapshot.change_proposal

  module _ (current given : ChangeProposal) (review : ReviewIdentity)
      (observed : e.change_proposal ≡ some given) (reported : e.review ≡ some review)
      (related : accepted_unrelated current given review e ≡ false) where
    accepted_lem :
        accepted_stale current given review e.source_turn ≡ false
        → (review.actor_id ≡ e.authorized_reviewer_actor_id)
          × (review.head_sha ≡ given.head_sha)
          × (review.head_sha ≡ e.source_turn.expected_head_sha)
    unfolding accepted_stale accepted_unrelated
    accepted_lem fresh = ground (
      arith,
      int_eq_iff review.actor_id e.authorized_reviewer_actor_id,
      text_eq_iff review.head_sha given.head_sha,
      text_eq_iff review.head_sha e.source_turn.expected_head_sha,
    )

    replay_review_lem :
        (a : WorkflowAttempt) (t : OutcomeTransition)
        → let d = replay_review r s e current given review a t in
          marked d.snapshot.change_proposal ≡ true
          → (marked s.change_proposal ≡ true)
            ⊎ ((accepted_stale current given review e.source_turn ≡ false)
                × (e.outcome ≡ TurnOutcome.approved)
                × (d.snapshot.change_proposal
                    ≡ some (record given { ready_for_sha = review.head_sha })))
    unfolding replay_review
    replay_review_lem a t = ground (arith, text_eq_self "")

    replay_review-ready :
        (a : WorkflowAttempt) (t : OutcomeTransition)
        → IntentReadyBy (replay_review r s e current given review a t)
    replay_review-ready a t m = elim (replay_review_lem a t m) [
      | inl k ↦ inl k
      | inr (fresh, approves, next) ↦ inr (record {
        verdict = review;
        given = given;
        approved = approves;
        reported = reported;
        observed = observed;
        authorized = (accepted_lem fresh).0;
        current = (accepted_lem fresh).1;
        expected = (accepted_lem fresh).2;
        ready = next;
      })
    ]

  reduce_previously_accepted_terminal_review-ready :
      Holds IntentReadyBy (reduce_previously_accepted_terminal_review r s e)
  unfolding reduce_previously_accepted_terminal_review
  reduce_previously_accepted_terminal_review-ready =
      option-Holds IntentReadyBy s.change_proposal _ _ (λ m. inl m)
        (λ current _.
          option-Holds IntentReadyBy e.change_proposal _ _ (λ m. inl m)
            (λ given observed.
              option-Holds IntentReadyBy e.review _ _ (λ m. inl m)
                (λ review reported.
                  if-Holds IntentReadyBy (accepted_unrelated current given review e)
                    (done (unchanged s Disposition.unrelated Reason.change_proposal_unrelated)) _
                    (λ _ m. inl m)
                    (λ related. deref-Holds IntentReadyBy s.current_attempt _ (λ a _.
                      option-Holds IntentReadyBy
                        (transition_of r.definition a.current_stage e.outcome) _ _ (λ m. inl m)
                        (λ t _.
                          replay_review-ready current given review observed reported related a
                            t))))))

  reactivate-ready : (stage : StageDefinition) → IntentReadyBy (reactivate stage s e)
  unfolding reactivate
  reactivate-ready stage = ground (arith, text_eq_self "")

  waiting-ready : IntentReadyBy (
      clarification_wait_decision
        (record s { resume_role = "" })
        e.source_turn
        e.human_input_pending)
  unfolding clarification_wait_decision
  waiting-ready = ground arith

  settled-ready :
      Holds IntentReadyBy
        (reduce_review_settled r s (record s { resume_role = "" }) (reused_event e))
  unfolding reused_event
  settled-ready = reduce_review_settled-ready r s (record s { resume_role = "" }) (reused_event e)

  developed-ready :
      Holds IntentReadyBy
        (reduce_developer_settled r s (record s { resume_role = "" }) (reused_event e))
  unfolding reused_event
  developed-ready =
      reduce_developer_settled-ready r s (record s { resume_role = "" }) (reused_event e) (λ m. m)

  revalidate_in_stage-ready :
      (stage : StageDefinition) → Holds IntentReadyBy (revalidate_in_stage r s e stage)
  unfolding revalidate_in_stage
  revalidate_in_stage-ready stage =
      if-Holds IntentReadyBy (is_clarification e.outcome) _ _ (λ _. waiting-ready)
        (λ _.
          if-Holds IntentReadyBy e.human_input_pending _ _ (λ _. reactivate-ready stage)
            (λ _. elim (Option-cases e.existing_review) [
              | inr (x, q) ↦ rw q (
                  if-Holds IntentReadyBy (conflicts e.review x)
                    (done (unchanged s Disposition.illegal Reason.review_identity_conflict)) _
                    (λ _ m. inl m) (λ _. reduce_previously_accepted_terminal_review-ready))
              | inl q ↦ rw q (
                  option-Holds IntentReadyBy (transition_of r.definition stage.id e.outcome) _ _
                    (λ m. inl m)
                    (λ t _.
                      if-Holds IntentReadyBy (is_proposal_ready e.outcome) _ _
                        (λ _. developed-ready) (λ _. settled-ready)))
            ]))

  revalidate_current-ready : Holds IntentReadyBy (revalidate_current r s e)
  unfolding revalidate_current
  revalidate_current-ready = elim (Option-cases (stage_of r.definition e.source_turn.stage)) [
    | inl q ↦ rw (q, revalidate_current) (ground arith)
    | inr (stage, q) ↦ rw (q, revalidate_current) (ground (arith, revalidate_in_stage-ready stage))
  ]

  pub reduce_terminal_intent_revalidated-ready :
      Holds IntentReadyBy (reduce_terminal_intent_revalidated r s e)
  unfolding reduce_terminal_intent_revalidated
  reduce_terminal_intent_revalidated-ready =
      revised (Holds IntentReadyBy) s e.metadata (revalidate_current r s e)
        (λ d h m.
          inl (cc (m, ap (λ (x : Snapshot). marked x.change_proposal) (stale_lem s e.metadata h))))
        (λ _. revalidate_current-ready)
