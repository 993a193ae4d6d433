-- ===== src/Workflow/Laws/RevalidationLaws.antt =====
-- The handler of a revalidated terminal intent is lawful.
use omnigrex.Prelude.{◌≡◌, refl, arith, Holds, Option-cases, inl, inr}
use omnigrex.Workflow.Model.Snapshots.{Snapshot, WorkflowAttempt, ChangeProposal, ReviewIdentity}
use omnigrex.Workflow.Model.Events.{TerminalIntentRevalidatedEvent}
use omnigrex.Workflow.Definition.Stages.{StageDefinition, OutcomeTransition, stage_of}
use omnigrex.Workflow.Reducer.Basics.{Reducer}
use omnigrex.Workflow.Reducer.Revalidating.{
  reduce_terminal_intent_revalidated, revalidate_current, revalidate_in_stage, reactivate,
  reduce_previously_accepted_terminal_review, replay_review, reused_event,
}
use omnigrex.Workflow.Laws.Lawful.{IsLawful, revised-IsLawful}
use omnigrex.Workflow.Laws.SettlementLaws.{
  reduce_developer_settled-IsLawful, clarification_wait_decision-IsLawful,
  reduce_review_settled-IsLawful,
}

module _ (s : Snapshot) (e : TerminalIntentRevalidatedEvent) where
  replay_review-IsLawful :
      (r : Reducer) (c g : ChangeProposal) (v : ReviewIdentity) (a : WorkflowAttempt)
      (t : OutcomeTransition)
      → e.metadata.expected_revision ≡ s.revision
      → IsLawful s e.metadata (replay_review r s e c g v a t)
  unfolding replay_review
  replay_review-IsLawful r c g v a t h = ground arith

  reactivate-IsLawful :
      (stage : StageDefinition)
      → e.metadata.expected_revision ≡ s.revision
      → IsLawful s e.metadata (reactivate stage s e)
  unfolding reactivate
  reactivate-IsLawful stage h = ground arith

  reduce_previously_accepted_terminal_review-IsLawful :
      (r : Reducer)
      → e.metadata.expected_revision ≡ s.revision
      → Holds (IsLawful s e.metadata) (reduce_previously_accepted_terminal_review r s e)
  unfolding reduce_previously_accepted_terminal_review
  reduce_previously_accepted_terminal_review-IsLawful r h = grind (arith, replay_review-IsLawful)

  revalidate_in_stage-IsLawful :
      (r : Reducer) (stage : StageDefinition)
      → e.metadata.expected_revision ≡ s.revision
      → Holds (IsLawful s e.metadata) (revalidate_in_stage r s e stage)
  unfolding revalidate_in_stage
  revalidate_in_stage-IsLawful r stage h =
      let next = record s { resume_role = "" } in
      ground (
        arith,
        clarification_wait_decision-IsLawful s next e.metadata e.source_turn e.human_input_pending
            (refl, refl) h,
        reactivate-IsLawful stage h,
        reduce_previously_accepted_terminal_review-IsLawful r h,
        reduce_developer_settled-IsLawful s e.metadata h next (reused_event e) (refl, refl) r,
        reduce_review_settled-IsLawful s e.metadata h r next (reused_event e) (refl, refl),
      )

  revalidate_current-IsLawful :
      (r : Reducer)
      → e.metadata.expected_revision ≡ s.revision
      → Holds (IsLawful s e.metadata) (revalidate_current r s e)
  unfolding revalidate_current
  revalidate_current-IsLawful r h =
      elim (Option-cases (stage_of r.definition e.source_turn.stage)) [
        | inl q ↦ rw (q, revalidate_current) (ground arith)
        | inr (stage, q) ↦
            rw (q, revalidate_current) (ground (arith, revalidate_in_stage-IsLawful r stage h))
      ]

pub reduce_terminal_intent_revalidated-IsLawful :
    (r : Reducer) (s : Snapshot) (e : TerminalIntentRevalidatedEvent)
    → Holds (IsLawful s e.metadata) (reduce_terminal_intent_revalidated r s e)
unfolding reduce_terminal_intent_revalidated
reduce_terminal_intent_revalidated-IsLawful r s e =
    revised-IsLawful s e.metadata _ (revalidate_current-IsLawful s e r)
