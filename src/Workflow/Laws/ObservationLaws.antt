-- ===== src/Workflow/Laws/ObservationLaws.antt =====
-- The handlers of what is observed on GitHub are lawful.
use omnigrex.Prelude.{Holds, arith}
use omnigrex.Workflow.Model.Vocabulary.{State, state_eq_iff}
use omnigrex.Workflow.Model.Snapshots.{Snapshot}
use omnigrex.Workflow.Model.Events.{
  SynchronizationEvent, ReviewObservedEvent, ChangeProposalObservedEvent,
}
use omnigrex.Workflow.Reducer.Basics.{Reducer}
use omnigrex.Workflow.Reducer.Observing.{
  reduce_synchronization, synchronize, synchronize_stage, moved_head, reduce_review_observed,
  reduce_change_proposal_observed,
}
use omnigrex.Workflow.Laws.Lawful.{IsLawful, revised-IsLawful, revised_decision-IsLawful}

pub reduce_synchronization-IsLawful :
    (r : Reducer) (s : Snapshot) (e : SynchronizationEvent)
    → Holds (IsLawful s e.metadata) (reduce_synchronization r s e)
unfolding reduce_synchronization synchronize synchronize_stage moved_head
reduce_synchronization-IsLawful r s e =
    revised-IsLawful s e.metadata _ (λ h. ground (arith, state_eq_iff s.state State.needs_human))

module _ (s : Snapshot) where
  pub reduce_review_observed-IsLawful :
      (e : ReviewObservedEvent) → IsLawful s e.metadata (reduce_review_observed s e)
  unfolding reduce_review_observed
  reduce_review_observed-IsLawful e = revised_decision-IsLawful s e.metadata _ (λ h. ground arith)

  pub reduce_change_proposal_observed-IsLawful :
      (e : ChangeProposalObservedEvent)
      → IsLawful s e.metadata (reduce_change_proposal_observed s e)
  unfolding reduce_change_proposal_observed
  reduce_change_proposal_observed-IsLawful e =
      revised_decision-IsLawful s e.metadata _ (λ h. ground arith)
