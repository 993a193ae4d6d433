-- ===== src/Workflow/Laws/ClosingLaws.antt =====
-- The handlers of closing, reopening and retention are lawful.
use omnigrex.Prelude.{Holds, arith}
use omnigrex.Workflow.Model.Snapshots.{Snapshot}
use omnigrex.Workflow.Model.Events.{
  IssueClosedEvent, ClosureSettledEvent, IssueReopenedEvent, AssignmentsCollectedEvent,
}
use omnigrex.Workflow.Reducer.Basics.{Reducer}
use omnigrex.Workflow.Reducer.Closing.{
  reduce_issue_closed, reduce_closure_settled, reduce_issue_reopened, reduce_assignments_collected,
}
use omnigrex.Workflow.Laws.Lawful.{IsLawful, revised-IsLawful, revised_decision-IsLawful}

pub reduce_issue_closed-IsLawful :
    (r : Reducer) (s : Snapshot) (e : IssueClosedEvent)
    → IsLawful s e.metadata (reduce_issue_closed r s e)
unfolding reduce_issue_closed
reduce_issue_closed-IsLawful r s e = revised_decision-IsLawful s e.metadata _ (λ h. ground arith)

module _ (s : Snapshot) where
  pub reduce_closure_settled-IsLawful :
      (e : ClosureSettledEvent) → IsLawful s e.metadata (reduce_closure_settled s e)
  unfolding reduce_closure_settled
  reduce_closure_settled-IsLawful e = revised_decision-IsLawful s e.metadata _ (λ h. ground arith)

  pub reduce_issue_reopened-IsLawful :
      (e : IssueReopenedEvent) → Holds (IsLawful s e.metadata) (reduce_issue_reopened s e)
  unfolding reduce_issue_reopened
  reduce_issue_reopened-IsLawful e = revised-IsLawful s e.metadata _ (λ h. ground arith)

  pub reduce_assignments_collected-IsLawful :
      (e : AssignmentsCollectedEvent) → IsLawful s e.metadata (reduce_assignments_collected s e)
  unfolding reduce_assignments_collected
  reduce_assignments_collected-IsLawful e =
      revised_decision-IsLawful s e.metadata _ (λ h. ground arith)
