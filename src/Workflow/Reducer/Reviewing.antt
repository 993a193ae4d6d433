-- ===== src/Workflow/Reducer/Reviewing.antt =====
-- reduceReviewSettled of internal/workflow/reducer.go.
use omnigrex.Prelude.{
  String, Bool, true, false, not, [], ◌∷◌, ◌++◌, none, some, ◌&&◌, ◌||◌, leb, if◌then◌else◌, inc_64,
  inc_8, text_eq, is_empty, int_eq, Run, done, ◌>>=◌, deref,
}
use omnigrex.Workflow.Model.Vocabulary.{
  State, StageId, Reason, Disposition, TurnPurpose, TurnOutcome,
}
use omnigrex.Workflow.Model.Snapshots.{
  Snapshot, WorkflowAttempt, TurnGuard, ChangeProposal, ReviewIdentity, usage_of, set_usage,
}
use omnigrex.Workflow.Model.Events.{TurnSettledEvent}
use omnigrex.Workflow.Model.Actions.{Action, Decision}
use omnigrex.Workflow.Definition.Stages.{
  StageDefinition, OutcomeTransition, stage_of, transition_of,
}
use omnigrex.Workflow.Reducer.Basics.{
  Reducer, stage_or_zero, unchanged, applied, handed_over, unready, reconcile_state,
  successor_actions, with_pending,
}
use omnigrex.Workflow.Reducer.Developing.{transition_or_zero, with_used}

-- The four identities that reduceReviewSettled compares first.
unfoldable pub review_unrelated :
    ChangeProposal → ChangeProposal → ReviewIdentity → TurnGuard → Bool
review_unrelated current proposal review turn =
    not (int_eq turn.change_proposal_id current.id)
    || not (int_eq review.change_proposal_id current.id)
    || not (int_eq proposal.id current.id)

-- `staleHead`.
unfoldable pub stale_head :
    ChangeProposal → ChangeProposal → ReviewIdentity → TurnGuard → (pending_head : String) → Bool
stale_head current proposal review turn pending_head =
    not (text_eq review.head_sha turn.expected_head_sha)
    || not (text_eq review.head_sha proposal.head_sha)
    || not (text_eq current.head_sha turn.expected_head_sha)
    || not (is_empty pending_head)
      && (not (text_eq pending_head review.head_sha)
          || not (text_eq pending_head turn.expected_head_sha))

-- A review of a head that has moved: the Stage is entered again.
unfoldable pub review_again :
    StageDefinition → Snapshot → TurnSettledEvent → ChangeProposal → ReviewIdentity → Decision
review_again stage next e proposal review =
    applied (record next { state = stage.state; revision = inc_64 next.revision })
      Reason.review_head_replaced
      (Action.record_review review false
        ∷ (successor_actions e.turn e.pending_events (record {
          stage = stage.id;
          role = stage.role;
          purpose = TurnPurpose.synchronization;
          expected_head_sha = proposal.head_sha;
          retry_of_turn_id = "";
        })
            ++ reconcile_state stage.state ∷ []))

-- `ReviewUsage[sourceStage]++`, where the transition consumes a Review Cycle.
unfoldable pub consume_cycle : OutcomeTransition → StageId → WorkflowAttempt → WorkflowAttempt
consume_cycle transition source a =
    if transition.consumes_review_cycle
    then record a {
      review_usage = set_usage source (inc_8 (usage_of source a.review_usage)) a.review_usage;
    }
    else a

unfoldable pub approve :
    OutcomeTransition
    → Snapshot
    → WorkflowAttempt
    → TurnSettledEvent
    → ChangeProposal
    → ReviewIdentity
    → Decision
approve transition next attempt e proposal review =
    applied
      (record next {
        state = transition.terminal_state;
        current_attempt = some (record attempt { current_stage = transition.continuation_stage });
        change_proposal = some (record proposal { ready_for_sha = review.head_sha });
        revision = inc_64 next.revision;
      })
      Reason.approved
      (with_pending e.turn e.pending_events (
        Action.record_review review true
        ∷ Action.reconcile_labels State.pr_ready review.head_sha
        ∷ []))

unfoldable pub exhaust_reviews :
    StageDefinition → Snapshot → TurnSettledEvent → ReviewIdentity → Decision
exhaust_reviews target next e review =
    applied (handed_over next target.role) Reason.review_budget_exhausted (
      with_pending e.turn e.pending_events (
        Action.record_review review true
        ∷ Action.mark_human_handoff Reason.review_budget_exhausted ""
        ∷ reconcile_state State.needs_human
        ∷ []))

unfoldable pub request_changes :
    OutcomeTransition
    → StageDefinition
    → Snapshot
    → TurnSettledEvent
    → ChangeProposal
    → ReviewIdentity
    → Decision
request_changes transition target next e proposal review =
    applied (record next { state = target.state; revision = inc_64 next.revision })
      Reason.changes_requested
      (Action.record_review review true
        ∷ (successor_actions e.turn e.pending_events (record {
          stage = target.id;
          role = target.role;
          purpose = transition.next_purpose;
          expected_head_sha = proposal.head_sha;
          retry_of_turn_id = "";
        })
            ++ reconcile_state target.state ∷ []))

abbrev pub is_approved : TurnOutcome → Bool
is_approved TurnOutcome.approved = true
is_approved _ = false

-- Requested changes: the next Stage, or a human where the Review Cycles are used up.
unfoldable pub redirect :
    OutcomeTransition
    → StageDefinition
    → StageId
    → StageDefinition
    → WorkflowAttempt
    → Snapshot
    → TurnSettledEvent
    → ChangeProposal
    → ReviewIdentity
    → Decision
redirect transition stage source target counted next e proposal review =
    let moved = record next {
      current_attempt = some (record counted { current_stage = target.id });
    } in
    if transition.consumes_review_cycle
      && leb stage.review_limit (usage_of source counted.review_usage)
    then exhaust_reviews target moved e review
    else request_changes transition target moved e proposal review

-- The end of reduceReviewSettled, for a review of the head that the Turn was given. `attempt` is
-- the Attempt with its retries reset.
unfoldable pub accept_review :
    Reducer
    → Snapshot
    → StageId
    → WorkflowAttempt
    → TurnSettledEvent
    → ChangeProposal
    → ReviewIdentity
    → Snapshot
    → Decision
accept_review r s source attempt e proposal review next =
    let stage = stage_or_zero (stage_of r.definition source) in
    let transition = transition_or_zero (transition_of r.definition source e.outcome) in
    let counted = consume_cycle transition source attempt in
    if is_approved e.outcome
    then approve transition next counted e proposal review
    else elim (stage_of r.definition transition.next_stage) [
      | none ↦ unchanged s Disposition.illegal Reason.invariant_violation
      | some target ↦ redirect transition stage source target counted next e proposal review
    ]

-- From the reset of the retries on: a stale review is recorded, another one is accepted.
unfoldable pub settle_review :
    Reducer
    → Snapshot
    → Snapshot
    → TurnSettledEvent
    → ChangeProposal
    → ReviewIdentity
    → ChangeProposal
    → WorkflowAttempt
    → StageId
    → Decision
settle_review r s next e current review given attempt source =
    let proposal = unready given in
    let next' = record next {
      change_proposal = some proposal;
      current_attempt = some (with_used 0 attempt);
    } in
    if stale_head current proposal review e.turn e.pending_events.latest_observed_head_sha
    then review_again (stage_or_zero (stage_of r.definition source)) next' e proposal review
    else accept_review r s source (with_used 0 attempt) e proposal review next'

-- The identities are compared first.
unfoldable pub compare_review :
    Reducer
    → Snapshot
    → Snapshot
    → TurnSettledEvent
    → ChangeProposal
    → ReviewIdentity
    → ChangeProposal
    → Run Decision
compare_review r s next e current review given =
    if review_unrelated current given review e.turn
    then done (unchanged s Disposition.unrelated Reason.change_proposal_unrelated)
    else if not (int_eq review.actor_id e.authorized_reviewer_actor_id)
    then done (unchanged s Disposition.unrelated Reason.reviewer_actor_unrelated)
    else do
      attempt ← deref next.current_attempt
      source ← deref s.current_attempt
      done (settle_review r s next e current review given attempt source.current_stage)

unfoldable pub reduce_review_settled :
    Reducer → Snapshot → Snapshot → TurnSettledEvent → Run Decision
reduce_review_settled r s next e = elim s.change_proposal [
  | none ↦ done (unchanged s Disposition.unrelated Reason.change_proposal_unrelated)
  | some current ↦ do
    review ← deref e.review
    given ← deref e.change_proposal
    compare_review r s next e current review given
]
