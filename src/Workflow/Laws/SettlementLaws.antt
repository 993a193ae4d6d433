-- ===== src/Workflow/Laws/SettlementLaws.antt =====
-- The handlers of a settled or revalidated Turn are lawful.
use omnigrex.Prelude.{
  Bool, ◌≡◌, refl, ◌≤◌, arith, false, ◌++◌, [], ◌∷◌, Holds, some, Option-cases, inl, inr, either,
  done, not, deref-Holds, option-Holds,
}
use omnigrex.Workflow.Model.Vocabulary.{
  StageId, State, Reason, TurnOutcome, is_unset_reason, Disposition,
}
use omnigrex.Workflow.Model.Snapshots.{
  Snapshot, WorkflowAttempt, ChangeProposal, ReviewIdentity, TurnGuard,
}
use omnigrex.Workflow.Model.Events.{EventMetadata, TurnSettledEvent, PendingEventsObservation}
use omnigrex.Workflow.Model.Actions.{EnqueueTurnAction}
use omnigrex.Workflow.Definition.Stages.{
  StageDefinition, OutcomeTransition, stage_of, transition_of,
}
use omnigrex.Workflow.Reducer.Basics.{
  Reducer, successor_actions, clarification_wait_decision, reconcile_state, stage_or_zero, unready,
}
use omnigrex.Workflow.Reducer.Failures.{hand_off_actions}
use omnigrex.Workflow.Reducer.Reviewing.{
  reduce_review_settled, review_again, accept_review, approve, exhaust_reviews, request_changes,
  redirect, consume_cycle, compare_review, settle_review,
}
use omnigrex.Workflow.Reducer.Developing.{reduce_developer_settled, transition_or_zero, with_used}
use omnigrex.Workflow.Reducer.Settling.{
  reduce_blocked, reduce_infrastructure_failure, reduce_terminal_corroboration_handoff,
  settle_clarification, settle_planning, settle_outcome, settle_turn, settled_snapshot,
  settle_current, reduce_turn_settled,
}
use omnigrex.Workflow.Laws.Lawful.{
  IsLawful, revised-IsLawful, scheduled_work, hands_off, unchanged-IsLawful, scheduled_work-append,
  hands_off-append, successor_actions_lem, with_pending_lem,
}

-- The successor of a Turn with the labels behind it.
successor_labels_lem :
    (g : TurnGuard) (p : PendingEventsObservation) (intent : EnqueueTurnAction) (state : State)
    → (scheduled_work (successor_actions g p intent ++ reconcile_state state ∷ []) ≤ 1)
      × (hands_off (successor_actions g p intent ++ reconcile_state state ∷ []) ≡ false)
successor_labels_lem g p intent state = ground (
  arith,
  scheduled_work-append (successor_actions g p intent) (reconcile_state state ∷ []),
  hands_off-append (successor_actions g p intent) (reconcile_state state ∷ []),
  successor_actions_lem g p intent,
)

-- `next` has the Snapshot's revision and numbering: it is the Snapshot with other fields changed.
abbrev pub Follows : Snapshot → Snapshot → Type 0
Follows s next = (next.revision ≡ s.revision) × (next.last_attempt_number ≡ s.last_attempt_number)

pub clarification_wait_decision-IsLawful :
    (s next : Snapshot) (m : EventMetadata) (g : TurnGuard) (pending : Bool)
    → Follows s next
    → m.expected_revision ≡ s.revision
    → IsLawful s m (clarification_wait_decision next g pending)
unfolding clarification_wait_decision
clarification_wait_decision-IsLawful s next m g pending f h = ground arith

module _ (s : Snapshot) (m : EventMetadata) (h : m.expected_revision ≡ s.revision) where
  module _ (next : Snapshot) (e : TurnSettledEvent) (f : Follows s next) where
    reduce_blocked-IsLawful : IsLawful s m (reduce_blocked next e)
    unfolding reduce_blocked
    reduce_blocked-IsLawful = ground (
      arith,
      with_pending_lem e.turn e.pending_events (hand_off_actions Reason.agent_blocked e.diagnostic),
    )

    reduce_terminal_corroboration_handoff-IsLawful :
        IsLawful s m (reduce_terminal_corroboration_handoff next e)
    unfolding reduce_terminal_corroboration_handoff
    reduce_terminal_corroboration_handoff-IsLawful = ground (
      arith,
      with_pending_lem e.turn e.pending_events
          (hand_off_actions e.corroboration_handoff_reason e.diagnostic),
    )

    reduce_infrastructure_failure-IsLawful :
        Holds (IsLawful s m) (reduce_infrastructure_failure next e)
    unfolding reduce_infrastructure_failure
    reduce_infrastructure_failure-IsLawful = grind (arith, with_pending_lem, successor_actions_lem)

    review_again-IsLawful :
        (stage : StageDefinition) (p : ChangeProposal) (v : ReviewIdentity)
        → IsLawful s m (review_again stage next e p v)
    unfolding review_again
    review_again-IsLawful stage p v = grind (arith, successor_labels_lem)

    approve-IsLawful :
        (t : OutcomeTransition) (a : WorkflowAttempt) (p : ChangeProposal) (v : ReviewIdentity)
        → IsLawful s m (approve t next a e p v)
    unfolding approve
    approve-IsLawful t a p v = grind (arith, with_pending_lem)

    exhaust_reviews-IsLawful :
        (stage : StageDefinition) (v : ReviewIdentity)
        → IsLawful s m (exhaust_reviews stage next e v)
    unfolding exhaust_reviews
    exhaust_reviews-IsLawful stage v = grind (arith, with_pending_lem)

    request_changes-IsLawful :
        (t : OutcomeTransition) (stage : StageDefinition) (p : ChangeProposal) (v : ReviewIdentity)
        → IsLawful s m (request_changes t stage next e p v)
    unfolding request_changes
    request_changes-IsLawful t stage p v = grind (arith, successor_labels_lem)

    pub reduce_developer_settled-IsLawful :
        (r : Reducer) → Holds (IsLawful s m) (reduce_developer_settled r s next e)
    unfolding reduce_developer_settled
    reduce_developer_settled-IsLawful r = grind (arith, successor_labels_lem)

    settle_clarification-IsLawful : IsLawful s m (settle_clarification s next e)
    unfolding settle_clarification clarification_wait_decision
    settle_clarification-IsLawful = ground arith

    settle_planning-IsLawful : IsLawful s m (settle_planning s next e)
    unfolding settle_planning clarification_wait_decision
    settle_planning-IsLawful = ground arith

  module _ (next : Snapshot) (e : TurnSettledEvent) (p : ChangeProposal) (v : ReviewIdentity) where
    redirect-IsLawful :
        (t : OutcomeTransition) (stage : StageDefinition) (id : StageId) (target : StageDefinition)
        (a : WorkflowAttempt)
        → Follows s next
        → IsLawful s m (redirect t stage id target a next e p v)
    unfolding redirect
    redirect-IsLawful t stage id target a f =
        let moved = record next {
          current_attempt = some (record a { current_stage = target.id });
        } in
        ground (
          arith,
          exhaust_reviews-IsLawful moved e f target v,
          request_changes-IsLawful moved e f t target p v,
        )

    accept_review-IsLawful :
        (r : Reducer) (id : StageId) (a : WorkflowAttempt)
        → Follows s next
        → IsLawful s m (accept_review r s id a e p v next)
    unfolding accept_review
    accept_review-IsLawful r id a f =
        let t = transition_or_zero (transition_of r.definition id e.outcome) in
        elim (Option-cases (stage_of r.definition t.next_stage)) [
          | inl q ↦
              rw (q, accept_review)
                (ground (arith, approve-IsLawful next e f t (consume_cycle t id a) p v))
          | inr (target, q) ↦
              rw (q, accept_review)
                (ground (
                  arith,
                  approve-IsLawful next e f t (consume_cycle t id a) p v,
                  redirect-IsLawful t (stage_or_zero (stage_of r.definition id)) id target
                      (consume_cycle t id a) f,
                ))
        ]

  module _ (r : Reducer) (next : Snapshot) (e : TurnSettledEvent) (f : Follows s next)
      (current : ChangeProposal) (v : ReviewIdentity) (g : ChangeProposal) where
    settle_review-IsLawful :
        (a : WorkflowAttempt) (source : StageId)
        → IsLawful s m (settle_review r s next e current v g a source)
    unfolding settle_review
    settle_review-IsLawful a source =
        let next' = record next {
          change_proposal = some (unready g);
          current_attempt = some (with_used 0 a);
        } in
        ground (
          arith,
          review_again-IsLawful next' e f (stage_or_zero (stage_of r.definition source)) (unready g)
              v,
          accept_review-IsLawful next' e (unready g) v r source (with_used 0 a) f,
        )

    compare_review-IsLawful : Holds (IsLawful s m) (compare_review r s next e current v g)
    unfolding compare_review
    compare_review-IsLawful = grind (arith, settle_review-IsLawful)

  pub reduce_review_settled-IsLawful :
      (r : Reducer) (next : Snapshot) (e : TurnSettledEvent)
      → Follows s next
      → Holds (IsLawful s m) (reduce_review_settled r s next e)
  unfolding reduce_review_settled
  reduce_review_settled-IsLawful r next e f =
      option-Holds (IsLawful s m) s.change_proposal _ _
        (unchanged-IsLawful s m Disposition.unrelated Reason.change_proposal_unrelated refl)
        (λ current _. deref-Holds (IsLawful s m) e.review _ (λ v _.
          deref-Holds (IsLawful s m) e.change_proposal _
            (λ g _. compare_review-IsLawful r next e f current v g)))

  settle_outcome-IsLawful :
      (o : TurnOutcome) (r : Reducer) (next : Snapshot) (e : TurnSettledEvent)
      → Follows s next
      → Holds (IsLawful s m) (settle_outcome o r s next e)
  unfolding settle_outcome
  settle_outcome-IsLawful TurnOutcome.clarification_wait r next e f =
      settle_clarification-IsLawful next e f
  settle_outcome-IsLawful TurnOutcome.planning_ready r next e f = settle_planning-IsLawful next e f
  settle_outcome-IsLawful TurnOutcome.change_proposal_ready r next e f =
      reduce_developer_settled-IsLawful next e f r
  settle_outcome-IsLawful TurnOutcome.changes_requested r next e f =
      reduce_review_settled-IsLawful r next e f
  settle_outcome-IsLawful TurnOutcome.approved r next e f =
      reduce_review_settled-IsLawful r next e f
  settle_outcome-IsLawful TurnOutcome.blocked r next e f = reduce_blocked-IsLawful next e f
  settle_outcome-IsLawful TurnOutcome.prerequisite_failed r next e f =
      reduce_blocked-IsLawful next e f
  settle_outcome-IsLawful TurnOutcome.infrastructure_failed r next e f =
      either (Holds (IsLawful s m)) (not (is_unset_reason e.corroboration_handoff_reason))
        {x = done (reduce_terminal_corroboration_handoff next e)}
        {y = reduce_infrastructure_failure next e}
        (λ _. reduce_terminal_corroboration_handoff-IsLawful next e f)
        (λ _. reduce_infrastructure_failure-IsLawful next e f)
  settle_outcome-IsLawful TurnOutcome.unset r next e f = unchanged-IsLawful s m _ _ refl

  settle_turn-IsLawful :
      (r : Reducer) (e : TurnSettledEvent) → Holds (IsLawful s m) (settle_turn r s e)
  unfolding settle_turn settled_snapshot
  settle_turn-IsLawful r e =
      ground (arith, settle_outcome-IsLawful e.outcome r (settled_snapshot s e) e (refl, refl))

  settle_current-IsLawful :
      (r : Reducer) (e : TurnSettledEvent) → Holds (IsLawful s m) (settle_current r s e)
  unfolding settle_current
  settle_current-IsLawful r e = ground (arith, settle_turn-IsLawful r e)

pub reduce_turn_settled-IsLawful :
    (r : Reducer) (s : Snapshot) (e : TurnSettledEvent)
    → Holds (IsLawful s e.metadata) (reduce_turn_settled r s e)
unfolding reduce_turn_settled
reduce_turn_settled-IsLawful r s e = ground (
  arith,
  revised-IsLawful s e.metadata (settle_current r s e)
      (λ h. settle_current-IsLawful s e.metadata h r e),
)
