-- ===== src/Workflow/Laws/Fencing.antt =====
-- A settled Turn is applied only where it is the active Turn, and it releases that Turn.
use omnigrex.Prelude.{
  text_eq_iff, int_eq_iff, ◌≡◌, refl, true, false, none, some, Option-cases, inl, inr, done, Holds,
  Holds-done, option-Holds, deref-Holds, arith,
}
use omnigrex.Workflow.Reducer.Reviewing.{
  accept_review, approve, compare_review, consume_cycle, exhaust_reviews, redirect,
  reduce_review_settled, request_changes, review_again, settle_review,
}
use omnigrex.Workflow.Reducer.Developing.{reduce_developer_settled, transition_or_zero, with_used}
use omnigrex.Workflow.Reducer.Settling.{
  reduce_blocked, reduce_infrastructure_failure, reduce_terminal_corroboration_handoff,
  settle_clarification, settle_current, settle_outcome, settle_planning, settle_turn,
  settled_snapshot, turn_missing, reduce_turn_settled,
}
use omnigrex.Workflow.Model.Snapshots.{
  ChangeProposal, ReviewIdentity, Snapshot, WorkflowAttempt, ActiveTurn, TurnGuard,
}
use omnigrex.Workflow.Reducer.Basics.{
  Reducer, clarification_wait_decision, stage_or_zero, unready, expected_revision_decision,
  turn_matches,
}
use omnigrex.Workflow.Definition.Stages.{
  OutcomeTransition, StageDefinition, stage_of, transition_of,
}
use omnigrex.Workflow.Model.Vocabulary.{StageId, TurnOutcome}
use omnigrex.Workflow.Reducer.Step.{is_applied, dispatch, reduce}
use omnigrex.Workflow.Model.Actions.{Decision}
use omnigrex.Workflow.Model.Events.{TurnSettledEvent, Event, EventMetadata}
use omnigrex.Workflow.Laws.AppliedCases.{applied_cases}
use omnigrex.Workflow.Laws.Lawful.{revised}

-- The Decision, if applied, leaves no active Turn.
abbrev Releases : Decision → Type 0
Releases d = is_applied d.disposition ≡ true → d.snapshot.active_turn ≡ none

module _ (r : Reducer) (s next : Snapshot) (e : TurnSettledEvent)
    (k : next.active_turn ≡ none) where
  redirect-Releases :
      (t : OutcomeTransition) (stage target : StageDefinition) (id : StageId) (a : WorkflowAttempt)
      (p : ChangeProposal) (v : ReviewIdentity)
      → Releases (redirect t stage id target a next e p v)
  unfolding redirect exhaust_reviews request_changes
  redirect-Releases t stage target id a p v = ground arith

  accept_review-Releases :
      (id : StageId) (a : WorkflowAttempt) (p : ChangeProposal) (v : ReviewIdentity)
      → Releases (accept_review r s id a e p v next)
  unfolding accept_review approve
  accept_review-Releases id a p v =
      let t = transition_or_zero (transition_of r.definition id e.outcome) in
      let stage = stage_or_zero (stage_of r.definition id) in
      elim (Option-cases (stage_of r.definition t.next_stage)) [
        | inl q ↦ rw (q, accept_review, approve) (ground arith)
        | inr (target, q) ↦
            rw (q, accept_review, approve)
              (ground (arith, redirect-Releases t stage target id (consume_cycle t id a) p v))
      ]

  review_again-Releases :
      (stage : StageDefinition) (p : ChangeProposal) (v : ReviewIdentity)
      → Releases (review_again stage next e p v)
  unfolding review_again
  review_again-Releases stage p v = ground arith

module _ (r : Reducer) (s next : Snapshot) (e : TurnSettledEvent)
    (k : next.active_turn ≡ none) where
  settle_review-Releases :
      (current : ChangeProposal) (v : ReviewIdentity) (g : ChangeProposal) (a : WorkflowAttempt)
      (source : StageId)
      → Releases (settle_review r s next e current v g a source)
  unfolding settle_review
  settle_review-Releases current v g a source =
      let next' = record next {
        change_proposal = some (unready g);
        current_attempt = some (with_used 0 a);
      } in
      ground (
        arith,
        review_again-Releases r s next' e k (stage_or_zero (stage_of r.definition source))
            (unready g) v,
        accept_review-Releases r s next' e k source (with_used 0 a) (unready g) v,
      )

  compare_review-Releases :
      (current : ChangeProposal) (v : ReviewIdentity) (g : ChangeProposal)
      → Holds Releases (compare_review r s next e current v g)
  unfolding compare_review
  compare_review-Releases current v g = grind (arith, settle_review-Releases)

  reduce_review_settled-Releases : Holds Releases (reduce_review_settled r s next e)
  unfolding reduce_review_settled
  reduce_review_settled-Releases =
      option-Holds Releases s.change_proposal _ _ (λ a. ground arith)
        (λ current _. deref-Holds Releases e.review _ (λ v _.
          deref-Holds Releases e.change_proposal _ (λ g _. compare_review-Releases current v g)))

  settle_clarification-Releases : Releases (settle_clarification s next e)
  unfolding settle_clarification clarification_wait_decision
  settle_clarification-Releases = ground arith

  settle_planning-Releases : Releases (settle_planning s next e)
  unfolding settle_planning clarification_wait_decision
  settle_planning-Releases = ground arith

  reduce_developer_settled-Releases : Holds Releases (reduce_developer_settled r s next e)
  unfolding reduce_developer_settled
  reduce_developer_settled-Releases = ground arith

  reduce_infrastructure_failure-Releases : Holds Releases (reduce_infrastructure_failure next e)
  unfolding reduce_infrastructure_failure
  reduce_infrastructure_failure-Releases = ground arith

  settle_outcome-Releases : (o : TurnOutcome) → Holds Releases (settle_outcome o r s next e)
  unfolding settle_outcome reduce_blocked reduce_terminal_corroboration_handoff
  settle_outcome-Releases TurnOutcome.clarification_wait = settle_clarification-Releases
  settle_outcome-Releases TurnOutcome.planning_ready = settle_planning-Releases
  settle_outcome-Releases TurnOutcome.change_proposal_ready = reduce_developer_settled-Releases
  settle_outcome-Releases TurnOutcome.changes_requested = reduce_review_settled-Releases
  settle_outcome-Releases TurnOutcome.approved = reduce_review_settled-Releases
  settle_outcome-Releases TurnOutcome.infrastructure_failed =
      ground (arith, reduce_infrastructure_failure-Releases)
  settle_outcome-Releases _ = ground arith

pub stale_lem :
    (s : Snapshot) (m : EventMetadata) {d : Decision}
    → expected_revision_decision s m ≡ some d
    → is_applied d.disposition ≡ false
unfolding expected_revision_decision
stale_lem s m h = ground arith

module _ (r : Reducer) (s : Snapshot) (e : TurnSettledEvent) where
  settle_turn-Releases : Holds Releases (settle_turn r s e)
  unfolding settle_turn settled_snapshot
  settle_turn-Releases =
      ground (arith, settle_outcome-Releases r s (settled_snapshot s e) e refl e.outcome)

  -- The guard of settle_current.
  abbrev Guarded : Decision → Type 0
  Guarded d =
      is_applied d.disposition ≡ true
      → (turn_missing s e.turn ≡ false) × (d.snapshot.active_turn ≡ none)

  settle_current-Guarded : Holds Guarded (settle_current r s e)
  unfolding settle_current
  settle_current-Guarded = ground (arith, settle_turn-Releases)

  settle_known-Guarded : Holds Guarded (elim (expected_revision_decision s e.metadata) [
    | some stale ↦ done stale
    | none ↦ settle_current r s e
  ])
  settle_known-Guarded =
      revised (Holds Guarded) s e.metadata (settle_current r s e)
        (λ d h a. cc (stale_lem s e.metadata h, a)) (λ _. settle_current-Guarded)

  reduce_turn_settled-Guarded :
      Holds
        (λ d. is_applied d.disposition ≡ true → (e.existing_review ≡ none) × Guarded d)
        (reduce_turn_settled r s e)
  unfolding reduce_turn_settled
  reduce_turn_settled-Guarded = elim (Option-cases e.existing_review) [
    | inl q ↦ rw (q, reduce_turn_settled) (ground (arith, settle_known-Guarded))
    | inr (x, q) ↦ rw (q, reduce_turn_settled) (ground arith)
  ]

-- The Turn is the one that the guard was made of.
pub record IsSameTurn (turn : ActiveTurn) (guard : TurnGuard) : Type 0 where
  pub id : turn.id ≡ guard.turn_id
  pub session : turn.session_id ≡ guard.session_id
  pub attempt : turn.attempt_id ≡ guard.attempt_id
  pub stage : turn.stage ≡ guard.stage
  pub role : turn.role ≡ guard.role
  pub epoch : turn.epoch ≡ guard.epoch
  pub control_revision : turn.control_revision ≡ guard.control_revision
  pub proposal : turn.change_proposal_id ≡ guard.change_proposal_id
  pub head : turn.expected_head_sha ≡ guard.expected_head_sha

pub turn_matches-IsSameTurn :
    (turn : ActiveTurn) (guard : TurnGuard) → turn_matches turn guard ≡ true → IsSameTurn turn guard
unfolding turn_matches
turn_matches-IsSameTurn turn guard h = record {
  id = ground (arith, text_eq_iff turn.id guard.turn_id);
  session = ground (arith, text_eq_iff turn.session_id guard.session_id);
  attempt = ground (arith, text_eq_iff turn.attempt_id guard.attempt_id);
  stage = ground (arith, text_eq_iff turn.stage guard.stage);
  role = ground (arith, text_eq_iff turn.role guard.role);
  epoch = ground arith;
  control_revision = ground arith;
  proposal = ground (arith, int_eq_iff turn.change_proposal_id guard.change_proposal_id);
  head = ground (arith, text_eq_iff turn.expected_head_sha guard.expected_head_sha);
}

turn_missing_lem :
    (s : Snapshot) (guard : TurnGuard)
    → turn_missing s guard ≡ false
    → (turn : ActiveTurn) × (s.active_turn ≡ some turn) × IsSameTurn turn guard
unfolding turn_missing
turn_missing_lem s guard h = elim (Option-cases s.active_turn) [
  | inl q ↦ ground arith
  | inr (turn, q) ↦ (turn, q, turn_matches-IsSameTurn turn guard (ground arith))
]

-- A settled Turn whose Decision is applied is the active Turn of the Snapshot: its identity, session,
-- Attempt, Stage, Role, epoch, control revision, Change Proposal and expected head are those of the
-- guard; its review was not recorded before; and the Turn is active no longer.
pub turn_settled-fenced :
    (r : Reducer) (s : Snapshot) (e : TurnSettledEvent) {d : Decision}
    → reduce r s (Event.turn_settled e) ≡ done d
    → is_applied d.disposition ≡ true
    → ((turn : ActiveTurn) × (s.active_turn ≡ some turn) × IsSameTurn turn e.turn)
      × (e.existing_review ≡ none)
      × (d.snapshot.active_turn ≡ none)
unfolding dispatch
turn_settled-fenced r s e q a =
    applied_cases
      (λ next _.
        ((turn : ActiveTurn) × (s.active_turn ≡ some turn) × IsSameTurn turn e.turn)
        × (e.existing_review ≡ none)
        × (next.active_turn ≡ none))
      r s (Event.turn_settled e) q a
      (λ m kind d' p eq a'.
        let h =
          Holds-done _ (reduce_turn_settled r s e) eq (reduce_turn_settled-Guarded r s e) a' in
        (turn_missing_lem s e.turn (h.1 a').0, h.0, (h.1 a').1))
