-- ===== src/Workflow/Laws/SettlementTotality.antt =====
-- The handlers of a settled or revalidated Turn never read a nil pointer on what Reduce has
-- checked, nor does Reduce.
use omnigrex.Prelude.{
  ◌≡◌, Bool, true, Option, is_some, Option-cases, inl, inr, Run, done, panic, Returns, Returns-done,
  ◌>>=◌, arith, ◌⊎◌, Bool-cases,
}
use omnigrex.Workflow.Model.Vocabulary.{EventKind, TurnOutcome}
use omnigrex.Workflow.Model.Snapshots.{Snapshot, ChangeProposal}
use omnigrex.Workflow.Model.Events.{
  Event, EventMetadata, TurnSettledEvent, TerminalIntentRevalidatedEvent,
}
use omnigrex.Workflow.Model.Actions.{Decision}
use omnigrex.Workflow.Definition.Stages.{Definition, StageDefinition, stage_of}
use omnigrex.Workflow.Validation.EventCheck.{
  valid_event, valid_content, valid_settled, valid_settled_outcome, valid_revalidated,
  valid_revalidated_outcome, event_details,
}
use omnigrex.Workflow.Validation.SnapshotCheck.{valid_snapshot}
use omnigrex.Workflow.Validation.SnapshotRun.{check_snapshot}
use omnigrex.Workflow.Reducer.Basics.{Reducer}
use omnigrex.Workflow.Reducer.Reviewing.{reduce_review_settled, compare_review}
use omnigrex.Workflow.Reducer.Developing.{reduce_developer_settled}
use omnigrex.Workflow.Reducer.Settling.{
  reduce_turn_settled, settle_current, settle_turn, settle_outcome, settled_snapshot,
  reduce_infrastructure_failure,
}
use omnigrex.Workflow.Reducer.Revalidating.{
  reduce_terminal_intent_revalidated, revalidate_current, revalidate_in_stage, reused_event,
  reduce_previously_accepted_terminal_review,
}
use omnigrex.Workflow.Reducer.Step.{
  dispatch, unrelated_event, guard_decision, reduce, reduce_checked,
}
use omnigrex.Workflow.Laws.CheckTotality.{check_snapshot_lem, guard_decision_lem, guarded}
use omnigrex.Workflow.Laws.Totality.{
  HasPointers, valid_snapshot-HasPointers, attempt_when_legal,
  reduce_workflow_action_exhausted-Returns,
  reduce_agent_turn_mutation_reconciliation_exhausted-Returns,
  reduce_agent_turn_preparation_failed-Returns, reduce_assignment_configuration_conflict-Returns,
  reduce_terminal_revalidation_failed-Returns, reduce_synchronization-Returns,
  reduce_issue_reopened-Returns,
}

-- The pointers that an outcome's handler reads.
abbrev HasEvidence : TurnOutcome → Option ChangeProposal → Bool → Type 0
HasEvidence TurnOutcome.change_proposal_ready p review = is_some p ≡ true
HasEvidence TurnOutcome.changes_requested p review = (is_some p ≡ true) × (review ≡ true)
HasEvidence TurnOutcome.approved p review = (is_some p ≡ true) × (review ≡ true)
HasEvidence _ p review = Unit {0}

valid_settled_outcome_lem :
    (o : TurnOutcome) (e : TurnSettledEvent)
    → valid_settled_outcome o e ≡ true
    → HasEvidence o e.change_proposal (is_some e.review)
unfolding valid_settled_outcome
valid_settled_outcome_lem TurnOutcome.change_proposal_ready e v = ground arith
valid_settled_outcome_lem TurnOutcome.changes_requested e v = ground arith
valid_settled_outcome_lem TurnOutcome.approved e v = ground arith
valid_settled_outcome_lem _ e v = tt

-- A review that was recorded before stands beside a reported one.
existing_lem :
    (o : TurnOutcome) (e : TurnSettledEvent)
    → valid_settled_outcome o e ≡ true
    → is_some e.existing_review ≡ true
    → is_some e.review ≡ true
unfolding valid_settled_outcome
existing_lem TurnOutcome.changes_requested e v h = ground arith
existing_lem TurnOutcome.approved e v h = ground arith
existing_lem _ e v h = ground arith

module _ (r : Reducer) (s next : Snapshot) (e : TurnSettledEvent)
    (a : is_some s.current_attempt ≡ true) (b : is_some next.current_attempt ≡ true) where
  reduce_developer_settled-Returns :
      is_some e.change_proposal ≡ true → Returns (reduce_developer_settled r s next e)
  unfolding reduce_developer_settled
  reduce_developer_settled-Returns p = ground arith

  reduce_review_settled-Returns :
      is_some e.change_proposal ≡ true
      → is_some e.review ≡ true
      → Returns (reduce_review_settled r s next e)
  unfolding reduce_review_settled compare_review
  reduce_review_settled-Returns p v = ground arith

  reduce_infrastructure_failure-Returns : Returns (reduce_infrastructure_failure next e)
  unfolding reduce_infrastructure_failure
  reduce_infrastructure_failure-Returns = ground arith

  settle_outcome-Returns :
      (o : TurnOutcome)
      → HasEvidence o e.change_proposal (is_some e.review)
      → Returns (settle_outcome o r s next e)
  unfolding settle_outcome
  settle_outcome-Returns TurnOutcome.change_proposal_ready h = reduce_developer_settled-Returns h
  settle_outcome-Returns TurnOutcome.changes_requested h = reduce_review_settled-Returns h.0 h.1
  settle_outcome-Returns TurnOutcome.approved h = reduce_review_settled-Returns h.0 h.1
  settle_outcome-Returns TurnOutcome.infrastructure_failed h =
      ground (arith, reduce_infrastructure_failure-Returns)
  settle_outcome-Returns _ h = tt

module _ (r : Reducer) (s : Snapshot) (e : TurnSettledEvent)
    (v : valid_settled_outcome e.outcome e ≡ true) where
  settle_turn-Returns : is_some s.current_attempt ≡ true → Returns (settle_turn r s e)
  unfolding settle_turn settled_snapshot
  settle_turn-Returns a = ground (
    arith,
    settle_outcome-Returns r s (settled_snapshot s e) e a a e.outcome
        (valid_settled_outcome_lem e.outcome e v),
  )

  settle_current-Returns : HasPointers s → Returns (settle_current r s e)
  unfolding settle_current
  settle_current-Returns h =
      ground (arith, settle_turn-Returns, attempt_when_legal r s h EventKind.turn_settled)

  reduce_turn_settled-Returns : HasPointers s → Returns (reduce_turn_settled r s e)
  unfolding reduce_turn_settled
  reduce_turn_settled-Returns h =
      ground (arith, settle_current-Returns h, existing_lem e.outcome e v)

valid_revalidated_outcome_lem :
    (o : TurnOutcome) (e : TerminalIntentRevalidatedEvent)
    → valid_revalidated_outcome o e ≡ true
    → HasEvidence o e.change_proposal (is_some e.review)
unfolding valid_revalidated_outcome
valid_revalidated_outcome_lem TurnOutcome.change_proposal_ready e v = ground arith
valid_revalidated_outcome_lem TurnOutcome.changes_requested e v = ground arith
valid_revalidated_outcome_lem TurnOutcome.approved e v = ground arith
valid_revalidated_outcome_lem _ e v = tt

-- Only four outcomes can be revalidated.
revalidated_outcomes :
    (o : TurnOutcome) (e : TerminalIntentRevalidatedEvent)
    → valid_revalidated_outcome o e ≡ true
    → (o ≡ TurnOutcome.clarification_wait)
      ⊎ (o ≡ TurnOutcome.change_proposal_ready)
      ⊎ ((is_some e.change_proposal ≡ true) × (is_some e.review ≡ true))
unfolding valid_revalidated_outcome
revalidated_outcomes TurnOutcome.changes_requested e v = inr (ground arith)
revalidated_outcomes _ e v = ground arith

module _ (r : Reducer) (s : Snapshot) (e : TerminalIntentRevalidatedEvent) where
  accepted-Returns :
      is_some s.current_attempt ≡ true → Returns (reduce_previously_accepted_terminal_review r s e)
  unfolding reduce_previously_accepted_terminal_review
  accepted-Returns a = ground arith

  -- From the Stage on: a valid outcome that is no clarification has its evidence.
  revalidate_in_stage-Returns :
      (stage : StageDefinition)
      → valid_revalidated_outcome e.outcome e ≡ true
      → is_some s.current_attempt ≡ true
      → Returns (revalidate_in_stage r s e stage)
  unfolding revalidate_in_stage reused_event
  revalidate_in_stage-Returns stage v a =
      let next = record s { resume_role = "" } in
      ground (
        arith,
        accepted-Returns a,
        reduce_developer_settled-Returns r s next (reused_event e) a a,
        reduce_review_settled-Returns r s next (reused_event e) a a,
        revalidated_outcomes e.outcome e v,
        valid_revalidated_outcome_lem e.outcome e v,
      )

  revalidate_current-Returns :
      valid_revalidated_outcome e.outcome e ≡ true
      → HasPointers s
      → Returns (revalidate_current r s e)
  unfolding revalidate_current
  revalidate_current-Returns v h = elim (Option-cases (stage_of r.definition e.source_turn.stage)) [
    | inl q ↦ rw (q, revalidate_current) (ground arith)
    | inr (stage, q) ↦
        rw (q, revalidate_current) (ground (arith, revalidate_in_stage-Returns stage v))
  ]

  reduce_terminal_intent_revalidated-Returns :
      valid_revalidated_outcome e.outcome e ≡ true
      → HasPointers s
      → Returns (reduce_terminal_intent_revalidated r s e)
  unfolding reduce_terminal_intent_revalidated
  reduce_terminal_intent_revalidated-Returns v h = ground (arith, revalidate_current-Returns v h)

valid_settled_parts :
    (d : Definition) (e : TurnSettledEvent)
    → valid_settled d e ≡ true
    → valid_settled_outcome e.outcome e ≡ true
unfolding valid_settled
valid_settled_parts d e v = ground arith

valid_revalidated_parts :
    (d : Definition) (e : TerminalIntentRevalidatedEvent)
    → valid_revalidated d e ≡ true
    → valid_revalidated_outcome e.outcome e ≡ true
unfolding valid_revalidated
valid_revalidated_parts d e v = ground arith

module _ (r : Reducer) (s : Snapshot) (h : HasPointers s) where
  dispatch-Returns :
      (e : Event) (m : EventMetadata)
      → valid_content r.definition e m ≡ true
      → Returns (dispatch r s e)
  unfolding dispatch valid_content
  dispatch-Returns (Event.turn_settled e) m v =
      reduce_turn_settled-Returns r s e (valid_settled_parts r.definition e v) h
  dispatch-Returns (Event.terminal_intent_revalidated e) m v =
      reduce_terminal_intent_revalidated-Returns r s e (valid_revalidated_parts r.definition e v) h
  dispatch-Returns (Event.terminal_revalidation_failed e) m v =
      reduce_terminal_revalidation_failed-Returns r s h e
  dispatch-Returns (Event.synchronization e) m v = reduce_synchronization-Returns r s h e
  dispatch-Returns (Event.issue_reopened e) m v = reduce_issue_reopened-Returns r s h e
  dispatch-Returns (Event.assignment_configuration_conflict e) m v =
      reduce_assignment_configuration_conflict-Returns r s h e
  dispatch-Returns (Event.agent_turn_preparation_failed e) m v =
      reduce_agent_turn_preparation_failed-Returns r s h e
  dispatch-Returns (Event.agent_turn_mutation_reconciliation_exhausted e) m v =
      reduce_agent_turn_mutation_reconciliation_exhausted-Returns r s h e
  dispatch-Returns (Event.workflow_action_exhausted e) m v =
      reduce_workflow_action_exhausted-Returns r s h e
  dispatch-Returns _ m v = tt

valid_event_parts :
    (d : Definition) (e : Event) (m : EventMetadata)
    → valid_event d e m ≡ true
    → valid_content d e m ≡ true
unfolding valid_event
valid_event_parts d e m v = ground arith

bind-Returns :
    (run : Run Decision) (f : Decision → Run Decision) (g : Decision → Decision)
    → ((d : Decision) → f d ≡ done (g d))
    → Returns run
    → Returns (run >>= f)
bind-Returns (done d) f g e h = rw (e d) tt
bind-Returns panic f g e h = h

reduce-Returns : (r : Reducer) (s : Snapshot) (e : Event) → Returns (reduce r s e)
unfolding reduce reduce_checked
reduce-Returns r s e =
    rw (check_snapshot_lem r.definition r.retry_limit s)
      (elim (Bool-cases (valid_snapshot r.definition r.retry_limit s)) [
        | inr bad ↦ rw bad tt
        | inl sound ↦ rw sound (elim (Option-cases (event_details e)) [
          | inl q ↦ rw (q, reduce_checked) tt
          | inr ((m, kind), q) ↦
              rw (q, reduce_checked)
                (elim (Bool-cases (valid_event r.definition e m)) [
                  | inr bad ↦ rw bad tt
                  | inl v ↦ rw v (elim (Option-cases (unrelated_event s m kind)) [
                    | inr (reason, q') ↦ rw q' tt
                    | inl q' ↦ rw q' (
                        bind-Returns (dispatch r s e) (guard_decision r s) (guarded r s)
                          (guard_decision_lem r s)
                          (dispatch-Returns r s
                            (valid_snapshot-HasPointers r.definition r.retry_limit s sound) e m
                            (valid_event_parts r.definition e m v)))
                  ])
                ])
        ])
      ])

-- Reduce always returns a Decision: no nil pointer is read, for any Snapshot and any Event, by the
-- validation before and after the handler or by the handler itself. The validation of the Snapshot, its
-- reads included, returns too, and decides `valid_snapshot`.
pub reduce_total :
    (r : Reducer) (s : Snapshot) (e : Event)
    → ((d : Decision) × (reduce r s e ≡ done d))
      × (check_snapshot r.definition r.retry_limit s
          ≡ done (valid_snapshot r.definition r.retry_limit s))
reduce_total r s e = (
  Returns-done (reduce r s e) (reduce-Returns r s e),
  check_snapshot_lem r.definition r.retry_limit s,
)
