-- ===== src/Workflow/Laws/ReduceLaws.antt =====
-- dispatch and Reduce are lawful.
use omnigrex.Prelude.{
  ◌≡◌, refl, subst, true, false, none, some, Option-cases, inl, inr, Run, done, panic, ◌>>=◌, Holds,
  Holds-done, arith, Bool-cases,
}
use omnigrex.Workflow.Model.Vocabulary.{Reason, Disposition, EventKind}
use omnigrex.Workflow.Model.Snapshots.{Snapshot}
use omnigrex.Workflow.Model.Events.{Event, EventMetadata}
use omnigrex.Workflow.Model.Actions.{Decision}
use omnigrex.Workflow.Validation.EventCheck.{event_details, valid_event}
use omnigrex.Workflow.Validation.SnapshotCheck.{valid_snapshot}
use omnigrex.Workflow.Reducer.Basics.{Reducer, unchanged}
use omnigrex.Workflow.Reducer.Step.{
  dispatch, guard_decision, normalize, unrelated_event, reduce, reduce_checked, is_applied,
}
use omnigrex.Workflow.Laws.CheckTotality.{check_snapshot_lem, guard_decision_lem, guarded}
use omnigrex.Workflow.Laws.Lawful.{IsLawful, unchanged-IsLawful}
use omnigrex.Workflow.Laws.FailureLaws.{
  reduce_workflow_action_exhausted-IsLawful,
  reduce_agent_turn_mutation_reconciliation_exhausted-IsLawful,
  reduce_agent_turn_preparation_failed-IsLawful, reduce_assignment_configuration_conflict-IsLawful,
  reduce_terminal_revalidation_failed-IsLawful,
}
use omnigrex.Workflow.Laws.TriggerLaws.{reduce_trigger-IsLawful}
use omnigrex.Workflow.Laws.ClosingLaws.{
  reduce_issue_closed-IsLawful, reduce_closure_settled-IsLawful, reduce_issue_reopened-IsLawful,
  reduce_assignments_collected-IsLawful,
}
use omnigrex.Workflow.Laws.ObservationLaws.{
  reduce_synchronization-IsLawful, reduce_review_observed-IsLawful,
  reduce_change_proposal_observed-IsLawful,
}
use omnigrex.Workflow.Laws.SettlementLaws.{reduce_turn_settled-IsLawful}
use omnigrex.Workflow.Laws.RevalidationLaws.{reduce_terminal_intent_revalidated-IsLawful}

-- The metadata of an Event of a listed type.
abbrev pub MetadataIs : Event → EventMetadata → Type 0
MetadataIs e m = (kind : EventKind) × (event_details e ≡ some (m, kind))

-- What Reduce has checked where it dispatches.
pub record Passed (r : Reducer) (s : Snapshot) (e : Event) (m : EventMetadata) (kind : EventKind)
    : Type 0 where
  pub sound : valid_snapshot r.definition r.retry_limit s ≡ true
  pub details : event_details e ≡ some (m, kind)
  pub admitted : valid_event r.definition e m ≡ true
  pub related : unrelated_event s m kind ≡ none

run_cases :
    (P : Decision → Type 0) (m : Run Decision) (f : Decision → Run Decision)
    (g : Decision → Decision)
    → ((d : Decision) → f d ≡ done (g d))
    → ((d : Decision) → m ≡ done d → P (g d))
    → Holds P (m >>= f)
run_cases P (done d) f g e h = rw (e d) (h d refl)
run_cases P panic f g e h = tt

-- A Decision of Reduce is a refusal that changes nothing, or that of dispatch, guarded.
pub reduce_cases :
    (r : Reducer) (s : Snapshot) (e : Event) (P : Decision → Type 0)
    → ((disposition : Disposition) (reason : Reason)
        → is_applied disposition ≡ false
        → P (unchanged s disposition reason))
    → ((m : EventMetadata) (kind : EventKind) (d : Decision)
        → Passed r s e m kind
        → dispatch r s e ≡ done d
        → P (guarded r s d))
    → Holds P (reduce r s e)
unfolding reduce reduce_checked
reduce_cases r s e P refused passed =
    rw (check_snapshot_lem r.definition r.retry_limit s)
      (elim (Bool-cases (valid_snapshot r.definition r.retry_limit s)) [
        | inr bad ↦ rw bad (refused _ _ refl)
        | inl sound ↦ rw sound (elim (Option-cases (event_details e)) [
          | inl q ↦ rw (q, reduce_checked) (refused _ _ refl)
          | inr ((m, kind), details) ↦
              rw (details, reduce_checked)
                (elim (Bool-cases (valid_event r.definition e m)) [
                  | inr bad ↦ rw bad (refused _ _ refl)
                  | inl admitted ↦ rw admitted (elim (Option-cases (unrelated_event s m kind)) [
                    | inr (reason, q) ↦ rw q (refused _ _ refl)
                    | inl related ↦ rw related (
                        run_cases P (dispatch r s e) (guard_decision r s) (guarded r s)
                          (guard_decision_lem r s)
                          (λ d q.
                            passed m kind d
                              (record {
                                sound = sound;
                                details = details;
                                admitted = admitted;
                                related = related;
                              })
                              q))
                  ])
                ])
        ])
      ])

module _ (r : Reducer) (s : Snapshot) where
  -- The Decision of dispatch, by the type of the Event.
  abbrev Own : Event → (EventMetadata → Type 0) → Type 0
  Own (Event.trigger e) P = P e.metadata
  Own (Event.turn_settled e) P = P e.metadata
  Own (Event.terminal_intent_revalidated e) P = P e.metadata
  Own (Event.terminal_revalidation_failed e) P = P e.metadata
  Own (Event.synchronization e) P = P e.metadata
  Own (Event.review_observed e) P = P e.metadata
  Own (Event.change_proposal_observed e) P = P e.metadata
  Own (Event.issue_closed e) P = P e.metadata
  Own (Event.closure_settled e) P = P e.metadata
  Own (Event.issue_reopened e) P = P e.metadata
  Own (Event.assignments_collected e) P = P e.metadata
  Own (Event.assignment_configuration_conflict e) P = P e.metadata
  Own (Event.agent_turn_preparation_failed e) P = P e.metadata
  Own (Event.agent_turn_mutation_reconciliation_exhausted e) P = P e.metadata
  Own (Event.workflow_action_exhausted e) P = P e.metadata
  Own Event.foreign P = (m : EventMetadata) → P m

  dispatch-own : (e : Event) → Own e (λ m. Holds (IsLawful s m) (dispatch r s e))
  unfolding dispatch
  dispatch-own (Event.trigger e) = reduce_trigger-IsLawful r s e
  dispatch-own (Event.turn_settled e) = reduce_turn_settled-IsLawful r s e
  dispatch-own (Event.terminal_intent_revalidated e) =
      reduce_terminal_intent_revalidated-IsLawful r s e
  dispatch-own (Event.terminal_revalidation_failed e) =
      reduce_terminal_revalidation_failed-IsLawful r s e
  dispatch-own (Event.synchronization e) = reduce_synchronization-IsLawful r s e
  dispatch-own (Event.review_observed e) = reduce_review_observed-IsLawful s e
  dispatch-own (Event.change_proposal_observed e) = reduce_change_proposal_observed-IsLawful s e
  dispatch-own (Event.issue_closed e) = reduce_issue_closed-IsLawful r s e
  dispatch-own (Event.closure_settled e) = reduce_closure_settled-IsLawful s e
  dispatch-own (Event.issue_reopened e) = reduce_issue_reopened-IsLawful s e
  dispatch-own (Event.assignments_collected e) = reduce_assignments_collected-IsLawful s e
  dispatch-own (Event.assignment_configuration_conflict e) =
      reduce_assignment_configuration_conflict-IsLawful r s e
  dispatch-own (Event.agent_turn_preparation_failed e) =
      reduce_agent_turn_preparation_failed-IsLawful r s e
  dispatch-own (Event.agent_turn_mutation_reconciliation_exhausted e) =
      reduce_agent_turn_mutation_reconciliation_exhausted-IsLawful r s e
  dispatch-own (Event.workflow_action_exhausted e) = reduce_workflow_action_exhausted-IsLawful r s e
  dispatch-own Event.foreign = λ m. unchanged-IsLawful s m _ _ refl

  -- The metadata that event_details reads are the Event's own.
  own-details :
      (P : EventMetadata → Type 0) (e : Event) {m : EventMetadata} {kind : EventKind}
      → Own e P
      → event_details e ≡ some (m, kind)
      → P m
  unfolding event_details
  own-details P Event.foreign p h = p _
  own-details P _ p h = subst P (ground arith) p

  normalize-IsLawful :
      (m : EventMetadata) (d : Decision) → IsLawful s m d → IsLawful s m (normalize s d)
  unfolding normalize
  normalize-IsLawful m d h = ground arith

  guarded-IsLawful :
      (m : EventMetadata) (d : Decision) → IsLawful s m d → IsLawful s m (guarded r s d)
  unfolding guarded
  guarded-IsLawful m d h = ground (arith, normalize-IsLawful m d h)

  pub reduce-IsLawful :
      (e : Event) (m : EventMetadata) {kind : EventKind}
      → event_details e ≡ some (m, kind)
      → Holds (IsLawful s m) (reduce r s e)
  reduce-IsLawful e m q =
      reduce_cases r s e (IsLawful s m) (λ dis reason h. unchanged-IsLawful s m dis reason h)
        (λ m' kind' d p eq. guarded-IsLawful m d (
          Holds-done (IsLawful s m) (dispatch r s e) eq
            (own-details (λ k. Holds (IsLawful s k) (dispatch r s e)) e (dispatch-own e) q)))
