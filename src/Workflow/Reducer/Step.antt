-- ===== src/Workflow/Reducer/Step.antt =====
-- dispatch and Reduce of internal/workflow/reducer.go. A result is a `Run`: `panic` stands for a nil
-- pointer that is read.
use omnigrex.Prelude.{Bool, true, false, not, Option, none, some, if◌then◌else◌, Run, done, ◌>>=◌}
use omnigrex.Workflow.Model.Vocabulary.{
  State, Reason, Disposition, EventKind, state_eq, is_unset_reason,
}
use omnigrex.Workflow.Model.Snapshots.{Snapshot, work_item_eq}
use omnigrex.Workflow.Model.Events.{Event, EventMetadata}
use omnigrex.Workflow.Model.Actions.{Decision}
use omnigrex.Workflow.Validation.EventCheck.{event_details, valid_event}
use omnigrex.Workflow.Validation.SnapshotRun.{check_snapshot}
use omnigrex.Workflow.Reducer.Basics.{Reducer, unchanged}
use omnigrex.Workflow.Reducer.Failures.{
  reduce_workflow_action_exhausted, reduce_agent_turn_mutation_reconciliation_exhausted,
  reduce_agent_turn_preparation_failed, reduce_assignment_configuration_conflict,
  reduce_terminal_revalidation_failed,
}
use omnigrex.Workflow.Reducer.Triggering.{reduce_trigger}
use omnigrex.Workflow.Reducer.Settling.{reduce_turn_settled}
use omnigrex.Workflow.Reducer.Revalidating.{reduce_terminal_intent_revalidated}
use omnigrex.Workflow.Reducer.Observing.{
  reduce_synchronization, reduce_review_observed, reduce_change_proposal_observed,
}
use omnigrex.Workflow.Reducer.Closing.{
  reduce_issue_closed, reduce_closure_settled, reduce_issue_reopened, reduce_assignments_collected,
}

unfoldable pub dispatch : Reducer → Snapshot → Event → Run Decision
dispatch r s (Event.trigger e) = done (reduce_trigger r s e)
dispatch r s (Event.turn_settled e) = reduce_turn_settled r s e
dispatch r s (Event.terminal_intent_revalidated e) = reduce_terminal_intent_revalidated r s e
dispatch r s (Event.terminal_revalidation_failed e) = reduce_terminal_revalidation_failed r s e
dispatch r s (Event.synchronization e) = reduce_synchronization r s e
dispatch r s (Event.review_observed e) = done (reduce_review_observed s e)
dispatch r s (Event.change_proposal_observed e) = done (reduce_change_proposal_observed s e)
dispatch r s (Event.issue_closed e) = done (reduce_issue_closed r s e)
dispatch r s (Event.closure_settled e) = done (reduce_closure_settled s e)
dispatch r s (Event.issue_reopened e) = reduce_issue_reopened s e
dispatch r s (Event.assignments_collected e) = done (reduce_assignments_collected s e)
dispatch r s (Event.assignment_configuration_conflict e) =
    reduce_assignment_configuration_conflict r s e
dispatch r s (Event.agent_turn_preparation_failed e) = reduce_agent_turn_preparation_failed r s e
dispatch r s (Event.agent_turn_mutation_reconciliation_exhausted e) =
    reduce_agent_turn_mutation_reconciliation_exhausted r s e
dispatch r s (Event.workflow_action_exhausted e) = reduce_workflow_action_exhausted r s e
dispatch r s Event.foreign = done (unchanged s Disposition.illegal Reason.invalid_event)

abbrev pub is_applied : Disposition → Bool
is_applied Disposition.applied = true
is_applied _ = false

abbrev is_trigger_kind : EventKind → Bool
is_trigger_kind EventKind.trigger = true
is_trigger_kind _ = false

-- The Revision is put back unless the Decision is applied, and a missing reason is named.
unfoldable pub normalize : Snapshot → Decision → Decision
normalize s d = record d {
  snapshot =
      if is_applied d.disposition
      then d.snapshot
      else record (d.snapshot) { revision = s.revision };
  reason = if is_unset_reason d.reason then Reason.invalid_event else d.reason;
}

-- The end of Reduce: a Decision with an invalid Snapshot is refused.
unfoldable pub guard_decision : Reducer → Snapshot → Decision → Run Decision
unfolding normalize check_snapshot
guard_decision r s d =
    let normalized = normalize s d in
    check_snapshot r.definition r.retry_limit normalized.snapshot >>= λ ok.
    done (if ok then normalized else unchanged s Disposition.illegal Reason.invariant_violation)

-- The Work Item of the Event against the Snapshot's.
unfoldable pub unrelated_event : Snapshot → EventMetadata → EventKind → Option Reason
unrelated_event s m kind =
    if state_eq s.state State.absent
    then if is_trigger_kind kind then none else some Reason.workflow_absent
    else if work_item_eq m.work_item s.work_item
    then none
    else some Reason.work_item_unrelated

-- From the metadata of the Event on.
unfoldable pub reduce_checked : Reducer → Snapshot → Event → Run Decision
reduce_checked r s e = elim (event_details e) [
  | none ↦ done (unchanged s Disposition.illegal Reason.invalid_event)
  | some (m, kind) ↦
      if not (valid_event r.definition e m)
      then done (unchanged s Disposition.illegal Reason.invalid_event)
      else elim (unrelated_event s m kind) [
        | some reason ↦ done (unchanged s Disposition.unrelated reason)
        | none ↦ dispatch r s e >>= guard_decision r s
      ]
]

unfoldable pub reduce : Reducer → Snapshot → Event → Run Decision
unfolding check_snapshot reduce_checked
reduce r s e = check_snapshot r.definition r.retry_limit s >>= λ ok.
    if not ok
    then done (unchanged s Disposition.illegal Reason.invariant_violation)
    else reduce_checked r s e
