-- ===== src/Workflow/Examples.antt =====
-- A history of concrete Events, and each property at a concrete Snapshot and Event.
use omnigrex.Prelude.{
  ◌≡◌, refl, Bool, true, false, [], ◌∷◌, none, some, done, int_eq, int_lt, is_positive,
  is_zero_time, text_eq, codes, inc_64, any, ◌||◌, ◌⊎◌, ◌≤◌, ◌%◌, ◌^◌,
}
use omnigrex.Workflow.Model.Vocabulary.{
  is_waiting_status, is_active_lifecycle, is_active_runtime, is_active_status, is_collected,
  state_eq, EventKind, Role, State, role_developer, role_planner, role_reviewer,
}
use omnigrex.Workflow.Scenarios.{
  published, approving, developing, reducer, run_label, started, builtin, developer_turn, guard,
  pr_ready, reviewer_turn,
}
use omnigrex.Workflow.Interruptions.{
  busy, busy_reviewing, closed, closing, closure_settled, collected, collected_decision, exhausted,
  exhausted_decision, issue_closed, stale_decision, failing, retrying, intent,
}
use omnigrex.Workflow.Validation.EventCheck.{event_details}
use omnigrex.Workflow.Definition.Stages.{
  contains_role, find_stage, stage_of, definition_valid, roles_of,
}
use omnigrex.Workflow.Model.Events.{Event, EventMetadata}
use omnigrex.Workflow.Validation.SnapshotRun.{check_snapshot}
use omnigrex.Workflow.Validation.SnapshotCheck.{
  valid_attempt, valid_marks, valid_present, valid_snapshot, valid_state_shape,
}
use omnigrex.Workflow.Validation.AssignmentCheck.{valid_assignments}
use omnigrex.Workflow.Validation.Parts.{is_working, valid_proposal, valid_state, valid_work_item}
use omnigrex.Workflow.Reducer.Step.{reduce}
use omnigrex.Workflow.Model.Snapshots.{
  absent_snapshot, usage_of, ActiveTurn, ChangeProposal, Closure,
}
use omnigrex.Workflow.Laws.History.{
  History, History-busy, History-ready, History-revision, History-valid,
}
use omnigrex.Workflow.Laws.ReadyEntry.{Evidence, reduce-Evidence}
use omnigrex.Workflow.Laws.Deferral.{ends_turn, reduce-waits}
use omnigrex.Workflow.Definition.Sound.{SoundDefinition, new_definition-SoundDefinition}
use omnigrex.Workflow.Laws.SettlementTotality.{reduce_total}
use omnigrex.Workflow.Laws.Fencing.{IsSameTurn, turn_settled-fenced}
use omnigrex.Workflow.Reducer.Compatibility.{
  corroboration_definition_incompatible, definition_incompatible,
}
use omnigrex.Workflow.Laws.Contract.{
  reduce-counted, reduce-hands_off, reduce-kept, reduce-numbered, reduce-single_turn, reduce-valid,
}
use omnigrex.Workflow.Model.Actions.{Decision}
use omnigrex.Workflow.Laws.Incompatible.{Stopped, aims_at_turn, incompatible-Stopped}
use omnigrex.Workflow.Definition.Ids.{valid_stage_id}
use omnigrex.Workflow.Definition.Builtin.{builtin_entry, builtin_stages, new_builtin_definition}
use omnigrex.Workflow.Definition.IdLaws.{is_stage_name, valid_stage_id_lem}
use omnigrex.Workflow.Laws.Retention.{Settled, assignments_collected-due, closure_settled-Settled}
use omnigrex.Workflow.Definition.BuiltinLaws.{new_builtin_definition_lem, builtin_definition}
use omnigrex.Workflow.Definition.Build.{ok, has_nul}
use omnigrex.Workflow.Laws.Lawful.{scheduled_work}
use omnigrex.Workflow.Laws.Retries.{Retried, turn_settled-Retried}
use omnigrex.Workflow.Laws.Admission.{IntentAdmitted, terminal_intent_revalidated-admitted}
use omnigrex.Workflow.Laws.Starting.{Started, trigger-Started}
use omnigrex.Workflow.Runs.{
  approved_run, closed_run, closing_run, collected_run, exhausted_run, intent_run, published_run,
  retry_run, stale_run, trigger_run,
}

absent-valid : valid_snapshot builtin 1 absent_snapshot ≡ true
absent-valid = History-valid reducer absent_snapshot 0 History.start

busy-valid : valid_snapshot builtin 1 busy ≡ true
unfolding valid_snapshot valid_state state_eq valid_present valid_work_item is_positive
    valid_assignments is_active_status is_active_runtime is_zero_time int_eq text_eq valid_attempt
    stage_of find_stage is_active_lifecycle valid_state_shape valid_marks contains_role
busy-valid = refl

busy_reviewing-valid : valid_snapshot builtin 1 busy_reviewing ≡ true
unfolding valid_snapshot valid_state state_eq valid_present valid_work_item is_positive
    valid_assignments is_active_status is_active_runtime is_zero_time int_eq text_eq valid_attempt
    stage_of find_stage is_active_lifecycle valid_state_shape valid_marks contains_role usage_of
    valid_proposal
busy_reviewing-valid = refl

-- From the trigger over one implementation and one approving review to PR_READY.
begun : History reducer developing 1
begun = History.applied History.start (Event.trigger run_label) trigger_run refl

working : History reducer busy 1
working = History.claimed begun developer_turn busy-valid

reviewed : History reducer busy_reviewing 2
reviewed =
    History.claimed (History.applied working (Event.turn_settled published) published_run refl)
      reviewer_turn busy_reviewing-valid

finished : History reducer pr_ready 3
finished = History.applied reviewed (Event.turn_settled approving) approved_run refl

reduce-valid_example : valid_snapshot builtin 1 developing ≡ true
reduce-valid_example =
    reduce-valid reducer absent_snapshot (Event.trigger run_label) trigger_run absent-valid

reduce_total_example :
    ((d : Decision) × (reduce reducer busy (Event.turn_settled published) ≡ done d))
    × (check_snapshot reducer.definition reducer.retry_limit busy
        ≡ done (valid_snapshot reducer.definition reducer.retry_limit busy))
reduce_total_example = reduce_total reducer busy (Event.turn_settled published)

reduce-Evidence_example : Evidence (Event.turn_settled approving) pr_ready.change_proposal
unfolding state_eq
reduce-Evidence_example =
    reduce-Evidence reducer busy_reviewing (Event.turn_settled approving) approved_run refl refl

turn_settled-fenced_example :
    ((turn : ActiveTurn) × (some reviewer_turn ≡ some turn) × IsSameTurn turn (guard reviewer_turn))
    × (approving.existing_review ≡ none)
    × (pr_ready.active_turn ≡ none)
turn_settled-fenced_example = turn_settled-fenced reducer busy_reviewing approving approved_run refl

History-revision_example : pr_ready.revision ≡ 3 % 2 ^ 64
History-revision_example = History-revision reducer pr_ready 3 finished

History-ready_example :
    (p : ChangeProposal) × (pr_ready.change_proposal ≡ some p)
    × (pr_ready.state ≡ State.pr_ready)
    × (p.ready_for_sha ≡ p.head_sha)
    × (pr_ready.active_turn ≡ none)
unfolding text_eq
History-ready_example = History-ready reducer pr_ready 3 finished refl

History-busy_example : (is_working State.reviewing ≡ true) ⊎ (State.reviewing ≡ State.closing)
History-busy_example = History-busy reducer busy_reviewing 2 reviewed refl

reduce-waits_example : ends_turn (Event.issue_closed issue_closed) ≡ true
unfolding is_working
reduce-waits_example =
    reduce-waits reducer busy (Event.issue_closed issue_closed) closing_run refl refl refl

reduce-kept_example : stale_decision.snapshot ≡ developing
reduce-kept_example = reduce-kept reducer developing (Event.trigger run_label) stale_run refl

reduce-counted_example :
    (developing.revision ≡ inc_64 absent_snapshot.revision)
    × ((m : EventMetadata) × (kind : EventKind) × (event_details (Event.trigger run_label)
          ≡ some (m, kind))
        × (m.expected_revision ≡ absent_snapshot.revision))
reduce-counted_example =
    reduce-counted reducer absent_snapshot (Event.trigger run_label) trigger_run refl

reduce-single_turn_example : scheduled_work started.actions ≤ 1
reduce-single_turn_example =
    reduce-single_turn reducer absent_snapshot (Event.trigger run_label) trigger_run

reduce-hands_off_example :
    (exhausted_decision.snapshot.state ≡ State.needs_human)
    × (scheduled_work exhausted_decision.actions ≡ 0)
reduce-hands_off_example =
    reduce-hands_off reducer developing (Event.workflow_action_exhausted exhausted) exhausted_run
      refl

reduce-numbered_example :
    (developing.last_attempt_number ≡ absent_snapshot.last_attempt_number)
    ⊎ (developing.last_attempt_number ≡ inc_64 absent_snapshot.last_attempt_number)
reduce-numbered_example =
    reduce-numbered reducer absent_snapshot (Event.trigger run_label) trigger_run

closure_settled-Settled_example : (c : Closure) × Settled closing closure_settled c closed
closure_settled-Settled_example =
    closure_settled-Settled reducer closing closure_settled closed_run refl

assignments_collected-due_example :
    (closed.state ≡ State.closed)
    × (collected.retention_token ≡ closed.assignments.retention_token)
    × (collected.retain_until ≡ closed.assignments.retained_until)
    × (int_lt collected.collected_at collected.retain_until ≡ false)
    × (is_collected collected_decision.snapshot.assignments.runtime_state ≡ true)
assignments_collected-due_example =
    assignments_collected-due reducer closed collected collected_run refl

-- A Workflow that is stopped in PR_READY keeps its mark of readiness, and its Snapshot is not valid.
stopped_when_ready : valid_snapshot builtin 1 (definition_incompatible pr_ready).snapshot ≡ false
unfolding definition_incompatible valid_snapshot valid_state state_eq valid_present valid_work_item
    is_positive valid_assignments valid_attempt valid_state_shape valid_marks stage_of find_stage
    contains_role text_eq is_waiting_status is_active_runtime is_zero_time is_active_lifecycle
stopped_when_ready = refl

incompatible-Stopped_example :
    Stopped busy (definition_incompatible busy)
    × Stopped busy (corroboration_definition_incompatible busy)
    × ((definition_incompatible (definition_incompatible busy).snapshot).snapshot
        ≡ (definition_incompatible busy).snapshot)
    × ((definition_incompatible (definition_incompatible busy).snapshot).actions ≡ [])
    × (any aims_at_turn (corroboration_definition_incompatible busy).actions ≡ false)
incompatible-Stopped_example = incompatible-Stopped busy

-- The catalog of the three Roles.
abbrev known : Role → Bool
known role = text_eq role role_planner || text_eq role role_developer || text_eq role role_reviewer

new_builtin_definition_example :
    (new_builtin_definition (some known) "Implement." "Review."
      ≡ ok (builtin_definition "Implement." "Review."))
    × (definition_valid (builtin_definition "Implement." "Review.") ≡ true)
    × (roles_of (builtin_definition "Implement." "Review.")
        ≡ role_planner ∷ role_developer ∷ role_reviewer ∷ [])
unfolding text_eq has_nul
new_builtin_definition_example =
    new_builtin_definition_lem known "Implement." "Review." refl refl refl refl refl

new_definition-SoundDefinition_example :
    SoundDefinition known builtin_entry
      (builtin_stages "Implement." "Review.")
      (builtin_definition "Implement." "Review.")
unfolding new_builtin_definition
new_definition-SoundDefinition_example =
    new_definition-SoundDefinition known builtin_entry (builtin_stages "Implement." "Review.")
      new_builtin_definition_example.0

valid_stage_id_lem_example : valid_stage_id "review-2" ≡ is_stage_name (codes "review-2")
valid_stage_id_lem_example = valid_stage_id_lem "review-2"

turn_settled-Retried_example : Retried reducer busy retrying
turn_settled-Retried_example = turn_settled-Retried reducer busy failing retry_run refl refl

terminal_intent_revalidated-admitted_example :
    (text_eq intent.source_turn.attempt_id intent.attempt_id ≡ false)
    × IntentAdmitted reducer developing intent
terminal_intent_revalidated-admitted_example =
    terminal_intent_revalidated-admitted reducer developing intent intent_run refl

trigger-Started_example : Started reducer absent_snapshot run_label developing started.actions
trigger-Started_example =
    trigger-Started reducer absent_snapshot run_label trigger_run refl refl refl
