-- ===== src/Workflow/Reducer/Basics.antt =====
-- The Reducer and what its handlers share.
use omnigrex.Prelude.{
  ℕ, String, Bool, true, not, List, [], ◌∷◌, Option, none, some, ◌&&◌, ltb, ◌==◌, if◌then◌else◌,
  inc_64, text_eq, int_eq,
}
use omnigrex.Workflow.Model.Vocabulary.{
  State, Role, Reason, Disposition, EventKind, TurnPurpose, AssignmentStatus,
}
use omnigrex.Workflow.Model.Snapshots.{Snapshot, ActiveTurn, TurnGuard, ChangeProposal}
use omnigrex.Workflow.Model.Events.{EventMetadata, PendingEventsObservation}
use omnigrex.Workflow.Model.Actions.{Action, Decision, EnqueueTurnAction, no_turn}
use omnigrex.Workflow.Definition.Stages.{Definition, StageDefinition, zero_stage, definition_valid}

pub record Reducer : Type 0 where
  pub definition : Definition
  pub retry_limit : ℕ

-- NewReducer; `none` is its error.
unfoldable pub new_reducer : Definition → ℕ → Option Reducer
new_reducer definition retry_limit =
    if not (definition_valid definition)
    then none
    else if retry_limit == 0
    then none
    else some (record { definition = definition; retry_limit = retry_limit })

-- `stage, _ := Stage(id)`.
abbrev pub stage_or_zero : Option StageDefinition → StageDefinition
stage_or_zero none = zero_stage
stage_or_zero (some stage) = stage

-- A Decision that changes nothing.
abbrev pub unchanged : Snapshot → Disposition → Reason → Decision
unchanged s disposition reason = record {
  snapshot = s;
  disposition = disposition;
  reason = reason;
  actions = [];
}

abbrev pub applied : Snapshot → Reason → List Action → Decision
applied next reason actions = record {
  snapshot = next;
  disposition = Disposition.applied;
  reason = reason;
  actions = actions;
}

abbrev pub illegal_in_state : Snapshot → Decision
illegal_in_state s = unchanged s Disposition.illegal Reason.event_illegal_in_state

unfoldable pub expected_revision_decision : Snapshot → EventMetadata → Option Decision
expected_revision_decision s m =
    if ltb m.expected_revision s.revision
    then some (unchanged s Disposition.stale Reason.state_revision_stale)
    else if ltb s.revision m.expected_revision
    then some (unchanged s Disposition.stale Reason.event_out_of_order)
    else none

abbrev pub defer_for_active_turn : Snapshot → EventMetadata → EventKind → Decision
defer_for_active_turn s m kind = record {
  snapshot = s;
  disposition = Disposition.deferred;
  reason = Reason.active_turn;
  actions = Action.record_pending_event m.id kind m.observed_at ∷ [];
}

unfoldable pub turn_matches : ActiveTurn → TurnGuard → Bool
turn_matches turn guard =
    text_eq turn.id guard.turn_id
    && text_eq turn.session_id guard.session_id
    && text_eq turn.attempt_id guard.attempt_id
    && text_eq turn.stage guard.stage
    && text_eq turn.role guard.role
    && turn.epoch == guard.epoch
    && turn.control_revision == guard.control_revision
    && int_eq turn.change_proposal_id guard.change_proposal_id
    && text_eq turn.expected_head_sha guard.expected_head_sha

unfoldable pub guard_from_turn : ActiveTurn → TurnGuard
guard_from_turn turn = record {
  retry_of_turn_id = "";
  turn_id = turn.id;
  session_id = turn.session_id;
  attempt_id = turn.attempt_id;
  stage = turn.stage;
  role = turn.role;
  epoch = turn.epoch;
  control_revision = turn.control_revision;
  change_proposal_id = turn.change_proposal_id;
  expected_head_sha = turn.expected_head_sha;
}

-- The four assignments by which a handler returns the work to a human.
abbrev pub handed_over : Snapshot → Role → Snapshot
handed_over next role = record next {
  state = State.needs_human;
  resume_role = role;
  assignments = record (next.assignments) { status = AssignmentStatus.waiting_for_human };
  revision = inc_64 next.revision;
}

-- `proposal.ReadyForSHA = ""`.
abbrev pub unready : ChangeProposal → ChangeProposal
unready p = record p { ready_for_sha = "" }

abbrev pub unready_if_any : Option ChangeProposal → Option ChangeProposal
unready_if_any none = none
unready_if_any (some p) = some (unready p)

-- `head := ""; if proposal != nil { head = proposal.HeadSHA }`.
abbrev pub head_of : Option ChangeProposal → String
head_of none = ""
head_of (some p) = p.head_sha

-- `ReconcileLabelsAction{State: state}`.
abbrev pub reconcile_state : State → Action
reconcile_state state = Action.reconcile_labels state ""

unfoldable pub pending_requires_reconciliation : PendingEventsObservation → Bool
pending_requires_reconciliation pending = ltb 0 pending.count

unfoldable pub reconcile_pending_action :
    TurnGuard → PendingEventsObservation → EnqueueTurnAction → Action
reconcile_pending_action source pending fallback = Action.reconcile_pending_events (record {
  source_turn = source;
  count = pending.count;
  latest_observed_head_sha = pending.latest_observed_head_sha;
  fallback_role = fallback.role;
  fallback_stage = fallback.stage;
  fallback_purpose = fallback.purpose;
  fallback_expected_head = fallback.expected_head_sha;
  retry_of_turn_id = fallback.retry_of_turn_id;
})

unfoldable pub successor_actions :
    TurnGuard → PendingEventsObservation → EnqueueTurnAction → List Action
unfolding pending_requires_reconciliation reconcile_pending_action
successor_actions source pending intent =
    if pending_requires_reconciliation pending
    then reconcile_pending_action source pending intent ∷ []
    else Action.enqueue_turn intent ∷ []

-- `if pendingRequiresReconciliation(…) { actions = append([]Action{…}, actions...) }`, with no
-- Turn to fall back to.
unfoldable pub with_pending : TurnGuard → PendingEventsObservation → List Action → List Action
unfolding pending_requires_reconciliation reconcile_pending_action
with_pending source pending actions =
    if pending_requires_reconciliation pending
    then reconcile_pending_action source pending no_turn ∷ actions
    else actions

unfoldable pub clarification_wait_decision : Snapshot → TurnGuard → Bool → Decision
clarification_wait_decision next turn pending =
    applied (record next { clarification_waiting = true; revision = inc_64 next.revision })
      Reason.clarification_wait
      (if pending
        then Action.enqueue_turn (record {
          stage = turn.stage;
          role = turn.role;
          purpose = TurnPurpose.reactivation;
          expected_head_sha = head_of next.change_proposal;
          retry_of_turn_id = "";
        })
          ∷ []
        else [])
