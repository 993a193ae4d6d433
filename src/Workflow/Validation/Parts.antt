-- ===== src/Workflow/Validation/Parts.antt =====
-- The small checks of internal/workflow/validation.go, and the table of legal Events.
use omnigrex.Prelude.{
  Bool, true, false, not, Option, none, some, is_some, ◌&&◌, ◌||◌, ltb, ◌==◌, is_positive, is_empty,
  if◌then◌else◌,
}
use omnigrex.Workflow.Model.Vocabulary.{State, EventKind}
use omnigrex.Workflow.Model.Snapshots.{WorkItem, TurnGuard, ChangeProposal, ReviewIdentity}
use omnigrex.Workflow.Model.Events.{PendingEventsObservation}
use omnigrex.Workflow.Definition.Stages.{Definition, stage_of, contains_role}

unfoldable pub valid_work_item : WorkItem → Bool
valid_work_item w =
    is_positive w.repository_id && is_positive w.issue_id && is_positive w.issue_number

unfoldable pub valid_state : State → Bool
valid_state State.unset = false
valid_state _ = true

unfoldable pub valid_turn_guard : Definition → TurnGuard → Bool
valid_turn_guard definition turn =
    is_some (stage_of definition turn.stage)
    && contains_role definition turn.role
    && not (is_empty turn.turn_id)
    && not (is_empty turn.session_id)
    && not (is_empty turn.attempt_id)
    && ltb 0 turn.epoch
    && ltb 0 turn.control_revision

unfoldable pub valid_proposal : ChangeProposal → Bool
valid_proposal p =
    is_positive p.id && is_positive p.number && not (is_empty p.head_sha) && p.is_open

-- validChangeProposal, which takes a pointer.
abbrev pub valid_change_proposal : Option ChangeProposal → Bool
valid_change_proposal none = false
valid_change_proposal (some p) = valid_proposal p

unfoldable pub valid_identity : ReviewIdentity → Bool
valid_identity r =
    is_positive r.id
    && not (is_empty r.node_id)
    && is_positive r.change_proposal_id
    && is_positive r.actor_id
    && not (is_empty r.head_sha)

-- validReview, which takes a pointer.
abbrev pub valid_review : Option ReviewIdentity → Bool
valid_review none = false
valid_review (some r) = valid_identity r

unfoldable pub valid_pending_observation : PendingEventsObservation → Bool
valid_pending_observation p =
    if p.count == 0
    then not p.requires_reconciliation && is_empty p.latest_observed_head_sha
    else not p.requires_reconciliation || not (is_empty p.latest_observed_head_sha)

-- The states in which a Stage's Agent Turns run.
unfoldable pub is_working : State → Bool
is_working State.planning = true
is_working State.developing = true
is_working State.reviewing = true
is_working _ = false

abbrev is_trigger_state : State → Bool
is_trigger_state State.absent = true
is_trigger_state State.dormant = true
is_trigger_state State.pr_ready = true
is_trigger_state State.needs_human = true
is_trigger_state _ = false

abbrev is_synchronization_state : State → Bool
is_synchronization_state State.pr_ready = true
is_synchronization_state State.needs_human = true
is_synchronization_state s = is_working s

abbrev is_closable_state : State → Bool
is_closable_state State.plan_ready = true
is_closable_state State.dormant = true
is_closable_state State.pr_ready = true
is_closable_state State.needs_human = true
is_closable_state s = is_working s

abbrev is_reopenable_state : State → Bool
is_reopenable_state State.closing = true
is_reopenable_state State.closed = true
is_reopenable_state s = is_working s

abbrev is_collectable_state : State → Bool
is_collectable_state State.closed = true
is_collectable_state State.dormant = true
is_collectable_state _ = false

abbrev is_exhaustible_state : State → Bool
is_exhaustible_state State.plan_ready = true
is_exhaustible_state State.pr_ready = true
is_exhaustible_state State.needs_human = true
is_exhaustible_state s = is_working s

abbrev is_closing : State → Bool
is_closing State.closing = true
is_closing _ = false

unfoldable pub legal_in_state : State → EventKind → Bool
unfolding is_working
legal_in_state s EventKind.trigger = is_trigger_state s
legal_in_state s EventKind.turn_settled = is_working s
legal_in_state s EventKind.synchronization = is_synchronization_state s
legal_in_state s EventKind.review_observed = is_working s
legal_in_state s EventKind.change_proposal_observed = is_working s
legal_in_state s EventKind.issue_closed = is_closable_state s
legal_in_state s EventKind.closure_settled = is_closing s
legal_in_state s EventKind.issue_reopened = is_reopenable_state s
legal_in_state s EventKind.assignments_collected = is_collectable_state s
legal_in_state s EventKind.assignment_configuration_conflict = is_working s
legal_in_state s EventKind.agent_turn_preparation_failed = is_working s
legal_in_state s EventKind.agent_turn_mutation_reconciliation_exhausted = is_working s
legal_in_state s EventKind.workflow_action_exhausted = is_exhaustible_state s
legal_in_state s _ = false
