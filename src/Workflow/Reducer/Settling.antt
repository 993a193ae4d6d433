-- ===== src/Workflow/Reducer/Settling.antt =====
-- reduceTurnSettled of internal/workflow/reducer.go and what it calls: the outcome of an Agent Turn.
use Prim.Native.String
use omnigrex.Prelude.{
  ℕ, String, Bool, true, false, not, List, [], ◌∷◌, Option, none, some, is_some, ◌&&◌, ◌||◌, ◌/◌,
  ◌%◌, ltb, ◌==◌, if◌then◌else◌, inc_64, inc_8, int_eq, Run, done, ◌>>=◌, deref,
}
use omnigrex.Workflow.Model.Vocabulary.{
  State, Reason, Disposition, EventKind, TurnPurpose, TurnOutcome, is_unset_reason,
}
use omnigrex.Workflow.Model.Snapshots.{
  Snapshot, WorkflowAttempt, TurnGuard, ChangeProposal, review_eq, proposal_eq,
}
use omnigrex.Workflow.Model.Events.{TurnSettledEvent}
use omnigrex.Workflow.Model.Actions.{Decision}
use omnigrex.Workflow.Definition.Stages.{transition_of}
use omnigrex.Workflow.Validation.Parts.{legal_in_state}
use omnigrex.Workflow.Reducer.Basics.{
  Reducer, unchanged, applied, illegal_in_state, expected_revision_decision, turn_matches,
  handed_over, unready, reconcile_state, successor_actions, with_pending,
  clarification_wait_decision,
}
use omnigrex.Workflow.Reducer.Failures.{hand_off_actions}
use omnigrex.Workflow.Reducer.Reviewing.{reduce_review_settled}
use omnigrex.Workflow.Reducer.Developing.{with_used, is_other_proposal, reduce_developer_settled}

unfoldable pub reduce_blocked : Snapshot → TurnSettledEvent → Decision
reduce_blocked next e =
    applied (handed_over next e.turn.role) Reason.agent_blocked
      (with_pending e.turn e.pending_events (hand_off_actions Reason.agent_blocked e.diagnostic))

-- `%d` of a uint8.
decimal_digit : ℕ → String
decimal_digit d =
    if d == 0
    then "0"
    else if d == 1
    then "1"
    else if d == 2
    then "2"
    else if d == 3
    then "3"
    else if d == 4
    then "4"
    else if d == 5
    then "5"
    else if d == 6
    then "6"
    else if d == 7
    then "7"
    else if d == 8
    then "8"
    else "9"

unfoldable pub decimal : ℕ → String
unfolding decimal_digit
decimal n =
    if ltb n 10
    then decimal_digit n
    else if ltb n 100
    then String.◌++◌ (decimal_digit (n / 10)) (decimal_digit (n % 10))
    else String.◌++◌ (decimal_digit (n / 100))
        (String.◌++◌ (decimal_digit (n / 10 % 10)) (decimal_digit (n % 10)))

abbrev joined : List String → String
joined [] = ""
joined (t ∷ ts) = String.◌++◌ t (joined ts)

-- The diagnostic of exhausted retries, by fmt.Sprintf.
unfoldable pub retries_diagnostic : TurnSettledEvent → WorkflowAttempt → String
unfolding decimal
retries_diagnostic e a = joined (
    e.diagnostic
    ∷ " [agent_turn_id="
    ∷ e.turn.turn_id
    ∷ " retry_of_turn_id="
    ∷ e.turn.retry_of_turn_id
    ∷ " infrastructure_retry_budget="
    ∷ decimal a.infrastructure_retry_budget.used
    ∷ "/"
    ∷ decimal a.infrastructure_retry_budget.limit
    ∷ "; see orchestrator logs]"
    ∷ [])

abbrev retry_head : TurnSettledEvent → String
retry_head e = elim e.publication_association [
  | none ↦ e.turn.expected_head_sha
  | some p ↦ p.head_sha
]

unfoldable pub reduce_infrastructure_failure : Snapshot → TurnSettledEvent → Run Decision
unfolding retries_diagnostic
reduce_infrastructure_failure next e = do
  attempt ← deref next.current_attempt
  let budget = attempt.infrastructure_retry_budget
  if ltb budget.used budget.limit
      then done (
          applied
            (record next {
              current_attempt = some (with_used (inc_8 budget.used) attempt);
              revision = inc_64 next.revision;
            })
            Reason.infrastructure_retry
            (successor_actions e.turn e.pending_events (record {
              stage = e.turn.stage;
              role = e.turn.role;
              purpose = TurnPurpose.retry;
              expected_head_sha = retry_head e;
              retry_of_turn_id = e.turn.turn_id;
            })))
      else done (
          applied (handed_over next e.turn.role) Reason.infrastructure_retries_exhausted (
            with_pending e.turn e.pending_events (
              hand_off_actions Reason.infrastructure_retries_exhausted
                (retries_diagnostic e attempt))))

unfoldable pub reduce_terminal_corroboration_handoff : Snapshot → TurnSettledEvent → Decision
reduce_terminal_corroboration_handoff next e =
    applied (handed_over next e.turn.role) e.corroboration_handoff_reason (
      with_pending e.turn e.pending_events
        (hand_off_actions e.corroboration_handoff_reason e.diagnostic))

-- A publication association is refused beside a known proposal, or another reported one.
abbrev reports_other : TurnOutcome → Option ChangeProposal → ChangeProposal → Bool
reports_other TurnOutcome.change_proposal_ready none p = true
reports_other TurnOutcome.change_proposal_ready (some q) p = not (proposal_eq q p)
reports_other _ given p = false

unfoldable pub association_refused : Snapshot → TurnSettledEvent → Bool
association_refused s e = elim e.publication_association [
  | none ↦ false
  | some p ↦ is_some s.change_proposal || reports_other e.outcome e.change_proposal p
]

-- `next` of reduceTurnSettled at its switch.
unfoldable pub settled_snapshot : Snapshot → TurnSettledEvent → Snapshot
settled_snapshot s e = record s {
  active_turn = none;
  resume_role = "";
  change_proposal = elim e.publication_association [ none ↦ s.change_proposal | some p ↦ some p ];
}

unfoldable pub settle_clarification : Snapshot → Snapshot → TurnSettledEvent → Decision
settle_clarification s next e = elim e.change_proposal [
  | none ↦ clarification_wait_decision next e.turn e.human_input_pending
  | some p ↦
      if is_some next.change_proposal && is_other_proposal next.change_proposal p
      then unchanged s Disposition.unrelated Reason.change_proposal_unrelated
      else clarification_wait_decision (record next { change_proposal = some (unready p) }) e.turn
          e.human_input_pending
]

unfoldable pub settle_planning : Snapshot → Snapshot → TurnSettledEvent → Decision
settle_planning s next e =
    if not s.planning_only || is_some s.change_proposal || is_some e.publication_association
    then illegal_in_state s
    else if e.human_input_pending
    then clarification_wait_decision next e.turn true
    else applied (record next { state = State.plan_ready; revision = inc_64 next.revision })
        Reason.approved (reconcile_state State.plan_ready ∷ [])

-- The outcomes that need a transition of the Stage.
unfoldable pub needs_transition : TurnOutcome → Bool
needs_transition TurnOutcome.clarification_wait = false
needs_transition TurnOutcome.blocked = false
needs_transition TurnOutcome.prerequisite_failed = false
needs_transition TurnOutcome.infrastructure_failed = false
needs_transition _ = true

-- The switch over the outcome.
unfoldable pub settle_outcome :
    TurnOutcome → Reducer → Snapshot → Snapshot → TurnSettledEvent → Run Decision
unfolding settle_clarification settle_planning reduce_developer_settled reduce_review_settled
    reduce_blocked reduce_infrastructure_failure reduce_terminal_corroboration_handoff
settle_outcome TurnOutcome.clarification_wait r s next e = done (settle_clarification s next e)
settle_outcome TurnOutcome.planning_ready r s next e = done (settle_planning s next e)
settle_outcome TurnOutcome.change_proposal_ready r s next e = reduce_developer_settled r s next e
settle_outcome TurnOutcome.changes_requested r s next e = reduce_review_settled r s next e
settle_outcome TurnOutcome.approved r s next e = reduce_review_settled r s next e
settle_outcome TurnOutcome.blocked r s next e = done (reduce_blocked next e)
settle_outcome TurnOutcome.prerequisite_failed r s next e = done (reduce_blocked next e)
settle_outcome TurnOutcome.infrastructure_failed r s next e =
    if not (is_unset_reason e.corroboration_handoff_reason)
    then done (reduce_terminal_corroboration_handoff next e)
    else reduce_infrastructure_failure next e
settle_outcome TurnOutcome.unset r s next e =
    done (unchanged s Disposition.illegal Reason.invalid_event)

-- From the active Turn on.
unfoldable pub settle_turn : Reducer → Snapshot → TurnSettledEvent → Run Decision
unfolding association_refused settled_snapshot settle_outcome
settle_turn r s e =
    if association_refused s e
    then done (unchanged s Disposition.unrelated Reason.change_proposal_unrelated)
    else if not (needs_transition e.outcome)
    then settle_outcome e.outcome r s (settled_snapshot s e) e
    else do
      attempt ← deref s.current_attempt
      elim (transition_of r.definition attempt.current_stage e.outcome) [
        | none ↦ done (unchanged s Disposition.illegal Reason.invalid_event)
        | some _ ↦ settle_outcome e.outcome r s (settled_snapshot s e) e
      ]

-- `ActiveTurn == nil || !turnMatches(…)`.
unfoldable pub turn_missing : Snapshot → TurnGuard → Bool
turn_missing s guard = elim s.active_turn [
  | none ↦ true
  | some turn ↦ not (turn_matches turn guard)
]

-- From the test of the state on.
unfoldable pub settle_current : Reducer → Snapshot → TurnSettledEvent → Run Decision
settle_current r s e =
    if not (legal_in_state s.state EventKind.turn_settled)
    then done (illegal_in_state s)
    else if turn_missing s e.turn
    then done (unchanged s Disposition.stale Reason.turn_guard_stale)
    else settle_turn r s e

unfoldable pub reduce_turn_settled : Reducer → Snapshot → TurnSettledEvent → Run Decision
reduce_turn_settled r s e = elim e.existing_review [
  | some existing ↦ do
    review ← deref e.review
    if not (int_eq existing.id review.id) || not (review_eq existing review)
        then done (unchanged s Disposition.illegal Reason.review_identity_conflict)
        else done (unchanged s Disposition.duplicate Reason.review_duplicate)
  | none ↦ elim (expected_revision_decision s e.metadata) [
    | some stale ↦ done stale
    | none ↦ settle_current r s e
  ]
]
