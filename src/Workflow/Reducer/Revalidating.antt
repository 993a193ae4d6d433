-- ===== src/Workflow/Reducer/Revalidating.antt =====
-- reduceTerminalIntentRevalidated of internal/workflow/reducer.go: a prior Turn's terminal intent is
-- accepted under a new Attempt.
use omnigrex.Prelude.{
  Bool, true, false, not, [], ◌∷◌, Option, none, some, is_some, ◌||◌, if◌then◌else◌, inc_64,
  text_eq, int_eq, Run, done, ◌>>=◌, deref,
}
use omnigrex.Workflow.Model.Vocabulary.{
  State, Reason, Disposition, TurnPurpose, TurnOutcome, state_eq,
}
use omnigrex.Workflow.Model.Snapshots.{
  Snapshot, WorkflowAttempt, ChangeProposal, ReviewIdentity, TurnGuard, review_eq,
}
use omnigrex.Workflow.Model.Events.{
  TerminalIntentRevalidatedEvent, TurnSettledEvent, PendingEventsObservation,
}
use omnigrex.Workflow.Model.Actions.{Action, Decision}
use omnigrex.Workflow.Definition.Stages.{
  StageDefinition, OutcomeTransition, stage_of, transition_of,
}
use omnigrex.Workflow.Validation.Parts.{is_working}
use omnigrex.Workflow.Reducer.Basics.{
  Reducer, unchanged, applied, expected_revision_decision, unready, head_of, reconcile_state,
  clarification_wait_decision,
}
use omnigrex.Workflow.Reducer.Reviewing.{reduce_review_settled, is_approved}
use omnigrex.Workflow.Reducer.Developing.{with_used, reduce_developer_settled}

-- `PendingEventsObservation{}`.
abbrev no_pending : PendingEventsObservation
no_pending = record { count = 0; requires_reconciliation = false; latest_observed_head_sha = "" }

-- `reused`: the evidence as a settled Turn.
unfoldable pub reused_event : TerminalIntentRevalidatedEvent → TurnSettledEvent
reused_event e = record {
  publication_association = none;
  metadata = e.metadata;
  turn = e.source_turn;
  outcome = e.outcome;
  change_proposal = e.change_proposal;
  review = e.review;
  existing_review = none;
  authorized_reviewer_actor_id = e.authorized_reviewer_actor_id;
  human_input_pending = false;
  pending_events = no_pending;
  diagnostic = "";
  corroboration_handoff_reason = Reason.unset;
}

-- The comparisons at the head of reducePreviouslyAcceptedTerminalReview.
unfoldable pub accepted_unrelated :
    ChangeProposal → ChangeProposal → ReviewIdentity → TerminalIntentRevalidatedEvent → Bool
accepted_unrelated current given review e =
    not (int_eq e.source_turn.change_proposal_id current.id)
    || not (int_eq review.change_proposal_id current.id)
    || not (int_eq given.id current.id)
    || not (int_eq review.actor_id e.authorized_reviewer_actor_id)

unfoldable pub accepted_stale : ChangeProposal → ChangeProposal → ReviewIdentity → TurnGuard → Bool
accepted_stale current given review turn =
    not (text_eq review.head_sha turn.expected_head_sha)
    || not (text_eq review.head_sha given.head_sha)
    || not (text_eq current.head_sha turn.expected_head_sha)

-- From the lookup of the transition on; `attempt` is the current Attempt.
unfoldable pub replay_review :
    Reducer
    → Snapshot
    → TerminalIntentRevalidatedEvent
    → ChangeProposal
    → ChangeProposal
    → ReviewIdentity
    → WorkflowAttempt
    → OutcomeTransition
    → Decision
replay_review r s e current given review attempt transition =
    let reset = with_used 0 attempt in
    let proposal = unready given in
    let next = record s {
      change_proposal = some proposal;
      current_attempt = some reset;
      revision = inc_64 s.revision;
    } in
    if accepted_stale current given review e.source_turn
    then applied next Reason.review_head_replaced (
        Action.enqueue_turn (record {
          stage = attempt.current_stage;
          role = e.source_turn.role;
          purpose = TurnPurpose.synchronization;
          expected_head_sha = proposal.head_sha;
          retry_of_turn_id = "";
        })
        ∷ reconcile_state s.state
        ∷ [])
    else if is_approved e.outcome
    then applied
        (record next {
          state = transition.terminal_state;
          current_attempt = some (record reset { current_stage = transition.continuation_stage });
          change_proposal = some (record proposal { ready_for_sha = review.head_sha });
        })
        Reason.approved (Action.reconcile_labels State.pr_ready review.head_sha ∷ [])
    else elim (stage_of r.definition transition.next_stage) [
      | none ↦ unchanged s Disposition.illegal Reason.invariant_violation
      | some target ↦
          applied
            (record next {
              state = target.state;
              current_attempt = some (record reset { current_stage = target.id });
            })
            Reason.changes_requested
            (Action.enqueue_turn (record {
              stage = target.id;
              role = target.role;
              purpose = transition.next_purpose;
              expected_head_sha = proposal.head_sha;
              retry_of_turn_id = "";
            })
              ∷ reconcile_state target.state
              ∷ [])
    ]

unfoldable pub reduce_previously_accepted_terminal_review :
    Reducer → Snapshot → TerminalIntentRevalidatedEvent → Run Decision
reduce_previously_accepted_terminal_review r s e = elim s.change_proposal [
  | none ↦ done (unchanged s Disposition.unrelated Reason.change_proposal_unrelated)
  | some current ↦ elim e.change_proposal [
    | none ↦ done (unchanged s Disposition.unrelated Reason.change_proposal_unrelated)
    | some given ↦ elim e.review [
      | none ↦ done (unchanged s Disposition.unrelated Reason.change_proposal_unrelated)
      | some review ↦
          if accepted_unrelated current given review e
          then done (unchanged s Disposition.unrelated Reason.change_proposal_unrelated)
          else do
            attempt ← deref s.current_attempt
            elim (transition_of r.definition attempt.current_stage e.outcome) [
              | none ↦ done (unchanged s Disposition.illegal Reason.invalid_event)
              | some transition ↦ done (replay_review r s e current given review attempt transition)
            ]
    ]
  ]
]

-- Human input waits: the Stage is entered again in place of the intent.
unfoldable pub reactivate : StageDefinition → Snapshot → TerminalIntentRevalidatedEvent → Decision
reactivate stage s e =
    applied
      (record s {
        revision = inc_64 s.revision;
        change_proposal = elim e.change_proposal [
          | none ↦ s.change_proposal
          | some p ↦ some (unready p)
        ];
      })
      Reason.human_input_pending
      (Action.enqueue_turn (record {
        stage = stage.id;
        role = stage.role;
        purpose = TurnPurpose.reactivation;
        expected_head_sha = head_of e.change_proposal;
        retry_of_turn_id = "";
      })
        ∷ [])

-- A review that was recorded before: it must be the reported one.
abbrev pub conflicts : Option ReviewIdentity → ReviewIdentity → Bool
conflicts none existing = true
conflicts (some review) existing = not (review_eq existing review)

abbrev pub is_clarification : TurnOutcome → Bool
is_clarification TurnOutcome.clarification_wait = true
is_clarification _ = false

abbrev pub is_proposal_ready : TurnOutcome → Bool
is_proposal_ready TurnOutcome.change_proposal_ready = true
is_proposal_ready _ = false

-- From the Stage of the source Turn on.
unfoldable pub revalidate_in_stage :
    Reducer → Snapshot → TerminalIntentRevalidatedEvent → StageDefinition → Run Decision
revalidate_in_stage r s e stage =
    if is_clarification e.outcome
    then done (
        clarification_wait_decision (record s { resume_role = "" }) e.source_turn
          e.human_input_pending)
    else if e.human_input_pending
    then done (reactivate stage s e)
    else elim e.existing_review [
      | some existing ↦
          if conflicts e.review existing
          then done (unchanged s Disposition.illegal Reason.review_identity_conflict)
          else reduce_previously_accepted_terminal_review r s e
      | none ↦ elim (transition_of r.definition stage.id e.outcome) [
        | none ↦ done (unchanged s Disposition.illegal Reason.invalid_event)
        | some _ ↦
            let next = record s { resume_role = "" } in
            if is_proposal_ready e.outcome
            then reduce_developer_settled r s next (reused_event e)
            else reduce_review_settled r s next (reused_event e)
      ]
    ]

-- `CurrentAttempt == nil || its ID is another || its Stage is not the source Turn's`.
abbrev pub other_source : Option WorkflowAttempt → TerminalIntentRevalidatedEvent → Bool
other_source none e = true
other_source (some attempt) e =
    not (text_eq attempt.id e.attempt_id) || not (text_eq attempt.current_stage e.source_turn.stage)

-- From the comparison with the current Attempt on.
unfoldable pub revalidate_current :
    Reducer → Snapshot → TerminalIntentRevalidatedEvent → Run Decision
revalidate_current r s e =
    if other_source s.current_attempt e || is_some s.active_turn || not (is_working s.state)
    then done (unchanged s Disposition.stale Reason.turn_guard_stale)
    else elim (stage_of r.definition e.source_turn.stage) [
      | none ↦ done (unchanged s Disposition.illegal Reason.invariant_violation)
      | some stage ↦
          if not (text_eq stage.role e.source_turn.role) || not (state_eq stage.state s.state)
          then done (unchanged s Disposition.illegal Reason.invariant_violation)
          else revalidate_in_stage r s e stage
    ]

unfoldable pub reduce_terminal_intent_revalidated :
    Reducer → Snapshot → TerminalIntentRevalidatedEvent → Run Decision
reduce_terminal_intent_revalidated r s e = elim (expected_revision_decision s e.metadata) [
  | some stale ↦ done stale
  | none ↦ revalidate_current r s e
]
