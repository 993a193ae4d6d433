-- ===== src/Workflow/Reducer/Developing.antt =====
-- reduceDeveloperSettled of internal/workflow/reducer.go.
use omnigrex.Prelude.{
  ℕ, Bool, true, not, [], ◌∷◌, ◌++◌, Option, none, some, ◌||◌, if◌then◌else◌, inc_64, int_eq, pos,
  Run, done, ◌>>=◌, deref,
}
use omnigrex.Workflow.Model.Vocabulary.{Reason, Disposition}
use omnigrex.Workflow.Model.Snapshots.{Snapshot, WorkflowAttempt, TurnGuard, ChangeProposal}
use omnigrex.Workflow.Model.Events.{TurnSettledEvent}
use omnigrex.Workflow.Model.Actions.{Decision}
use omnigrex.Workflow.Definition.Stages.{
  OutcomeTransition, zero_transition, stage_of, transition_of,
}
use omnigrex.Workflow.Reducer.Basics.{
  Reducer, unchanged, applied, unready, reconcile_state, successor_actions,
}

-- `transition, _ := Transition(id, outcome)`.
abbrev pub transition_or_zero : Option OutcomeTransition → OutcomeTransition
transition_or_zero none = zero_transition
transition_or_zero (some t) = t

-- `InfrastructureRetryBudget.Used = used`.
abbrev pub with_used : ℕ → WorkflowAttempt → WorkflowAttempt
with_used used a = record a {
  infrastructure_retry_budget = record (a.infrastructure_retry_budget) { used = used };
}

-- A proposal that is missing, or another one than `id` names.
abbrev pub is_other_proposal : Option ChangeProposal → ChangeProposal → Bool
is_other_proposal none p = true
is_other_proposal (some q) p = not (int_eq q.id p.id)

-- The two tests of reduceDeveloperSettled on the Change Proposal of the Snapshot.
unfoldable pub developer_unrelated : Option ChangeProposal → ChangeProposal → TurnGuard → Bool
developer_unrelated none p turn = not (int_eq turn.change_proposal_id (pos 0))
developer_unrelated (some q) p turn =
    not (int_eq p.id q.id) || not (int_eq turn.change_proposal_id q.id)

unfoldable pub reduce_developer_settled :
    Reducer → Snapshot → Snapshot → TurnSettledEvent → Run Decision
reduce_developer_settled r s next e = do
  proposal ← deref e.change_proposal
  if developer_unrelated s.change_proposal proposal e.turn
      then done (unchanged s Disposition.unrelated Reason.change_proposal_unrelated)
      else do
        current ← deref s.current_attempt
        let transition =
            transition_or_zero (transition_of r.definition current.current_stage e.outcome)
        elim (stage_of r.definition transition.next_stage) [
          | none ↦ done (unchanged s Disposition.illegal Reason.invariant_violation)
          | some target ↦ do
            attempt ← deref next.current_attempt
            done (
                applied
                  (record next {
                    change_proposal = some (unready proposal);
                    current_attempt =
                        some (record (with_used 0 attempt) { current_stage = target.id });
                    state = target.state;
                    revision = inc_64 next.revision;
                  })
                  Reason.change_proposal_ready
                  (successor_actions e.turn e.pending_events (record {
                    stage = target.id;
                    role = target.role;
                    purpose = transition.next_purpose;
                    expected_head_sha = proposal.head_sha;
                    retry_of_turn_id = "";
                  })
                    ++ reconcile_state target.state ∷ []))
        ]
