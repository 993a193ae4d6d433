-- ===== src/Workflow/Definition/Builtin.antt =====
-- internal/workflow/builtin.go. The two embedded instruction files are the arguments.
use omnigrex.Prelude.{String, Bool, true, List, [], ◌∷◌, Option, ℕ}
use omnigrex.Workflow.Model.Vocabulary.{
  State, Role, StageId, TurnPurpose, TurnOutcome, role_planner, role_developer, role_reviewer,
}
use omnigrex.Workflow.Definition.Stages.{StageEntry, StageDefinition, Definition, zero_transition}
use omnigrex.Workflow.Definition.Build.{Checked, new_definition}

abbrev pub stage_planning : StageId
stage_planning = "planning"

abbrev pub stage_implementation : StageId
stage_implementation = "implementation"

abbrev pub stage_review : StageId
stage_review = "review"

abbrev pub builtin_infrastructure_retry_limit : ℕ
builtin_infrastructure_retry_limit = 1

abbrev pub planning_stage : StageDefinition
planning_stage = record {
  id = stage_planning;
  role = role_planner;
  state = State.planning;
  accepted_purposes =
      TurnPurpose.initial_planning ∷ TurnPurpose.reactivation ∷ TurnPurpose.retry ∷ [];
  transitions =
      record zero_transition {
        outcome = TurnOutcome.planning_ready;
        terminal_state = State.plan_ready;
        continuation_stage = stage_planning;
      }
      ∷ [];
  review_limit = 0;
  instructions =
      "Investigate and discuss; publish paired checkpoints, await exact-revision human confirmation, revalidate and finish planning only. Never allocate implementation or create a Change Proposal.";
  purpose_instructions = [];
}

abbrev pub implementation_stage : String → StageDefinition
implementation_stage implementation_instructions = record {
  id = stage_implementation;
  role = role_developer;
  state = State.developing;
  accepted_purposes =
      TurnPurpose.initial_development ∷ TurnPurpose.requested_changes ∷ TurnPurpose.retry
      ∷ TurnPurpose.reactivation ∷ [];
  transitions =
      record zero_transition {
        outcome = TurnOutcome.change_proposal_ready;
        next_stage = stage_review;
        next_purpose = TurnPurpose.review;
      }
      ∷ [];
  review_limit = 0;
  instructions = implementation_instructions;
  purpose_instructions =
      (
        TurnPurpose.initial_development,
        "Implement the Work Item and create its initial Change Proposal.",
      )
      ∷ (
        TurnPurpose.requested_changes,
        "Inspect all substantive review findings before revising the existing Change Proposal; explain the changes since the previous review in the new handoff summary.",
      )
      ∷ [];
}

abbrev pub review_stage : String → StageDefinition
review_stage review_instructions = record {
  id = stage_review;
  role = role_reviewer;
  state = State.reviewing;
  accepted_purposes =
      TurnPurpose.review ∷ TurnPurpose.retry ∷ TurnPurpose.synchronization
      ∷ TurnPurpose.reactivation ∷ [];
  transitions =
      record zero_transition {
        outcome = TurnOutcome.changes_requested;
        next_stage = stage_implementation;
        next_purpose = TurnPurpose.requested_changes;
        consumes_review_cycle = true;
      }
      ∷ record zero_transition {
        outcome = TurnOutcome.approved;
        terminal_state = State.pr_ready;
        continuation_stage = stage_review;
        consumes_review_cycle = true;
      }
      ∷ [];
  review_limit = 3;
  instructions = review_instructions;
  purpose_instructions =
      (
        TurnPurpose.synchronization,
        "The Change Proposal head changed; evaluate the current head and recheck earlier findings rather than carrying forward a stale verdict.",
      )
      ∷ [];
}

abbrev pub builtin_stages : String → String → List StageDefinition
builtin_stages implementation_instructions review_instructions =
    planning_stage
    ∷ implementation_stage implementation_instructions
    ∷ review_stage review_instructions
    ∷ []

abbrev pub builtin_entry : StageEntry
builtin_entry = record { stage = stage_implementation; purpose = TurnPurpose.initial_development }

unfoldable pub new_builtin_definition : Option (Role → Bool) → String → String → Checked Definition
unfolding new_definition
new_builtin_definition catalog implementation_instructions review_instructions =
    new_definition catalog builtin_entry
      (builtin_stages implementation_instructions review_instructions)
