-- ===== src/Workflow/Model/Actions.antt =====
-- The Actions and the Decision of internal/workflow/model.go.
use omnigrex.Prelude.{ℕ, String, Time, Bool, List}
use omnigrex.Workflow.Model.Vocabulary.{
  Role, StageId, State, TurnPurpose, Reason, Disposition, EventKind, AssignmentGeneration,
  AttemptCompletionReason,
}
use omnigrex.Workflow.Model.Snapshots.{WorkflowAttempt, TurnGuard, ReviewIdentity, Snapshot}

pub record EnqueueTurnAction : Type 0 where
  pub stage : StageId
  pub role : Role
  pub purpose : TurnPurpose
  pub expected_head_sha : String
  pub retry_of_turn_id : String

-- `EnqueueTurnAction{}`.
abbrev pub no_turn : EnqueueTurnAction
no_turn = record {
  stage = "";
  role = "";
  purpose = TurnPurpose.unset;
  expected_head_sha = "";
  retry_of_turn_id = "";
}

pub record ReconcilePendingEventsAction : Type 0 where
  pub source_turn : TurnGuard
  pub count : ℕ
  pub latest_observed_head_sha : String
  pub fallback_role : Role
  pub fallback_stage : StageId
  pub fallback_purpose : TurnPurpose
  pub fallback_expected_head : String
  pub retry_of_turn_id : String

pub data Action : Type 0 where
  ensure_assignments : AssignmentGeneration → Action
  complete_attempt : String → AttemptCompletionReason → Action
  create_attempt : WorkflowAttempt → Action
  consume_run_label : Action
  enqueue_turn : EnqueueTurnAction → Action
  enqueue_terminal_revalidation : (source_turn_id : String) → Action
  reconcile_labels : State → (ready_for_sha : String) → Action
  record_review : ReviewIdentity → (accepted : Bool) → Action
  preserve_human_handoff : (source_revision : ℕ) → Action
  mark_human_handoff : Reason → (diagnostic : String) → Action
  close_mutation_admission : TurnGuard → Action
  stop_turn : TurnGuard → Action
  interrupt_turn_for_human_handoff : TurnGuard → Action
  settle_closure : (closure_id : String) → Action
  complete_assignments : Action
  schedule_retention : (retention_token : String) → (retain_until : Time) → Action
  cancel_retention : (retention_token : String) → Action
  record_pending_event : (event_id : String) → EventKind → (observed_at : Time) → Action
  reconcile_pending_events : ReconcilePendingEventsAction → Action

pub record Decision : Type 0 where
  pub snapshot : Snapshot
  pub disposition : Disposition
  pub reason : Reason
  pub actions : List Action
