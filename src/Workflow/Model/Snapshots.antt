-- ===== src/Workflow/Model/Snapshots.antt =====
-- The Snapshot of internal/workflow/model.go and its parts. A pointer is an `Option`; a map from
-- Stages to uint8 is an association list.
use omnigrex.Prelude.{
  bool_eq, ℕ, ℤ, String, Time, Bool, true, false, List, [], ◌∷◌, Option, none, ◌&&◌, ◌≡◌, arith,
  if◌then◌else◌, text_eq, int_eq, int_eq_iff, zero_time, pos,
}
use omnigrex.Workflow.Model.Vocabulary.{
  State, Role, StageId, AttemptLifecycle, AssignmentStatus, RuntimeState,
}

pub record WorkItem : Type 0 where
  pub repository_id : ℤ
  pub issue_id : ℤ
  pub issue_number : ℤ

unfoldable pub work_item_eq : WorkItem → WorkItem → Bool
work_item_eq a b =
    int_eq a.repository_id b.repository_id
    && int_eq a.issue_id b.issue_id
    && int_eq a.issue_number b.issue_number

pub work_item_eq-eq : (a b : WorkItem) → work_item_eq a b ≡ true → a ≡ b
unfolding work_item_eq
work_item_eq-eq a b h = ground (
  arith,
  int_eq_iff a.repository_id b.repository_id,
  int_eq_iff a.issue_id b.issue_id,
  int_eq_iff a.issue_number b.issue_number,
)

abbrev pub zero_work_item : WorkItem
zero_work_item = record { repository_id = pos 0; issue_id = pos 0; issue_number = pos 0 }

-- uint8 counters.
pub record AttemptBudget : Type 0 where
  pub used : ℕ
  pub limit : ℕ

abbrev pub Usage : Type 0
Usage = List (StageId × ℕ)

-- `usage[stage]`, 0 where the key is missing.
unfoldable pub usage_of : StageId → Usage → ℕ
usage_of stage [] = 0
usage_of stage ((s, n) ∷ m) = if text_eq s stage then n else usage_of stage m

-- `usage[stage] = n`.
unfoldable pub set_usage : StageId → ℕ → Usage → Usage
set_usage stage n [] = (stage, n) ∷ []
set_usage stage n ((s, k) ∷ m) =
    if text_eq s stage then (s, n) ∷ m else (s, k) ∷ set_usage stage n m

pub record WorkflowAttempt : Type 0 where
  pub id : String
  pub number : ℕ
  pub started_at : Time
  pub lifecycle : AttemptLifecycle
  pub current_stage : StageId
  pub review_usage : Usage
  pub infrastructure_retry_budget : AttemptBudget

pub record ActiveTurn : Type 0 where
  pub id : String
  pub session_id : String
  pub attempt_id : String
  pub stage : StageId
  pub role : Role
  pub epoch : ℕ
  pub control_revision : ℕ
  pub change_proposal_id : ℤ
  pub expected_head_sha : String

pub record TurnGuard : Type 0 where
  pub retry_of_turn_id : String
  pub turn_id : String
  pub session_id : String
  pub attempt_id : String
  pub stage : StageId
  pub role : Role
  pub epoch : ℕ
  pub control_revision : ℕ
  pub change_proposal_id : ℤ
  pub expected_head_sha : String

pub record ChangeProposal : Type 0 where
  pub id : ℤ
  pub number : ℤ
  pub head_sha : String
  pub is_open : Bool
  pub ready_for_sha : String

unfoldable pub proposal_eq : ChangeProposal → ChangeProposal → Bool
proposal_eq a b =
    int_eq a.id b.id
    && int_eq a.number b.number
    && text_eq a.head_sha b.head_sha
    && bool_eq a.is_open b.is_open
    && text_eq a.ready_for_sha b.ready_for_sha

pub record ReviewIdentity : Type 0 where
  pub id : ℤ
  pub node_id : String
  pub change_proposal_id : ℤ
  pub actor_id : ℤ
  pub head_sha : String

unfoldable pub review_eq : ReviewIdentity → ReviewIdentity → Bool
review_eq a b =
    int_eq a.id b.id
    && text_eq a.node_id b.node_id
    && int_eq a.change_proposal_id b.change_proposal_id
    && int_eq a.actor_id b.actor_id
    && text_eq a.head_sha b.head_sha

pub record Assignments : Type 0 where
  pub status : AssignmentStatus
  pub runtime_state : RuntimeState
  pub retained_until : Time
  pub retention_token : String

pub record Closure : Type 0 where
  pub id : String
  pub retain_until : Time
  pub retention_token : String
  pub reopen_requested : Bool

pub record Snapshot : Type 0 where
  pub planning_only : Bool
  pub clarification_waiting : Bool
  pub state : State
  pub revision : ℕ
  pub work_item : WorkItem
  pub current_attempt : Option WorkflowAttempt
  pub change_proposal : Option ChangeProposal
  pub active_turn : Option ActiveTurn
  pub continuation_stage : StageId
  pub resume_role : Role
  pub assignments : Assignments
  pub closure : Option Closure
  pub last_attempt_number : ℕ

-- `Snapshot{State: StateAbsent}`.
abbrev pub absent_snapshot : Snapshot
absent_snapshot = record {
  planning_only = false;
  clarification_waiting = false;
  state = State.absent;
  revision = 0;
  work_item = zero_work_item;
  current_attempt = none;
  change_proposal = none;
  active_turn = none;
  continuation_stage = "";
  resume_role = "";
  assignments = record {
    status = AssignmentStatus.unset;
    runtime_state = RuntimeState.unset;
    retained_until = zero_time;
    retention_token = "";
  };
  closure = none;
  last_attempt_number = 0;
}
