-- ===== src/Workflow/Laws/CheckTotality.antt =====
-- The checks of a Snapshot with their reads of pointers, against the checks as plain tests.
use omnigrex.Prelude.{
  ◌≡◌, ℕ, Bool, true, false, ap, Option, none, some, is_some, is_nil, ◌&&◌, inl, inr, arith, refl,
  Bool-cases, Option-cases, Run, done, deref, ◌>>=◌, if◌then◌else◌, text_eq, ◌∙◌,
}
use omnigrex.Workflow.Model.Vocabulary.{State, state_eq}
use omnigrex.Workflow.Model.Snapshots.{Snapshot, WorkflowAttempt, ActiveTurn, ChangeProposal}
use omnigrex.Workflow.Model.Actions.{Decision}
use omnigrex.Workflow.Definition.Stages.{Definition, StageDefinition, stage_of}
use omnigrex.Workflow.Definition.Builtin.{stage_planning}
use omnigrex.Workflow.Validation.Parts.{valid_work_item, valid_state, valid_change_proposal}
use omnigrex.Workflow.Validation.AssignmentCheck.{valid_assignments}
use omnigrex.Workflow.Validation.SnapshotCheck.{
  requires_attempt, valid_attempt, valid_attempt_shape, valid_active_stage_state,
  valid_optional_active_turn, valid_state_shape, valid_present, valid_snapshot, valid_marks,
  ready_for_head, turn_in_stage, turn_on_proposal,
}
use omnigrex.Workflow.Validation.SnapshotRun.{
  both, turn_valid, check_active_stage_state, check_optional_active_turn, check_state_shape,
  check_present, check_snapshot,
}
use omnigrex.Workflow.Reducer.Basics.{Reducer, unchanged}
use omnigrex.Workflow.Reducer.Step.{guard_decision, normalize}
use omnigrex.Workflow.Model.Vocabulary.{Disposition, Reason}
use omnigrex.Workflow.Laws.Totality.{attempt_lem}

both_lem : (b : Bool) (m : Run Bool) (c : Bool) → (b ≡ true → m ≡ done c) → both b m ≡ done (b && c)
both_lem true m c h = h refl
both_lem false m c h = refl

deref_lem :
    {A B : Type 0} (o : Option A) (f : A → Run B) {a : A} → o ≡ some a → (deref o >>= f) ≡ f a
deref_lem o f e = rw e refl

turn_valid_lem :
    (o : Option StageDefinition) (a : WorkflowAttempt) (p : Option ChangeProposal)
    (turn : ActiveTurn)
    → turn_valid o a p turn
      ≡ elim o [ none ↦ false | some stage ↦ turn_in_stage a stage turn && turn_on_proposal p turn ]
turn_valid_lem none a p turn = refl
turn_valid_lem (some stage) a p turn = refl

module _ (d : Definition) (s : Snapshot) (a : WorkflowAttempt)
    (at_a : s.current_attempt ≡ some a) where
  check_optional_active_turn_lem :
      check_optional_active_turn d s ≡ done (valid_optional_active_turn d s a)
  unfolding check_optional_active_turn valid_optional_active_turn
  check_optional_active_turn_lem = elim (Option-cases s.active_turn) [
    | inl q ↦ rw (q, check_optional_active_turn, valid_optional_active_turn) refl
    | inr (turn, q) ↦
        rw (q, check_optional_active_turn, valid_optional_active_turn)
          (deref_lem s.current_attempt _ at_a
            ∙ ap done (turn_valid_lem (stage_of d a.current_stage) a s.change_proposal turn))
  ]

  -- The two checks of a working state, one after the other.
  working_lem :
      (check_active_stage_state d s >>= λ ok. both ok (check_optional_active_turn d s))
      ≡ done (valid_active_stage_state d s.state a && valid_optional_active_turn d s a)
  unfolding check_active_stage_state
  working_lem =
      ap (λ m. m >>= λ ok. both ok (check_optional_active_turn d s))
        (deref_lem s.current_attempt (λ x. done (valid_active_stage_state d s.state x)) at_a)
      ∙ both_lem (valid_active_stage_state d s.state a) _ _ (λ _. check_optional_active_turn_lem)

  -- In PR_READY the Change Proposal is read behind its test.
  ready_lem :
      (b : Bool)
      → both
          (b && valid_change_proposal s.change_proposal)
          (deref s.change_proposal >>= λ p. done (text_eq p.ready_for_sha p.head_sha))
        ≡ done ((b && valid_change_proposal s.change_proposal) && ready_for_head s.change_proposal)
  ready_lem b = elim (Option-cases s.change_proposal) [
    | inl q ↦ rw q (both_lem (b && false) _ _ (λ k. absurd (ground arith)))
    | inr (p, q) ↦ rw q (both_lem (b && valid_change_proposal (some p)) _ _ (λ k. refl))
  ]

  present_shape :
      (state : State)
      → s.state ≡ state
      → check_state_shape state d s ≡ done (valid_state_shape state d s)
  unfolding check_state_shape valid_state_shape valid_attempt_shape
  present_shape State.planning q =
      both_lem (is_nil s.closure) _ _ (λ _. working_lem)
      ∙ rw (at_a, q, valid_attempt_shape) (ground arith)
  present_shape State.developing q =
      both_lem (is_nil s.closure) _ _ (λ _. working_lem)
      ∙ rw (at_a, q, valid_attempt_shape) (ground arith)
  present_shape State.reviewing q =
      both_lem (is_nil s.closure && valid_change_proposal s.change_proposal) _ _ (λ _. working_lem)
      ∙ rw (at_a, q, valid_attempt_shape) (ground arith)
  present_shape State.plan_ready q =
      both_lem s.planning_only _
        (text_eq a.current_stage stage_planning
          && is_nil s.closure
          && is_nil s.active_turn
          && is_nil s.change_proposal)
        (λ _. deref_lem s.current_attempt _ at_a)
      ∙ rw (at_a, q, valid_attempt_shape) (ground arith)
  present_shape State.pr_ready q =
      rw (at_a, q, valid_attempt_shape)
        (ready_lem
            (is_some (stage_of d a.current_stage) && is_nil s.closure && is_nil s.active_turn)
          ∙ ground arith)
  present_shape State.needs_human q = rw (at_a, q, valid_attempt_shape) refl
  present_shape State.dormant q = refl
  present_shape State.closed q = refl
  present_shape State.closing q = refl
  present_shape State.absent q = rw (at_a, q, valid_attempt_shape) refl
  present_shape State.unset q = rw (at_a, q, valid_attempt_shape) refl

-- Without an Attempt, in a state that needs none.
missing_shape :
    (d : Definition) (s : Snapshot) (state : State)
    → s.current_attempt ≡ none
    → requires_attempt state ≡ false
    → check_state_shape state d s ≡ done (valid_state_shape state d s)
unfolding check_state_shape valid_state_shape requires_attempt
missing_shape d s State.dormant q h = refl
missing_shape d s State.closed q h = refl
missing_shape d s State.closing q h = refl
missing_shape d s State.absent q h = rw q refl
missing_shape d s State.unset q h = rw q refl
missing_shape d s State.planning q h = absurd (ground arith)
missing_shape d s State.plan_ready q h = absurd (ground arith)
missing_shape d s State.developing q h = absurd (ground arith)
missing_shape d s State.reviewing q h = absurd (ground arith)
missing_shape d s State.pr_ready q h = absurd (ground arith)
missing_shape d s State.needs_human q h = absurd (ground arith)

-- Where validAttempt holds, validStateShape reads no nil pointer.
check_state_shape_lem :
    (d : Definition) (retry_limit : ℕ) (s : Snapshot)
    → valid_attempt d retry_limit s ≡ true
    → check_state_shape s.state d s ≡ done (valid_state_shape s.state d s)
check_state_shape_lem d retry_limit s v = elim (Option-cases s.current_attempt) [
  | inr (a, q) ↦ present_shape d s a q s.state refl
  | inl q ↦ elim (Bool-cases (requires_attempt s.state)) [
    | inr k ↦ missing_shape d s s.state q k
    | inl k ↦ absurd (let z = rw q at (attempt_lem d retry_limit s v k) in ground arith)
  ]
]

check_present_lem :
    (d : Definition) (retry_limit : ℕ) (s : Snapshot)
    → check_present d retry_limit s ≡ done (valid_present d retry_limit s)
unfolding check_present valid_present
check_present_lem d retry_limit s =
    both_lem
      (valid_work_item s.work_item
        && valid_assignments s.state s.assignments s.current_attempt
        && valid_attempt d retry_limit s)
      _ (valid_state_shape s.state d s && valid_marks d s)
      (λ k.
        rw (check_state_shape_lem d retry_limit s (ground arith))
          (both_lem (valid_state_shape s.state d s) _ _ (λ _. refl)))
    ∙ ground arith

-- validSnapshot returns, and decides `valid_snapshot`.
pub check_snapshot_lem :
    (d : Definition) (retry_limit : ℕ) (s : Snapshot)
    → check_snapshot d retry_limit s ≡ done (valid_snapshot d retry_limit s)
unfolding check_snapshot valid_snapshot
check_snapshot_lem d retry_limit s = elim (Bool-cases (valid_state s.state)) [
  | inr k ↦ rw (k, check_snapshot, valid_snapshot) refl
  | inl k ↦ elim (Bool-cases (state_eq s.state State.absent)) [
    | inl e ↦ rw (k, e, check_snapshot, valid_snapshot) refl
    | inr e ↦ rw (k, e, check_snapshot, valid_snapshot) (check_present_lem d retry_limit s)
  ]
]

-- The Decision that the end of Reduce gives.
unfoldable pub guarded : Reducer → Snapshot → Decision → Decision
guarded r s d =
    if valid_snapshot r.definition r.retry_limit (normalize s d).snapshot
    then normalize s d
    else unchanged s Disposition.illegal Reason.invariant_violation

pub guard_decision_lem :
    (r : Reducer) (s : Snapshot) (d : Decision) → guard_decision r s d ≡ done (guarded r s d)
unfolding guard_decision guarded
guard_decision_lem r s d =
    rw (check_snapshot_lem r.definition r.retry_limit (normalize s d).snapshot) refl
