-- ===== src/Workflow/Reducer/Compatibility.antt =====
-- DefinitionCompatible, DefinitionIncompatible and CorroborationDefinitionIncompatible of
-- internal/workflow/reducer.go: durable state that the deployed Definition does not know.
use omnigrex.Prelude.{
  Bool, true, false, not, List, [], ◌∷◌, ◌++◌, Option, none, some, is_some, ◌&&◌, ◌||◌, all,
  if◌then◌else◌, text_eq, is_empty, contains,
}
use omnigrex.Workflow.Model.Vocabulary.{State, Role, Reason, Disposition, state_eq}
use omnigrex.Workflow.Model.Snapshots.{Snapshot, WorkflowAttempt, ActiveTurn}
use omnigrex.Workflow.Model.Actions.{Action, Decision}
use omnigrex.Workflow.Definition.Stages.{stage_of, roles_of}
use omnigrex.Workflow.Validation.Parts.{is_working}
use omnigrex.Workflow.Validation.SnapshotCheck.{valid_usage}
use omnigrex.Workflow.Reducer.Basics.{Reducer, unchanged, applied, guard_from_turn, handed_over}
use omnigrex.Workflow.Reducer.Failures.{hand_off_actions}
use omnigrex.Workflow.Reducer.Step.{is_applied}

unfoldable pub attempt_compatible : Reducer → State → WorkflowAttempt → Bool
unfolding valid_usage
attempt_compatible r state attempt = elim (stage_of r.definition attempt.current_stage) [
  | none ↦ false
  | some stage ↦
      not (is_working state && not (state_eq stage.state state))
      && all (valid_usage r.definition) attempt.review_usage
]

unfoldable pub turn_compatible : Reducer → ActiveTurn → Bool
turn_compatible r turn = elim (stage_of r.definition turn.stage) [
  | none ↦ false
  | some stage ↦ text_eq stage.role turn.role
]

abbrev optionally {ℓ} : {A : Type ℓ} → (A → Bool) → Option A → Bool
optionally p none = true
optionally p (some a) = p a

unfoldable pub definition_compatible : Reducer → Snapshot → Bool
unfolding attempt_compatible turn_compatible
definition_compatible r s =
    state_eq s.state State.absent
    || optionally (attempt_compatible r s.state) s.current_attempt
      && (is_empty s.continuation_stage || is_some (stage_of r.definition s.continuation_stage))
      && optionally (turn_compatible r) s.active_turn
      && (is_empty s.resume_role || contains (roles_of r.definition) s.resume_role)

abbrev interrupting : Option ActiveTurn → List Action
interrupting none = []
interrupting (some turn) =
    Action.close_mutation_admission (guard_from_turn turn)
    ∷ Action.interrupt_turn_for_human_handoff (guard_from_turn turn)
    ∷ []

abbrev turn_role : Snapshot → Role
turn_role s = elim s.active_turn [ none ↦ s.resume_role | some turn ↦ turn.role ]

unfoldable pub definition_incompatible : Snapshot → Decision
definition_incompatible s =
    if state_eq s.state State.needs_human
    then unchanged s Disposition.duplicate Reason.workflow_definition_incompatible
    else applied (record (handed_over s (turn_role s)) { active_turn = none })
        Reason.workflow_definition_incompatible
        (interrupting s.active_turn
          ++ hand_off_actions Reason.workflow_definition_incompatible
              "Durable Workflow state is incompatible with the deployed Workflow Definition")

-- The actions that aim at an execution authority.
unfoldable pub targets_execution : Action → Bool
targets_execution (Action.close_mutation_admission turn) = true
targets_execution (Action.interrupt_turn_for_human_handoff turn) = true
targets_execution _ = false

unfoldable pub without_execution : List Action → List Action
without_execution [] = []
without_execution (a ∷ as') =
    if targets_execution a then without_execution as' else a ∷ without_execution as'

unfoldable pub corroboration_definition_incompatible : Snapshot → Decision
unfolding definition_incompatible without_execution targets_execution
corroboration_definition_incompatible s =
    let decision = definition_incompatible s in
    if not (is_applied decision.disposition)
    then decision
    else record decision { actions = without_execution decision.actions }
