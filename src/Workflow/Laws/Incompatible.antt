-- ===== src/Workflow/Laws/Incompatible.antt =====
-- DefinitionIncompatible and CorroborationDefinitionIncompatible of internal/workflow/reducer.go:
-- how work stops when the deployed Definition does not know its durable state.
use omnigrex.Prelude.{
  ◌≡◌, refl, Bool, true, false, List, [], ◌∷◌, none, inc_64, arith, ap, Option-cases, Bool-cases,
  inl, inr, any,
}
use omnigrex.Workflow.Model.Actions.{Action, Decision}
use omnigrex.Workflow.Reducer.Compatibility.{
  corroboration_definition_incompatible, definition_incompatible, targets_execution,
  without_execution,
}
use omnigrex.Workflow.Laws.Lawful.{scheduled_work}
use omnigrex.Workflow.Model.Vocabulary.{State, state_eq, state_eq_iff, Disposition, Reason}
use omnigrex.Workflow.Model.Snapshots.{Snapshot}
use omnigrex.Workflow.Reducer.Basics.{unchanged}

-- The actions that need a Turn in execution.
abbrev pub aims_at_turn : Action → Bool
aims_at_turn (Action.stop_turn turn) = true
aims_at_turn (Action.interrupt_turn_for_human_handoff turn) = true
aims_at_turn (Action.close_mutation_admission turn) = true
aims_at_turn _ = false

-- What stopping an incompatible Workflow does to the Snapshot, and to the Turns.
pub record Stopped (s : Snapshot) (d : Decision) : Type 0 where
  pub waiting : d.snapshot.state ≡ State.needs_human
  pub attempt : d.snapshot.current_attempt ≡ s.current_attempt
  pub proposal : d.snapshot.change_proposal ≡ s.change_proposal
  pub idle : state_eq s.state State.needs_human ≡ false → d.snapshot.active_turn ≡ none
  pub counted : state_eq s.state State.needs_human ≡ false → d.snapshot.revision ≡ inc_64 s.revision
  pub silent : scheduled_work d.actions ≡ 0

definition_incompatible-turns :
    (s : Snapshot) → scheduled_work (definition_incompatible s).actions ≡ 0
unfolding definition_incompatible
definition_incompatible-turns s = elim (Option-cases s.active_turn) [
  | inl q ↦ rw (q, definition_incompatible) (ground arith)
  | inr (turn, q) ↦ rw (q, definition_incompatible) (ground arith)
]

without_execution-turns :
    (as' : List Action) → scheduled_work (without_execution as') ≡ scheduled_work as'
unfolding without_execution targets_execution
without_execution-turns [] = refl
without_execution-turns (a ∷ as') = ground (arith, without_execution-turns as')

definition_incompatible-Stopped : (s : Snapshot) → Stopped s (definition_incompatible s)
unfolding definition_incompatible
definition_incompatible-Stopped s =
    ground (arith, definition_incompatible-turns s, state_eq_iff s.state State.needs_human)

stopped_again :
    (s : Snapshot)
    → s.state ≡ State.needs_human
    → definition_incompatible s
      ≡ unchanged s Disposition.duplicate Reason.workflow_definition_incompatible
unfolding definition_incompatible
stopped_again s h = ground (arith, state_eq_iff s.state State.needs_human)

corroboration_definition_incompatible-Stopped :
    (s : Snapshot) → Stopped s (corroboration_definition_incompatible s)
unfolding corroboration_definition_incompatible
corroboration_definition_incompatible-Stopped s = ground (
  arith,
  definition_incompatible-Stopped s,
  without_execution-turns (definition_incompatible s).actions,
)

corroboration_definition_incompatible-targets :
    (s : Snapshot) → any aims_at_turn (corroboration_definition_incompatible s).actions ≡ false
unfolding corroboration_definition_incompatible definition_incompatible without_execution
    targets_execution
corroboration_definition_incompatible-targets s =
    elim (Bool-cases (state_eq s.state State.needs_human)) [
      | inl h ↦ rw (h, definition_incompatible) refl
      | inr h ↦ elim (Option-cases s.active_turn) [
        | inl q ↦ rw (h, q, definition_incompatible) refl
        | inr (turn, q) ↦ rw (h, q, definition_incompatible) refl
      ]
    ]

-- A Workflow whose Definition is incompatible, with an execution authority or without one and whether
-- its Snapshot is valid or not, waits for a human with its Attempt and its Change Proposal kept, a mark
-- of readiness included; unless it waited already, its Turn is released and its Revision counts up; no
-- Turn and no revalidation is scheduled; stopping it again changes nothing; and without an execution
-- authority no action stops, interrupts or fences a Turn.
pub incompatible-Stopped :
    (s : Snapshot)
    → Stopped s (definition_incompatible s)
      × Stopped s (corroboration_definition_incompatible s)
      × ((definition_incompatible (definition_incompatible s).snapshot).snapshot
          ≡ (definition_incompatible s).snapshot)
      × ((definition_incompatible (definition_incompatible s).snapshot).actions ≡ [])
      × (any aims_at_turn (corroboration_definition_incompatible s).actions ≡ false)
incompatible-Stopped s =
    let stopped = definition_incompatible-Stopped s in
    let again = stopped_again (definition_incompatible s).snapshot stopped.waiting in
    (
      stopped,
      corroboration_definition_incompatible-Stopped s,
      ap (λ (d : Decision). d.snapshot) again,
      ap (λ (d : Decision). d.actions) again,
      corroboration_definition_incompatible-targets s,
    )
