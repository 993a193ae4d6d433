-- ===== src/Workflow/Laws/TriggerLaws.antt =====
-- The handler of a trigger is lawful.
use omnigrex.Prelude.{◌≡◌, refl, inc_64, arith, false, true, Option-cases, inl, inr}
use omnigrex.Workflow.Model.Snapshots.{Snapshot}
use omnigrex.Workflow.Model.Vocabulary.{StageId, TurnPurpose, State, state_eq, state_eq_iff}
use omnigrex.Workflow.Model.Events.{TriggerEvent}
use omnigrex.Workflow.Definition.Stages.{StageEntry, StageDefinition, stage_of, initial_entry}
use omnigrex.Workflow.Reducer.Basics.{Reducer, stage_or_zero}
use omnigrex.Workflow.Reducer.Triggering.{
  reduce_trigger, trigger_current, completed_planning, control_blocked, enter_attempt,
  start_attempt, trigger_actions, trigger_snapshot, is_wrong_attempt, trigger_entry,
}
use omnigrex.Workflow.Laws.Lawful.{
  IsLawful, revised_decision-IsLawful, scheduled_work, hands_off, unchanged-IsLawful,
}

module _ (r : Reducer) (s : Snapshot) (e : TriggerEvent) where
  -- Exactly one Turn or revalidation begins an Attempt.
  pub trigger_actions_lem :
      (id : StageId) (stage : StageDefinition) (purpose : TurnPurpose)
      → (scheduled_work (trigger_actions r s e id stage purpose) ≡ 1)
        × (hands_off (trigger_actions r s e id stage purpose) ≡ false)
  unfolding trigger_actions
  trigger_actions_lem id stage purpose = ground arith

  start_attempt-IsLawful :
      (entry : StageEntry) (stage : StageDefinition)
      → e.metadata.expected_revision ≡ s.revision
      → e.attempt_number ≡ inc_64 s.last_attempt_number
      → IsLawful s e.metadata (start_attempt r s e entry stage)
  unfolding start_attempt trigger_snapshot
  start_attempt-IsLawful entry stage h n =
      ground (arith, trigger_actions_lem entry.stage stage entry.purpose)

  pub is_wrong_attempt_lem :
      is_wrong_attempt s e ≡ false → e.attempt_number ≡ inc_64 s.last_attempt_number
  unfolding is_wrong_attempt
  is_wrong_attempt_lem h = ground arith

  enter_attempt-IsLawful :
      (entry : StageEntry)
      → e.metadata.expected_revision ≡ s.revision
      → e.attempt_number ≡ inc_64 s.last_attempt_number
      → IsLawful s e.metadata (enter_attempt r s e entry)
  unfolding enter_attempt
  enter_attempt-IsLawful entry h n = elim (Option-cases (stage_of r.definition entry.stage)) [
    | inl q ↦ rw (q, enter_attempt) (unchanged-IsLawful s e.metadata _ _ refl)
    | inr (stage, q) ↦
        let initial = initial_entry r.definition in
        let first = stage_or_zero (stage_of r.definition initial.stage) in
        rw (q, enter_attempt)
          (ground (
            arith,
            start_attempt-IsLawful entry stage h n,
            start_attempt-IsLawful initial first h n,
          ))
  ]

  completed_planning-IsLawful :
      e.metadata.expected_revision ≡ s.revision → IsLawful s e.metadata (completed_planning s)
  unfolding completed_planning
  completed_planning-IsLawful h = ground arith

  control_blocked-IsLawful :
      state_eq s.state State.needs_human ≡ true
      → e.metadata.expected_revision ≡ s.revision
      → IsLawful s e.metadata (control_blocked s)
  unfolding control_blocked
  control_blocked-IsLawful q h = ground (arith, state_eq_iff s.state State.needs_human)

  trigger_current-IsLawful :
      e.metadata.expected_revision ≡ s.revision → IsLawful s e.metadata (trigger_current r s e)
  unfolding trigger_current
  trigger_current-IsLawful h = ground (
    arith,
    completed_planning-IsLawful,
    control_blocked-IsLawful,
    is_wrong_attempt_lem,
    enter_attempt-IsLawful (trigger_entry r s e),
  )

  pub reduce_trigger-IsLawful : IsLawful s e.metadata (reduce_trigger r s e)
  unfolding reduce_trigger
  reduce_trigger-IsLawful = ground (
    arith,
    revised_decision-IsLawful s e.metadata (trigger_current r s e) trigger_current-IsLawful,
  )
