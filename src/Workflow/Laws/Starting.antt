-- ===== src/Workflow/Laws/Starting.antt =====
-- What a trigger starts.
use omnigrex.Workflow.Laws.TriggerLaws.{is_wrong_attempt_lem}
use omnigrex.Prelude.{
  either, ◌&&◌, ◌≡◌, refl, Bool, true, false, some, none, List, [], Option-cases, inl, inr,
  Holds-done, done, arith, not, ◌||◌, is_some, inc_64, is_nil, is_some,
}
use omnigrex.Workflow.Laws.Fencing.{stale_lem}
use omnigrex.Workflow.Validation.Parts.{is_working, legal_in_state}
use omnigrex.Workflow.Laws.AppliedCases.{applied_cases}
use omnigrex.Workflow.Reducer.Basics.{Reducer, stage_or_zero, illegal_in_state}
use omnigrex.Workflow.Model.Actions.{Action, Decision}
use omnigrex.Workflow.Reducer.Step.{dispatch, is_applied, reduce}
use omnigrex.Workflow.Model.Events.{Event, TriggerEvent}
use omnigrex.Workflow.Laws.Lawful.{revised_decision}
use omnigrex.Workflow.Model.Snapshots.{Snapshot, WorkflowAttempt}
use omnigrex.Workflow.Definition.Stages.{
  StageDefinition, StageEntry, initial_entry, stage_of, accepts_purpose,
}
use omnigrex.Workflow.Reducer.Triggering.{
  enter_attempt, is_wrong_attempt, new_attempt, start_attempt, trigger_current, trigger_entry,
  trigger_snapshot, reduce_trigger,
}
use omnigrex.Workflow.Model.Vocabulary.{EventKind, State, state_eq}
use omnigrex.Workflow.Laws.Beginning.{Begun, trigger_actions-Begun}

-- What a trigger that starts an Attempt leaves.
pub record Started (r : Reducer) (s : Snapshot) (e : TriggerEvent) (next : Snapshot)
    (actions : List Action) : Type 0 where
  pub attempt : WorkflowAttempt
  pub current : next.current_attempt ≡ some attempt
  pub named : attempt.id ≡ e.attempt_id
  pub numbered : attempt.number ≡ inc_64 s.last_attempt_number
  pub unused : attempt.review_usage ≡ []
  pub fresh : attempt.infrastructure_retry_budget.used ≡ 0
  pub limited : attempt.infrastructure_retry_budget.limit ≡ r.retry_limit
  pub idle : next.active_turn ≡ none
  pub stage : StageDefinition
  pub staged : stage ≡ stage_or_zero (stage_of r.definition attempt.current_stage)
  pub begun : Begun s e stage actions

module _ (r : Reducer) (s : Snapshot) (e : TriggerEvent)
    (numbered : e.attempt_number ≡ inc_64 s.last_attempt_number) where
  abbrev Starts : Decision → Type 0
  Starts d = is_applied d.disposition ≡ true → Started r s e d.snapshot d.actions

  start_attempt-Starts :
      (entry : StageEntry) (stage : StageDefinition)
      → stage ≡ stage_or_zero (stage_of r.definition entry.stage)
      → Starts (start_attempt r s e entry stage)
  unfolding start_attempt trigger_snapshot new_attempt
  start_attempt-Starts entry stage staged a = record {
    attempt = new_attempt r e entry.stage;
    current = refl;
    named = refl;
    numbered = numbered;
    unused = refl;
    fresh = refl;
    limited = refl;
    idle = refl;
    stage = stage;
    staged = staged;
    begun = trigger_actions-Begun r s e entry.stage stage entry.purpose;
  }

  enter_attempt-Starts : (entry : StageEntry) → Starts (enter_attempt r s e entry)
  unfolding enter_attempt
  enter_attempt-Starts entry = elim (Option-cases (stage_of r.definition entry.stage)) [
    | inl q ↦ rw (q, enter_attempt) (ground arith)
    | inr (stage, q) ↦
        let initial = initial_entry r.definition in
        let first = stage_or_zero (stage_of r.definition initial.stage) in
        rw (q, enter_attempt)
          (either Starts (not (accepts_purpose r.definition entry.stage entry.purpose))
            (λ _. ground arith)
            (λ _.
              either Starts (state_eq stage.state State.reviewing && is_nil s.change_proposal)
                (λ _. start_attempt-Starts initial first refl)
                (λ _. start_attempt-Starts entry stage (rw q refl))))
  ]

module _ (r : Reducer) (s : Snapshot) (e : TriggerEvent) (unplanned : e.planning_completed ≡ false)
    (allowed : e.prior_terminal_control_blocked ≡ false) where
  -- The Decision is refused, or that of entering an Attempt of the right number.
  trigger_current_cases :
      (P : Decision → Type 0)
      → ((d : Decision) → is_applied d.disposition ≡ false → P d)
      → (is_wrong_attempt s e ≡ false → P (enter_attempt r s e (trigger_entry r s e)))
      → P (trigger_current r s e)
  unfolding trigger_current
  trigger_current_cases P refused on =
      either P (is_working s.state)
        (λ _. either P (is_some s.active_turn) (λ _. refused _ refl) (λ _. refused _ refl))
        (λ _.
          either P (not (legal_in_state s.state EventKind.trigger)) (λ _. refused _ refl)
            (λ _.
              either P
                (s.planning_only && state_eq s.state State.needs_human && e.planning_completed)
                (λ x. absurd (planned x))
                (λ _.
                  either P (e.prior_terminal_control_blocked && state_eq s.state State.needs_human)
                    (λ x. absurd (blocked x))
                    (λ _. either P (is_wrong_attempt s e) (λ _. refused _ refl) on))))
    where
      planned :
          (s.planning_only && state_eq s.state State.needs_human && e.planning_completed) ≡ true → ⊥
      planned x = ground arith

      blocked : (e.prior_terminal_control_blocked && state_eq s.state State.needs_human) ≡ true → ⊥
      blocked x = ground arith

  reduce_trigger-Starts :
      is_applied (reduce_trigger r s e).disposition ≡ true
      → Started r s e (reduce_trigger r s e).snapshot (reduce_trigger r s e).actions
  unfolding reduce_trigger
  reduce_trigger-Starts =
      let P : Decision → Type 0 =
        λ d. is_applied d.disposition ≡ true → Started r s e d.snapshot d.actions in
      let refused : (d : Decision) → is_applied d.disposition ≡ false → P d =
        λ d x y. absurd (not_both (is_applied d.disposition) x y) in
      either P
        (e.planning_only && not (state_eq s.state State.absent)
          || s.planning_only && not (state_eq s.state State.needs_human))
        (λ _. refused (illegal_in_state s) refl)
        (λ _.
          revised_decision P s e.metadata (trigger_current r s e)
            (λ d h. refused d (stale_lem s e.metadata h))
            (λ _. trigger_current_cases P refused (λ w.
              enter_attempt-Starts r s e (is_wrong_attempt_lem r s e w) (trigger_entry r s e))))
    where
      not_both : (b : Bool) → b ≡ false → b ≡ true → ⊥
      not_both b x y = ground arith

-- A trigger that is applied, with no completed planning to project and no blocked control, starts
-- the Attempt that it names: with the next number, no Review Cycle and no retry used, the
-- Reducer's limit of retries, and no active Turn. Either the trigger names a prior terminal Turn that
-- fits, that of the Attempt's Stage and its Role, which a human was asked to take over with, for the
-- present head, from a generation that was not collected: then the revalidation of its intent is
-- scheduled and no Turn; or there is none that fits, and one Turn of the Stage is scheduled.
pub trigger-Started :
    (r : Reducer) (s : Snapshot) (e : TriggerEvent) {d : Decision}
    → reduce r s (Event.trigger e) ≡ done d
    → is_applied d.disposition ≡ true
    → e.planning_completed ≡ false
    → e.prior_terminal_control_blocked ≡ false
    → Started r s e d.snapshot d.actions
unfolding dispatch
trigger-Started r s e q a unplanned allowed =
    applied_cases (Started r s e) r s (Event.trigger e) q a (λ m kind d' p eq a'.
      Holds-done (λ d. is_applied d.disposition ≡ true → Started r s e d.snapshot d.actions)
        (done (reduce_trigger r s e)) eq (reduce_trigger-Starts r s e unplanned allowed) a')
