-- ===== src/Workflow/Laws/Beginning.antt =====
-- How the work of an Attempt begins: with a Turn, or with the intent of a prior one.
use omnigrex.Prelude.{
  String, concat_map, append_nil, text_eq_self, is_empty, ◌⊎◌, ◌∷◌, Bool-cases, if◌then◌else◌, ◌≡◌,
  refl, true, false, List, [], Option-cases, inl, inr, arith, text_eq_iff,
}
use omnigrex.Workflow.Reducer.Basics.{Reducer, head_of}
use omnigrex.Workflow.Model.Actions.{Action, EnqueueTurnAction}
use omnigrex.Workflow.Model.Events.{TriggerEvent}
use omnigrex.Workflow.Model.Snapshots.{Snapshot, WorkflowAttempt}
use omnigrex.Workflow.Definition.Stages.{StageDefinition}
use omnigrex.Workflow.Reducer.Triggering.{
  trigger_actions, revalidates, defer_labels, assignment_mode,
}
use omnigrex.Workflow.Model.Vocabulary.{
  State, StageId, TurnPurpose, AssignmentGeneration, AttemptCompletionReason, state_eq,
  state_eq_iff, is_collected,
}

-- The Turns and the revalidations that actions ask for.
abbrev pub enqueued : Action → List EnqueueTurnAction
enqueued (Action.enqueue_turn t) = t ∷ []
enqueued _ = []

abbrev pub revalidated : Action → List String
revalidated (Action.enqueue_terminal_revalidation source) = source ∷ []
revalidated _ = []

-- A prior Turn whose terminal intent the new Attempt takes up.
pub record Resumes (s : Snapshot) (e : TriggerEvent) (stage : StageDefinition) : Type 0 where
  pub named : is_empty e.prior_terminal_turn_id ≡ false
  pub waiting : s.state ≡ State.needs_human
  pub stage_fits : e.prior_terminal_stage ≡ stage.id
  pub role_fits : e.prior_terminal_role ≡ stage.role
  pub role_waits : s.resume_role ≡ stage.role
  pub kept : is_collected s.assignments.runtime_state ≡ false
  pub head_fits : e.prior_terminal_expected_head_sha ≡ head_of s.change_proposal

-- How the work of an Attempt begins.
abbrev pub Begun : Snapshot → TriggerEvent → StageDefinition → List Action → Type 0
Begun s e stage actions =
    (Resumes s e stage
      × (concat_map enqueued actions ≡ [])
      × (concat_map revalidated actions ≡ e.prior_terminal_turn_id ∷ []))
    ⊎ ((¬ (Resumes s e stage))
        × ((turn : EnqueueTurnAction) × (concat_map enqueued actions ≡ turn ∷ [])
            × (turn.stage ≡ stage.id)
            × (turn.role ≡ stage.role))
        × (concat_map revalidated actions ≡ []))

module _ (s : Snapshot) (e : TriggerEvent) (stage : StageDefinition) where
  revalidates-Resumes : revalidates s e stage ≡ true → Resumes s e stage
  unfolding revalidates assignment_mode
  revalidates-Resumes h = record {
    named = ground arith;
    waiting = ground (arith, state_eq_iff s.state State.needs_human);
    stage_fits = ground (arith, text_eq_iff e.prior_terminal_stage stage.id);
    role_fits = ground (arith, text_eq_iff e.prior_terminal_role stage.role);
    role_waits = ground (arith, text_eq_iff s.resume_role stage.role);
    kept = ground arith;
    head_fits =
        ground (arith, text_eq_iff e.prior_terminal_expected_head_sha (head_of s.change_proposal));
  }

  Resumes-revalidates : Resumes s e stage → revalidates s e stage ≡ true
  unfolding revalidates assignment_mode state_eq
  Resumes-revalidates h =
      rw
        (
          h.named,
          h.waiting,
          h.stage_fits,
          h.role_fits,
          h.role_waits,
          h.kept,
          h.head_fits,
          text_eq_self stage.id,
          text_eq_self stage.role,
          text_eq_self (head_of s.change_proposal),
        )
        (ground arith)

  abbrev begin : TurnPurpose → Action
  begin purpose =
      if revalidates s e stage
      then Action.enqueue_terminal_revalidation e.prior_terminal_turn_id
      else Action.enqueue_turn (record {
        stage = stage.id;
        role = stage.role;
        purpose = purpose;
        expected_head_sha = head_of s.change_proposal;
        retry_of_turn_id = "";
      })

-- Nothing of it comes before the last action.
module _ {B : Type 0} (f : Action → List B) (r : Reducer) (s : Snapshot) (e : TriggerEvent)
    (stage : StageDefinition) (id : StageId) (purpose : TurnPurpose)
    (complete : (i : String) (c : AttemptCompletionReason) → f (Action.complete_attempt i c) ≡ [])
    (ensure : (g : AssignmentGeneration) → f (Action.ensure_assignments g) ≡ [])
    (create : (a : WorkflowAttempt) → f (Action.create_attempt a) ≡ [])
    (consume : f Action.consume_run_label ≡ [])
    (labels : (state : State) (head : String) → f (Action.reconcile_labels state head) ≡ []) where
  trigger_actions_last :
      concat_map f (trigger_actions r s e id stage purpose) ≡ f (begin s e stage purpose)
  unfolding trigger_actions
  trigger_actions_last = elim (Option-cases s.current_attempt) [
    | inl q ↦ elim (Bool-cases (defer_labels s)) [
      | inl d ↦ rw (q, d, ensure, create) (append_nil _)
      | inr d ↦ rw (q, d, ensure, create, consume, labels) (append_nil _)
    ]
    | inr (a, q) ↦ elim (Bool-cases (defer_labels s)) [
      | inl d ↦ rw (q, d, complete, ensure, create) (append_nil _)
      | inr d ↦ rw (q, d, complete, ensure, create, consume, labels) (append_nil _)
    ]
  ]

pub trigger_actions-Begun :
    (r : Reducer) (s : Snapshot) (e : TriggerEvent) (id : StageId) (stage : StageDefinition)
    (purpose : TurnPurpose)
    → Begun s e stage (trigger_actions r s e id stage purpose)
trigger_actions-Begun r s e id stage purpose =
    let turns =
      trigger_actions_last enqueued r s e stage id purpose (λ i c. refl) (λ g. refl) (λ a. refl)
        refl (λ state head. refl) in
    let sources =
      trigger_actions_last revalidated r s e stage id purpose (λ i c. refl) (λ g. refl) (λ a. refl)
        refl (λ state head. refl) in
    elim (Bool-cases (revalidates s e stage)) [
      | inl k ↦ inl (revalidates-Resumes s e stage k, rw k at turns, rw k at sources)
      | inr k ↦ inr (
        λ h. absurd (let z = rw (Resumes-revalidates s e stage h) at k in ground arith),
        (_, rw k at turns, refl, refl),
        rw k at sources,
      )
    ]
