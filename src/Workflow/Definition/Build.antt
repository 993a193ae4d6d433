-- ===== src/Workflow/Definition/Build.antt =====
-- NewDefinition of internal/workflow/definition.go: the checks in the source's order. Each error is
-- ErrInvalidDefinition there; the constructor tells which check it came from. Texts are read as
-- Unicode, so utf8.ValidString holds of each.
use omnigrex.Prelude.{
  bool_eq, ℕ, String, Bool, true, false, not, List, [], ◌∷◌, ◌++◌, Option, none, some, is_nil, ◌&&◌,
  ◌||◌, ◌==◌, any, codes, is_empty,
}
use omnigrex.Workflow.Model.Vocabulary.{
  State, Role, StageId, TurnPurpose, TurnOutcome, state_eq, purpose_eq, outcome_eq,
}
use omnigrex.Workflow.Definition.Ids.{valid_stage_id}
use omnigrex.Workflow.Definition.Stages.{
  StageEntry, OutcomeTransition, StageDefinition, Definition, find_stage, contains_purpose,
}

pub data DefinitionError : Type 0 where
  invalid_initial_configuration initial_entry_not_accepted : DefinitionError
  invalid_stage duplicate_stage invalid_purpose duplicate_purpose invalid_stage_instructions :
      StageId → DefinitionError
  invalid_purpose_instructions omits_operational_purpose invalid_outcome duplicate_outcome :
      StageId → DefinitionError
  invalid_transition requires_successor requires_terminal invalid_successor invalid_continuation :
      StageId → DefinitionError

pub data Checked {ℓ} (A : Type ℓ) : Type ℓ where
  ok : A → Checked A
  err : DefinitionError → Checked A

infixl 5 ◌>>=◌ ◌>>◌
abbrev pub ◌>>=◌ {ℓ κ} : {A : Type ℓ} {B : Type κ} → Checked A → (A → Checked B) → Checked B
ok a >>= f = f a
err e >>= f = err e

abbrev pub ◌>>◌ {ℓ} : {B : Type ℓ} → Checked (Unit {0}) → Checked B → Checked B
m >> k = m >>= λ _. k

-- `if bad { return err }`.
abbrev pub refuse_if : Bool → DefinitionError → Checked (Unit {0})
refuse_if true e = err e
refuse_if false e = ok tt

unfoldable pub valid_turn_purpose : TurnPurpose → Bool
valid_turn_purpose TurnPurpose.unset = false
valid_turn_purpose _ = true

unfoldable pub valid_definition_outcome : TurnOutcome → Bool
valid_definition_outcome TurnOutcome.planning_ready = true
valid_definition_outcome TurnOutcome.change_proposal_ready = true
valid_definition_outcome TurnOutcome.changes_requested = true
valid_definition_outcome TurnOutcome.approved = true
valid_definition_outcome _ = false

-- The loop over AcceptedPurposes: the set of those seen.
unfoldable pub check_purposes : StageId → List TurnPurpose → List TurnPurpose → Checked (Unit {0})
unfolding valid_turn_purpose contains_purpose
check_purposes id seen [] = ok tt
check_purposes id seen (purpose ∷ rest) =
    refuse_if (not (valid_turn_purpose purpose)) (invalid_purpose id)
    >> refuse_if (contains_purpose seen purpose) (duplicate_purpose id)
    >> check_purposes id (purpose ∷ seen) rest

-- `strings.ContainsRune(text, '\x00')`.
unfoldable pub has_nul : String → Bool
has_nul text = any (λ c. c == 0) (codes text)

unfoldable pub check_instructions :
    StageId → List TurnPurpose → List (TurnPurpose × String) → Checked (Unit {0})
unfolding has_nul contains_purpose
check_instructions id accepted [] = ok tt
check_instructions id accepted ((purpose, text) ∷ rest) =
    refuse_if (not (contains_purpose accepted purpose) || has_nul text)
      (invalid_purpose_instructions id)
    >> check_instructions id accepted rest

-- `successor` and `terminal` of the loop over Transitions.
unfoldable pub is_successor : OutcomeTransition → Bool
is_successor t = not (is_empty t.next_stage) || not (purpose_eq t.next_purpose TurnPurpose.unset)

unfoldable pub is_terminal : OutcomeTransition → Bool
is_terminal t = not (state_eq t.terminal_state State.unset) || not (is_empty t.continuation_stage)

unfoldable pub invalid_shape : ℕ → OutcomeTransition → Bool
unfolding is_successor is_terminal valid_turn_purpose
invalid_shape review_limit t =
    bool_eq (is_successor t) (is_terminal t)
    || is_successor t
      && (not (valid_stage_id t.next_stage) || not (valid_turn_purpose t.next_purpose))
    || is_terminal t
      && (not (state_eq t.terminal_state State.plan_ready)
            && not (state_eq t.terminal_state State.pr_ready)
          || not (valid_stage_id t.continuation_stage))
    || t.consumes_review_cycle && review_limit == 0

-- The switch over the outcome.
unfoldable pub check_direction : StageId → OutcomeTransition → TurnOutcome → Checked (Unit {0})
unfolding is_successor is_terminal
check_direction id t TurnOutcome.change_proposal_ready =
    refuse_if (not (is_successor t)) (requires_successor id)
check_direction id t TurnOutcome.changes_requested =
    refuse_if (not (is_successor t)) (requires_successor id)
check_direction id t TurnOutcome.planning_ready =
    refuse_if (not (is_terminal t)) (requires_terminal id)
check_direction id t TurnOutcome.approved = refuse_if (not (is_terminal t)) (requires_terminal id)
check_direction id t _ = ok tt

unfoldable pub contains_outcome : List TurnOutcome → TurnOutcome → Bool
contains_outcome [] outcome = false
contains_outcome (o ∷ os) outcome = outcome_eq o outcome || contains_outcome os outcome

unfoldable pub check_transitions :
    StageId → ℕ → List TurnOutcome → List OutcomeTransition → Checked (Unit {0})
unfolding valid_definition_outcome contains_outcome invalid_shape check_direction
check_transitions id review_limit seen [] = ok tt
check_transitions id review_limit seen (t ∷ ts) =
    refuse_if (not (valid_definition_outcome t.outcome)) (invalid_outcome id)
    >> refuse_if (contains_outcome seen t.outcome) (duplicate_outcome id)
    >> refuse_if (invalid_shape review_limit t) (invalid_transition id)
    >> check_direction id t t.outcome
    >> check_transitions id review_limit (t.outcome ∷ seen) ts

unfoldable pub is_stage_state : State → Bool
is_stage_state State.planning = true
is_stage_state State.developing = true
is_stage_state State.reviewing = true
is_stage_state _ = false

unfoldable pub omits_purpose : StageDefinition → Bool
unfolding contains_purpose
omits_purpose stage =
    not (contains_purpose stage.accepted_purposes TurnPurpose.retry)
    || not (contains_purpose stage.accepted_purposes TurnPurpose.reactivation)
    || state_eq stage.state State.reviewing
      && not (contains_purpose stage.accepted_purposes TurnPurpose.synchronization)

abbrev pub is_nonempty {ℓ} : {A : Type ℓ} → List A → Bool
is_nonempty [] = false
is_nonempty (_ ∷ _) = true

-- The body of the loop over stages, up to the insertion.
unfoldable pub check_stage : (Role → Bool) → Definition → StageDefinition → Checked (Unit {0})
unfolding is_stage_state find_stage check_purposes check_instructions omits_purpose
    check_transitions has_nul
check_stage known definition stage =
    refuse_if
      (not (valid_stage_id stage.id)
        || not (known stage.role)
        || not (is_stage_state stage.state)
        || not (is_nonempty stage.accepted_purposes)
        || not (is_nonempty stage.transitions))
      (invalid_stage stage.id)
    >> refuse_if (not (is_nil (find_stage stage.id definition.stages))) (duplicate_stage stage.id)
    >> check_purposes stage.id [] stage.accepted_purposes
    >> refuse_if (has_nul stage.instructions) (invalid_stage_instructions stage.id)
    >> check_instructions stage.id stage.accepted_purposes stage.purpose_instructions
    >> refuse_if (omits_purpose stage) (omits_operational_purpose stage.id)
    >> check_transitions stage.id stage.review_limit [] stage.transitions

unfoldable pub insert_stage : Definition → StageDefinition → Definition
insert_stage definition stage = record definition {
  ordered = definition.ordered ++ stage.id ∷ [];
  stages = definition.stages ++ (stage.id, stage) ∷ [];
}

unfoldable pub add_stages : (Role → Bool) → Definition → List StageDefinition → Checked Definition
unfolding check_stage insert_stage
add_stages known definition [] = ok definition
add_stages known definition (stage ∷ rest) =
    check_stage known definition stage >> add_stages known (insert_stage definition stage) rest

-- The checks of one transition against the whole Definition.
unfoldable pub check_target : Definition → StageId → OutcomeTransition → Checked (Unit {0})
unfolding find_stage contains_purpose
check_target definition id t =
    refuse_if
      (not (is_empty t.next_stage) && elim (find_stage t.next_stage definition.stages) [
        | none ↦ true
        | some target ↦ not (contains_purpose target.accepted_purposes t.next_purpose)
      ])
      (invalid_successor id)
    >> refuse_if
        (not (is_empty t.continuation_stage)
          && is_nil (find_stage t.continuation_stage definition.stages))
        (invalid_continuation id)

unfoldable pub check_targets : Definition → StageId → List OutcomeTransition → Checked (Unit {0})
unfolding check_target
check_targets definition id [] = ok tt
check_targets definition id (t ∷ ts) =
    check_target definition id t >> check_targets definition id ts

unfoldable pub check_relations : Definition → List (StageId × StageDefinition) → Checked (Unit {0})
unfolding check_targets
check_relations definition [] = ok tt
check_relations definition ((_, stage) ∷ rest) =
    check_targets definition stage.id stage.transitions >> check_relations definition rest

unfoldable pub initial_refused : Definition → Bool
unfolding find_stage contains_purpose
initial_refused definition = elim (find_stage definition.initial.stage definition.stages) [
  | none ↦ true
  | some stage ↦
      not (state_eq stage.state State.developing)
      || not (contains_purpose stage.accepted_purposes definition.initial.purpose)
]

-- A nil catalog is `none`.
unfoldable pub new_definition :
    Option (Role → Bool) → StageEntry → List StageDefinition → Checked Definition
unfolding valid_turn_purpose add_stages initial_refused check_relations
new_definition none initial stages = err invalid_initial_configuration
new_definition (some known) initial stages = do
  refuse_if
      (not (is_nonempty stages)
        || not (valid_stage_id initial.stage)
        || not (valid_turn_purpose initial.purpose))
      invalid_initial_configuration
  definition ← add_stages known (record { initial = initial; ordered = []; stages = [] }) stages
  refuse_if (initial_refused definition) initial_entry_not_accepted
  check_relations definition definition.stages
  ok definition
