-- ===== src/Workflow/Definition/Stages.antt =====
-- The types of internal/workflow/definition.go, and the lookups of a Definition.
use omnigrex.Prelude.{
  ℕ, String, Bool, false, List, [], ◌∷◌, ◌++◌, map, Option, none, some, ◌&&◌, ◌||◌, ltb, ◌==◌, any,
  length, text_eq, contains, if◌then◌else◌,
}
use omnigrex.Workflow.Model.Vocabulary.{
  State, Role, StageId, TurnPurpose, TurnOutcome, purpose_eq, outcome_eq,
}

pub record StageEntry : Type 0 where
  pub stage : StageId
  pub purpose : TurnPurpose

pub record OutcomeTransition : Type 0 where
  pub outcome : TurnOutcome
  pub next_stage : StageId
  pub next_purpose : TurnPurpose
  pub terminal_state : State
  pub continuation_stage : StageId
  pub consumes_review_cycle : Bool

-- `OutcomeTransition{}`.
abbrev pub zero_transition : OutcomeTransition
zero_transition = record {
  outcome = TurnOutcome.unset;
  next_stage = "";
  next_purpose = TurnPurpose.unset;
  terminal_state = State.unset;
  continuation_stage = "";
  consumes_review_cycle = false;
}

pub record StageDefinition : Type 0 where
  pub id : StageId
  pub role : Role
  pub state : State
  pub accepted_purposes : List TurnPurpose
  pub transitions : List OutcomeTransition
  pub review_limit : ℕ
  pub instructions : String
  pub purpose_instructions : List (TurnPurpose × String)

-- `StageDefinition{}`.
abbrev pub zero_stage : StageDefinition
zero_stage = record {
  id = "";
  role = "";
  state = State.unset;
  accepted_purposes = [];
  transitions = [];
  review_limit = 0;
  instructions = "";
  purpose_instructions = [];
}

-- The map of stages is an association list in the order of insertion.
pub record Definition : Type 0 where
  pub initial : StageEntry
  pub ordered : List StageId
  pub stages : List (StageId × StageDefinition)

unfoldable pub find_stage : StageId → List (StageId × StageDefinition) → Option StageDefinition
find_stage id [] = none
find_stage id ((key, stage) ∷ rest) = if text_eq key id then some stage else find_stage id rest

-- The method Stage.
unfoldable pub stage_of : Definition → StageId → Option StageDefinition
unfolding find_stage
stage_of definition id = find_stage id definition.stages

-- The loop of the method Transition.
unfoldable pub find_transition : TurnOutcome → List OutcomeTransition → Option OutcomeTransition
find_transition outcome [] = none
find_transition outcome (t ∷ ts) =
    if outcome_eq t.outcome outcome then some t else find_transition outcome ts

unfoldable pub transition_of : Definition → StageId → TurnOutcome → Option OutcomeTransition
unfolding find_stage find_transition
transition_of definition id outcome = elim (find_stage id definition.stages) [
  | none ↦ none
  | some stage ↦ find_transition outcome stage.transitions
]

unfoldable pub initial_entry : Definition → StageEntry
initial_entry definition = definition.initial

-- The method Valid.
unfoldable pub definition_valid : Definition → Bool
definition_valid definition =
    ltb 0 (length definition.ordered) && length definition.stages == length definition.ordered

unfoldable pub expected_outcomes : Definition → StageId → List TurnOutcome
unfolding find_stage
expected_outcomes definition id = elim (find_stage id definition.stages) [
  | none ↦ []
  | some stage ↦ map (λ t. t.outcome) stage.transitions
]

unfoldable pub stage_ids : Definition → List StageId
stage_ids definition = definition.ordered

-- `definition.stages[id].Role`, the zero value's where the key is missing.
unfoldable pub role_of : Definition → StageId → Role
unfolding find_stage
role_of definition id = elim (find_stage id definition.stages) [
  | none ↦ zero_stage.role
  | some stage ↦ stage.role
]

-- The loop of the method Roles: `seen` holds the Roles that were appended to `roles`.
unfoldable pub roles_from : Definition → List Role → List StageId → List Role
unfolding role_of
roles_from definition roles [] = roles
roles_from definition roles (id ∷ ids) =
    let role = role_of definition id in
    roles_from definition (if contains roles role then roles else roles ++ role ∷ []) ids

unfoldable pub roles_of : Definition → List Role
unfolding roles_from
roles_of definition = roles_from definition [] definition.ordered

unfoldable pub contains_role : Definition → Role → Bool
contains_role definition role =
    any (λ (entry : StageId × StageDefinition). text_eq entry.1.role role) definition.stages

unfoldable pub contains_purpose : List TurnPurpose → TurnPurpose → Bool
contains_purpose [] purpose = false
contains_purpose (candidate ∷ rest) purpose =
    purpose_eq candidate purpose || contains_purpose rest purpose

unfoldable pub accepts_purpose : Definition → StageId → TurnPurpose → Bool
unfolding find_stage contains_purpose
accepts_purpose definition id purpose = elim (find_stage id definition.stages) [
  | none ↦ false
  | some stage ↦ contains_purpose stage.accepted_purposes purpose
]
