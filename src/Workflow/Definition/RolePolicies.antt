-- ===== src/Workflow/Definition/RolePolicies.antt =====
-- ValidateRolePolicies of internal/workflow/definition.go.
use omnigrex.Prelude.{
  String, Bool, false, List, [], ◌∷◌, Option, none, some, ◌&&◌, all, is_some, concat_map,
}
use omnigrex.Role.Policies.{Policy, PolicyCatalog, lookup_policy, credential_authority_for_tool}
use omnigrex.Workflow.Model.Vocabulary.{StageId, TurnOutcome}
use omnigrex.Workflow.Definition.Stages.{
  Definition, StageDefinition, definition_valid, stage_of, zero_stage,
}

-- The tool that emits an outcome.
abbrev pub emitting_tool : TurnOutcome → List String
emitting_tool TurnOutcome.planning_ready = "complete_planning" ∷ []
emitting_tool TurnOutcome.change_proposal_ready = "request_review" ∷ []
emitting_tool TurnOutcome.changes_requested = "submit_review" ∷ []
emitting_tool TurnOutcome.approved = "submit_review" ∷ []
emitting_tool _ = []

-- The keys of the map `required`; one may stand twice.
unfoldable pub required_tools : StageDefinition → List String
required_tools stage =
    "report_blocked" ∷ concat_map (λ t. emitting_tool t.outcome) stage.transitions

unfoldable pub is_granted : Policy → String → Bool
is_granted p tool = is_some (credential_authority_for_tool p tool)

-- `definition.stages[id]`, the zero value where the key is missing.
abbrev pub stage_at : Definition → StageId → StageDefinition
stage_at definition id = elim (stage_of definition id) [ none ↦ zero_stage | some stage ↦ stage ]

abbrev pub grants_all : Option Policy → List String → Bool
grants_all none tools = false
grants_all (some p) tools = all (is_granted p) tools

-- `true` where there is no error.
unfoldable pub validate_role_policies : Definition → PolicyCatalog → Bool
unfolding required_tools is_granted
validate_role_policies definition policies =
    definition_valid definition
    && all
        (λ id.
          let stage = stage_at definition id in
          grants_all (lookup_policy policies stage.role) (required_tools stage))
        definition.ordered
