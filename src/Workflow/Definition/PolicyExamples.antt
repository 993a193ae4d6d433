-- ===== src/Workflow/Definition/PolicyExamples.antt =====
-- The built-in Definition, Role catalog and policies, at concrete instruction texts.
use omnigrex.Prelude.{
  any, true, [], ◌∷◌, some, ◌≡◌, refl, is_some, text_eq, byte_length, trim_space, drop_space,
  is_space, codes_eq, is_blank,
}
use omnigrex.Role.Catalog.{
  builtin_catalog, new_catalog, add_all, valid_metadata, valid_id, contains_control, lookup,
  contains_id,
}
use omnigrex.Role.Policies.{
  Policy, PolicyCatalog, reviewer_authority, new_policy_catalog, valid_references, add_policies,
  contains_policy, lookup_policy, valid_policy, valid_tools, valid_tool_name, valid_override,
  credential_authority_for_tool,
}
use omnigrex.Role.Builtin.{
  builtin_policy_catalog, new_builtin_policy_catalog, planner_policy, developer_policy,
  reviewer_policy,
}
use omnigrex.Workflow.Definition.Stages.{Definition, definition_valid, stage_of, find_stage}
use omnigrex.Workflow.Definition.RolePolicies.{validate_role_policies, required_tools, is_granted}
use omnigrex.Workflow.Definition.BuiltinLaws.{builtin_definition}
use omnigrex.Workflow.Definition.Builtin.{stage_review, review_stage}
use omnigrex.Workflow.Definition.ReviewAuthority.{validate_role_policies-reviewer}

abbrev builtin_policies : PolicyCatalog
builtin_policies = record {
  ordered = "PLANNER" ∷ "DEVELOPER" ∷ "REVIEWER" ∷ [];
  by_role = planner_policy ∷ developer_policy ∷ reviewer_policy ∷ [];
}

catalog-made : is_some builtin_catalog ≡ true
unfolding builtin_catalog new_catalog add_all valid_metadata valid_id contains_control lookup
    contains_id text_eq byte_length trim_space drop_space is_space codes_eq is_blank
catalog-made = refl

policies-made : builtin_policy_catalog ≡ some builtin_policies
unfolding builtin_policy_catalog new_builtin_policy_catalog new_policy_catalog valid_references
    add_policies contains_policy lookup_policy valid_policy valid_tools valid_tool_name
    valid_override valid_id text_eq byte_length trim_space drop_space is_space codes_eq
policies-made = refl

roles-made :
    new_policy_catalog
      ("PLANNER" ∷ "DEVELOPER" ∷ "REVIEWER" ∷ [])
      (planner_policy ∷ developer_policy ∷ reviewer_policy ∷ [])
    ≡ some builtin_policies
unfolding builtin_policy_catalog new_builtin_policy_catalog new_policy_catalog valid_references
    add_policies contains_policy lookup_policy valid_policy valid_tools valid_tool_name
    valid_override valid_id text_eq byte_length trim_space drop_space is_space codes_eq
roles-made = refl

abbrev definition : Definition
definition = builtin_definition "Implement the Issue." "Review the change."

builtin-validated : validate_role_policies definition builtin_policies ≡ true
unfolding validate_role_policies required_tools is_granted definition_valid stage_of find_stage
    lookup_policy credential_authority_for_tool text_eq
builtin-validated = refl

review-found : stage_of definition stage_review ≡ some (review_stage "Review the change.")
unfolding stage_of find_stage text_eq
review-found = refl

review-listed : any (λ x. text_eq x stage_review) definition.ordered ≡ true
unfolding text_eq
review-listed = refl

validate_role_policies-reviewer_example :
    (p : Policy) × (lookup_policy builtin_policies "REVIEWER" ≡ some p)
    × (credential_authority_for_tool p "submit_review" ≡ some reviewer_authority)
validate_role_policies-reviewer_example =
    validate_role_policies-reviewer ("PLANNER" ∷ "DEVELOPER" ∷ "REVIEWER" ∷ [])
      (planner_policy ∷ developer_policy ∷ reviewer_policy ∷ []) builtin_policies definition
      stage_review (review_stage "Review the change.") roles-made builtin-validated review-listed
      review-found refl
