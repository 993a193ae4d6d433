-- ===== src/Role/Examples.antt =====
-- Concrete inputs for internal/role.
use omnigrex.Prelude.{
  false, String, ◌≡◌, ◌⊎◌, refl, true, [], ◌∷◌, none, some, text_eq, byte_length, trim_space,
  drop_space, is_space, codes_eq,
}
use omnigrex.Role.Catalog.{valid_id}
use omnigrex.Role.Policies.{
  PolicyCatalog, valid_policy, valid_tools, valid_tool_name, valid_override, valid_references,
  add_policies, contains_policy, lookup_policy, credential_authority_for_tool, new_policy_catalog,
  reviewer_authority,
}
use omnigrex.Role.Builtin.{developer_policy, reviewer_policy}
use omnigrex.Role.Authority.{credential_authority-reviewer}
use omnigrex.Role.Completeness.{Complete, new_policy_catalog-Complete}

reviewer_valid : valid_policy reviewer_policy ≡ true
unfolding valid_policy valid_tools valid_tool_name valid_override valid_id text_eq byte_length
    trim_space drop_space is_space codes_eq
reviewer_valid = refl

submits : credential_authority_for_tool reviewer_policy "submit_review" ≡ some "REVIEWER"
unfolding credential_authority_for_tool text_eq
submits = refl

no_submission : credential_authority_for_tool developer_policy "submit_review" ≡ none
unfolding credential_authority_for_tool text_eq
no_submission = refl

abbrev submit : String
submit = "submit_review"

credential_authority-reviewer_example :
    ((reviewer_authority ≡ reviewer_authority)
      × ((submit ≡ "submit_review") ⊎ (submit ≡ "confirm_prior_terminal_intent")))
    ⊎ ((text_eq reviewer_authority reviewer_authority ≡ false)
        × (text_eq submit "submit_review" ≡ false))
credential_authority-reviewer_example =
    credential_authority-reviewer reviewer_policy submit reviewer_authority reviewer_valid submits

abbrev review_catalog : PolicyCatalog
review_catalog = record {
  ordered = "REVIEWER" ∷ "DEVELOPER" ∷ [];
  by_role = developer_policy ∷ reviewer_policy ∷ [];
}

catalog_made :
    new_policy_catalog ("REVIEWER" ∷ "DEVELOPER" ∷ []) (developer_policy ∷ reviewer_policy ∷ [])
    ≡ some review_catalog
unfolding new_policy_catalog valid_references add_policies contains_policy lookup_policy
    valid_policy valid_tools valid_tool_name valid_override valid_id text_eq byte_length trim_space
    drop_space is_space codes_eq
catalog_made = refl

reviewer_found : lookup_policy review_catalog "REVIEWER" ≡ some reviewer_policy
unfolding lookup_policy text_eq
reviewer_found = refl

new_policy_catalog-Complete_example :
    Complete ("REVIEWER" ∷ "DEVELOPER" ∷ []) review_catalog
    × ((reviewer_policy.role ≡ "REVIEWER") × (valid_policy reviewer_policy ≡ true))
new_policy_catalog-Complete_example =
    new_policy_catalog-Complete ("REVIEWER" ∷ "DEVELOPER" ∷ [])
      (developer_policy ∷ reviewer_policy ∷ []) review_catalog "REVIEWER" reviewer_policy
      catalog_made reviewer_found

missing_policy : new_policy_catalog ("REVIEWER" ∷ "DEVELOPER" ∷ []) (reviewer_policy ∷ []) ≡ none
unfolding new_policy_catalog valid_references add_policies contains_policy lookup_policy
    valid_policy valid_tools valid_tool_name valid_override valid_id text_eq byte_length trim_space
    drop_space is_space codes_eq
missing_policy = refl
