-- ===== src/Role/Policies.antt =====
-- internal/role/policy.go. A map is the list of its entries, whose keys differ; a copy is the value.
use omnigrex.Prelude.{
  ℕ, String, Bool, true, false, not, List, [], ◌∷◌, Option, none, some, ◌&&◌, ◌||◌, if◌then◌else◌,
  ◌==◌, all, any, between, codes, codes_eq, trim_space, is_some, contains, is_empty, text_eq, first,
  snoc,
}
use omnigrex.Role.Catalog.{RoleId, valid_id}

abbrev pub orchestrator_authority : String
orchestrator_authority = "ORCHESTRATOR"

abbrev pub reviewer_authority : String
reviewer_authority = "REVIEWER"

pub record Policy : Type 0 where
  pub role : RoleId
  pub mcp_tools : List String
  pub requires_change_proposal : Bool
  pub repository_credential_authority : String
  pub tool_credential_authorities : List (String × String)
  pub allow_file_edits : Bool
  pub discard_workspace : Bool
  pub allow_human_session_control : Bool

pub record PolicyCatalog : Type 0 where
  pub ordered : List RoleId
  pub by_role : List Policy

unfoldable pub lookup_policy : PolicyCatalog → RoleId → Option Policy
lookup_policy catalog id = first (λ p. text_eq p.role id) catalog.by_role

unfoldable pub contains_policy : PolicyCatalog → RoleId → Bool
unfolding lookup_policy
contains_policy catalog id = is_some (lookup_policy catalog id)

abbrev pub roles : PolicyCatalog → List RoleId
roles catalog = catalog.ordered

-- The override of a tool's authority.
abbrev pub override : Policy → String → Option String
override p tool = elim (first (λ (t, _). text_eq t tool) p.tool_credential_authorities) [
  | none ↦ none
  | some (_, authority) ↦ some authority
]

unfoldable pub credential_authority_for_tool : Policy → String → Option String
credential_authority_for_tool p tool =
    if not (contains p.mcp_tools tool) then none else elim (override p tool) [
      | some authority ↦ some authority
      | none ↦ some p.repository_credential_authority
    ]

-- `policy.ToolCredentialAuthorities[tool] == ReviewerAuthority`.
abbrev pub uses_reviewer : Policy → String → Bool
uses_reviewer p tool = elim (override p tool) [
  | none ↦ false
  | some authority ↦ text_eq authority reviewer_authority
]

abbrev is_tool_character : ℕ → Bool
is_tool_character c = between b'a' b'z' c || between b'0' b'9' c || c == b'_'

unfoldable pub valid_tool_name : String → Bool
unfolding trim_space codes_eq
valid_tool_name value =
    not (is_empty value || not (codes_eq (trim_space (codes value)) (codes value)))
    && all is_tool_character (codes value)

unfoldable pub valid_tools : Policy → List String → List String → Bool
unfolding valid_tool_name
valid_tools p seen [] = true
valid_tools p seen (tool ∷ tools) =
    valid_tool_name tool
    && not (contains seen tool)
    && not (text_eq tool "submit_review" && not (uses_reviewer p tool))
    && not (
        text_eq tool "confirm_prior_terminal_intent"
        && text_eq p.role "REVIEWER"
        && not (uses_reviewer p tool))
    && valid_tools p (tool ∷ seen) tools

abbrev pub valid_credential_authority : String → Bool
valid_credential_authority a = text_eq a orchestrator_authority || text_eq a reviewer_authority

unfoldable pub valid_override : Policy → (String × String) → Bool
valid_override p (tool, authority) = not (
    not (contains p.mcp_tools tool)
    || not (valid_credential_authority authority)
    || text_eq authority reviewer_authority
      && not (text_eq tool "submit_review")
      && not (text_eq tool "confirm_prior_terminal_intent"))

unfoldable pub valid_policy : Policy → Bool
unfolding valid_id valid_tools valid_override
valid_policy p =
    valid_id p.role
    && any (λ _. true) p.mcp_tools
    && text_eq p.repository_credential_authority orchestrator_authority
    && valid_tools p [] p.mcp_tools
    && all (valid_override p) p.tool_credential_authorities

unfoldable pub valid_references : List RoleId → List RoleId → Bool
unfolding valid_id
valid_references seen [] = true
valid_references seen (id ∷ ids) =
    valid_id id && not (contains seen id) && valid_references (id ∷ seen) ids

-- The loop over the policies.
unfoldable pub add_policies : PolicyCatalog → List Policy → Option PolicyCatalog
unfolding contains_policy valid_policy
add_policies catalog [] = some catalog
add_policies catalog (p ∷ ps) =
    let rest = add_policies (record catalog { by_role = snoc catalog.by_role p }) ps in
    if not (contains catalog.ordered p.role)
      || contains_policy catalog p.role
      || not (valid_policy p)
    then none
    else rest

-- The last check of NewPolicyCatalog.
abbrev pub complete_catalog : PolicyCatalog → Option PolicyCatalog
complete_catalog catalog =
    if all (contains_policy catalog) catalog.ordered then some catalog else none

unfoldable pub new_policy_catalog : List RoleId → List Policy → Option PolicyCatalog
unfolding valid_references add_policies contains_policy
new_policy_catalog referenced policies =
    if not (any (λ _. true) referenced) || not (any (λ _. true) policies)
    then none
    else if not (valid_references [] referenced)
    then none
    else elim (add_policies (record { ordered = referenced; by_role = [] }) policies) [
      | none ↦ none
      | some catalog ↦ complete_catalog catalog
    ]
