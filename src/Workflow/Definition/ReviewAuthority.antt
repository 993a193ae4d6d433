-- ===== src/Workflow/Definition/ReviewAuthority.antt =====
-- ValidateRolePolicies, NewPolicyCatalog and CredentialAuthorityForTool together: who submits the reviews
-- of a Stage.
use omnigrex.Prelude.{
  String, Bool, true, false, List, [], ◌∷◌, some, ◌≡◌, refl, subst, inl, inr, arith, Option-cases,
  and_parts, or_cases, or_right, all, any, concat_map, text_eq, text_eq→≡, any_append_left,
  any_append_right,
}
use omnigrex.Role.Catalog.{RoleId}
use omnigrex.Role.Policies.{
  Policy, PolicyCatalog, new_policy_catalog, lookup_policy, credential_authority_for_tool,
  reviewer_authority,
}
use omnigrex.Role.Authority.{submission_authority}
use omnigrex.Role.Completeness.{new_policy_catalog-Complete}
use omnigrex.Workflow.Model.Vocabulary.{StageId, TurnOutcome}
use omnigrex.Workflow.Definition.Stages.{
  Definition, StageDefinition, OutcomeTransition, definition_valid, stage_of,
}
use omnigrex.Workflow.Definition.RolePolicies.{
  validate_role_policies, required_tools, is_granted, stage_at, grants_all, emitting_tool,
}

-- An outcome that a review is submitted with.
abbrev pub is_review_outcome : TurnOutcome → Bool
is_review_outcome TurnOutcome.approved = true
is_review_outcome TurnOutcome.changes_requested = true
is_review_outcome _ = false

abbrev pub ends_in_review : OutcomeTransition → Bool
ends_in_review t = is_review_outcome t.outcome

review_tool :
    (o : TurnOutcome)
    → is_review_outcome o ≡ true
    → any (λ x. text_eq x "submit_review") (emitting_tool o) ≡ true
unfolding text_eq
review_tool TurnOutcome.approved h = refl
review_tool TurnOutcome.changes_requested h = refl
review_tool _ h = absurd (ground arith)

review_required :
    (ts : List OutcomeTransition)
    → any ends_in_review ts ≡ true
    → any (λ x. text_eq x "submit_review") (concat_map (λ t. emitting_tool t.outcome) ts) ≡ true
review_required [] h = h
review_required (t ∷ ts) h = elim (or_cases (ends_in_review t) (any ends_in_review ts) h) [
  | inl a ↦ any_append_left _ (emitting_tool t.outcome) _ (review_tool t.outcome a)
  | inr b ↦ any_append_right _ (emitting_tool t.outcome) _ (review_required ts b)
]

-- What all pass, one of the name passes.
named_passes :
    (q : String → Bool) (name : String) (xs : List String)
    → any (λ x. text_eq x name) xs ≡ true
    → all q xs ≡ true
    → q name ≡ true
named_passes q name [] h k = absurd (ground arith)
named_passes q name (x ∷ xs) h k =
    let (a, b) = and_parts (q x) (all q xs) k in
    elim (or_cases (text_eq x name) (any (λ y. text_eq y name) xs) h) [
      | inl e ↦ subst (λ y. q y ≡ true) (text_eq→≡ x name e) a
      | inr later ↦ named_passes q name xs later b
    ]

granted_policy :
    (c : PolicyCatalog) (role : RoleId) (tools : List String)
    → grants_all (lookup_policy c role) tools ≡ true
    → (p : Policy) × (lookup_policy c role ≡ some p) × (all (is_granted p) tools ≡ true)
granted_policy c role tools h = elim (Option-cases (lookup_policy c role)) [
  | inl e ↦ absurd (let z = rw e at h in ground arith)
  | inr (p, e) ↦ (p, e, rw e at h)
]

stage_granted :
    (d : Definition) (c : PolicyCatalog) (id : StageId) (stage : StageDefinition)
    → validate_role_policies d c ≡ true
    → any (λ x. text_eq x id) d.ordered ≡ true
    → stage_of d id ≡ some stage
    → grants_all (lookup_policy c stage.role) (required_tools stage) ≡ true
unfolding validate_role_policies
stage_granted d c id stage v listed found =
    let (_, every) = and_parts (definition_valid d) _ v in
    rw (stage_at, found) at
      (named_passes
        (λ i. grants_all (lookup_policy c (stage_at d i).role) (required_tools (stage_at d i))) id
        d.ordered listed every)

granted_authority :
    (p : Policy) (tool : String)
    → is_granted p tool ≡ true
    → (a : String) × (credential_authority_for_tool p tool ≡ some a)
unfolding is_granted
granted_authority p tool h = elim (Option-cases (credential_authority_for_tool p tool)) [
  | inl e ↦ absurd (let z = rw e at h in ground arith)
  | inr (a, e) ↦ (a, e)
]

-- Where NewPolicyCatalog accepts the policies and ValidateRolePolicies the Definition with them, a listed
-- Stage that a review can end, by an approval or by requested changes, has a Role with a policy that
-- submits reviews with the Reviewer's credential.
pub validate_role_policies-reviewer :
    (referenced : List RoleId) (policies : List Policy) (c : PolicyCatalog) (d : Definition)
    (id : StageId) (stage : StageDefinition)
    → new_policy_catalog referenced policies ≡ some c
    → validate_role_policies d c ≡ true
    → any (λ x. text_eq x id) d.ordered ≡ true
    → stage_of d id ≡ some stage
    → any ends_in_review stage.transitions ≡ true
    → (p : Policy) × (lookup_policy c stage.role ≡ some p)
      × (credential_authority_for_tool p "submit_review" ≡ some reviewer_authority)
unfolding required_tools
validate_role_policies-reviewer referenced policies c d id stage made v listed found ends =
    let (p, at_role, every) =
      granted_policy c stage.role (required_tools stage)
        (stage_granted d c id stage v listed found) in
    let submits =
      named_passes (is_granted p) "submit_review" (required_tools stage)
        (or_right (text_eq "report_blocked" "submit_review") _
          (review_required stage.transitions ends))
        every in
    let (a, e) = granted_authority p "submit_review" submits in
    let (_, (_, valid)) =
      new_policy_catalog-Complete referenced policies c stage.role p made at_role in
    (
      p,
      at_role,
      subst (λ b. credential_authority_for_tool p "submit_review" ≡ some b)
          (submission_authority p "submit_review" a valid e refl) e,
    )
