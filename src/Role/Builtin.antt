-- ===== src/Role/Builtin.antt =====
-- The built-in policies of internal/role/policy.go.
use omnigrex.Prelude.{true, false, List, [], ◌∷◌, Option, none, some, text_eq, first}
use omnigrex.Role.Catalog.{RoleId}
use omnigrex.Role.Policies.{
  Policy, PolicyCatalog, new_policy_catalog, orchestrator_authority, reviewer_authority,
}

abbrev pub planner_policy : Policy
planner_policy = record {
  role = "PLANNER";
  mcp_tools =
      "publish_plan_checkpoint" ∷ "complete_planning" ∷ "get_issue" ∷ "list_issue_comments"
      ∷ "get_pull_request" ∷ "list_pull_request_reviews" ∷ "list_review_threads" ∷ "get_check_runs"
      ∷ "get_check_run_diagnostics" ∷ "list_ci_runs" ∷ "get_ci_run" ∷ "get_ci_job_logs"
      ∷ "search_ci_job_logs" ∷ "refresh_default_branch" ∷ "comment_on_issue"
      ∷ "request_clarification" ∷ "resolve_clarification" ∷ "assess_human_input"
      ∷ "get_collaboration_record" ∷ "report_blocked" ∷ [];
  requires_change_proposal = false;
  repository_credential_authority = orchestrator_authority;
  tool_credential_authorities = [];
  allow_file_edits = true;
  discard_workspace = true;
  allow_human_session_control = true;
}

abbrev pub developer_policy : Policy
developer_policy = record {
  role = "DEVELOPER";
  mcp_tools =
      "get_issue" ∷ "list_issue_comments" ∷ "get_pull_request" ∷ "list_pull_request_reviews"
      ∷ "list_review_threads" ∷ "get_check_runs" ∷ "get_handoff" ∷ "get_check_run_diagnostics"
      ∷ "list_ci_runs" ∷ "get_ci_run" ∷ "get_ci_job_logs" ∷ "search_ci_job_logs"
      ∷ "refresh_default_branch" ∷ "publish_changes" ∷ "open_pr" ∷ "request_review"
      ∷ "confirm_prior_terminal_intent" ∷ "comment_on_issue" ∷ "comment_on_pull_request"
      ∷ "report_blocked" ∷ "request_clarification" ∷ "resolve_clarification" ∷ "assess_human_input"
      ∷ "get_collaboration_record" ∷ [];
  requires_change_proposal = false;
  repository_credential_authority = orchestrator_authority;
  tool_credential_authorities = [];
  allow_file_edits = true;
  discard_workspace = false;
  allow_human_session_control = true;
}

abbrev pub reviewer_policy : Policy
reviewer_policy = record {
  role = "REVIEWER";
  mcp_tools =
      "get_issue" ∷ "list_issue_comments" ∷ "get_pull_request" ∷ "list_pull_request_reviews"
      ∷ "list_review_threads" ∷ "get_check_runs" ∷ "get_handoff" ∷ "get_check_run_diagnostics"
      ∷ "list_ci_runs" ∷ "get_ci_run" ∷ "get_ci_job_logs" ∷ "search_ci_job_logs"
      ∷ "refresh_default_branch" ∷ "submit_review" ∷ "confirm_prior_terminal_intent"
      ∷ "comment_on_issue" ∷ "comment_on_pull_request" ∷ "report_blocked" ∷ "request_clarification"
      ∷ "resolve_clarification" ∷ "assess_human_input" ∷ "get_collaboration_record" ∷ [];
  requires_change_proposal = true;
  repository_credential_authority = orchestrator_authority;
  tool_credential_authorities =
      ("submit_review", reviewer_authority)
      ∷ ("confirm_prior_terminal_intent", reviewer_authority)
      ∷ [];
  allow_file_edits = false;
  discard_workspace = true;
  allow_human_session_control = true;
}

abbrev builtin : List Policy
builtin = planner_policy ∷ developer_policy ∷ reviewer_policy ∷ []

-- A referenced Role without a built-in policy is an error.
abbrev builtin_policies : List RoleId → Option (List Policy)
builtin_policies [] = some []
builtin_policies (id ∷ ids) =
    let rest = builtin_policies ids in
    elim (first (λ p. text_eq p.role id) builtin) [
      | none ↦ none
      | some p ↦ elim rest [ none ↦ none | some ps ↦ some (p ∷ ps) ]
    ]

unfoldable pub new_builtin_policy_catalog : List RoleId → Option PolicyCatalog
unfolding new_policy_catalog
new_builtin_policy_catalog referenced = elim (builtin_policies referenced) [
  | none ↦ none
  | some policies ↦ new_policy_catalog referenced policies
]

-- BuiltinPolicyCatalog, which panics where this is `none`.
unfoldable pub builtin_policy_catalog : Option PolicyCatalog
unfolding new_builtin_policy_catalog
builtin_policy_catalog = new_builtin_policy_catalog ("PLANNER" ∷ "DEVELOPER" ∷ "REVIEWER" ∷ [])
