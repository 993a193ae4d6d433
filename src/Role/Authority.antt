-- ===== src/Role/Authority.antt =====
-- The credentials that a policy grants.
use omnigrex.Prelude.{
  String, Bool, true, false, not, List, [], ◌∷◌, none, some, ◌&&◌, ◌≡◌, refl, sym, subst, ap, ◌∙◌,
  ◌⊎◌, inl, inr, arith, Bool-cases, Option-cases, and_parts, all, contains, text_eq, text_eq→≡,
  text_eq_self, first, first_holds, Has, Has-cases,
}
use mathlib.Core.Option.{some-injective}
use omnigrex.Role.Policies.{
  Policy, override, uses_reviewer, credential_authority_for_tool, valid_tool_name, valid_tools,
  valid_override, valid_policy, orchestrator_authority, reviewer_authority,
}

-- An element that is found passes what all pass.
pub found_all {ℓ} :
    {A : Type ℓ} (p q : A → Bool) (xs : List A) {a : A}
    → first p xs ≡ some a
    → all q xs ≡ true
    → q a ≡ true
found_all p q [] e h = absurd (ground arith)
found_all p q (x ∷ xs) {a} e h =
    let (here, rest) = and_parts (q x) (all q xs) h in
    elim (Bool-cases (p x)) [
      | inl k ↦ subst (λ b. q b ≡ true) (some-injective x a (rw k at e)) here
      | inr k ↦ found_all p q xs (rw k at e) rest
    ]

-- `text_eq t word` where `t` is the word.
is_word : (t word : String) → t ≡ word → text_eq t word ≡ true
is_word t word e = rw e (text_eq_self word)

bool_step :
    (v n w u x r : Bool)
    → (v && n && not (w && not u) && not x && r) ≡ true
    → (w ≡ true → u ≡ true) × (r ≡ true)
bool_step v n w u x r h = (λ k. ground arith, ground arith)

submit_review-uses_reviewer :
    (p : Policy) (seen tools : List String)
    → valid_tools p seen tools ≡ true
    → Has tools "submit_review"
    → uses_reviewer p "submit_review" ≡ true
unfolding valid_tools
submit_review-uses_reviewer p seen [] h m = absurd (ground arith)
submit_review-uses_reviewer p seen (tool ∷ tools) h m =
    let (mine, rest) =
      bool_step (valid_tool_name tool) (not (contains seen tool)) (text_eq tool "submit_review")
        (uses_reviewer p tool)
        (text_eq tool "confirm_prior_terminal_intent"
          && text_eq p.role "REVIEWER"
          && not (uses_reviewer p tool))
        (valid_tools p (tool ∷ seen) tools) h in
    elim (Has-cases tool tools "submit_review" m) [
      | inl e ↦ subst (λ t. uses_reviewer p t ≡ true) e (mine (is_word tool "submit_review" e))
      | inr later ↦ submit_review-uses_reviewer p (tool ∷ seen) tools rest later
    ]

policy_parts :
    (p : Policy)
    → valid_policy p ≡ true
    → (text_eq p.repository_credential_authority orchestrator_authority ≡ true)
      × (valid_tools p [] p.mcp_tools ≡ true)
      × (all (valid_override p) p.tool_credential_authorities ≡ true)
unfolding valid_policy
policy_parts p h = (ground arith, ground arith, ground arith)

-- The authority of a granted tool.
granted_by :
    (p : Policy) (tool authority : String)
    → credential_authority_for_tool p tool ≡ some authority
    → Has p.mcp_tools tool
      × ((override p tool ≡ some authority)
          ⊎ ((override p tool ≡ none) × (p.repository_credential_authority ≡ authority)))
unfolding credential_authority_for_tool
granted_by p tool authority e = elim (Bool-cases (contains p.mcp_tools tool)) [
  | inr k ↦ absurd (let z = rw k at e in ground arith)
  | inl k ↦ (
    k,
    elim (Option-cases (override p tool)) [
      | inl o ↦ inr (o, some-injective _ _ (rw (k, o) at e))
      | inr (a, o) ↦ inl (o ∙ rw (k, o) at e)
    ],
  )
]

-- An override that is found is an entry that was checked.
override_entry :
    (p : Policy) (tool authority : String)
    → override p tool ≡ some authority
    → all (valid_override p) p.tool_credential_authorities ≡ true
    → valid_override p (tool, authority) ≡ true
override_entry p tool authority o h =
    elim (Option-cases (first (λ (t, _). text_eq t tool) p.tool_credential_authorities)) [
      | inl e ↦ absurd (let z = rw (override, e) at o in ground arith)
      | inr ((t, a), e) ↦
          let ok = found_all (λ (t, _). text_eq t tool) (valid_override p) _ e h in
          let same = text_eq→≡ t tool (first_holds (λ (t, _). text_eq t tool) _ e) in
          let at_a = some-injective a authority (rw (override, e) at o) in
          rw (sym same, sym at_a) ok
    ]

reviewer_override :
    (p : Policy) (tool : String)
    → valid_override p (tool, reviewer_authority) ≡ true
    → (tool ≡ "submit_review") ⊎ (tool ≡ "confirm_prior_terminal_intent")
unfolding valid_override
reviewer_override p tool h = elim (Bool-cases (text_eq tool "submit_review")) [
  | inl e ↦ inl (text_eq→≡ tool "submit_review" e)
  | inr e ↦ elim (Bool-cases (text_eq tool "confirm_prior_terminal_intent")) [
    | inl f ↦ inr (text_eq→≡ tool "confirm_prior_terminal_intent" f)
    | inr f ↦ absurd (let z = rw (e, f, text_eq_self "REVIEWER") at h in ground arith)
  ]
]

reviewer_is_other : text_eq "ORCHESTRATOR" "REVIEWER" ≡ false
unfolding text_eq
reviewer_is_other = refl

-- The Reviewer's credential is used for these two tools only.
reviewer_tool :
    (p : Policy) (tool authority : String)
    → valid_policy p ≡ true
    → credential_authority_for_tool p tool ≡ some authority
    → authority ≡ reviewer_authority
    → (tool ≡ "submit_review") ⊎ (tool ≡ "confirm_prior_terminal_intent")
reviewer_tool p tool authority valid e r =
    let (repository, _, overrides) = policy_parts p valid in
    let (_, by) = granted_by p tool authority e in
    elim by [
      | inl o ↦ reviewer_override p tool (
          subst (λ a. valid_override p (tool, a) ≡ true) r
            (override_entry p tool authority o overrides))
      | inr (_, same) ↦ absurd (
          let z =
            sym reviewer_is_other
            ∙ ap (λ a. text_eq a "REVIEWER") (sym (text_eq→≡ _ _ repository) ∙ same ∙ r)
            ∙ text_eq_self "REVIEWER" in
          ground arith)
    ]

-- A review is submitted with it.
pub submission_authority :
    (p : Policy) (tool authority : String)
    → valid_policy p ≡ true
    → credential_authority_for_tool p tool ≡ some authority
    → tool ≡ "submit_review"
    → authority ≡ reviewer_authority
submission_authority p tool authority valid e s =
    let (_, tools, _) = policy_parts p valid in
    let (granted, by) = granted_by p tool authority e in
    let uses = submit_review-uses_reviewer p [] p.mcp_tools tools (rw s at granted) in
    let used = subst (λ t. uses_reviewer p t ≡ true) (sym s) uses in
    elim by [
      | inl o ↦ text_eq→≡ authority reviewer_authority (rw (uses_reviewer, o) at used)
      | inr (o, _) ↦ absurd (let z = rw (uses_reviewer, o) at used in ground arith)
    ]

-- With a valid policy a granted tool is used with the Reviewer's credential, and is then submit_review or
-- the confirmation of a prior terminal intent, or with another one, and is then not submit_review.
pub credential_authority-reviewer :
    (p : Policy) (tool authority : String)
    → valid_policy p ≡ true
    → credential_authority_for_tool p tool ≡ some authority
    → ((authority ≡ reviewer_authority)
        × ((tool ≡ "submit_review") ⊎ (tool ≡ "confirm_prior_terminal_intent")))
      ⊎ ((text_eq authority reviewer_authority ≡ false) × (text_eq tool "submit_review" ≡ false))
credential_authority-reviewer p tool authority valid e =
    elim (Bool-cases (text_eq authority reviewer_authority)) [
      | inl a ↦
          let r = text_eq→≡ authority reviewer_authority a in
          inl (r, reviewer_tool p tool authority valid e r)
      | inr a ↦ inr (
        a,
        elim (Bool-cases (text_eq tool "submit_review")) [
          | inr k ↦ k
          | inl k ↦ absurd (
              let r = submission_authority p tool authority valid e (text_eq→≡ tool _ k) in
              let z = rw (r, text_eq_self reviewer_authority) at a in ground arith)
        ],
      )
    ]
