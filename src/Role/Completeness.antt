-- ===== src/Role/Completeness.antt =====
-- What a catalog of policies has for the Roles that are referenced.
use omnigrex.Prelude.{
  true, not, List, [], ◌∷◌, none, some, ◌||◌, ◌≡◌, refl, subst, contains, text_eq, ◌∙◌, arith, all,
  any, text_eq→≡, snoc, Gives, Gives-some, option-Gives, if-Gives, first_holds, all-snoc,
}
use omnigrex.Role.Catalog.{RoleId}
use omnigrex.Role.Policies.{
  Policy, PolicyCatalog, lookup_policy, contains_policy, valid_policy, valid_references,
  add_policies, new_policy_catalog,
}
use omnigrex.Role.Authority.{found_all}

-- What a catalog of policies has for the Roles that are referenced.
abbrev pub Complete : List RoleId → PolicyCatalog → Type 0
Complete referenced c =
    (c.ordered ≡ referenced)
    × (all (contains_policy c) referenced ≡ true)
    × (all valid_policy c.by_role ≡ true)

add_policies_keeps :
    (c : PolicyCatalog) (ps : List Policy)
    → all valid_policy c.by_role ≡ true
    → Gives (λ n. (n.ordered ≡ c.ordered) × (all valid_policy n.by_role ≡ true)) (add_policies c ps)
unfolding add_policies
add_policies_keeps c [] h = (refl, h)
add_policies_keeps c (p ∷ ps) h =
    if-Gives (λ n. (n.ordered ≡ c.ordered) × (all valid_policy n.by_role ≡ true))
      (not (contains c.ordered p.role) || contains_policy c p.role || not (valid_policy p)) none _
      (λ _. tt)
      λ e.
        add_policies_keeps (record c { by_role = snoc c.by_role p }) ps
          (all-snoc valid_policy c.by_role p ∙ rw h (ground arith))

found_valid :
    (c : PolicyCatalog)
    → all valid_policy c.by_role ≡ true
    → (id : RoleId) (p : Policy) → lookup_policy c id ≡ some p
    → (p.role ≡ id) × (valid_policy p ≡ true)
unfolding lookup_policy
found_valid c h id p e = (
  text_eq→≡ p.role id (first_holds (λ x. text_eq x.role id) c.by_role e),
  found_all (λ x. text_eq x.role id) valid_policy c.by_role e h,
)

catalog-Complete :
    (referenced : List RoleId) (policies : List Policy) (c : PolicyCatalog)
    → new_policy_catalog referenced policies ≡ some c
    → Complete referenced c
unfolding new_policy_catalog
catalog-Complete referenced policies c e =
    let empty : PolicyCatalog = record { ordered = referenced; by_role = [] } in
    Gives-some (Complete referenced) _ e (
      if-Gives (Complete referenced)
        (not (any (λ _. true) referenced) || not (any (λ _. true) policies)) none _ (λ _. tt)
        λ _.
          if-Gives (Complete referenced) (not (valid_references [] referenced)) none _ (λ _. tt)
            λ _. option-Gives (Complete referenced) (add_policies empty policies) _ λ n at_n.
              if-Gives (Complete referenced) (all (contains_policy n) n.ordered) (some n) none
                (λ full.
                  let (same, valid) =
                    Gives-some _ _ at_n (add_policies_keeps empty policies refl) in
                  (same, subst (λ l. all (contains_policy n) l ≡ true) same full, valid))
                λ _. tt)

-- A catalog that NewPolicyCatalog makes keeps the referenced Roles in their order, has a policy for each
-- of them, and has valid policies only; a policy that a lookup gives is of the Role and valid.
pub new_policy_catalog-Complete :
    (referenced : List RoleId) (policies : List Policy) (c : PolicyCatalog) (id : RoleId)
    (p : Policy)
    → new_policy_catalog referenced policies ≡ some c
    → lookup_policy c id ≡ some p
    → Complete referenced c × ((p.role ≡ id) × (valid_policy p ≡ true))
new_policy_catalog-Complete referenced policies c id p made e =
    let (ordered, full, valid) = catalog-Complete referenced policies c made in
    ((ordered, full, valid), found_valid c valid id p e)
