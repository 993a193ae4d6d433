-- ===== src/Collaboration/Laws/Validated.antt =====
-- ValidatePlanning and PlanningValidationCurrent.
use omnigrex.Prelude.{
  String, Bool, true, false, not, List, none, some, ◌||◌, ◌≡◌, refl, sym, subst, ◌∙◌, inl, inr,
  arith, Option-cases, any, is_empty, first, text_eq, text_eq_self, text_eq→≡, snoc, or_right,
  Gives, option-Gives, if-Gives, Gives-some, first_holds, any-snoc, any_found, Gives-map,
  deep_eq_self,
}
use omnigrex.Collaboration.Model.Planned.{
  PlanningState, PlanningRevision, PlanRevalidation, revalidation_eq,
}
use omnigrex.Collaboration.Model.States.{State}
use omnigrex.Collaboration.Evidence.Currency.{pending, unresolved, assessment_blocked}
use omnigrex.Collaboration.Interpreting.Resolving.{was_prepared}
use omnigrex.Collaboration.Planning.Checkpoints.{checkpoint_of}
use omnigrex.Collaboration.Planning.Validating.{
  validation_blocked, new_revalidation, is_validatable, record_validation, validate_planning,
  planning_validation_current,
}
use omnigrex.Collaboration.Laws.Confirming.{validation_current}

revalidation_eq_self : (v : PlanRevalidation) → revalidation_eq v v ≡ true
unfolding revalidation_eq
revalidation_eq_self v =
    rw
      (
        text_eq_self v.source_invocation_id,
        text_eq_self v.revision_id,
        text_eq_self v.participant_id,
        text_eq_self v.turn_id,
        text_eq_self v.repository_commit,
        text_eq_self v.evidence,
        text_eq_self v.confirmation_input_id,
        deep_eq_self v.considered_input_ids,
      )
      refl

-- The validation is current, and recorded.
abbrev pub Validated : PlanRevalidation → State → Type 0
Validated v next =
    (planning_validation_current next v ≡ true)
    × ((p : PlanningState) × (next.planning ≡ some p)
        × (any (λ old. revalidation_eq old v) p.revalidations ≡ true))

record_validation-Validated :
    (s : State) (p : PlanningState) (v : PlanRevalidation)
    → s.planning ≡ some p
    → ((rs : List PlanRevalidation)
        → is_empty v.confirmation_input_id ≡ false
        → planning_validation_current
            (record s { planning = some (record p { revalidations = rs }) })
            v
          ≡ true)
    → Gives (Validated v) (record_validation s p v)
unfolding record_validation
record_validation-Validated s p v here current =
    if-Gives (Validated v) (is_empty v.confirmation_input_id) none _ (λ _. tt)
      λ ne. elim (Option-cases (first (λ old. text_eq old.turn_id v.turn_id) p.revalidations)) [
        | inl e ↦ rw e (
            if-Gives (Validated v) (not (is_empty p.ready_revision)) none _ (λ _. tt)
              λ _. (
                current (snoc p.revalidations v) ne,
                (
                  record p { revalidations = snoc p.revalidations v },
                  refl,
                  any-snoc (λ old. revalidation_eq old v) p.revalidations v
                      ∙ or_right (any (λ old. revalidation_eq old v) p.revalidations) _
                          (revalidation_eq_self v),
                ),
              ))
        | inr (old, e) ↦ rw e (
            if-Gives (Validated v) (revalidation_eq old v) (some s) none
              (λ same. (
                subst (λ q. planning_validation_current (record s { planning = q }) v ≡ true)
                    (sym here) (current p.revalidations ne),
                (
                  p,
                  here,
                  any_found (λ old. text_eq old.turn_id v.turn_id) (λ old. revalidation_eq old v)
                      p.revalidations e same,
                ),
              ))
              λ _. tt)
      ]

nothing_open :
    (s : State) (operation participant commit evidence : String) (resolved : Bool)
    → validation_blocked s operation participant commit evidence resolved ≡ false
    → (pending s participant ≡ false)
      × (unresolved s participant ≡ false)
      × (assessment_blocked s participant ≡ false)
unfolding validation_blocked
nothing_open s operation participant commit evidence resolved h =
    (ground arith, ground arith, ground arith)

validatable_current :
    (p : PlanningState) (revision participant : String) (r : PlanningRevision)
    → checkpoint_of p ≡ some r
    → is_validatable revision participant r ≡ true
    → text_eq p.current_revision revision ≡ true
validatable_current p revision participant r e h =
    let at_id =
      text_eq→≡ r.id p.current_revision
        (first_holds (λ x. text_eq x.id p.current_revision) p.revisions e) in
    let same : text_eq r.id revision ≡ true = ground arith in rw (sym at_id) same

-- A validation that ValidatePlanning takes is recorded, or was recorded for the Turn before, and is
-- current in the State that follows: its revision is the current one, its confirmation stands and was
-- assessed as confirmed, nothing of the participant is open, and every input of the participant was
-- considered.
pub validate_planning-current :
    (s next : State) (operation revision participant turn commit evidence : String)
    (resolved : Bool)
    → validate_planning s operation revision participant turn commit evidence resolved ≡ some next
    → (p : PlanningState) × (s.planning ≡ some p)
      × Validated (new_revalidation s p operation revision participant turn commit evidence) next
unfolding validate_planning
validate_planning-current s next operation revision participant turn commit evidence resolved e =
    Gives-some
      (λ n.
        (p : PlanningState) × (s.planning ≡ some p)
        × Validated (new_revalidation s p operation revision participant turn commit evidence) n)
      _ e
      (if-Gives _ (validation_blocked s operation participant commit evidence resolved) none _
        (λ _. tt)
        λ free.
          let (np, nu, na) = nothing_open s operation participant commit evidence resolved free in
          option-Gives _ s.planning _ λ p here. option-Gives _ (checkpoint_of p) _ λ r at_r.
            if-Gives _
              (not (is_validatable revision participant r) || not (was_prepared s participant turn))
              none _ (λ _. tt)
              λ ok.
                Gives-map _ _ (record_validation s p _) (λ n v. (p, here, v))
                  (record_validation-Validated s p _ here λ rs ne.
                    validation_current s p operation revision participant turn commit evidence rs
                      (validatable_current p revision participant r at_r (ground arith)) np nu na
                      ne))
