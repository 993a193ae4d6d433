-- ===== src/Collaboration/Laws/PlanKeeps.antt =====
-- The planning operations and Assess: what does not read the planning state, the assessments or a new name.
use omnigrex.Prelude.{
  String, Bool, true, false, not, List, [], ◌∷◌, Option, none, some, ◌||◌, ◌≡◌, refl, inl, inr,
  Option-cases, if◌then◌else◌, any, is_empty, is_nil, is_blank, first, items, text_eq, Gives,
  option-Gives, if-Gives,
}
use omnigrex.Collaboration.Model.Records.{Source, Input, Assessment}
use omnigrex.Collaboration.Model.Planned.{
  OriginalRequest, PlanningContent, PlanningState, PlanRevalidation, request_eq, revalidation_eq,
}
use omnigrex.Collaboration.Model.States.{State}
use omnigrex.Collaboration.References.{reference}
use omnigrex.Collaboration.Interpreting.Resolving.{was_prepared}
use omnigrex.Collaboration.Interpreting.Assessing.{
  assess, assessments_valid, apply_assessment, apply_assessments,
}
use omnigrex.Collaboration.Rounds.{same_delivery}
use omnigrex.Collaboration.Planning.Checkpoints.{
  start_planning, checkpoint_of, confirm_checkpoint, fail_checkpoint, is_reserved,
}
use omnigrex.Collaboration.Planning.Reserving.{
  Reservation, Earlier, reserve_checkpoint, reserve_planned, reserve_fresh, reserve_after,
  reserve_decided, same_rejection, content_valid, collect_decisions, checkpoint_input_reason,
  proposal_blocked,
}
use omnigrex.Collaboration.Planning.Validating.{
  validate_planning, validation_blocked, is_validatable, record_validation,
}

-- A property that survives changes of the planning state and of the assessments, and a new name.
pub record IsFramed (P : State → Type 0) : Type 0 where
  pub planned : (s : State) (p : Option PlanningState) → P s → P (record s { planning = p })
  pub named :
      (s : State) (id : String) (p : Option PlanningState)
      → P s
      → P (record ((reference s "P" id).1) { planning = p })
  pub assessed :
      (s : State) (as' : List Assessment) (p : Option PlanningState)
      → P s
      → P (record s { assessments = as'; planning = p })

-- The State after a reservation, or its refusal.
abbrev pub Reserves {ℓ} : (State → Type ℓ) → Reservation → Type ℓ
Reserves P (Reservation.reserved r s) = P s
Reserves P (Reservation.not_applied c s) = P s
Reserves P Reservation.invalid = Unit

module _ {P : State → Type 0} (k : IsFramed P) where
  pub start_planning-Keeps :
      (s : State) (original : OriginalRequest) → P s → Gives P (start_planning s original)
  unfolding start_planning
  start_planning-Keeps s original h = elim (Option-cases s.planning) [
    | inl e ↦
        rw (e, start_planning)
          (if-Gives P
            (is_blank original.title
              || is_empty original.source.channel
              || is_empty original.source.id)
            none _ (λ _. tt) λ _. k.planned s _ h)
    | inr (p, e) ↦
        rw (e, start_planning)
          (if-Gives P (request_eq p.original_request original) _ none (λ _. h) λ _. tt)
  ]

  pub confirm_checkpoint-Keeps :
      (s : State) (id : String) (source : Source) → P s → Gives P (confirm_checkpoint s id source)
  unfolding confirm_checkpoint
  confirm_checkpoint-Keeps s id source h = option-Gives P s.planning _ λ p _.
      if-Gives P (is_empty source.channel || is_empty source.id) none _ (λ _. tt)
        λ _. option-Gives P (first (λ r. text_eq r.id id) p.revisions) _ λ r _.
          if-Gives P r.publication_failed none _ (λ _. tt)
            λ _.
              if-Gives P r.published _ _
                (λ _. if-Gives P (same_delivery r.source source) (some s) none (λ _. h) λ _. tt)
                λ _. k.planned s _ h

  pub fail_checkpoint-Keeps : (s : State) (id : String) → P s → Gives P (fail_checkpoint s id)
  unfolding fail_checkpoint
  fail_checkpoint-Keeps s id h = option-Gives P s.planning _ λ p _.
      if-Gives P (is_nil (first (is_reserved id) p.revisions)) none _ (λ _. tt) λ _. k.planned s _ h

  apply_assessments-Keeps :
      (operation : String) (s : State) (batch : List Assessment)
      → P s
      → P (apply_assessments operation s batch)
  unfolding apply_assessments apply_assessment
  apply_assessments-Keeps operation s [] h = h
  apply_assessments-Keeps operation s (a ∷ batch) h =
      apply_assessments-Keeps operation (apply_assessment operation s a) batch (k.assessed s _ _ h)

  pub assess-Keeps :
      (s : State) (operation participant turn : String) (batch : List Assessment)
      → P s
      → Gives P (assess s operation participant turn batch)
  unfolding assess
  assess-Keeps s operation participant turn batch h =
      if-Gives P
        (is_empty operation || not (any (λ _. true) batch) || not (was_prepared s participant turn))
        none _ (λ _. tt)
        λ _.
          if-Gives P (not (assessments_valid s participant [] batch)) none _ (λ _. tt)
            λ _. apply_assessments-Keeps operation s batch h

  record_validation-Keeps :
      (s : State) (p : PlanningState) (v : PlanRevalidation)
      → P s
      → Gives P (record_validation s p v)
  unfolding record_validation
  record_validation-Keeps s p v h =
      if-Gives P (is_empty v.confirmation_input_id) none _ (λ _. tt)
        λ _. elim (Option-cases (first (λ old. text_eq old.turn_id v.turn_id) p.revalidations)) [
          | inl e ↦
              rw e
                (if-Gives P (not (is_empty p.ready_revision)) none _ (λ _. tt) λ _. k.planned s _ h)
          | inr (old, e) ↦ rw e (if-Gives P (revalidation_eq old v) _ none (λ _. h) λ _. tt)
        ]

  pub validate_planning-Keeps :
      (s : State) (operation revision participant turn commit evidence : String) (resolved : Bool)
      → P s
      → Gives P (validate_planning s operation revision participant turn commit evidence resolved)
  unfolding validate_planning
  validate_planning-Keeps s operation revision participant turn commit evidence resolved h =
      if-Gives P (validation_blocked s operation participant commit evidence resolved) none _
        (λ _. tt)
        λ _. option-Gives P s.planning _ λ p _. option-Gives P (checkpoint_of p) _ λ r _.
          if-Gives P
            (not (is_validatable revision participant r) || not (was_prepared s participant turn))
            none _ (λ _. tt) λ _. record_validation-Keeps s p _ h

  if-Reserves :
      (b : Bool) (x y : Reservation)
      → (b ≡ true → Reserves P x)
      → (b ≡ false → Reserves P y)
      → Reserves P (if b then x else y)
  if-Reserves true x y h g = h refl
  if-Reserves false x y h g = g refl

  reserve_decided-Keeps :
      (s : State) (p : PlanningState) (id participant turn : String) (c : PlanningContent)
      (decisions : List Input)
      → P s
      → Reserves P (reserve_decided s p id participant turn c decisions)
  reserve_decided-Keeps s p id participant turn c decisions h =
      if-Reserves (not (is_empty (checkpoint_input_reason s participant))) _ _
        (λ _. k.named s id _ h)
        λ _.
          if-Reserves (proposal_blocked s participant c) Reservation.invalid _ (λ _. tt)
            λ _. k.named s id _ h

  reserve_fresh-Keeps :
      (s : State) (p : PlanningState) (id participant turn : String) (c : PlanningContent)
      → P s
      → Reserves P (reserve_fresh s p id participant turn c)
  reserve_fresh-Keeps s p id participant turn c h =
      if-Reserves (not (content_valid c) || not (was_prepared s participant turn))
        Reservation.invalid _ (λ _. tt)
        λ _.
          elim (Option-cases
            (collect_decisions s.inputs participant turn [] (items c.decision_response_ids))) [
              | inl e ↦ rw e tt
              | inr (ds, e) ↦ rw e (reserve_decided-Keeps s p id participant turn c ds h)
            ]

  reserve_after-Keeps :
      (s : State) (p : PlanningState) (id participant turn : String) (c : PlanningContent)
      (e : Earlier)
      → P s
      → Reserves P (reserve_after s p id participant turn c e)
  reserve_after-Keeps s p id participant turn c Earlier.fresh h =
      reserve_fresh-Keeps s p id participant turn c h
  reserve_after-Keeps s p id participant turn c (Earlier.replayed r) h = h
  reserve_after-Keeps s p id participant turn c Earlier.blocked h = tt

  pub reserve_checkpoint-Keeps :
      (s : State) (id participant turn : String) (c : PlanningContent)
      → P s
      → Reserves P (reserve_checkpoint s id participant turn c)
  unfolding reserve_checkpoint
  reserve_checkpoint-Keeps s id participant turn c h = elim (Option-cases s.planning) [
    | inl e ↦ rw (e, reserve_checkpoint) tt
    | inr (p, e) ↦
        rw (e, reserve_checkpoint)
          (if-Reserves
            (is_empty id
              || is_empty participant
              || is_empty turn
              || not (is_empty p.ready_revision))
            Reservation.invalid _ (λ _. tt)
            λ _.
              elim (Option-cases
                (first (λ rejection. text_eq rejection.operation_id id) p.non_publications)) [
                  | inl f ↦
                      rw (f, reserve_planned) (reserve_after-Keeps s p id participant turn c _ h)
                  | inr (rejection, f) ↦
                      rw (f, reserve_planned)
                        (if-Reserves (same_rejection rejection participant turn c) _
                          Reservation.invalid (λ _. h) λ _. tt)
                ])
  ]
