-- ===== src/Collaboration/Interpreting/Assessing.antt =====
-- Assess of internal/collaboration/assessment.go; `none` is ErrInvalid, which leaves the State as it was.
use omnigrex.Prelude.{
  String, Bool, true, not, List, [], ◌∷◌, Option, none, some, ◌&&◌, ◌||◌, if◌then◌else◌, all, any,
  contains, is_empty, text_eq, is_blank, snoc,
}
use omnigrex.Collaboration.Model.Records.{Input, Assessment}
use omnigrex.Collaboration.Model.Planned.{PlanningState}
use omnigrex.Collaboration.Model.States.{State}
use omnigrex.Collaboration.Evidence.Currency.{is_undelivered}
use omnigrex.Collaboration.Interpreting.Resolving.{was_prepared}

unfoldable pub delivered : State → (participant id : String) → Bool
delivered s participant id =
    any (λ x. text_eq x.id id && text_eq x.participant_id participant && not (is_undelivered x))
      s.inputs

abbrev pub is_disposition : String → Bool
is_disposition d =
    text_eq d "changed" || text_eq d "unchanged" || text_eq d "uncertain" || text_eq d "confirmed"

abbrev pub is_confirmation : Input → Bool
is_confirmation x = text_eq x.kind "confirm-plan"

unfoldable pub assessment_valid : State → String → List String → Assessment → Bool
unfolding delivered is_blank
assessment_valid s participant seen a =
    not (
      contains seen a.input_id
      || not (delivered s participant a.input_id)
      || is_blank a.explanation
      || not (any (λ _. true) a.evidence_ids)
      || not (contains a.evidence_ids a.input_id))
    && is_disposition a.disposition
    && all (delivered s participant) a.evidence_ids
    && all (λ id. not (text_eq id a.input_id || not (delivered s participant id))) a.corrects
    && not (
        text_eq a.disposition "confirmed"
        && not (any (λ x. text_eq x.id a.input_id && is_confirmation x) s.inputs))

unfoldable pub assessments_valid : State → String → List String → List Assessment → Bool
assessments_valid s participant seen [] = true
assessments_valid s participant seen (a ∷ rest) =
    assessment_valid s participant seen a
    && assessments_valid s participant (a.input_id ∷ seen) rest

-- Withdraws the confirmations admitted up to the assessed input.
unfoldable pub invalidate_until : String → List Input → List String → List String
invalidate_until id [] invalidated = invalidated
invalidate_until id (x ∷ xs) invalidated =
    let next =
      if is_confirmation x && not (contains invalidated x.id)
      then snoc invalidated x.id
      else invalidated in
    let rest = invalidate_until id xs next in if text_eq x.id id then next else rest

unfoldable pub invalidates : State → Assessment → Bool
invalidates s a =
    a.invalidate_confirmation
    || any
        (λ x.
          text_eq x.id a.input_id && is_confirmation x && not (text_eq a.disposition "confirmed"))
        s.inputs

abbrev pub invalidate_planning :
    List Input → Assessment → Option PlanningState → Option PlanningState
invalidate_planning inputs a none = none
invalidate_planning inputs a (some p) =
    if is_empty p.ready_revision
    then some (record p {
      invalidated_confirmations = invalidate_until a.input_id inputs p.invalidated_confirmations;
    })
    else some p

unfoldable pub apply_assessment : String → State → Assessment → State
unfolding invalidates invalidate_until
apply_assessment operation s a = record s {
  assessments = snoc s.assessments (record a { origin_operation_id = operation });
  planning = if invalidates s a then invalidate_planning s.inputs a s.planning else s.planning;
}

unfoldable pub apply_assessments : String → State → List Assessment → State
apply_assessments operation s [] = s
apply_assessments operation s (a ∷ rest) =
    apply_assessments operation (apply_assessment operation s a) rest

unfoldable pub assess :
    State → (operation participant turn : String) → List Assessment → Option State
unfolding assessments_valid apply_assessments
assess s operation participant turn batch =
    if is_empty operation || not (any (λ _. true) batch) || not (was_prepared s participant turn)
    then none
    else if not (assessments_valid s participant [] batch)
    then none
    else some (apply_assessments operation s batch)
