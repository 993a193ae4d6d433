-- ===== src/Collaboration/Interpreting/Effects.antt =====
-- HasResolutionEffect, Assessment.Equal and HasAssessmentEffect of internal/collaboration.
use omnigrex.Prelude.{
  bool_eq, String, Bool, true, not, List, ◌&&◌, ◌||◌, all, any, is_empty, text_eq, deep_eq,
  texts_eq,
}
use omnigrex.Collaboration.Model.Records.{Round, Resolution, Assessment}
use omnigrex.Collaboration.Model.States.{State}

-- reflect.DeepEqual where sequence, origin and coverage are cleared on both sides.
unfoldable pub same_interpretation : Resolution → Resolution → Bool
same_interpretation actual wanted =
    bool_eq actual.obsolete wanted.obsolete
    && text_eq actual.question_id wanted.question_id
    && deep_eq actual.response_ids wanted.response_ids
    && text_eq actual.explanation wanted.explanation

unfoldable pub has_resolution_effect : Round → String → List Resolution → Bool
unfolding same_interpretation
has_resolution_effect r operation resolutions =
    not (is_empty operation || not (any (λ _. true) resolutions))
    && all
        (λ wanted.
          any
            (λ actual.
              text_eq actual.origin_operation_id operation && same_interpretation actual wanted)
            r.resolutions)
        resolutions

unfoldable pub assessment_eq : Assessment → Assessment → Bool
assessment_eq a b =
    text_eq a.origin_operation_id b.origin_operation_id
    && text_eq a.input_id b.input_id
    && texts_eq a.evidence_ids b.evidence_ids
    && text_eq a.disposition b.disposition
    && text_eq a.explanation b.explanation
    && texts_eq a.corrects b.corrects
    && bool_eq a.invalidate_confirmation b.invalidate_confirmation

unfoldable pub has_assessment_effect : State → String → List Assessment → Bool
unfolding assessment_eq
has_assessment_effect s operation batch =
    not (is_empty operation || not (any (λ _. true) batch))
    && all
        (λ a.
          any (λ actual. assessment_eq actual (record a { origin_operation_id = operation }))
            s.assessments)
        batch
