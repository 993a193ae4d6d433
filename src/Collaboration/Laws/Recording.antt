-- ===== src/Collaboration/Laws/Recording.antt =====
-- What Assess records, and what the record says of it.
use omnigrex.Prelude.{
  String, Bool, true, false, not, List, [], ◌∷◌, ◌++◌, map, none, some, ◌||◌, ◌≡◌, refl, subst, sym,
  ◌∙◌, arith, all, any, bool_eq, is_empty, texts_eq_self, text_eq_self, snoc, or_right, any-snoc,
  Gives, if-Gives, Gives-some, snoc_append, append_nil, any_append_left,
}
use omnigrex.Collaboration.Model.Records.{Assessment}
use omnigrex.Collaboration.Model.States.{State}
use omnigrex.Collaboration.Interpreting.Resolving.{was_prepared}
use omnigrex.Collaboration.Interpreting.Assessing.{
  assess, assessments_valid, apply_assessment, apply_assessments,
}
use omnigrex.Collaboration.Interpreting.Effects.{assessment_eq, has_assessment_effect}

pub bool_eq_self : (b : Bool) → bool_eq b b ≡ true
bool_eq_self true = refl
bool_eq_self false = refl

assessment_eq_self : (a : Assessment) → assessment_eq a a ≡ true
unfolding assessment_eq
assessment_eq_self a =
    rw
      (
        text_eq_self a.origin_operation_id,
        text_eq_self a.input_id,
        texts_eq_self a.evidence_ids,
        text_eq_self a.disposition,
        text_eq_self a.explanation,
        texts_eq_self a.corrects,
        bool_eq_self a.invalidate_confirmation,
      )
      refl

abbrev pub from_operation : String → Assessment → Assessment
from_operation operation a = record a { origin_operation_id = operation }

apply_assessments-append :
    (operation : String) (s : State) (batch : List Assessment)
    → (apply_assessments operation s batch).assessments
      ≡ (s.assessments ++ map (from_operation operation) batch)
unfolding apply_assessments apply_assessment
apply_assessments-append operation s [] = sym (append_nil s.assessments)
apply_assessments-append operation s (a ∷ batch) =
    apply_assessments-append operation (apply_assessment operation s a) batch
    ∙ snoc_append s.assessments (from_operation operation a) (map (from_operation operation) batch)

apply_assessments-frame :
    (operation : String) (s : State) (batch : List Assessment)
    → ((apply_assessments operation s batch).inputs ≡ s.inputs)
      × ((apply_assessments operation s batch).rounds ≡ s.rounds)
unfolding apply_assessments apply_assessment
apply_assessments-frame operation s [] = (refl, refl)
apply_assessments-frame operation s (a ∷ batch) =
    apply_assessments-frame operation (apply_assessment operation s a) batch

abbrev is_effect : Assessment → Assessment → Bool
is_effect a actual = assessment_eq actual a

recorded_all :
    (operation : String) (before batch : List Assessment)
    → all
        (λ a.
          any
            (is_effect (from_operation operation a))
            (before ++ map (from_operation operation) batch))
        batch
      ≡ true
recorded_all operation before [] = refl
recorded_all operation before (a ∷ batch) =
    let x = from_operation operation a in
    let rest = map (from_operation operation) batch in
    let here =
      any-snoc (is_effect x) before x
      ∙ or_right (any (is_effect x) before) _ (assessment_eq_self x) in
    subst (λ l. all (λ b. any (is_effect (from_operation operation b)) l) (a ∷ batch) ≡ true)
      (snoc_append before x rest)
      (rw (any_append_left (is_effect x) (snoc before x) rest here)
        (recorded_all operation (snoc before x) batch))

assess_checked :
    (s : State) (operation participant turn : String) (batch : List Assessment)
    → Gives
        (λ next.
          (next ≡ apply_assessments operation s batch)
          × ((is_empty operation || not (any (λ _. true) batch)) ≡ false))
        (assess s operation participant turn batch)
unfolding assess
assess_checked s operation participant turn batch =
    if-Gives _
      (is_empty operation || not (any (λ _. true) batch) || not (was_prepared s participant turn))
      none _ (λ _. tt)
      λ e.
        if-Gives _ (not (assessments_valid s participant [] batch)) none _ (λ _. tt)
          λ _. (refl, ground arith)

-- A batch that Assess takes is recorded whole, in its order, after what was recorded before and in the
-- name of the operation; the inputs and rounds stay as they are, and HasAssessmentEffect then confirms
-- the batch.
pub assess-recorded :
    (s next : State) (operation participant turn : String) (batch : List Assessment)
    → assess s operation participant turn batch ≡ some next
    → (next.assessments ≡ (s.assessments ++ map (from_operation operation) batch))
      × ((next.inputs ≡ s.inputs) × (next.rounds ≡ s.rounds))
      × (has_assessment_effect next operation batch ≡ true)
unfolding has_assessment_effect
assess-recorded s next operation participant turn batch e =
    let (same, given) = Gives-some _ _ e (assess_checked s operation participant turn batch) in
    let appended = apply_assessments-append operation s batch in
    rw same (
      appended,
      apply_assessments-frame operation s batch,
      rw (given, appended) (recorded_all operation s.assessments batch),
    )
