-- ===== src/Collaboration/Evidence/Currency.antt =====
-- latestResolution, questionInRound, resolutionCurrent, canRevise, latestAssessment and
-- AssessmentBlocked, Unresolved, Pending of internal/collaboration.
use omnigrex.Prelude.{
  String, Bool, true, not, List, [], ◌∷◌, Option, none, some, ◌&&◌, ◌||◌, if◌then◌else◌, all, any,
  contains, is_empty, text_eq, leb, last, items,
}
use omnigrex.Collaboration.Model.Records.{Round, Question, Resolution, Input, Assessment}
use omnigrex.Collaboration.Model.States.{State}
use omnigrex.Collaboration.Evidence.Lineage.{amends, is_amendment_of_evidence, explicitly_corrects}

abbrev pub asks : String → Round → Bool
asks question r = any (λ q. text_eq q.id question) r.questions

abbrev pub latest_of : String → List Resolution → Option Resolution
latest_of question = last (λ r. text_eq r.question_id question)

unfoldable pub latest_resolution : Round → String → Option Resolution
latest_resolution round question = latest_of question round.resolutions

unfoldable pub question_in_round : State → String → String → String → Bool
question_in_round s round question participant =
    any (λ r. text_eq r.id round && text_eq r.participant_id participant && asks question r)
      s.rounds

-- `isAmendmentOfEvidence(id, prior) || explicitlyCorrects(id, prior)`.
unfoldable pub supersedes_evidence : State → String → String → Bool
supersedes_evidence s id prior =
    is_amendment_of_evidence s id prior || explicitly_corrects s id prior

-- The test that passes over an input in resolutionCurrent.
unfoldable pub is_considered : State → Resolution → Input → Bool
unfolding amends
is_considered s r x =
    contains (items r.response_ids) x.id
    || contains r.considered_response_ids x.id
    || any (λ cited. amends s cited x.id) (items r.response_ids)

unfoldable pub competes : State → Resolution → Input → Bool
competes s r x = any (λ id. supersedes_evidence s x.id id) (items r.response_ids)

unfoldable pub resolution_current : State → Resolution → Bool
resolution_current s r =
    r.obsolete || all (λ x. is_considered s r x || not (competes s r x)) s.inputs

unfoldable pub can_revise : State → Option Resolution → Resolution → Bool
can_revise s none next = true
can_revise s (some old) next =
    old.obsolete
    || next.obsolete
    || any (λ id. any (λ prior. supersedes_evidence s id prior) (items old.response_ids))
        (items next.response_ids)

unfoldable pub latest_assessment : State → String → Option Assessment
latest_assessment s id = last (λ a. text_eq a.input_id id) s.assessments

-- Assigned to no Turn, or not read there yet.
unfoldable pub is_undelivered : Input → Bool
is_undelivered x = is_empty x.delivered_to || x.delivery_pending

abbrev is_unsettled : Option Assessment → Bool
is_unsettled none = true
is_unsettled (some a) = text_eq a.disposition "uncertain"

unfoldable pub assessment_blocked : State → String → Bool
assessment_blocked s participant =
    any
      (λ x.
        text_eq x.participant_id participant
        && (is_undelivered x || is_unsettled (latest_assessment s x.id)))
      s.inputs

unfoldable pub pending : State → String → Bool
pending s participant = any (λ x. text_eq x.participant_id participant && is_undelivered x) s.inputs

-- A decision that is missing or no longer current.
unfoldable pub is_open_decision : State → Option Resolution → Bool
is_open_decision s none = true
is_open_decision s (some r) = not (resolution_current s r)

-- The map `effective` of Unresolved.
abbrev Decisions : Type 0
Decisions = List (String × Resolution)

abbrev decide : Decisions → String → Resolution → Decisions
decide [] question r = (question, r) ∷ []
decide ((q, old) ∷ ds) question r =
    let rest = decide ds question r in
    if text_eq q question
    then (if leb old.sequence r.sequence then (q, r) ∷ ds else (q, old) ∷ ds)
    else (q, old) ∷ rest

abbrev decide_questions : Round → Decisions → List Question → Decisions
decide_questions round ds [] = ds
decide_questions round ds (q ∷ qs) =
    decide_questions round
      (elim (latest_resolution round q.id) [ none ↦ ds | some r ↦ decide ds q.id r ]) qs

abbrev decide_rounds : String → Decisions → List Round → Decisions
decide_rounds participant ds [] = ds
decide_rounds participant ds (round ∷ rounds) =
    decide_rounds participant
      (if not (text_eq round.participant_id participant) || not round.published
        then ds
        else decide_questions round ds round.questions)
      rounds

unfoldable pub effective_decisions : State → String → Decisions
unfolding latest_resolution
effective_decisions s participant = decide_rounds participant [] s.rounds

unfoldable pub unresolved : State → String → Bool
unresolved s participant =
    any (λ (_, r). not (resolution_current s r)) (effective_decisions s participant)
    || any
        (λ round.
          text_eq round.id s.current_round
          && text_eq round.participant_id participant
          && any (λ q. is_open_decision s (latest_resolution round q.id)) round.questions)
        s.rounds
