-- ===== src/Collaboration/Planning/Validating.antt =====
-- ValidatePlanning and PlanningValidationCurrent of internal/collaboration/planning.go; `none` is
-- ErrInvalid.
use omnigrex.Prelude.{
  String, Bool, false, not, List, [], ◌∷◌, Option, none, some, ◌&&◌, ◌||◌, if◌then◌else◌, all,
  contains, is_empty, text_eq, is_blank, Slice, items, first, last, filter, snoc, map,
}
use omnigrex.Collaboration.Model.Records.{Input, Assessment}
use omnigrex.Collaboration.Model.Planned.{
  PlanningRevision, PlanningState, PlanRevalidation, revalidation_eq,
}
use omnigrex.Collaboration.Model.States.{State}
use omnigrex.Collaboration.Evidence.Currency.{
  is_undelivered, pending, unresolved, assessment_blocked, latest_assessment,
}
use omnigrex.Collaboration.Interpreting.Resolving.{was_prepared}
use omnigrex.Collaboration.Planning.Checkpoints.{checkpoint_of, is_proposed}
use omnigrex.Collaboration.Planning.Reserving.{is_commit}

abbrev is_confirmed : Option Assessment → Bool
is_confirmed none = false
is_confirmed (some a) = text_eq a.disposition "confirmed"

unfoldable pub confirmed : State → String → Bool
confirmed s id = is_confirmed (latest_assessment s id)

unfoldable pub validation_blocked :
    State → (operation participant commit evidence : String) → (resolved : Bool) → Bool
unfolding is_commit is_blank
validation_blocked s operation participant commit evidence resolved =
    is_empty operation
    || not resolved
    || not (is_commit commit)
    || is_blank evidence
    || pending s participant
    || unresolved s participant
    || assessment_blocked s participant

-- The participant's inputs that were delivered.
abbrev pub is_read_by : String → Input → Bool
is_read_by participant x = text_eq x.participant_id participant && not (is_undelivered x)

-- An input that confirms the revision and still stands.
unfoldable pub is_standing_confirmation : State → PlanningState → String → Input → Bool
is_standing_confirmation s p revision x =
    text_eq x.kind "confirm-plan"
    && text_eq x.target revision
    && not (contains p.invalidated_confirmations x.id)
    && confirmed s x.id

-- A slice that starts out nil and is appended to.
abbrev pub as_slice : List String → Slice String
as_slice [] = none
as_slice (s ∷ ss) = some (s ∷ ss)

abbrev pub considered_inputs : State → String → Slice String
considered_inputs s participant =
    as_slice (map (λ x. x.id) (filter (is_read_by participant) s.inputs))

-- The last standing confirmation; "" where there is none.
abbrev pub confirmation_of : State → PlanningState → (revision participant : String) → String
confirmation_of s p revision participant =
    elim (last (is_standing_confirmation s p revision) (filter (is_read_by participant) s.inputs)) [
      | none ↦ ""
      | some x ↦ x.id
    ]

abbrev pub new_revalidation :
    State
    → PlanningState
    → (operation revision participant turn commit evidence : String) → PlanRevalidation
new_revalidation s p operation revision participant turn commit evidence = record {
  source_invocation_id = operation;
  revision_id = revision;
  participant_id = participant;
  turn_id = turn;
  repository_commit = commit;
  evidence = evidence;
  confirmation_input_id = confirmation_of s p revision participant;
  considered_input_ids = considered_inputs s participant;
}

abbrev pub is_validatable : (revision participant : String) → PlanningRevision → Bool
is_validatable revision participant r =
    r.published && text_eq r.id revision && text_eq r.participant_id participant && is_proposed r

-- The earlier validation of the Turn is repeated, or there is none and this one is recorded.
unfoldable pub record_validation : State → PlanningState → PlanRevalidation → Option State
record_validation s p v =
    if is_empty v.confirmation_input_id
    then none
    else elim (first (λ old. text_eq old.turn_id v.turn_id) p.revalidations) [
      | some old ↦ if revalidation_eq old v then some s else none
      | none ↦
          if not (is_empty p.ready_revision)
          then none
          else some
              (record s { planning = some (record p { revalidations = snoc p.revalidations v }) })
    ]

unfoldable pub validate_planning :
    State
    → (operation revision participant turn commit evidence : String) → (resolved : Bool)
    → Option State
unfolding validation_blocked record_validation
validate_planning s operation revision participant turn commit evidence resolved =
    if validation_blocked s operation participant commit evidence resolved
    then none
    else elim s.planning [
      | none ↦ none
      | some p ↦ elim (checkpoint_of p) [
        | none ↦ none
        | some r ↦
            if not (is_validatable revision participant r) || not (was_prepared s participant turn)
            then none
            else record_validation s p
                (new_revalidation s p operation revision participant turn commit evidence)
      ]
    ]

unfoldable pub planning_validation_current : State → PlanRevalidation → Bool
planning_validation_current s v = elim s.planning [
  | none ↦ false
  | some p ↦
      text_eq p.current_revision v.revision_id
      && not (pending s v.participant_id)
      && not (assessment_blocked s v.participant_id)
      && not (unresolved s v.participant_id)
      && not (contains p.invalidated_confirmations v.confirmation_input_id)
      && confirmed s v.confirmation_input_id
      && all
          (λ x.
            not (text_eq x.participant_id v.participant_id)
            || contains (items v.considered_input_ids) x.id)
          s.inputs
]
