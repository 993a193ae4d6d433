-- ===== src/Collaboration/Interpreting/Resolving.antt =====
-- Resolve of internal/collaboration/model.go; `none` is ErrInvalid. The coverage that Resolve freezes
-- is also written to the caller's batch, which is not part of the State.
use omnigrex.Prelude.{
  String, Bool, true, not, List, [], ◌∷◌, Option, none, some, ◌&&◌, ◌||◌, if◌then◌else◌, inc_64,
  all, any, contains, is_empty, is_nil, map, text_eq, is_blank, first, filter, snoc, items,
  update_first, update_all,
}
use omnigrex.Collaboration.Model.Records.{Round, Resolution, Input}
use omnigrex.Collaboration.Model.States.{State}
use omnigrex.Collaboration.Evidence.Currency.{
  asks, latest_resolution, question_in_round, supersedes_evidence, competes, can_revise,
  is_undelivered, resolution_current,
}

abbrev pub was_prepared : State → (participant turn : String) → Bool
was_prepared s participant turn =
    any (λ p. text_eq p.participant_id participant && text_eq p.turn_id turn) s.preparations

-- The round is the current one of the same owner, and still asks the question.
abbrev pub still_asks : State → Round → String → Round → Bool
still_asks s r question current =
    text_eq current.id s.current_round
    && text_eq current.participant_id r.participant_id
    && asks question current

-- A historical interpretation must be able to revise the current decision as well.
unfoldable pub governs_current : State → Round → Resolution → Bool
unfolding latest_resolution
governs_current s r resolution =
    is_empty r.superseded_by
    || all
        (λ current. not (
          still_asks s r resolution.question_id current
          && not (can_revise s (latest_resolution current resolution.question_id) resolution)))
        s.rounds

-- An interpretation recorded before for the question, whose evidence the input supersedes.
abbrev pub supersedes_recorded : State → Round → String → Input → Bool
supersedes_recorded s r question x =
    any
      (λ old.
        text_eq old.question_id question
        && any (λ prior. supersedes_evidence s x.id prior) (items old.response_ids))
      r.resolutions

-- Delivered evidence of the round's owner that bears on the question.
unfoldable pub is_scoped_evidence : State → Round → String → String → Input → Bool
unfolding question_in_round
is_scoped_evidence s r question id x =
    text_eq x.id id
    && not (is_undelivered x)
    && text_eq x.participant_id r.participant_id
    && (is_empty x.round_id
        || question_in_round s x.round_id question r.participant_id
        || supersedes_recorded s r question x)

unfoldable pub resolution_valid : State → Round → List String → Resolution → Bool
unfolding governs_current latest_resolution is_blank
resolution_valid s r seen resolution =
    not (contains seen resolution.question_id)
    && not (
        is_blank resolution.explanation
        || not (any (λ _. true) (items resolution.response_ids)) && not resolution.obsolete)
    && asks resolution.question_id r
    && (is_empty r.superseded_by || not (is_nil (latest_resolution r resolution.question_id)))
    && can_revise s (latest_resolution r resolution.question_id) resolution
    && governs_current s r resolution
    && all (λ id. any (is_scoped_evidence s r resolution.question_id id) s.inputs)
        (items resolution.response_ids)

unfoldable pub resolutions_valid : State → Round → List String → List Resolution → Bool
resolutions_valid s r seen [] = true
resolutions_valid s r seen (resolution ∷ rest) =
    resolution_valid s r seen resolution
    && resolutions_valid s r (resolution.question_id ∷ seen) rest

-- The delivered evidence that competes with a Resolution.
unfoldable pub considered : State → Resolution → List String
considered s resolution =
    map (λ x. x.id) (filter (λ x. not (is_undelivered x) && competes s resolution x) s.inputs)

abbrev pub freeze : State → Resolution → Resolution
freeze s resolution = record resolution { considered_response_ids = considered s resolution }

abbrev pub record_resolution : Resolution → Round → Round
record_resolution resolution r = record r { resolutions = snoc r.resolutions resolution }

-- `r` is the addressed round; its owner and its successor do not change.
abbrev pub apply_resolution : Round → State → Resolution → State
apply_resolution r s resolution =
    let numbered = record resolution { sequence = inc_64 s.interpretation_sequence } in
    let rounds = update_first (λ x. text_eq x.id r.id) (record_resolution numbered) s.rounds in
    record s {
      interpretation_sequence = inc_64 s.interpretation_sequence;
      rounds =
          if is_empty r.superseded_by
          then rounds
          else update_all (still_asks s r resolution.question_id) (record_resolution numbered)
              rounds;
    }

unfoldable pub apply_resolutions : Round → State → List Resolution → State
apply_resolutions r s [] = s
apply_resolutions r s (resolution ∷ rest) =
    apply_resolutions r (apply_resolution r s resolution) rest

abbrev pub resolve_round : State → Round → (turn : String) → List Resolution → Option State
resolve_round s r turn resolutions =
    let frozen = map (freeze s) resolutions in
    if not r.published || not (was_prepared s r.participant_id turn)
    then none
    else if not (resolutions_valid s r [] resolutions)
    then none
    else if not (all (resolution_current s) frozen)
    then none
    else some (apply_resolutions r s frozen)

unfoldable pub resolve : State → (round turn : String) → List Resolution → Option State
unfolding resolutions_valid considered apply_resolutions
resolve s round turn resolutions = elim (first (λ r. text_eq r.id round) s.rounds) [
  | none ↦ none
  | some r ↦ resolve_round s r turn resolutions
]
