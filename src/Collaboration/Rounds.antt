-- ===== src/Collaboration/Rounds.antt =====
-- Request, Publish and FailPublication of internal/collaboration/model.go; `none` is ErrInvalid, which
-- leaves the State as it was.
use omnigrex.Prelude.{
  String, Bool, true, false, not, List, [], ◌∷◌, Option, none, some, ◌&&◌, ◌||◌, if◌then◌else◌, all,
  any, contains, is_empty, text_eq, is_blank, first, last, snoc, update_first, update_all,
  concat_map,
}
use omnigrex.Collaboration.Model.Records.{Source, Question, Resolution, Purpose, Round, source_eq}
use omnigrex.Collaboration.Model.States.{State}
use omnigrex.Collaboration.References.{reference}
use omnigrex.Collaboration.Evidence.Currency.{
  latest_resolution, resolution_current, is_open_decision,
}

-- Reserved, and neither delivered nor known to have failed.
abbrev pub is_open : Round → Bool
is_open r = not r.published && not r.publication_failed

-- A question identity keeps its body in all rounds.
abbrev pub body_stable : List Round → Question → Bool
body_stable rounds q =
    all (λ r. all (λ old. not (text_eq old.id q.id && not (text_eq old.body q.body))) r.questions)
      rounds

unfoldable pub questions_valid : List Round → List String → List Question → Bool
unfolding is_blank
questions_valid rounds seen [] = true
questions_valid rounds seen (q ∷ qs) =
    not (is_empty q.id || is_blank q.body || contains seen q.id)
    && body_stable rounds q
    && questions_valid rounds (q.id ∷ seen) qs

abbrev pub is_previous : State → String → Round → Bool
is_previous s participant r = text_eq r.id s.current_round && text_eq r.participant_id participant

abbrev carries : String → Question → Bool
carries id q = text_eq q.id id || text_eq q.replaces id

-- Every question of the previous round is resolved or carried on.
unfoldable pub questions_carried : State → String → List Question → Bool
questions_carried s participant questions =
    all
      (λ previous.
        not (is_previous s participant previous)
        || all
            (λ old.
              not (is_open_decision s (latest_resolution previous old.id))
              || any (carries old.id) questions)
            previous.questions)
      s.rounds

abbrev pub inherited_from : State → Round → Question → List Resolution
inherited_from s previous q = elim (latest_resolution previous q.id) [
  | none ↦ []
  | some old ↦ if resolution_current s old then old ∷ [] else []
]

-- The unchanged decisions that a new round takes over.
unfoldable pub inherited : State → String → List Question → List Resolution
inherited s participant questions =
    concat_map
      (λ previous.
        if is_previous s participant previous
        then concat_map (inherited_from s previous) questions
        else [])
      s.rounds

-- "" where there is no current round.
abbrev pub current_reference : State → String
current_reference s = elim (last (λ r. text_eq r.id s.current_round) s.rounds) [
  | none ↦ ""
  | some r ↦ r.reference
]

unfoldable pub request_refused : State → String → String → String → List Question → Bool
unfolding questions_valid questions_carried
request_refused s id participant turn questions =
    is_empty id
    || is_empty participant
    || is_empty turn
    || not (any (λ _. true) questions)
    || any (λ r. is_open r || text_eq r.id id) s.rounds
    || not (questions_valid s.rounds [] questions)
    || not (questions_carried s participant questions)

-- The round that Request reserves.
unfoldable pub requested_round :
    State → (name id participant turn head : String) → List Question → Round
unfolding inherited
requested_round s name id participant turn head questions = record {
  supersedes_reference = current_reference s;
  artifact = none;
  reference = name;
  introduction = "";
  publication_failed = false;
  supersedes = s.current_round;
  id = id;
  purpose = Purpose.clarification;
  participant_id = participant;
  turn_id = turn;
  head_sha = head;
  questions = questions;
  resolutions = inherited s participant questions;
  superseded_by = "";
  published = false;
  source = none;
}

unfoldable pub request :
    State → (id participant turn head : String) → List Question → Option (Round × State)
unfolding request_refused requested_round reference
request s id participant turn head questions =
    if request_refused s id participant turn questions
    then none
    else let (name, next) = reference s "R" id in
      let r = requested_round s name id participant turn head questions in
      some (r, record next { rounds = snoc next.rounds r })

abbrev pub supersede : State → String → List Round → List Round
supersede s id rounds =
    if is_empty s.current_round
    then rounds
    else update_all (λ r. text_eq r.id s.current_round) (λ r. record r { superseded_by = id })
        rounds

-- `r.Source != nil && *r.Source == source`.
abbrev pub same_delivery : Option Source → Source → Bool
same_delivery none source = false
same_delivery (some old) source = source_eq old source

unfoldable pub publish : State → String → Source → Option State
publish s id source = elim (first (λ r. text_eq r.id id) s.rounds) [
  | none ↦ none
  | some r ↦
      if r.publication_failed
      then none
      else if r.published
      then (if same_delivery r.source source then some s else none)
      else some (record s {
        rounds =
            update_first (λ x. text_eq x.id id)
              (λ x. record x { published = true; source = some source }) (supersede s id s.rounds);
        current_round = id;
      })
]

unfoldable pub fail_publication : State → String → Option State
fail_publication s id = elim (first (λ r. text_eq r.id id) s.rounds) [
  | none ↦ none
  | some r ↦
      if r.published
      then none
      else some (record s {
        rounds =
            update_first (λ x. text_eq x.id id) (λ x. record x { publication_failed = true })
              s.rounds;
      })
]
