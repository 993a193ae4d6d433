-- ===== src/Collaboration/Planning/Reserving.antt =====
-- CheckpointInputReason and ReserveCheckpoint of internal/collaboration/planning.go. The slices that
-- the source clones are the same values; texts are Unicode, so utf8.ValidString holds of each.
use omnigrex.Prelude.{
  ℕ, String, Bool, true, false, not, List, [], ◌∷◌, ◌++◌, Option, none, some, ◌&&◌, ◌||◌, ◌==◌,
  if◌then◌else◌, all, any, contains, is_empty, text_eq, is_blank, codes, between, length, first,
  snoc, items,
}
use omnigrex.Collaboration.Model.Records.{Input}
use omnigrex.Collaboration.Model.Planned.{
  PlanningContent, PlanningRevision, PlanningState, CheckpointNotApplied, content_eq,
  discovery_procedure_version,
}
use omnigrex.Collaboration.Model.States.{State}
use omnigrex.Collaboration.References.{reference}
use omnigrex.Collaboration.Evidence.Currency.{pending, unresolved, assessment_blocked}
use omnigrex.Collaboration.Interpreting.Resolving.{was_prepared}
use omnigrex.Collaboration.Planning.Checkpoints.{checkpoint_of}

unfoldable pub checkpoint_input_reason : State → String → String
checkpoint_input_reason s participant =
    if any (λ x. text_eq x.participant_id participant && x.delivery_pending) s.inputs
    then "unread_input"
    else if pending s participant
    then "late_input"
    else ""

abbrev is_hexadecimal : ℕ → Bool
is_hexadecimal c = between b'0' b'9' c || between b'a' b'f' c

-- planningCommit: 40 or 64 hexadecimal digits.
unfoldable pub is_commit : String → Bool
is_commit commit =
    let cs = codes commit in (length cs == 40 || length cs == 64) && all is_hexadecimal cs

abbrev is_blank_or_nul : String → Bool
is_blank_or_nul v = is_blank v || any (λ c. c == 0) (codes v)

-- The structural checks of a content.
unfoldable pub content_valid : PlanningContent → Bool
unfolding is_commit is_blank
content_valid c =
    not (
      any is_blank_or_nul
        (c.title ∷ c.summary ∷ c.changes ∷ c.requirements_brief ∷ c.technical_plan ∷ []))
    && (text_eq c.status "draft" || text_eq c.status "proposed")
    && is_commit c.investigated_commit
    && any (λ _. true) (items c.evidence)
    && not (any is_blank (items c.evidence ++ items c.unresolved_decisions))

-- What the earlier revisions say of a reservation.
pub data Earlier : Type 0 where
  fresh : Earlier
  replayed : PlanningRevision → Earlier
  blocked : Earlier

unfoldable pub earlier_revision :
    List PlanningRevision → (id participant turn : String) → PlanningContent → Earlier
earlier_revision [] id participant turn c = Earlier.fresh
earlier_revision (r ∷ rs) id participant turn c =
    let rest = earlier_revision rs id participant turn c in
    if text_eq r.id id
    then (if text_eq r.participant_id participant
          && text_eq r.turn_id turn
          && content_eq r.content c
        then Earlier.replayed r
        else Earlier.blocked)
    else if not r.published && not r.publication_failed
    then Earlier.blocked
    else rest

-- An input that a checkpoint may decide by.
unfoldable pub is_decision : (participant turn response : String) → Input → Bool
is_decision participant turn response x =
    text_eq x.id response
    && text_eq x.participant_id participant
    && not (is_empty x.delivered_to)
    && (not x.delivery_pending || text_eq x.delivered_to turn)
    && not (text_eq x.kind "confirm-plan")

unfoldable pub collect_decisions :
    List Input → (participant turn : String) → List String → List String → Option (List Input)
unfolding is_decision
collect_decisions inputs participant turn seen [] = some []
collect_decisions inputs participant turn seen (response ∷ rest) =
    let later = collect_decisions inputs participant turn (response ∷ seen) rest in
    if contains seen response
    then none
    else elim (first (is_decision participant turn response) inputs) [
      | none ↦ none
      | some x ↦ elim later [ none ↦ none | some xs ↦ some (x ∷ xs) ]
    ]

abbrev pub reference_of_current : PlanningState → String
reference_of_current p = elim (checkpoint_of p) [ none ↦ "" | some r ↦ r.reference ]

-- The revision that ReserveCheckpoint builds.
abbrev pub new_revision :
    PlanningState
    → (name id participant turn : String) → PlanningContent
    → List Input
    → PlanningRevision
new_revision p name id participant turn c decisions = record {
  artifact = none;
  reference = name;
  supersedes_reference = reference_of_current p;
  id = id;
  supersedes = p.current_revision;
  participant_id = participant;
  turn_id = turn;
  procedure_version = discovery_procedure_version;
  content = c;
  original_request = p.original_request;
  decisions = decisions;
  publication_failed = false;
  published = false;
  source = none;
}

-- ErrInvalid and CheckpointNotApplied are the errors; the second one is recorded in the State.
pub data Reservation : Type 0 where
  reserved : PlanningRevision → State → Reservation
  not_applied : CheckpointNotApplied → State → Reservation
  invalid : Reservation

abbrev pub new_rejection :
    (id participant turn : String) → PlanningContent → (reason : String) → CheckpointNotApplied
new_rejection id participant turn c reason = record {
  operation_id = id;
  participant_id = participant;
  turn_id = turn;
  content = c;
  reason = reason;
}

abbrev pub reject_checkpoint : State → PlanningState → CheckpointNotApplied → Reservation
reject_checkpoint s p rejection =
    let (_, next) = reference s "P" rejection.operation_id in
    Reservation.not_applied rejection (record next {
      planning = some (record p { non_publications = snoc p.non_publications rejection });
    })

-- A proposal leaves nothing open.
abbrev pub proposal_blocked : State → String → PlanningContent → Bool
proposal_blocked s participant c =
    text_eq c.status "proposed"
    && (any (λ _. true) (items c.unresolved_decisions)
        || assessment_blocked s participant
        || unresolved s participant)

abbrev pub reserve_decided :
    State
    → PlanningState
    → (id participant turn : String) → PlanningContent
    → List Input
    → Reservation
reserve_decided s p id participant turn c decisions =
    let reason = checkpoint_input_reason s participant in
    if not (is_empty reason)
    then reject_checkpoint s p (new_rejection id participant turn c reason)
    else if proposal_blocked s participant c
    then Reservation.invalid
    else let (name, next) = reference s "P" id in
      let r = new_revision p name id participant turn c decisions in
      Reservation.reserved r
        (record next { planning = some (record p { revisions = snoc p.revisions r }) })

abbrev pub reserve_fresh :
    State → PlanningState → (id participant turn : String) → PlanningContent → Reservation
reserve_fresh s p id participant turn c =
    if not (content_valid c) || not (was_prepared s participant turn)
    then Reservation.invalid
    else elim (collect_decisions s.inputs participant turn [] (items c.decision_response_ids)) [
      | none ↦ Reservation.invalid
      | some decisions ↦ reserve_decided s p id participant turn c decisions
    ]

-- A revision that was reserved before is returned again.
abbrev pub reserve_after :
    State → PlanningState → (id participant turn : String) → PlanningContent → Earlier → Reservation
reserve_after s p id participant turn c Earlier.fresh = reserve_fresh s p id participant turn c
reserve_after s p id participant turn c (Earlier.replayed r) = Reservation.reserved r s
reserve_after s p id participant turn c Earlier.blocked = Reservation.invalid

unfoldable pub same_rejection :
    CheckpointNotApplied → (participant turn : String) → PlanningContent → Bool
same_rejection rejection participant turn c =
    text_eq rejection.participant_id participant
    && text_eq rejection.turn_id turn
    && content_eq rejection.content c

abbrev pub reserve_planned :
    State → PlanningState → (id participant turn : String) → PlanningContent → Reservation
reserve_planned s p id participant turn c =
    elim (first (λ rejection. text_eq rejection.operation_id id) p.non_publications) [
      | some rejection ↦
          if same_rejection rejection participant turn c
          then Reservation.not_applied rejection s
          else Reservation.invalid
      | none ↦
          reserve_after s p id participant turn c
            (earlier_revision p.revisions id participant turn c)
    ]

unfoldable pub reserve_checkpoint :
    State → (id participant turn : String) → PlanningContent → Reservation
unfolding same_rejection earlier_revision content_valid collect_decisions checkpoint_input_reason
reserve_checkpoint s id participant turn c = elim s.planning [
  | none ↦ Reservation.invalid
  | some p ↦
      if is_empty id || is_empty participant || is_empty turn || not (is_empty p.ready_revision)
      then Reservation.invalid
      else reserve_planned s p id participant turn c
]
