-- ===== src/Collaboration/Planning/Checkpoints.antt =====
-- StartPlanning, CurrentCheckpoint, ConfirmCheckpoint, FailCheckpoint, AwaitingPlanConfirmation and
-- planningConfirmationTarget of internal/collaboration/planning.go. cloneRevision copies the slices of a
-- revision and is the identity on values; texts are Unicode, so utf8.ValidString holds of each.
use omnigrex.Prelude.{
  String, Bool, true, false, not, List, [], Option, none, some, ◌&&◌, ◌||◌, if◌then◌else◌, is_empty,
  is_nil, text_eq, is_blank, append, first, update_first,
}
use omnigrex.Collaboration.Model.Records.{Source}
use omnigrex.Collaboration.Model.Planned.{
  OriginalRequest, PlanningRevision, PlanningState, request_eq,
}
use omnigrex.Collaboration.Model.States.{State}
use omnigrex.Collaboration.Evidence.Currency.{unresolved, assessment_blocked}
use omnigrex.Collaboration.Rounds.{same_delivery}

-- `&PlanningState{OriginalRequest: original}`.
abbrev pub new_planning : OriginalRequest → PlanningState
new_planning original = record {
  invalidated_confirmations = [];
  non_publications = [];
  original_request = original;
  revisions = [];
  current_revision = "";
  ready_revision = "";
  revalidations = [];
}

unfoldable pub start_planning : State → OriginalRequest → Option State
unfolding is_blank
start_planning s original = elim s.planning [
  | some planning ↦ if request_eq planning.original_request original then some s else none
  | none ↦
      if is_blank original.title || is_empty original.source.channel || is_empty original.source.id
      then none
      else some (record s { planning = some (new_planning original) })
]

abbrev pub checkpoint_of : PlanningState → Option PlanningRevision
checkpoint_of p = first (λ r. text_eq r.id p.current_revision) p.revisions

unfoldable pub current_checkpoint : State → Option PlanningRevision
current_checkpoint s = elim s.planning [ none ↦ none | some p ↦ checkpoint_of p ]

abbrev pub confirm_revision : String → Source → List PlanningRevision → List PlanningRevision
confirm_revision id source =
    update_first (λ r. text_eq r.id id) (λ r. record r { published = true; source = some source })

unfoldable pub confirm_checkpoint : State → String → Source → Option State
confirm_checkpoint s id source = elim s.planning [
  | none ↦ none
  | some p ↦
      if is_empty source.channel || is_empty source.id
      then none
      else elim (first (λ r. text_eq r.id id) p.revisions) [
        | none ↦ none
        | some r ↦
            if r.publication_failed
            then none
            else if r.published
            then (if same_delivery r.source source then some s else none)
            else some (record s {
              planning = some (record p {
                revisions = confirm_revision id source p.revisions;
                current_revision = id;
              });
            })
      ]
]

abbrev pub is_reserved : String → PlanningRevision → Bool
is_reserved id r = text_eq r.id id && not r.published

unfoldable pub fail_checkpoint : State → String → Option State
fail_checkpoint s id = elim s.planning [
  | none ↦ none
  | some p ↦
      if is_nil (first (is_reserved id) p.revisions)
      then none
      else some (record s {
        planning = some (record p {
          revisions =
              update_first (is_reserved id) (λ r. record r { publication_failed = true })
                p.revisions;
        });
      })
]

-- `s.Planning.ReadyRevision`, read where a checkpoint is current.
abbrev pub ready_revision_of : State → String
ready_revision_of s = elim s.planning [ none ↦ "" | some p ↦ p.ready_revision ]

unfoldable pub is_proposed : PlanningRevision → Bool
is_proposed r = text_eq r.content.status "proposed"

unfoldable pub awaiting_plan_confirmation : State → String → Bool
unfolding current_checkpoint
awaiting_plan_confirmation s participant = elim (current_checkpoint s) [
  | none ↦ false
  | some r ↦
      r.published
      && is_proposed r
      && text_eq r.participant_id participant
      && not (unresolved s participant)
      && not (assessment_blocked s participant)
      && is_empty (ready_revision_of s)
]

abbrev pub confirmable : State → PlanningRevision → String → String → Bool
confirmable s r target participant =
    r.published
    && is_proposed r
    && text_eq r.id target
    && text_eq r.participant_id participant
    && is_empty (ready_revision_of s)

-- The feedback of planningConfirmationTarget.
abbrev pub review_pair : String → String
review_pair id = append "Please review the current proposed pair (" (
    append id
      ") and use its short reference, for example `/omnigrex confirm-plan P2`. Draft, replaced and completed pairs cannot be confirmed.")

unfoldable pub planning_confirmation_target : State → String → String → String
unfolding current_checkpoint
planning_confirmation_target s target participant = elim (current_checkpoint s) [
  | none ↦ review_pair "none"
  | some r ↦ if confirmable s r target participant then "" else review_pair r.reference
]
