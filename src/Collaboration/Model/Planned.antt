-- ===== src/Collaboration/Model/Planned.antt =====
-- The records of internal/collaboration/planning.go.
use omnigrex.Prelude.{String, Bool, List, Option, ◌&&◌, Slice, deep_eq, text_eq}
use omnigrex.Collaboration.Model.Records.{Source, RenderedPublication, Input, source_eq}

abbrev pub discovery_procedure_version : String
discovery_procedure_version = "omnigrex-discovery/v2"

pub record OriginalRequest : Type 0 where
  pub title : String
  pub body : String
  pub source : Source

-- `==` of two OriginalRequests.
unfoldable pub request_eq : OriginalRequest → OriginalRequest → Bool
request_eq a b = text_eq a.title b.title && text_eq a.body b.body && source_eq a.source b.source

pub record PlanningContent : Type 0 where
  pub summary : String
  pub unresolved_decisions : Slice String
  pub title : String
  pub status : String
  pub changes : String
  pub requirements_brief : String
  pub technical_plan : String
  pub investigated_commit : String
  pub evidence : Slice String
  pub decision_response_ids : Slice String

-- reflect.DeepEqual of two contents.
unfoldable pub content_eq : PlanningContent → PlanningContent → Bool
content_eq a b =
    text_eq a.summary b.summary
    && deep_eq a.unresolved_decisions b.unresolved_decisions
    && text_eq a.title b.title
    && text_eq a.status b.status
    && text_eq a.changes b.changes
    && text_eq a.requirements_brief b.requirements_brief
    && text_eq a.technical_plan b.technical_plan
    && text_eq a.investigated_commit b.investigated_commit
    && deep_eq a.evidence b.evidence
    && deep_eq a.decision_response_ids b.decision_response_ids

pub record PlanningRevision : Type 0 where
  pub artifact : Option RenderedPublication
  pub reference : String
  pub supersedes_reference : String
  pub id : String
  pub supersedes : String
  pub participant_id : String
  pub turn_id : String
  pub procedure_version : String
  pub content : PlanningContent
  pub original_request : OriginalRequest
  pub decisions : List Input
  pub publication_failed : Bool
  pub published : Bool
  pub source : Option Source

-- The considered inputs are the ones of one participant, in the order of the inputs.
pub record PlanRevalidation : Type 0 where
  pub source_invocation_id : String
  pub revision_id : String
  pub participant_id : String
  pub turn_id : String
  pub repository_commit : String
  pub evidence : String
  pub confirmation_input_id : String
  pub considered_input_ids : Slice String

-- reflect.DeepEqual of two revalidations.
unfoldable pub revalidation_eq : PlanRevalidation → PlanRevalidation → Bool
revalidation_eq a b =
    text_eq a.source_invocation_id b.source_invocation_id
    && text_eq a.revision_id b.revision_id
    && text_eq a.participant_id b.participant_id
    && text_eq a.turn_id b.turn_id
    && text_eq a.repository_commit b.repository_commit
    && text_eq a.evidence b.evidence
    && text_eq a.confirmation_input_id b.confirmation_input_id
    && deep_eq a.considered_input_ids b.considered_input_ids

pub record CheckpointNotApplied : Type 0 where
  pub operation_id : String
  pub participant_id : String
  pub turn_id : String
  pub content : PlanningContent
  pub reason : String

pub record PlanningState : Type 0 where
  pub invalidated_confirmations : List String
  pub non_publications : List CheckpointNotApplied
  pub original_request : OriginalRequest
  pub revisions : List PlanningRevision
  pub current_revision : String
  pub ready_revision : String
  pub revalidations : List PlanRevalidation
