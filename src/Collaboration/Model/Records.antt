-- ===== src/Collaboration/Model/Records.antt =====
-- The records of internal/collaboration/model.go. The two lists of a Resolution keep nil apart from
-- empty where the code compares them.
use omnigrex.Prelude.{ℕ, String, Time, Bool, List, Option, ◌&&◌, Slice, text_eq}

pub record Source : Type 0 where
  pub channel : String
  pub id : String
  pub url : String

-- `==` of two Sources.
unfoldable pub source_eq : Source → Source → Bool
source_eq a b = text_eq a.channel b.channel && text_eq a.id b.id && text_eq a.url b.url

pub record Actor : Type 0 where
  pub id : String
  pub name : String

pub record Question : Type 0 where
  pub replaces : String
  pub id : String
  pub body : String

pub record Resolution : Type 0 where
  pub sequence : ℕ
  pub origin_operation_id : String
  pub considered_response_ids : List String
  pub obsolete : Bool
  pub question_id : String
  pub response_ids : Slice String
  pub explanation : String

pub record RenderedPublication : Type 0 where
  pub body : String
  pub marker : String

pub data Purpose : Type 0 where
  clarification : Purpose

pub record Round : Type 0 where
  pub supersedes_reference : String
  pub artifact : Option RenderedPublication
  pub reference : String
  pub introduction : String
  pub publication_failed : Bool
  pub supersedes : String
  pub id : String
  pub purpose : Purpose
  pub participant_id : String
  pub turn_id : String
  pub head_sha : String
  pub questions : List Question
  pub resolutions : List Resolution
  pub superseded_by : String
  pub published : Bool
  pub source : Option Source

pub record Input : Type 0 where
  pub reference : String
  pub target : String
  pub route : String
  pub id : String
  pub kind : String
  pub round_id : String
  pub amends : String
  pub body : String
  pub actor : Actor
  pub source : Source
  pub accepted_at : Time
  pub participant_id : String
  pub delivered_to : String
  pub delivery_pending : Bool

pub record Receipt : Type 0 where
  pub publication_attempt : ℕ
  pub publication_rejected : Bool
  pub artifact : Option RenderedPublication
  pub id : String
  pub source : Source
  pub response_id : String
  pub feedback : String

pub record Preparation : Type 0 where
  pub participant_id : String
  pub turn_id : String

pub record Command : Type 0 where
  pub kind : String
  pub target : String
  pub body : String

pub record Admission : Type 0 where
  pub route : String
  pub is_active : Bool
  pub authorized : Bool
  pub participant_id : String
  pub actor : Actor
  pub source : Source
  pub at : Time

pub record Assessment : Type 0 where
  pub origin_operation_id : String
  pub input_id : String
  pub evidence_ids : List String
  pub disposition : String
  pub explanation : String
  pub corrects : List String
  pub invalidate_confirmation : Bool

-- A permanent name.
pub record Reference : Type 0 where
  pub name : String
  pub id : String
  pub kind : String
