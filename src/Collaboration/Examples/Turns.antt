-- ===== src/Collaboration/Examples/Turns.antt =====
-- A Turn reads an answer and a confirmation, interprets them, and completes the planning.
use omnigrex.Prelude.{
  String, true, false, List, [], ◌∷◌, ◌++◌, map, none, some, ◌≡◌, refl, arith, pos, length, any,
  all, not, ◌||◌, filter, is_empty, text_eq, codes, is_blank, trim_space, drop_space, is_space,
  codes_eq, ◌≤◌,
}
use omnigrex.Collaboration.Model.Records.{Round, Resolution, Input, Assessment, Purpose}
use omnigrex.Collaboration.Model.Planned.{PlanningContent, PlanningRevision, PlanningState}
use omnigrex.Collaboration.Model.States.{State, empty_state}
use omnigrex.Collaboration.Evidence.Lineage.{
  amended_by, amends, amends_loop, is_amendment_of_evidence, explicitly_corrects,
}
use omnigrex.Collaboration.Evidence.Currency.{
  pending, unresolved, assessment_blocked, latest_assessment, is_undelivered, latest_resolution,
  question_in_round, supersedes_evidence, is_considered, competes, resolution_current, can_revise,
  effective_decisions,
}
use omnigrex.Collaboration.Inputs.Delivering.{is_waiting, prepare}
use omnigrex.Collaboration.Interpreting.Resolving.{
  governs_current, is_scoped_evidence, resolution_valid, resolutions_valid, considered, freeze,
  apply_resolutions, resolve,
}
use omnigrex.Collaboration.Interpreting.Assessing.{
  delivered, assessment_valid, assessments_valid, apply_assessments, assess,
}
use omnigrex.Collaboration.Interpreting.Effects.{has_assessment_effect}
use omnigrex.Collaboration.Planning.Checkpoints.{is_proposed}
use omnigrex.Collaboration.Planning.Reserving.{is_commit}
use omnigrex.Collaboration.Planning.Validating.{
  confirmed, validation_blocked, is_standing_confirmation, new_revalidation, record_validation,
  validate_planning,
}
use omnigrex.Collaboration.Paging.{
  page_of, page_found, read_pages, page_record-read, record_chunk_runes,
}
use omnigrex.Collaboration.Laws.Deliveries.{is_delivery_of, prepare-pending}
use omnigrex.Collaboration.Laws.Recording.{from_operation, assess-recorded}
use omnigrex.Collaboration.Laws.Resolved.{Recorded, resolve-Recorded}
use omnigrex.Collaboration.Laws.Validated.{Validated, validate_planning-current}

abbrev input : (id kind target round : String) → Input
input id kind target round = record {
  reference = "A1";
  target = target;
  route = "";
  id = id;
  kind = kind;
  round_id = round;
  amends = "";
  body = "Yes.";
  actor = record { id = "7"; name = "ada" };
  source = record { channel = "github"; id = id; url = "" };
  accepted_at = pos 5;
  participant_id = "p1";
  delivered_to = "t2";
  delivery_pending = false;
}

abbrev asked : Round
asked = record {
  supersedes_reference = "";
  artifact = none;
  reference = "R1";
  introduction = "";
  publication_failed = false;
  supersedes = "";
  id = "r1";
  purpose = Purpose.clarification;
  participant_id = "p1";
  turn_id = "t1";
  head_sha = "f00";
  questions = record { replaces = ""; id = "q1"; body = "Which?" } ∷ [];
  resolutions = [];
  superseded_by = "";
  published = true;
  source = none;
}

abbrev reading : State
reading = record empty_state {
  preparations = record { participant_id = "p1"; turn_id = "t2" } ∷ [];
  rounds = asked ∷ [];
  inputs = input "i1" "answer" "r1" "r1" ∷ input "i2" "confirm-plan" "v1" "" ∷ [];
  current_round = "r1";
}

abbrev settled : (id disposition : String) → Assessment
settled id disposition = record {
  origin_operation_id = "";
  input_id = id;
  evidence_ids = id ∷ [];
  disposition = disposition;
  explanation = "Read.";
  corrects = [];
  invalidate_confirmation = false;
}

abbrev batch : List Assessment
batch = settled "i1" "unchanged" ∷ settled "i2" "confirmed" ∷ []

assessed : assess reading "op1" "p1" "t2" batch ≡ some (apply_assessments "op1" reading batch)
unfolding assess assessments_valid assessment_valid delivered is_undelivered is_blank trim_space
    drop_space is_space codes_eq text_eq
assessed = refl

assess-recorded_example :
    ((apply_assessments "op1" reading batch).assessments ≡ ([] ++ map (from_operation "op1") batch))
    × (((apply_assessments "op1" reading batch).inputs ≡ reading.inputs)
        × ((apply_assessments "op1" reading batch).rounds ≡ reading.rounds))
    × (has_assessment_effect (apply_assessments "op1" reading batch) "op1" batch ≡ true)
assess-recorded_example =
    assess-recorded reading (apply_assessments "op1" reading batch) "op1" "p1" "t2" batch assessed

abbrev decision : Resolution
decision = record {
  sequence = 0;
  origin_operation_id = "op2";
  considered_response_ids = [];
  obsolete = false;
  question_id = "q1";
  response_ids = some ("i1" ∷ []);
  explanation = "The first one.";
}

abbrev decided : State
decided = apply_resolutions asked reading (map (freeze reading) (decision ∷ []))

resolved : resolve reading "r1" "t2" (decision ∷ []) ≡ some decided
unfolding resolve resolutions_valid resolution_valid governs_current can_revise latest_resolution
    is_scoped_evidence question_in_round is_undelivered resolution_current is_considered competes
    supersedes_evidence is_amendment_of_evidence explicitly_corrects amends amends_loop amended_by
    considered apply_resolutions is_blank trim_space drop_space is_space codes_eq text_eq
resolved = refl

given : (is_empty "op2" || not (any (λ _. true) (decision ∷ []))) ≡ false
unfolding text_eq
given = refl

same_operation : all (λ x. text_eq x.origin_operation_id "op2") (decision ∷ []) ≡ true
unfolding text_eq
same_operation = refl

resolve-Recorded_example : Recorded "op2" "r1" (decision ∷ []) reading decided
resolve-Recorded_example =
    resolve-Recorded reading decided "op2" "r1" "t2" (decision ∷ []) given same_operation resolved

abbrev content : PlanningContent
content = record {
  summary = "s";
  unresolved_decisions = none;
  title = "t";
  status = "proposed";
  changes = "c";
  requirements_brief = "b";
  technical_plan = "p";
  investigated_commit = "0123456789abcdef0123456789abcdef01234567";
  evidence = some ("e" ∷ []);
  decision_response_ids = none;
}

abbrev revision : PlanningRevision
revision = record {
  artifact = none;
  reference = "P1";
  supersedes_reference = "";
  id = "v1";
  supersedes = "";
  participant_id = "p1";
  turn_id = "t1";
  procedure_version = "omnigrex-discovery/v2";
  content = content;
  original_request = record {
    title = "t";
    body = "";
    source = record { channel = "github"; id = "c0"; url = "" };
  };
  decisions = [];
  publication_failed = false;
  published = true;
  source = none;
}

abbrev plan : PlanningState
plan = record {
  invalidated_confirmations = [];
  non_publications = [];
  original_request = revision.original_request;
  revisions = revision ∷ [];
  current_revision = "v1";
  ready_revision = "";
  revalidations = [];
}

-- Both inputs are assessed, and no question is open.
abbrev agreed : State
agreed = record reading {
  assessments = settled "i1" "unchanged" ∷ settled "i2" "confirmed" ∷ [];
  planning = some plan;
  rounds = [];
}

abbrev commit : String
commit = "0123456789abcdef0123456789abcdef01234567"

abbrev planned : State
planned = record agreed {
  planning = some (record plan {
    revalidations =
        record {
          source_invocation_id = "op3";
          revision_id = "v1";
          participant_id = "p1";
          turn_id = "t2";
          repository_commit = commit;
          evidence = "Unchanged.";
          confirmation_input_id = "i2";
          considered_input_ids = some ("i1" ∷ "i2" ∷ []);
        }
        ∷ [];
  });
}

validated : validate_planning agreed "op3" "v1" "p1" "t2" commit "Unchanged." true ≡ some planned
unfolding validate_planning validation_blocked record_validation is_standing_confirmation confirmed
    latest_assessment is_commit is_proposed pending unresolved assessment_blocked is_undelivered
    effective_decisions is_blank trim_space drop_space is_space codes_eq text_eq
validated = refl

validate_planning-current_example :
    (p : PlanningState) × (agreed.planning ≡ some p)
    × Validated (new_revalidation agreed p "op3" "v1" "p1" "t2" commit "Unchanged.") planned
validate_planning-current_example =
    validate_planning-current agreed planned "op3" "v1" "p1" "t2" commit "Unchanged." true validated

abbrev waiting : State
waiting = record empty_state {
  inputs = record (input "i1" "steer" "" "") { delivered_to = "" } ∷ [];
}

new_turn : is_empty "t2" ≡ false
unfolding text_eq
new_turn = refl

one_waiting : any (λ y. text_eq y.id "i1") (filter (is_waiting "p1") waiting.inputs) ≡ true
unfolding text_eq is_undelivered
one_waiting = refl

prepare-pending_example :
    (pending ((prepare waiting "p1" "t2").1) "p1" ≡ false)
    × (any (is_delivery_of "i1" "t2") ((prepare waiting "p1" "t2").0) ≡ true)
prepare-pending_example = prepare-pending waiting "p1" "t2" "i1" new_turn refl one_waiting

page_record-read_example :
    (read_pages (λ _. "00") 8 (codes "{\"a\": 1}") 2 0 0 ≡ codes "{\"a\": 1}")
    × (length ((page_of (λ _. "00") (codes "{\"a\": 1}") 2 0 3).content) ≤ record_chunk_runes)
page_record-read_example =
    page_record-read (λ _. "00") (codes "{\"a\": 1}") 2 0 (pos 3)
      (page_of (λ _. "00") (codes "{\"a\": 1}") 2 0 3) (omega arith) (omega arith)
      (page_found (λ _. "00") (codes "{\"a\": 1}") 2 0 3 (omega arith) (omega arith))
