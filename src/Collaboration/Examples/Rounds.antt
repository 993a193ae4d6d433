-- ===== src/Collaboration/Examples/Rounds.antt =====
-- A round is asked and published, answered, and its answer is amended.
use omnigrex.Prelude.{
  String, suc, true, false, [], ◌∷◌, none, some, ◌≡◌, ◌↔◌, ◌⊎◌, refl, pos, length, any, all, filter,
  is_empty, text_eq, ◌≤◌, ◌||◌, Has, decimal, emit, trim_space, drop_space, is_space, codes_eq,
  is_blank,
}
use omnigrex.Collaboration.Model.Records.{
  Source, Actor, Question, Round, Input, Command, Admission, Reference,
}
use omnigrex.Collaboration.Model.States.{State, empty_state}
use omnigrex.Collaboration.References.{find_reference, name_for, references_with, reference, target}
use omnigrex.Collaboration.Rounds.{
  is_open, request, request_refused, questions_valid, questions_carried, requested_round, inherited,
  publish,
}
use omnigrex.Collaboration.Inputs.Accepting.{accept}
use omnigrex.Collaboration.Inputs.Delivering.{is_prepared, prepare}
use omnigrex.Collaboration.Evidence.Lineage.{evidence_lineage, amends_loop, amends}
use omnigrex.Collaboration.Evidence.Priors.{Reaches}
use omnigrex.Collaboration.Evidence.Reach.{evidence_lineage-Reaches}
use omnigrex.Collaboration.Evidence.Amending.{Amends}
use omnigrex.Collaboration.History.{
  Step, Follows, Reachable, Reachable-Frontier, amends_ends, target-reference,
}
use omnigrex.Collaboration.Laws.Sound.{is_assigned, is_frontier}
use omnigrex.Collaboration.Laws.Replies.{Rejects, Admits, accept-replay, accept-cases}
use omnigrex.Collaboration.Laws.Deliveries.{prepare-replay}

abbrev question : Question
question = record { replaces = ""; id = "q1"; body = "Which database?" }

abbrev round : Round
round = record {
  supersedes_reference = "";
  artifact = none;
  reference = "R1";
  introduction = "";
  publication_failed = false;
  supersedes = "";
  id = "r1";
  purpose = omnigrex.Collaboration.Model.Records.Purpose.clarification;
  participant_id = "p1";
  turn_id = "t1";
  head_sha = "f00";
  questions = question ∷ [];
  resolutions = [];
  superseded_by = "";
  published = false;
  source = none;
}

abbrev asked : State
asked = record empty_state {
  references = record { name = "R1"; id = "r1"; kind = "R" } ∷ [];
  rounds = round ∷ [];
}

ask : request empty_state "r1" "p1" "t1" "f00" (question ∷ []) ≡ some (round, asked)
unfolding request request_refused questions_valid questions_carried requested_round inherited
    reference name_for references_with find_reference decimal emit is_blank trim_space drop_space
    is_space codes_eq text_eq
ask = refl

abbrev comment : String → Source
comment id = record { channel = "github"; id = id; url = "" }

abbrev shown : State
shown = record asked {
  rounds = record round { published = true; source = some (comment "c1") } ∷ [];
  current_round = "r1";
}

show : publish asked "r1" (comment "c1") ≡ some shown
unfolding publish text_eq
show = refl

abbrev said : (kind target body : String) → Command
said kind target body = record { kind = kind; target = target; body = body }

abbrev by : String → Admission
by id = record {
  route = "";
  is_active = true;
  authorized = true;
  participant_id = "p1";
  actor = record { id = "7"; name = "ada" };
  source = comment id;
  at = pos 5;
}

abbrev answered : State
answered = (accept shown "i1" (said "answer" "R1" "The first one.") (by "c2")).1

abbrev amended : State
amended = (accept answered "i2" (said "amend" "A1" "No, the second.") (by "c3")).1

abbrev reached : Reachable amended
reached =
    Reachable.step
      (Reachable.step
        (Reachable.step
          (Reachable.step Reachable.start
            (Step.requested "r1" "p1" "t1" "f00" (question ∷ []) round ask))
          (Step.published "r1" (comment "c1") show))
        (Step.accepted "i1" (said "answer" "R1" "The first one.") (by "c2")))
      (Step.accepted "i2" (said "amend" "A1" "No, the second.") (by "c3"))

evidence_lineage-Reaches_example :
    Has (evidence_lineage amended "i2") "i1" ↔ Reaches amended "i2" "i1"
evidence_lineage-Reaches_example = evidence_lineage-Reaches amended "i2" "i1"

amends_ends_example :
    (amends_loop (suc (length amended.inputs)) amended.inputs "i2" "i1"
      ≡ some (amends amended "i2" "i1"))
    × ((amends amended "i2" "i1" ≡ true) ↔ Amends amended.inputs "i2" "i1")
amends_ends_example = amends_ends amended reached "i2" "i1"

Reachable-Frontier_example :
    (length (filter is_open amended.rounds) ≤ 1)
    × ((is_empty amended.current_round || any (is_frontier amended.current_round) amended.rounds)
        ≡ true)
    × (all (is_assigned amended.preparations) amended.inputs ≡ true)
Reachable-Frontier_example = Reachable-Frontier amended reached

target-reference_example :
    ((find_reference "A" "i1" amended.references ≡ none)
      ⊎ ((target amended "A" (name_for "A" "i1" amended.references) ≡ "i1")
          × (target ((reference amended "P" "v1").1) "A" (name_for "A" "i1" amended.references)
              ≡ "i1")))
    × (target ((reference amended "P" "v1").1) "P" ((reference amended "P" "v1").0) ≡ "v1")
target-reference_example = target-reference amended reached "P" "v1" "A" "i1"

-- The answer is amended before its command arrives again.
accept-replay_example :
    accept amended "i9" (said "steer" "" "Stop.") (by "c2")
    ≡ ((accept shown "i1" (said "answer" "R1" "The first one.") (by "c2")).0, amended)
accept-replay_example =
    accept-replay shown amended "i1" "i9" (said "answer" "R1" "The first one.")
      (said "steer" "" "Stop.") (by "c2") (by "c2")
      (Follows.next Follows.here
        (Step.accepted "i2" (said "amend" "A1" "No, the second.") (by "c3")))
      refl refl

accept-cases_example :
    Rejects shown "i1" (said "answer" "R1" "The first one.") (by "c2")
    ⊎ Admits shown "i1" (said "answer" "R1" "The first one.") (by "c2")
accept-cases_example = accept-cases shown "i1" (said "answer" "R1" "The first one.") (by "c2") refl

named_turn : is_empty "t2" ≡ false
unfolding text_eq
named_turn = refl

unprepared : is_prepared amended "t2" ≡ false
unfolding accept omnigrex.Collaboration.Inputs.Accepting.check_input text_eq
    omnigrex.Prelude.is_zero_time omnigrex.Collaboration.Inputs.Accepting.command_target target
    references_with find_reference decimal
unprepared = refl

-- Another command comes in and another Turn is prepared before the Turn is prepared again.
abbrev later : State
later =
    (prepare
      ((accept ((prepare amended "p1" "t2").1) "i3" (said "steer" "" "Be quick.") (by "c4")).1) "p1"
      "t3").1

prepare-replay_example : prepare later "p1" "t2" ≡ ((prepare amended "p1" "t2").0, later)
prepare-replay_example = prepare-replay amended later reached "p1" "p1" "t2" named_turn unprepared (
    Follows.next
      (Follows.next Follows.here (Step.accepted "i3" (said "steer" "" "Be quick.") (by "c4")))
      (Step.prepared "p1" "t3"))
