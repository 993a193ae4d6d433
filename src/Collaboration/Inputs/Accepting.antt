-- ===== src/Collaboration/Inputs/Accepting.antt =====
-- Accept of internal/collaboration/model.go.
use omnigrex.Prelude.{
  String, Bool, true, false, not, none, some, ◌&&◌, ◌||◌, if◌then◌else◌, any, is_empty,
  is_zero_time, text_eq, is_blank, append, first, snoc,
}
use omnigrex.Collaboration.Model.Records.{Source, Input, Receipt, Command, Admission}
use omnigrex.Collaboration.Model.States.{State}
use omnigrex.Collaboration.References.{reference, target}
use omnigrex.Collaboration.Planning.Checkpoints.{planning_confirmation_target}

-- A check that rejects with its feedback.
pub data Verdict {ℓ} (A : Type ℓ) : Type ℓ where
  granted : A → Verdict A
  refused : String → Verdict A

infixl 5 ◌>>=◌ ◌>>◌
abbrev pub ◌>>=◌ {ℓ κ} : {A : Type ℓ} {B : Type κ} → Verdict A → (A → Verdict B) → Verdict B
granted a >>= f = f a
refused m >>= f = refused m

abbrev pub ◌>>◌ {ℓ} : {B : Type ℓ} → Verdict (Unit {0}) → Verdict B → Verdict B
m >> k = m >>= λ _. k

abbrev pub reject_if : Bool → String → Verdict (Unit {0})
reject_if true m = refused m
reject_if false m = granted tt

abbrev pub same_source : Source → Receipt → Bool
same_source source r = text_eq r.source.channel source.channel && text_eq r.source.id source.id

unfoldable pub check_admission : State → String → Admission → Verdict (Unit {0})
check_admission s id a =
    reject_if (not a.authorized)
      "Rejected: repository write, maintain or admin permission is required."
    >> reject_if (not a.is_active || is_empty a.participant_id && is_empty a.route)
        "Rejected: this Work Item is not accepting input; resolve Human Handoff or lifecycle state explicitly before retrying."
    >> reject_if
        (is_empty id
          || is_empty a.actor.id
          || is_empty a.source.id
          || is_empty a.source.channel
          || is_zero_time a.at)
        "Rejected: provide nonempty content after the command."
    >> reject_if (any (λ x. text_eq x.id id) s.inputs) "Rejected: response identity already exists."

-- The identity behind the command's target.
unfoldable pub command_target : State → Command → String
command_target s c =
    if text_eq c.kind "answer"
    then target s "R" c.target
    else if text_eq c.kind "amend"
    then target s "A" c.target
    else if text_eq c.kind "confirm-plan"
    then target s "P" c.target
    else ""

-- The round that an answer is to; its identity.
unfoldable pub check_answer : State → String → Admission → Verdict String
check_answer s id a = elim (first (λ r. text_eq r.id id) s.rounds) [
  | none ↦
      refused "Which question round? Use its short reference, for example `/omnigrex answer R3`."
  | some r ↦
      reject_if r.publication_failed
        "Rejected: this question publication failed; use the current published round after the agent retries."
      >> reject_if
          (not (is_empty r.superseded_by) || r.published && not (text_eq s.current_round r.id))
          "That round has been replaced. Please use the short reference in the latest questions."
      >> reject_if (not (text_eq r.participant_id a.participant_id))
          "Rejected: the addressed round belongs to an obsolete Stage; use /omnigrex steer for current work."
      >> granted r.id
]

-- The input that an amendment is to; its round.
unfoldable pub check_amend : State → String → Admission → Verdict String
check_amend s id a = elim (first (λ x. text_eq x.id id) s.inputs) [
  | none ↦
      refused
        "Which earlier input? Use its short reference, for example `/omnigrex amend A7`, or `/omnigrex steer` to explain the change."
  | some x ↦
      reject_if (not (text_eq x.participant_id a.participant_id))
        "Rejected: response belongs to an obsolete Stage; use /omnigrex steer for current work."
      >> granted x.round_id
]

-- The switch on the command's kind; the round of the input, or "".
unfoldable pub check_command : State → Command → Admission → Verdict String
unfolding check_answer check_amend
check_command s c a =
    if text_eq c.kind "confirm-plan"
    then (let feedback = planning_confirmation_target s (command_target s c) a.participant_id in
        if is_empty feedback then granted "" else refused feedback)
    else if text_eq c.kind "answer"
    then check_answer s (command_target s c) a
    else if text_eq c.kind "amend"
    then check_amend s (command_target s c) a
    else if text_eq c.kind "steer"
    then (reject_if (not (is_empty c.target)) "Rejected: /omnigrex steer does not take a target."
        >> granted "")
    else refused
        "Please include a short target: `/omnigrex answer R3`, `/omnigrex amend A7`, or `/omnigrex confirm-plan P2`. To change direction, use `/omnigrex steer`."

unfoldable pub check_body : Command → Verdict (Unit {0})
unfolding is_blank
check_body c =
    reject_if (is_blank c.body && not (text_eq c.kind "confirm-plan"))
      "Please add nonempty content after the command."

unfoldable pub check_input : State → String → Command → Admission → Verdict String
unfolding check_admission check_command check_body
check_input s id c a =
    check_admission s id a >> (check_command s c a >>= λ round. (check_body c >> granted round))

-- The input that Accept appends.
unfoldable pub new_input : State → (name id round : String) → Command → Admission → Input
new_input s name id round c a = record {
  reference = name;
  target = command_target s c;
  route = a.route;
  id = id;
  kind = c.kind;
  round_id = round;
  amends = if text_eq c.kind "amend" then command_target s c else "";
  body = c.body;
  actor = a.actor;
  source = a.source;
  accepted_at = a.at;
  participant_id = a.participant_id;
  delivered_to = "";
  delivery_pending = false;
}

abbrev pub new_receipt : String → Source → (response feedback : String) → Receipt
new_receipt id source response feedback = record {
  publication_attempt = 0;
  publication_rejected = false;
  artifact = none;
  id = id;
  source = source;
  response_id = response;
  feedback = feedback;
}

abbrev pub queued : String → String
queued name = append "Thanks, queued as " (append name " for the agent to consider.")

-- The receipt of a command that was checked, and the State that has it.
unfoldable pub settle_input :
    State → String → Command → Admission → Verdict String → Receipt × State
unfolding reference new_input
settle_input s id c a (Verdict.refused m) =
    let receipt = new_receipt id a.source "" m in
    (receipt, record s { receipts = snoc s.receipts receipt })
settle_input s id c a (Verdict.granted round) =
    let (name, next) = reference s "A" id in
    let receipt = new_receipt id a.source id (queued name) in
    (
      receipt,
      record next {
        inputs = snoc next.inputs (new_input s name id round c a);
        receipts = snoc next.receipts receipt;
      },
    )

-- A source that has a receipt gets it again.
unfoldable pub accept : State → String → Command → Admission → Receipt × State
unfolding settle_input
accept s id c a = elim (first (same_source a.source) s.receipts) [
  | some old ↦ (old, s)
  | none ↦ settle_input s id c a (check_input s id c a)
]
