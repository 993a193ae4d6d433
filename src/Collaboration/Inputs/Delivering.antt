-- ===== src/Collaboration/Inputs/Delivering.antt =====
-- Prepare and MarkDelivered of internal/collaboration/model.go.
use omnigrex.Prelude.{
  String, Bool, false, List, ◌++◌, Option, none, some, ◌&&◌, if◌then◌else◌, any, is_nil, map,
  text_eq, first, filter, snoc, update_first, update_all,
}
use omnigrex.Collaboration.Model.Records.{Input, Preparation}
use omnigrex.Collaboration.Model.States.{State}
use omnigrex.Collaboration.Evidence.Currency.{is_undelivered}

abbrev pub is_waiting : String → Input → Bool
is_waiting participant x = text_eq x.participant_id participant && is_undelivered x

-- Assigned to the Turn.
abbrev pub deliver_to : String → Input → Input
deliver_to turn x = record x { delivered_to = turn; delivery_pending = false }

abbrev pub is_prepared : State → String → Bool
is_prepared s turn = any (λ p. text_eq p.turn_id turn) s.preparations

abbrev pub new_preparation : (participant turn : String) → Preparation
new_preparation participant turn = record { participant_id = participant; turn_id = turn }

-- The batch, and the State in which it is frozen.
unfoldable pub prepare : State → (participant turn : String) → List Input × State
prepare s participant turn =
    let batch = filter (λ x. text_eq x.delivered_to turn) s.inputs in
    if is_prepared s turn then (batch, s) else (
      batch ++ map (deliver_to turn) (filter (is_waiting participant) s.inputs),
      record s {
        preparations = snoc s.preparations (new_preparation participant turn);
        inputs = update_all (is_waiting participant) (deliver_to turn) s.inputs;
      },
    )

abbrev pub is_delivery : (participant turn id : String) → Input → Bool
is_delivery participant turn id x =
    text_eq x.id id && text_eq x.participant_id participant && text_eq x.delivered_to turn

unfoldable pub mark_delivered : State → (participant turn id : String) → Option State
mark_delivered s participant turn id =
    if is_nil (first (is_delivery participant turn id) s.inputs)
    then none
    else some (record s {
      inputs =
          update_first (is_delivery participant turn id)
            (λ x. record x { delivery_pending = false }) s.inputs;
    })
