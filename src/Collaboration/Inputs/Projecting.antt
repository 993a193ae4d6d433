-- ===== src/Collaboration/Inputs/Projecting.antt =====
-- What Project of internal/collaboration/projection.go does to the State. The length of the encoded
-- object is a parameter: it rests on encoding/json.
use omnigrex.Prelude.{ℕ, String, Bool, true, ◌&&◌, if◌then◌else◌, ltb, text_eq, update_all}
use omnigrex.Collaboration.Model.Records.{Input}
use omnigrex.Collaboration.Model.States.{State}

abbrev pub max_projection_bytes : ℕ
max_projection_bytes = 98304

abbrev pub is_projected : (participant turn : String) → Input → Bool
is_projected participant turn x =
    text_eq x.participant_id participant && text_eq x.delivered_to turn

abbrev pub withhold : Input → Input
withhold x = record x { delivery_pending = true }

-- An object that is too long leaves the Turn's inputs to be delivered by their records.
unfoldable pub project : (State → String → String → ℕ) → State → (participant turn : String) → State
project encoded_length s participant turn =
    if ltb max_projection_bytes (encoded_length s participant turn)
    then record s { inputs = update_all (is_projected participant turn) withhold s.inputs }
    else s
