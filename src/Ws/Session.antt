-- ===== src/Ws/Session.antt =====
-- services/websocket/internal/handler/ws.go: how a connection is admitted, and what one message from
-- its client asks of the hub and sends back. encoding/json and uuid.Parse are parameters.
use Prim.Native.String.{len}
use efir.Prelude.{String, ℕ, Bool, Option, none, some, ◌==◌, if◌then◌else◌, ltb, string_eq}
use efir.Exec.{Result, ok, err}
use efir.Shared.Errors.{Code, unauthenticated, invalid_argument}
use efir.Hub.{Envelope}
use efir.Hub.Actor.{Request, register, unregister}

-- What the handler uses of other packages: json.Marshal of an envelope and of an ErrorPayload, the
-- room_id that json.Unmarshal reads from a payload, and whether uuid.Parse accepts a text.
pub record Codec : Type 0 where
  pub marshal : Envelope → Option String
  pub marshal_error : String → String → Option String
  pub payload_room : String → Option String
  pub is_uuid : String → Bool

-- HandleWS up to the upgrade: `valid` is what validateTicket answers for the ticket, a user or an
-- error. The answer is the user of the session, and the room to join at once or the empty text.
unfoldable pub admit : Codec → String → Option String → String → Result Code (String × String)
admit codec ticket valid room_id =
    if ticket == ""
    then err unauthenticated
    else if ltb 256 (len ticket)
    then err invalid_argument
    else elim valid [
      | none ↦ err unauthenticated
      | some user_id ↦
          if room_id == ""
          then ok (user_id, room_id)
          else if codec.is_uuid room_id
          then ok (user_id, room_id)
          else err invalid_argument
    ]

-- What a message leads to: a request to the hub, data for the client, both or neither.
pub record Effect : Type 0 where
  pub ask : Option Request
  pub tell : Option String

abbrev pub telling : Option String → Effect
telling data' = record { ask = none; tell = data' }

abbrev pub asking : Request → Effect
asking q = record { ask = some q; tell = none }

-- sendError: an error that cannot be marshalled is not sent.
unfoldable pub send_error : Codec → String → String → Effect
send_error codec code message = elim (codec.marshal_error code message) [
  | none ↦ telling none
  | some payload ↦ telling (codec.marshal (record { type = "error"; payload = payload }))
]

unfoldable pub on_subscribe : Codec → ℕ → String → Option String → Effect
on_subscribe codec conn user_id none =
    send_error codec "invalid_payload" "failed to parse subscribe payload"
on_subscribe codec conn user_id (some room_id) =
    if codec.is_uuid room_id
    then asking (register conn user_id room_id)
    else send_error codec "invalid_room_id" "invalid room ID format"

unfoldable pub on_unsubscribe : Codec → ℕ → Option String → Effect
on_unsubscribe codec conn none =
    send_error codec "invalid_payload" "failed to parse unsubscribe payload"
on_unsubscribe codec conn (some room_id) = asking (unregister conn room_id)

-- The pong's payload is the nil json.RawMessage, which is marshalled as null.
unfoldable pub handle_message : Codec → ℕ → String → Envelope → Effect
handle_message codec conn user_id env =
    if env.type == "subscribe"
    then on_subscribe codec conn user_id (codec.payload_room env.payload)
    else if env.type == "unsubscribe"
    then on_unsubscribe codec conn (codec.payload_room env.payload)
    else if env.type == "ping"
    then telling (codec.marshal (record { type = "pong"; payload = "null" }))
    else send_error codec "unknown_type" "unknown message type"

-- One turn of readPump's loop, of a message that was read: its envelope, or none if it is not JSON.
unfoldable pub on_message : Codec → ℕ → String → Option Envelope → Effect
on_message codec conn user_id none = send_error codec "invalid_json" "failed to parse message"
on_message codec conn user_id (some env) = handle_message codec conn user_id env
