-- ===== src/Ws/Events.antt =====
-- services/websocket/internal/subscriber/events.go: how a message of the bus becomes a broadcast. A
-- broadcast is on its way once it is on the hub's channel; the errors of Ack and Term are logged only.
use efir.Prelude.{String, Bool, [], ◌∷◌, Option, none, some, ◌==◌, if◌then◌else◌, string_eq}
use efir.Shared.Json.{Object, Value, text, flag, Encoding, string_field, bool_field, any_field}
use efir.Hub.{Envelope}

pub record MessageCreatedEvent : Type 0 where
  pub message_id : String
  pub room_id : String
  pub user_id : String
  pub content : Value

pub record RoomMembershipChangedEvent : Type 0 where
  pub room_id : String
  pub user_id : String
  pub joined : Bool

pub record RoomUpdatedEvent : Type 0 where
  pub room_id : String
  pub updated_by : String

-- A message is acknowledged, or terminated: it is not delivered again in either case.
pub data Settled : Type 0 where
  ack term : Settled

pub record Handling : Type 0 where
  pub broadcast : Option (String × Envelope)
  pub settled : Settled

abbrev pub terminated : Handling
terminated = record { broadcast = none; settled = term }

infixl 10 ◌>>=◌
abbrev pub ◌>>=◌ : {A B : Type 0} → Option A → (A → Option B) → Option B
none >>= f = none
some a >>= f = f a

unfoldable pub fill_message_created : Object → Option MessageCreatedEvent
fill_message_created o = do
  message_id ← string_field "message_id" o
  room_id ← string_field "room_id" o
  user_id ← string_field "user_id" o
  some (record {
    message_id = message_id;
    room_id = room_id;
    user_id = user_id;
    content = any_field "content" o;
  })

unfoldable pub fill_membership_changed : Object → Option RoomMembershipChangedEvent
fill_membership_changed o = do
  room_id ← string_field "room_id" o
  user_id ← string_field "user_id" o
  joined ← bool_field "joined" o
  some (record { room_id = room_id; user_id = user_id; joined = joined })

unfoldable pub fill_room_updated : Object → Option RoomUpdatedEvent
fill_room_updated o = do
  room_id ← string_field "room_id" o
  updated_by ← string_field "updated_by" o
  some (record { room_id = room_id; updated_by = updated_by })

-- hub.MessageCreatedPayload, RoomMembershipChangedPayload and RoomUpdatedPayload.
abbrev pub message_created_payload : String → String → String → Value → Object
message_created_payload message_id room_id user_id content =
    ("message_id", text message_id)
    ∷ ("room_id", text room_id)
    ∷ ("user_id", text user_id)
    ∷ ("content", content)
    ∷ []

abbrev pub membership_changed_payload : String → String → Bool → Object
membership_changed_payload room_id user_id joined =
    ("room_id", text room_id) ∷ ("user_id", text user_id) ∷ ("joined", flag joined) ∷ []

abbrev pub room_updated_payload : String → String → Object
room_updated_payload room_id updated_by =
    ("room_id", text room_id) ∷ ("updated_by", text updated_by) ∷ []

-- The end of each handler: the payload is marshalled, and the envelope goes to the room.
unfoldable pub send : String → String → Option String → Handling
send type room_id none = terminated
send type room_id (some payload) = record {
  broadcast = some (room_id, record { type = type; payload = payload });
  settled = ack;
}

module _ (encoding : Encoding) where
  unfoldable pub handle_message_created : String → Handling
  handle_message_created data' = elim (encoding.unmarshal data' >>= fill_message_created) [
    | none ↦ terminated
    | some event ↦ send "message.created" event.room_id (
        encoding.marshal
          (message_created_payload event.message_id event.room_id event.user_id event.content))
  ]

  unfoldable pub handle_room_membership_changed : String → Handling
  handle_room_membership_changed data' =
      elim (encoding.unmarshal data' >>= fill_membership_changed) [
        | none ↦ terminated
        | some event ↦
            send "room.membership.changed" event.room_id (
              encoding.marshal
                (membership_changed_payload event.room_id event.user_id event.joined))
      ]

  unfoldable pub handle_room_updated : String → Handling
  handle_room_updated data' = elim (encoding.unmarshal data' >>= fill_room_updated) [
    | none ↦ terminated
    | some event ↦
        send "room.updated" event.room_id
          (encoding.marshal (room_updated_payload event.room_id event.updated_by))
  ]

  -- The subject that each consumer is filtered by; the room service's other subjects have none.
  unfoldable pub handle : String → String → Option Handling
  handle subject data' =
      if subject == "message.created"
      then some (handle_message_created data')
      else if subject == "room.membership.changed"
      then some (handle_room_membership_changed data')
      else if subject == "room.updated"
      then some (handle_room_updated data')
      else none
