-- ===== src/Ws/Relay.antt =====
-- From the publishers of the room and message services to the WebSocket service's broadcasts.
use efir.Prelude.{ℕ, String, ◌≡◌, refl, List, false, Option, none, some, string_eq}
use efir.Prelude.Keyed.{lookup}
use efir.Shared.Json.{null, Encoding, IsWritten, string_field, bool_field, any_field}
use efir.Room.Types.{RoomEvent, room_created, membership_changed, room_updated, room_deleted}
use efir.Room.Publisher
use efir.Message.Types.{Message, message_created}
use efir.Message.Publisher as MessagePublisher
use efir.Ws.Events.{
  Handling, ack, terminated, send, handle, handle_message_created, handle_room_membership_changed,
  handle_room_updated, message_created_payload, membership_changed_payload, room_updated_payload,
  fill_message_created, fill_membership_changed, fill_room_updated,
}

-- The broadcast of a payload to a room, which is acknowledged; or a termination, if the payload
-- cannot be marshalled.
abbrev pub broadcast_to : String → String → Option String → Handling
broadcast_to type room_id none = terminated
broadcast_to type room_id (some payload) = record {
  broadcast = some (room_id, record { type = type; payload = payload });
  settled = ack;
}

-- What the WebSocket service does with an event of the room service.
abbrev pub relayed : Encoding → (ℕ → String) → RoomEvent → Option Handling
relayed encoding format (room_created room_id recipients) = none
relayed encoding format (membership_changed room_id user_id action recipients) = some (
    broadcast_to "room.membership.changed" (format room_id)
      (encoding.marshal (membership_changed_payload (format room_id) (format user_id) false)))
relayed encoding format (room_updated room_id name recipients) = some (
    broadcast_to "room.updated" (format room_id)
      (encoding.marshal (room_updated_payload (format room_id) "")))
relayed encoding format (room_deleted room_id recipients) = none

send_lem :
    (type room_id : String) (m : Option String) → send type room_id m ≡ broadcast_to type room_id m
unfolding send
send_lem type room_id none = refl
send_lem type room_id (some payload) = refl

-- What is published of a new message, once it is written and read back as JSON, is broadcast to the
-- message's room and acknowledged; and the clients are told the message's id and room, with the empty
-- text for the user and null for the content.
pub relay_message_created :
    (encoding : Encoding) (format format_time : ℕ → String) (msg : Message) (recipients : List ℕ)
    (data' : String)
    → IsWritten encoding
        (MessagePublisher.publication format format_time (message_created msg recipients)).1
        data'
    → handle encoding
        (MessagePublisher.publication format format_time (message_created msg recipients)).0
        data'
      ≡ some (
          broadcast_to "message.created" (format msg.room_id) (
            encoding.marshal
              (message_created_payload (format msg.id) (format msg.room_id) "" null)))
unfolding MessagePublisher.publication handle handle_message_created fill_message_created
    string_field any_field lookup
relay_message_created encoding format format_time msg recipients data' w =
    rw (w.1, handle_message_created, send_lem) refl

-- What is published of a change of the members is broadcast to the room as a member who has left,
-- whether the member was added or removed, and what is published of a new name is broadcast with
-- the empty text for the user who set it; each is acknowledged. A room that is created or deleted is
-- told to nobody.
pub relay_room_event :
    (encoding : Encoding) (format : ℕ → String) (event : RoomEvent) (data' : String)
    → IsWritten encoding (Publisher.publication format event).1 data'
    → handle encoding (Publisher.publication format event).0 data' ≡ relayed encoding format event
unfolding Publisher.publication handle handle_room_membership_changed handle_room_updated
    fill_membership_changed fill_room_updated string_field bool_field lookup
relay_room_event encoding format (room_created room_id recipients) data' w = refl
relay_room_event encoding format (membership_changed room_id user_id action recipients) data' w =
    rw (w.1, handle_room_membership_changed, send_lem) refl
relay_room_event encoding format (room_updated room_id name recipients) data' w =
    rw (w.1, handle_room_updated, send_lem) refl
relay_room_event encoding format (room_deleted room_id recipients) data' w = refl
