-- ===== src/Room/Publisher.antt =====
-- services/room/internal/nats/publisher.go: what is put on the bus for each of the room service's
-- events. UUID.String is a parameter.
use efir.Prelude.{ℕ, String, [], ◌∷◌, map}
use efir.Shared.Json.{Object, text, texts}
use efir.Room.Types.{RoomEvent, room_created, membership_changed, room_updated, room_deleted}

-- The subject and the payload.
unfoldable pub publication : (ℕ → String) → RoomEvent → String × Object
publication format (room_created room_id recipient_ids) = (
  "room.created",
  ("room_id", text (format room_id)) ∷ ("recipient_ids", texts (map format recipient_ids)) ∷ [],
)
publication format (membership_changed room_id user_id action recipient_ids) = (
  "room.membership.changed",
  ("room_id", text (format room_id))
      ∷ ("user_id", text (format user_id))
      ∷ ("action", text action)
      ∷ ("recipient_ids", texts (map format recipient_ids))
      ∷ [],
)
publication format (room_updated room_id name recipient_ids) = (
  "room.updated",
  ("room_id", text (format room_id))
      ∷ ("name", text name)
      ∷ ("recipient_ids", texts (map format recipient_ids))
      ∷ [],
)
publication format (room_deleted room_id recipient_ids) = (
  "room.deleted",
  ("room_id", text (format room_id)) ∷ ("recipient_ids", texts (map format recipient_ids)) ∷ [],
)
