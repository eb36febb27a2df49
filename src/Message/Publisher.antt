-- ===== src/Message/Publisher.antt =====
-- services/message/internal/nats/publisher.go: what is put on the bus for a new message. UUID.String
-- and the format of a time are parameters.
use efir.Prelude.{ℕ, String, [], ◌∷◌, map}
use efir.Shared.Json.{Object, Value, texts}
use efir.Message.Types.{
  MessageType, text, image, video, video_note, voice, audio, file, sticker, video_sticker, event,
  MessageEvent, message_created,
}

-- string(msg.Type)
unfoldable pub type_text : MessageType → String
type_text text = "text"
type_text image = "image"
type_text video = "video"
type_text video_note = "video_note"
type_text voice = "voice"
type_text audio = "audio"
type_text file = "file"
type_text sticker = "sticker"
type_text video_sticker = "video_sticker"
type_text event = "event"

-- The subject and the payload.
unfoldable pub publication : (ℕ → String) → (ℕ → String) → MessageEvent → String × Object
unfolding type_text
publication format format_time (message_created msg recipient_ids) = (
  "message.created",
  ("message_id", Value.text (format msg.id))
      ∷ ("room_id", Value.text (format msg.room_id))
      ∷ ("sender_id", Value.text (format msg.sender_id))
      ∷ ("type", Value.text (type_text msg.type))
      ∷ ("recipient_ids", texts (map format recipient_ids))
      ∷ ("created_at", Value.text (format_time msg.created_at))
      ∷ [],
)
