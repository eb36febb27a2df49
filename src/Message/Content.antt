-- ===== src/Message/Content.antt =====
-- services/message/internal/repository/postgres.go: contents as JSON, and the preview of a reply.
-- encoding/json is a parameter: what it writes, and what it reads back into each of the types.
use efir.Prelude.{String, ◌≡◌, Option, none, some}
use efir.Message.Types.{
  MessageType, text, image, video, video_note, voice, audio, file, sticker, video_sticker, event,
  MessageContent, text_content, media_content, file_content, voice_content, video_note_content,
  sticker_content, event_content, MessagePreview, Message, Row,
}

-- The Go types that json.Unmarshal is given to fill.
pub data Shape : Type 0 where
  text_shape media_shape file_shape voice_shape video_note_shape sticker_shape event_shape : Shape

pub record Json : Type 0 where
  pub marshal : MessageContent → String
  pub unmarshal : Shape → String → Option MessageContent

abbrev pub shape_of : MessageContent → Shape
shape_of (text_content c) = text_shape
shape_of (media_content c) = media_shape
shape_of (file_content c) = file_shape
shape_of (voice_content c) = voice_shape
shape_of (video_note_content c) = video_note_shape
shape_of (sticker_content c) = sticker_shape
shape_of (event_content c) = event_shape

-- What is written of this content is read back, into the type that it was written from.
abbrev pub IsFaithful : Json → MessageContent → Type 0
IsFaithful j c = j.unmarshal (shape_of c) (j.marshal c) ≡ some c

unfoldable pub marshal_content : Json → MessageContent → String
marshal_content j c = j.marshal c

abbrev pub type_shape : MessageType → Shape
type_shape text = text_shape
type_shape image = media_shape
type_shape video = media_shape
type_shape file = file_shape
type_shape audio = file_shape
type_shape voice = voice_shape
type_shape video_note = video_note_shape
type_shape sticker = sticker_shape
type_shape video_sticker = sticker_shape
type_shape event = event_shape

unfoldable pub unmarshal_content : Json → MessageType → String → Option MessageContent
unmarshal_content j type data' = j.unmarshal (type_shape type) data'

abbrev pub add_content : MessagePreview → Option MessageContent → MessagePreview
add_content p none = p
add_content p (some (text_content c)) = record p { text_preview = some c.text }
add_content p (some (file_content c)) = record p {
  file_name = some c.file_name;
  mime_type = some c.mime_type;
}
add_content p (some (media_content c)) = record p { mime_type = some c.mime_type }
add_content p (some (voice_content c)) = record p { mime_type = some c.mime_type }
add_content p (some (video_note_content c)) = record p { mime_type = some c.mime_type }
add_content p (some (sticker_content c)) = record p { mime_type = some c.mime_type }
add_content p (some (event_content c)) = record p { text_preview = some c.text }

-- The joined row rm: a deleted message shows no content.
unfoldable pub build_reply_preview : Json → Option Row → Option MessagePreview
build_reply_preview j none = none
build_reply_preview j (some rm) =
    let preview : MessagePreview = record {
      message_id = rm.id;
      sender_id = rm.sender_id;
      type = rm.type;
      text_preview = none;
      file_name = none;
      mime_type = none;
    } in
    elim rm.deleted_at [
      | some at' ↦ some preview
      | none ↦ some (add_content preview (unmarshal_content j rm.type rm.content))
    ]

abbrev pub with_content : Row → Option MessagePreview → Option MessageContent → Option Message
with_content row reply_to none = none
with_content row reply_to (some content) = some (record {
  id = row.id;
  room_id = row.room_id;
  sender_id = row.sender_id;
  type = row.type;
  content = content;
  reply_to = reply_to;
  deleted_at = row.deleted_at;
  edited_at = row.edited_at;
  created_at = row.created_at;
  updated_at = row.updated_at;
})

-- A row as it is scanned, with the row that it replies to.
unfoldable pub scan : Json → Row → Option Row → Option Message
scan j row rm =
    with_content row (build_reply_preview j rm) (unmarshal_content j row.type row.content)
