-- ===== src/Message/Methods.antt =====
-- services/message/internal/handler/{message,mapper}.go: the gRPC methods of the message service. The
-- rules of protovalidate and the two directions of uuid's texts are parameters.
use efir.Prelude.{
  ℕ, String, List, map, Bool, not, Option, none, some, ◌==◌, if◌then◌else◌, string_eq, is_some,
  map_option,
}
use efir.Exec.{ok, err, Exec, pure, raise, ◌>>=◌, ◌>>◌, fail_if, on_error}
use efir.Shared.Errors.{Code, invalid_argument}
use efir.Message.Types.{
  TextContent, MediaContent, FileContent, VoiceContent, VideoNoteContent, StickerContent,
  EventContent, text_content, media_content, file_content, voice_content, video_note_content,
  sticker_content, event_content, Message, MessageType, MessageContent, MessagePreview, Db,
  MessageEvent,
}
use efir.Message.Content.{Json}
use efir.Message.Service
use efir.Message.Handler.{
  ProtoType, RequestContent, message_type_to_proto, request_content, send_message_code,
  get_messages_code, get_message_by_id_code, delete_message_code,
}

pub record ProtoPreview : Type 0 where
  pub message_id : String
  pub sender_id : String
  pub type : ProtoType
  pub text_preview : Option String
  pub file_name : Option String
  pub mime_type : Option String

-- The oneof `content`, whose alternatives have the fields of the service's types.
pub data ProtoContent : Type 0 where
  text_proto : TextContent → ProtoContent
  media_proto : MediaContent → ProtoContent
  file_proto : FileContent → ProtoContent
  voice_proto : VoiceContent → ProtoContent
  video_note_proto : VideoNoteContent → ProtoContent
  sticker_proto : StickerContent → ProtoContent
  event_proto : EventContent → ProtoContent

-- The switch of messageToProto.
unfoldable pub content_to_proto : MessageContent → ProtoContent
content_to_proto (text_content v) = text_proto (record { text = v.text })
content_to_proto (media_content v) = media_proto (record {
  file_id = v.file_id;
  mime_type = v.mime_type;
  file_size = v.file_size;
  width = v.width;
  height = v.height;
  thumbnail_id = v.thumbnail_id;
  duration_sec = v.duration_sec;
})
content_to_proto (file_content v) = file_proto (record {
  file_id = v.file_id;
  mime_type = v.mime_type;
  file_size = v.file_size;
  file_name = v.file_name;
  duration_sec = v.duration_sec;
})
content_to_proto (voice_content v) = voice_proto (record {
  file_id = v.file_id;
  mime_type = v.mime_type;
  file_size = v.file_size;
  duration_sec = v.duration_sec;
  waveform = v.waveform;
})
content_to_proto (video_note_content v) = video_note_proto (record {
  file_id = v.file_id;
  mime_type = v.mime_type;
  file_size = v.file_size;
  duration_sec = v.duration_sec;
  width = v.width;
  height = v.height;
  thumbnail_id = v.thumbnail_id;
})
content_to_proto (sticker_content v) = sticker_proto (record {
  file_id = v.file_id;
  mime_type = v.mime_type;
  emoji = v.emoji;
  set_name = v.set_name;
})
content_to_proto (event_content v) = event_proto (record { text = v.text })

pub record ProtoMessage : Type 0 where
  pub message_id : String
  pub room_id : String
  pub sender_id : String
  pub type : ProtoType
  pub is_deleted : Bool
  pub content : Option ProtoContent
  pub reply_to : Option ProtoPreview
  pub edited_at : Option ℕ
  pub created_at : ℕ
  pub updated_at : ℕ

-- The requests, with their fields in the order of the .proto file.
pub data Request : Type 0 where
  send_message_request : String → String → Option String → ProtoType → RequestContent → Request
  get_messages_request : String → String → Option String → ℕ → Request
  get_message_by_id_request : String → String → Request
  delete_message_request : String → String → Request

pub record Packages : Type 0 where
  pub is_valid : Request → Bool
  pub parse : String → Option ℕ
  pub format : ℕ → String

abbrev pub Handler : Type 0 → Type 0
Handler A = Exec Db MessageEvent Code A

module _ (packages : Packages) where
  unfoldable pub preview_to_proto : MessagePreview → ProtoPreview
  unfolding message_type_to_proto
  preview_to_proto preview = record {
    message_id = packages.format preview.message_id;
    sender_id = packages.format preview.sender_id;
    type = message_type_to_proto preview.type;
    text_preview = preview.text_preview;
    file_name = preview.file_name;
    mime_type = preview.mime_type;
  }

  -- A deleted message has no content.
  unfoldable pub message_to_proto : Message → ProtoMessage
  unfolding message_type_to_proto content_to_proto
  message_to_proto msg = record {
    message_id = packages.format msg.id;
    room_id = packages.format msg.room_id;
    sender_id = packages.format msg.sender_id;
    type = message_type_to_proto msg.type;
    is_deleted = is_some msg.deleted_at;
    content = if is_some msg.deleted_at then none else some (content_to_proto msg.content);
    reply_to = map_option preview_to_proto msg.reply_to;
    edited_at = msg.edited_at;
    created_at = msg.created_at;
    updated_at = msg.updated_at;
  }

  unfoldable pub validate : Request → Handler (Unit {0})
  validate req = fail_if (not (packages.is_valid req)) invalid_argument

  unfoldable pub parse_id : String → Handler ℕ
  parse_id text = elim (packages.parse text) [ none ↦ raise invalid_argument | some id ↦ pure id ]

  -- An optional id, where the empty text is no id.
  unfoldable pub parse_optional : Option String → Handler (Option ℕ)
  parse_optional none = pure none
  parse_optional (some text) =
      if text == ""
      then pure none
      else elim (packages.parse text) [ none ↦ raise invalid_argument | some id ↦ pure (some id) ]

  unfoldable pub parse_content : ProtoType → RequestContent → Handler (MessageType × MessageContent)
  parse_content type content = elim (request_content type content) [
    | ok c ↦ pure c
    | err code ↦ raise code
  ]

  module _ (j : Json) where
    unfoldable pub send_message :
        String → String → Option String → ProtoType → RequestContent → ℕ → ℕ → Handler ProtoMessage
    send_message room_id sender_id reply_to_id type content id now = do
      validate (send_message_request room_id sender_id reply_to_id type content)
      room ← parse_id room_id
      sender ← parse_id sender_id
      reply_to ← parse_optional reply_to_id
      typed ← parse_content type content
      msg ← on_error send_message_code (
          Service.send_message j
            (record {
              room_id = room;
              sender_id = sender;
              type = typed.0;
              content = typed.1;
              reply_to_id = reply_to;
            })
            id now)
      pure (message_to_proto msg)

    unfoldable pub get_messages :
        String → String → Option String → ℕ → Handler (List ProtoMessage × Option String)
    get_messages room_id requester_id cursor limit = do
      validate (get_messages_request room_id requester_id cursor limit)
      room ← parse_id room_id
      requester ← parse_id requester_id
      from_cursor ← parse_optional cursor
      page ← on_error get_messages_code (Service.get_messages j room requester from_cursor limit)
      pure (map message_to_proto page.0, map_option packages.format page.1)

    unfoldable pub get_message_by_id : String → String → Handler ProtoMessage
    get_message_by_id message_id requester_id = do
      validate (get_message_by_id_request message_id requester_id)
      message ← parse_id message_id
      requester ← parse_id requester_id
      msg ← on_error get_message_by_id_code (Service.get_message_by_id j message requester)
      pure (message_to_proto msg)

    unfoldable pub delete_message : String → String → ℕ → Handler (Unit {0})
    delete_message message_id requester_id now = do
      validate (delete_message_request message_id requester_id)
      message ← parse_id message_id
      requester ← parse_id requester_id
      on_error delete_message_code (Service.delete_message j message requester now)
