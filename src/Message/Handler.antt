-- ===== src/Message/Handler.antt =====
-- services/message/internal/handler/{message,mapper}.go: the content of a SendMessageRequest, and the
-- codes that the methods' errors become.
use efir.Prelude.{ℕ, ◌≡◌, Option, none, some, arith}
use efir.Exec.{Result, ok, err}
use efir.Shared.Errors.{Code, not_found, permission_denied, invalid_argument, internal}
use efir.Message.Types.{
  MessageType, text, image, video, video_note, voice, audio, file, sticker, video_sticker, event,
  TextContent, MediaContent, FileContent, VoiceContent, VideoNoteContent, StickerContent,
  MessageContent, text_content, media_content, file_content, voice_content, video_note_content,
  sticker_content,
}
use efir.Message.Content.{shape_of, type_shape}
use efir.Message.Service.{
  ServiceError, not_member, not_owner, invalid_reply_target, message_not_found,
}

-- The enum messagev1.MessageType; a number that is not declared is kept by the wire format.
pub data ProtoType : Type 0 where
  message_type_unspecified message_type_text message_type_image message_type_video : ProtoType
  message_type_video_note message_type_voice message_type_audio message_type_file : ProtoType
  message_type_sticker message_type_video_sticker message_type_event : ProtoType
  undeclared : ℕ → ProtoType

-- The oneof of the request, with the fields that each message carries.
pub data RequestContent : Type 0 where
  empty : RequestContent
  text_request : TextContent → RequestContent
  media_request : MediaContent → RequestContent
  file_request : FileContent → RequestContent
  voice_request : VoiceContent → RequestContent
  video_note_request : VideoNoteContent → RequestContent
  sticker_request : StickerContent → RequestContent
  audio_request : FileContent → RequestContent

unfoldable pub proto_to_message_type : ProtoType → Option MessageType
proto_to_message_type message_type_text = some text
proto_to_message_type message_type_image = some image
proto_to_message_type message_type_video = some video
proto_to_message_type message_type_video_note = some video_note
proto_to_message_type message_type_voice = some voice
proto_to_message_type message_type_audio = some audio
proto_to_message_type message_type_file = some file
proto_to_message_type message_type_sticker = some sticker
proto_to_message_type message_type_video_sticker = some video_sticker
proto_to_message_type message_type_event = some event
proto_to_message_type _ = none

unfoldable pub message_type_to_proto : MessageType → ProtoType
message_type_to_proto text = message_type_text
message_type_to_proto image = message_type_image
message_type_to_proto video = message_type_video
message_type_to_proto video_note = message_type_video_note
message_type_to_proto voice = message_type_voice
message_type_to_proto audio = message_type_audio
message_type_to_proto file = message_type_file
message_type_to_proto sticker = message_type_sticker
message_type_to_proto video_sticker = message_type_video_sticker
message_type_to_proto event = message_type_event

-- The type and the content of the request, or CodeInvalidArgument.
unfoldable pub request_content :
    ProtoType → RequestContent → Result Code (MessageType × MessageContent)
request_content message_type_text (text_request c) =
    ok (text, text_content (record { text = c.text }))
request_content t (text_request c) = err invalid_argument
request_content t (media_request c) = elim (proto_to_message_type t) [
  | some image ↦ ok (
    image,
    media_content (record {
      file_id = c.file_id;
      mime_type = c.mime_type;
      file_size = c.file_size;
      width = c.width;
      height = c.height;
      thumbnail_id = c.thumbnail_id;
      duration_sec = c.duration_sec;
    }),
  )
  | some video ↦ ok (
    video,
    media_content (record {
      file_id = c.file_id;
      mime_type = c.mime_type;
      file_size = c.file_size;
      width = c.width;
      height = c.height;
      thumbnail_id = c.thumbnail_id;
      duration_sec = c.duration_sec;
    }),
  )
  | _ ↦ err invalid_argument
]
request_content message_type_file (file_request c) = ok (
  file,
  file_content (record {
    file_id = c.file_id;
    mime_type = c.mime_type;
    file_size = c.file_size;
    file_name = c.file_name;
    duration_sec = c.duration_sec;
  }),
)
request_content t (file_request c) = err invalid_argument
request_content message_type_voice (voice_request c) = ok (
  voice,
  voice_content (record {
    file_id = c.file_id;
    mime_type = c.mime_type;
    file_size = c.file_size;
    duration_sec = c.duration_sec;
    waveform = c.waveform;
  }),
)
request_content t (voice_request c) = err invalid_argument
request_content message_type_video_note (video_note_request c) = ok (
  video_note,
  video_note_content (record {
    file_id = c.file_id;
    mime_type = c.mime_type;
    file_size = c.file_size;
    duration_sec = c.duration_sec;
    width = c.width;
    height = c.height;
    thumbnail_id = c.thumbnail_id;
  }),
)
request_content t (video_note_request c) = err invalid_argument
request_content message_type_sticker (sticker_request c) = ok (
  sticker,
  sticker_content (record {
    file_id = c.file_id;
    mime_type = c.mime_type;
    emoji = c.emoji;
    set_name = c.set_name;
  }),
)
request_content t (sticker_request c) = err invalid_argument
request_content message_type_audio (audio_request c) = ok (
  audio,
  file_content (record {
    file_id = c.file_id;
    mime_type = c.mime_type;
    file_size = c.file_size;
    file_name = c.file_name;
    duration_sec = c.duration_sec;
  }),
)
request_content t (audio_request c) = err invalid_argument
request_content t empty = err invalid_argument

-- The codes of the four methods' errors.
unfoldable pub send_message_code : ServiceError → Code
send_message_code not_member = permission_denied
send_message_code invalid_reply_target = invalid_argument
send_message_code e = internal

unfoldable pub get_messages_code : ServiceError → Code
get_messages_code not_member = permission_denied
get_messages_code e = internal

unfoldable pub get_message_by_id_code : ServiceError → Code
get_message_by_id_code message_not_found = not_found
get_message_by_id_code not_member = permission_denied
get_message_by_id_code e = internal

unfoldable pub delete_message_code : ServiceError → Code
delete_message_code message_not_found = not_found
delete_message_code not_owner = permission_denied
delete_message_code e = internal

-- A request that is accepted keeps its type, and its content has the shape that the repository reads
-- for that type.
pub request_content_shape :
    (t : ProtoType) (r : RequestContent) (type : MessageType) (c : MessageContent)
    → request_content t r ≡ ok (type, c)
    → (t ≡ message_type_to_proto type) × (shape_of c ≡ type_shape type)
unfolding request_content proto_to_message_type message_type_to_proto
request_content_shape t r type c h = ground arith
