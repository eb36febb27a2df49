-- ===== src/Message/Types.antt =====
-- services/message/internal/repository/message.go and service/types.go, which declare the same types
-- twice, and services/room's answers as the message service reads them. An identifier is a number,
-- a time is a number, and so is each integer field, on which nothing computes.
use efir.Prelude.{ℕ, String, List, Option}
use efir.Exec.{Exec}

pub data MessageType : Type 0 where
  text image video video_note voice audio file sticker video_sticker event : MessageType

pub record TextContent : Type 0 where
  pub text : String

pub record MediaContent : Type 0 where
  pub file_id : String
  pub mime_type : String
  pub file_size : ℕ
  pub width : ℕ
  pub height : ℕ
  pub thumbnail_id : Option String
  pub duration_sec : Option ℕ

pub record FileContent : Type 0 where
  pub file_id : String
  pub mime_type : String
  pub file_size : ℕ
  pub file_name : String
  pub duration_sec : Option ℕ

pub record VoiceContent : Type 0 where
  pub file_id : String
  pub mime_type : String
  pub file_size : ℕ
  pub duration_sec : ℕ
  pub waveform : List ℕ

pub record VideoNoteContent : Type 0 where
  pub file_id : String
  pub mime_type : String
  pub file_size : ℕ
  pub duration_sec : ℕ
  pub width : ℕ
  pub height : ℕ
  pub thumbnail_id : Option String

pub record StickerContent : Type 0 where
  pub file_id : String
  pub mime_type : String
  pub emoji : Option String
  pub set_name : Option String

pub record EventContent : Type 0 where
  pub text : String

-- The types that implement the interface MessageContent.
pub data MessageContent : Type 0 where
  text_content : TextContent → MessageContent
  media_content : MediaContent → MessageContent
  file_content : FileContent → MessageContent
  voice_content : VoiceContent → MessageContent
  video_note_content : VideoNoteContent → MessageContent
  sticker_content : StickerContent → MessageContent
  event_content : EventContent → MessageContent

pub record MessagePreview : Type 0 where
  pub message_id : ℕ
  pub sender_id : ℕ
  pub type : MessageType
  pub text_preview : Option String
  pub file_name : Option String
  pub mime_type : Option String

pub record Message : Type 0 where
  pub id : ℕ
  pub room_id : ℕ
  pub sender_id : ℕ
  pub type : MessageType
  pub content : MessageContent
  pub reply_to : Option MessagePreview
  pub deleted_at : Option ℕ
  pub edited_at : Option ℕ
  pub created_at : ℕ
  pub updated_at : ℕ

-- CreateMessageInput and SendMessageInput.
pub record MessageInput : Type 0 where
  pub room_id : ℕ
  pub sender_id : ℕ
  pub type : MessageType
  pub content : MessageContent
  pub reply_to_id : Option ℕ

-- A row of the table messages; its content is JSON.
pub record Row : Type 0 where
  pub id : ℕ
  pub room_id : ℕ
  pub sender_id : ℕ
  pub type : MessageType
  pub content : String
  pub reply_to_id : Option ℕ
  pub deleted_at : Option ℕ
  pub edited_at : Option ℕ
  pub created_at : ℕ
  pub updated_at : ℕ

-- The message service's table, and what the room service answers about each room.
pub record Db : Type 0 where
  pub messages : List Row
  pub members : ℕ → List ℕ

pub data RepoError : Type 0 where
  message_not_found invalid_cursor backend : RepoError

-- A message that was created, with the recipients.
pub data MessageEvent : Type 0 where
  message_created : Message → List ℕ → MessageEvent

abbrev pub Repo : Type 0 → Type 0
Repo A = Exec Db MessageEvent RepoError A
