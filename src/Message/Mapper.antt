-- ===== src/Message/Mapper.antt =====
-- services/message/internal/service/mapper.go: the copies between the repository's types and the
-- service's, which have the same fields, so that they are the same types here. No content is nil.
use efir.Prelude.{List, map, map_option}
use efir.Message.Types.{
  Message, MessageInput, MessagePreview, MessageContent, text_content, media_content, file_content,
  voice_content, video_note_content, sticker_content, event_content,
}

-- From the repository.
unfoldable pub to_content : MessageContent → MessageContent
to_content (text_content v) = text_content (record { text = v.text })
to_content (media_content v) = media_content (record {
  file_id = v.file_id;
  mime_type = v.mime_type;
  file_size = v.file_size;
  width = v.width;
  height = v.height;
  thumbnail_id = v.thumbnail_id;
  duration_sec = v.duration_sec;
})
to_content (file_content v) = file_content (record {
  file_id = v.file_id;
  mime_type = v.mime_type;
  file_size = v.file_size;
  file_name = v.file_name;
  duration_sec = v.duration_sec;
})
to_content (voice_content v) = voice_content (record {
  file_id = v.file_id;
  mime_type = v.mime_type;
  file_size = v.file_size;
  duration_sec = v.duration_sec;
  waveform = v.waveform;
})
to_content (video_note_content v) = video_note_content (record {
  file_id = v.file_id;
  mime_type = v.mime_type;
  file_size = v.file_size;
  duration_sec = v.duration_sec;
  width = v.width;
  height = v.height;
  thumbnail_id = v.thumbnail_id;
})
to_content (sticker_content v) = sticker_content (record {
  file_id = v.file_id;
  mime_type = v.mime_type;
  emoji = v.emoji;
  set_name = v.set_name;
})
to_content (event_content v) = event_content (record { text = v.text })

-- To the repository.
unfoldable pub to_repo_content : MessageContent → MessageContent
to_repo_content (text_content v) = text_content (record { text = v.text })
to_repo_content (media_content v) = media_content (record {
  file_id = v.file_id;
  mime_type = v.mime_type;
  file_size = v.file_size;
  width = v.width;
  height = v.height;
  thumbnail_id = v.thumbnail_id;
  duration_sec = v.duration_sec;
})
to_repo_content (file_content v) = file_content (record {
  file_id = v.file_id;
  mime_type = v.mime_type;
  file_size = v.file_size;
  file_name = v.file_name;
  duration_sec = v.duration_sec;
})
to_repo_content (voice_content v) = voice_content (record {
  file_id = v.file_id;
  mime_type = v.mime_type;
  file_size = v.file_size;
  duration_sec = v.duration_sec;
  waveform = v.waveform;
})
to_repo_content (video_note_content v) = video_note_content (record {
  file_id = v.file_id;
  mime_type = v.mime_type;
  file_size = v.file_size;
  duration_sec = v.duration_sec;
  width = v.width;
  height = v.height;
  thumbnail_id = v.thumbnail_id;
})
to_repo_content (sticker_content v) = sticker_content (record {
  file_id = v.file_id;
  mime_type = v.mime_type;
  emoji = v.emoji;
  set_name = v.set_name;
})
to_repo_content (event_content v) = event_content (record { text = v.text })

unfoldable pub to_preview : MessagePreview → MessagePreview
to_preview p = record {
  message_id = p.message_id;
  sender_id = p.sender_id;
  type = p.type;
  text_preview = p.text_preview;
  file_name = p.file_name;
  mime_type = p.mime_type;
}

unfoldable pub to_message : Message → Message
unfolding to_content to_preview
to_message m = record {
  id = m.id;
  room_id = m.room_id;
  sender_id = m.sender_id;
  type = m.type;
  content = to_content m.content;
  reply_to = map_option to_preview m.reply_to;
  deleted_at = m.deleted_at;
  edited_at = m.edited_at;
  created_at = m.created_at;
  updated_at = m.updated_at;
}

-- The loop of GetMessages over a page.
unfoldable pub to_messages : List Message → List Message
unfolding to_message
to_messages ms = map to_message ms

-- The CreateMessageInput of a SendMessageInput.
unfoldable pub to_repo_input : MessageInput → MessageInput
unfolding to_repo_content
to_repo_input input = record {
  room_id = input.room_id;
  sender_id = input.sender_id;
  type = input.type;
  content = to_repo_content input.content;
  reply_to_id = input.reply_to_id;
}
