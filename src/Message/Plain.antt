-- ===== src/Message/Plain.antt =====
-- services/message/internal/service: the copies lose nothing, so the methods are what they are without
-- them.
use efir.Prelude.{ℕ, List, [], ◌∷◌, ◌≡◌, refl, map, not, Option, none, some, map_option}
use efir.Exec.{pure, attempt, fail_if, on_error, ◌>>=◌, ◌>>◌}
use efir.Message.Types.{
  Message, MessageInput, MessagePreview, MessageContent, text_content, media_content, file_content,
  voice_content, video_note_content, sticker_content, event_content,
}
use efir.Message.Content.{Json}
use efir.Message.Repository
use efir.Message.Service
use efir.Message.Service.{
  wrapped, not_member, is_member, check_reply, get_room_members, send_event, message_err,
}
use efir.Message.Mapper.{
  to_content, to_repo_content, to_preview, to_message, to_messages, to_repo_input,
}

to_content_lem : (c : MessageContent) → to_content c ≡ c
unfolding to_content
to_content_lem (text_content v) = refl
to_content_lem (media_content v) = refl
to_content_lem (file_content v) = refl
to_content_lem (voice_content v) = refl
to_content_lem (video_note_content v) = refl
to_content_lem (sticker_content v) = refl
to_content_lem (event_content v) = refl

to_repo_content_lem : (c : MessageContent) → to_repo_content c ≡ c
unfolding to_repo_content
to_repo_content_lem (text_content v) = refl
to_repo_content_lem (media_content v) = refl
to_repo_content_lem (file_content v) = refl
to_repo_content_lem (voice_content v) = refl
to_repo_content_lem (video_note_content v) = refl
to_repo_content_lem (sticker_content v) = refl
to_repo_content_lem (event_content v) = refl

previews : (o : Option MessagePreview) → map_option to_preview o ≡ o
unfolding to_preview
previews none = refl
previews (some p) = refl

to_message_lem : (m : Message) → to_message m ≡ m
unfolding to_message
to_message_lem m = rw (to_content_lem m.content, previews m.reply_to) refl

messages : (ms : List Message) → map to_message ms ≡ ms
messages [] = refl
messages (m ∷ ms) = rw (to_message_lem m, messages ms) refl

to_repo_input_lem : (input : MessageInput) → to_repo_input input ≡ input
unfolding to_repo_input
to_repo_input_lem input = rw to_repo_content_lem refl

same_message : to_message ≡ (λ m. m)
same_message i m = to_message_lem m i

same_messages : to_messages ≡ (λ ms. ms)
unfolding to_messages
same_messages i ms = messages ms i

same_input : to_repo_input ≡ (λ input. input)
same_input i input = to_repo_input_lem input i

abbrev send_message_with :
    (Message → Message)
    → (MessageInput → MessageInput)
    → Json
    → MessageInput
    → ℕ
    → ℕ
    → Service.Service Message
send_message_with copy copy_input j input id now = do
  joined ← on_error wrapped (is_member input.room_id input.sender_id)
  fail_if (not joined) not_member
  check_reply j input.room_id input.reply_to_id
  msg ← on_error wrapped (Repository.create_message j (copy_input input) id now)
  recipients ← attempt (get_room_members input.room_id)
  send_event (copy msg) recipients
  pure (copy msg)

abbrev pub send_message_plain : Json → MessageInput → ℕ → ℕ → Service.Service Message
send_message_plain j input id now = do
  joined ← on_error wrapped (is_member input.room_id input.sender_id)
  fail_if (not joined) not_member
  check_reply j input.room_id input.reply_to_id
  msg ← on_error wrapped (Repository.create_message j input id now)
  recipients ← attempt (get_room_members input.room_id)
  send_event msg recipients
  pure msg

pub send_message_lem : Service.send_message ≡ send_message_plain
unfolding Service.send_message
send_message_lem i = send_message_with (same_message i) (same_input i)

abbrev get_messages_with :
    (List Message → List Message)
    → Json
    → ℕ
    → ℕ
    → Option ℕ
    → ℕ
    → Service.Service (List Message × Option ℕ)
get_messages_with copy j room_id requester_id cursor limit = do
  joined ← on_error wrapped (is_member room_id requester_id)
  fail_if (not joined) not_member
  page ← on_error wrapped (Repository.get_messages_by_room_id j room_id cursor limit)
  pure (copy page.0, page.1)

abbrev pub get_messages_plain :
    Json → ℕ → ℕ → Option ℕ → ℕ → Service.Service (List Message × Option ℕ)
get_messages_plain j room_id requester_id cursor limit = do
  joined ← on_error wrapped (is_member room_id requester_id)
  fail_if (not joined) not_member
  page ← on_error wrapped (Repository.get_messages_by_room_id j room_id cursor limit)
  pure (page.0, page.1)

pub get_messages_lem : Service.get_messages ≡ get_messages_plain
unfolding Service.get_messages
get_messages_lem i = get_messages_with (same_messages i)

abbrev get_message_by_id_with : (Message → Message) → Json → ℕ → ℕ → Service.Service Message
get_message_by_id_with copy j message_id requester_id = do
  msg ← on_error message_err (Repository.get_message_by_id j message_id)
  joined ← on_error wrapped (is_member msg.room_id requester_id)
  fail_if (not joined) not_member
  pure (copy msg)

abbrev pub get_message_by_id_plain : Json → ℕ → ℕ → Service.Service Message
get_message_by_id_plain j message_id requester_id = do
  msg ← on_error message_err (Repository.get_message_by_id j message_id)
  joined ← on_error wrapped (is_member msg.room_id requester_id)
  fail_if (not joined) not_member
  pure msg

pub get_message_by_id_lem : Service.get_message_by_id ≡ get_message_by_id_plain
unfolding Service.get_message_by_id
get_message_by_id_lem i = get_message_by_id_with (same_message i)
