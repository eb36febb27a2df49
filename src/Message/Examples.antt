-- ===== src/Message/Examples.antt =====
-- The message service's theorems at a room of two with two messages.
use efir.Prelude.{
  ℕ, String, ◌≡◌, ◌≤◌, refl, if◌then◌else◌, [], ◌∷◌, ◌++◌, true, Option, some, none, nat_eq, ◌==◌,
  contains, length, arith, suc, take, ltb, Bool, false, is_some, string_eq,
}
use efir.Exec.{ok, err, running}
use efir.Exec.Ends.{Ends}
use efir.Message.Types.{
  text, image, MessageContent, text_content, media_content, MediaContent, Message, MessageInput,
  Row, Db, RepoError,
}
use efir.Message.Content.{
  Json, Shape, text_shape, shape_of, type_shape, scan, unmarshal_content, build_reply_preview,
}
use efir.Shared.Errors.{unavailable}
use efir.Message.Client.{Attempts, status, is_retried, attempt_from, with_retry, stop}
use efir.Message.Retry.{IsDecisive, sum, with_retry_decides}
use efir.Message.Methods
use efir.Message.Methods.{Packages, ProtoMessage, message_to_proto}
use efir.Message.Deleted.{bare_preview, get_message_by_id_deleted}
use efir.Message.Repository
use efir.Message.Repository.{select_row, reply_of, listing}
use efir.Message.Service
use efir.Message.Service.{ServiceError, wrapped}
use efir.Message.Pages.{row_ids, message_ids, rest}
use efir.Message.Paging.{get_messages_continues}
use efir.Message.Rules.{
  MessageWorld, served_world, Unchanged, delete_message_needs_sender,
  get_message_by_id-send_message, delete_message_again,
}
use efir.Message.Handler.{
  message_type_image, media_request, request_content, message_type_to_proto, proto_to_message_type,
  request_content_shape,
}

-- An encoding that keeps texts, and nothing else.
abbrev text_of : MessageContent → String
text_of (text_content c) = c.text
text_of _ = ""

abbrev read_text : Shape → String → Option MessageContent
read_text text_shape s = some (text_content (record { text = s }))
read_text _ s = none

abbrev plain : Json
plain = record { marshal = text_of; unmarshal = read_text }

abbrev row : ℕ → ℕ → String → ℕ → Option ℕ → Row
row id sender t at' gone = record {
  id = id;
  room_id = 5;
  sender_id = sender;
  type = text;
  content = t;
  reply_to_id = none;
  deleted_at = gone;
  edited_at = none;
  created_at = at';
  updated_at = at';
}

abbrev db : Db
db = record {
  messages =
      row 10 1 "hi" 100 none ∷ row 11 2 "hello" 101 none ∷ row 12 1 "oops" 102 (some 103) ∷ [];
  members = λ r. if r == 5 then 1 ∷ 2 ∷ [] else [];
}

abbrev message : ℕ → ℕ → String → ℕ → Option ℕ → Message
message id sender t at' gone = record {
  id = id;
  room_id = 5;
  sender_id = sender;
  type = text;
  content = text_content (record { text = t });
  reply_to = none;
  deleted_at = gone;
  edited_at = none;
  created_at = at';
  updated_at = at';
}

abbrev input : ℕ → MessageInput
input sender = record {
  room_id = 5;
  sender_id = sender;
  type = text;
  content = text_content (record { text = "new" });
  reply_to_id = none;
}

abbrev now_world : MessageWorld
now_world = served_world db []

get_messages_continues_example :
    (contains (db.members 5) 2 ≡ true)
    × (row_ids (listing 5 none db)
        ≡ message_ids (message 11 2 "hello" 101 none ∷ []) ++ row_ids (rest 5 (some 11) db))
    × (length (message 11 2 "hello" 101 none ∷ []) ≤ 1)
unfolding Service.get_messages Service.is_member Repository.get_messages_by_room_id
    Repository.check_cursor Repository.scan_rows Repository.cut listing scan unmarshal_content
    build_reply_preview Repository.newest_first Repository.insert_newest Repository.before running
get_messages_continues_example =
    get_messages_continues plain 5 2 none 0 now_world (message 11 2 "hello" 101 none ∷ []) (some 11)
      ((refl, (refl, tt)), ((refl, tt), (tt, tt))) refl

delete_message_needs_sender_example :
    Ends (Unchanged now_world) (Service.delete_message plain 10 2 200) now_world
unfolding select_row
delete_message_needs_sender_example =
    delete_message_needs_sender plain 10 2 200 now_world (λ m e. ground (arith, e))

get_message_by_id-send_message_example :
    (got : Message) × ((Service.get_message_by_id plain 20 2
        (served_world (Service.send_message plain (input 1) 20 200 now_world).1.db [])).0
      ≡ ok got)
    × (got.id ≡ 20)
    × (got.sender_id ≡ 1)
    × (got.room_id ≡ 5)
    × (got.type ≡ text)
    × (got.content ≡ text_content (record { text = "new" }))
unfolding Service.send_message Service.is_member Service.check_reply Repository.create_message
    Repository.insert_row Service.get_room_members Service.send_event select_row running
get_message_by_id-send_message_example =
    get_message_by_id-send_message plain (input 1) 20 200 2 now_world (message 20 1 "new" 200 none)
      refl refl refl refl

delete_message_again_example :
    (Service.delete_message plain 12 1 200 (served_world db [])).0
    ≡ err (wrapped RepoError.message_not_found)
unfolding select_row scan unmarshal_content build_reply_preview
delete_message_again_example =
    delete_message_again plain 12 1 200 db [] (row 12 1 "oops" 102 (some 103))
      (message 12 1 "oops" 102 (some 103)) refl refl refl refl refl

abbrev photo : MediaContent
photo = record {
  file_id = "f1";
  mime_type = "image/png";
  file_size = 9;
  width = 3;
  height = 3;
  thumbnail_id = none;
  duration_sec = none;
}

request_content_shape_example :
    (message_type_image ≡ message_type_to_proto image)
    × (shape_of (media_content photo) ≡ type_shape image)
unfolding request_content proto_to_message_type
request_content_shape_example =
    request_content_shape message_type_image (media_request photo) image (media_content photo) refl

-- The first two attempts find the room service down, the third is answered.
abbrev attempts : Attempts Bool
attempts = record {
  ended = λ _. false;
  ended_waiting = λ _. false;
  answer = λ i. if ltb i 2 then err (status unavailable) else ok true;
}

with_retry_decides_example :
    (k : ℕ) × IsDecisive attempts 4 k
    × (with_retry attempts (10 ∷ 20 ∷ 40 ∷ 80 ∷ [])
        ≡ stop attempts (attempts.answer k) (suc k) (sum (take k (10 ∷ 20 ∷ 40 ∷ 80 ∷ []))))
with_retry_decides_example =
    with_retry_decides attempts (10 ∷ 20 ∷ 40 ∷ 80 ∷ []) (λ j. refl) (λ j. refl)

third_attempt : with_retry attempts (10 ∷ 20 ∷ 40 ∷ 80 ∷ []) ≡ stop attempts (ok true) 3 30
unfolding with_retry attempt_from is_retried
third_attempt = refl

abbrev packages : Packages
packages = record {
  is_valid = λ _. true;
  parse = λ t. if t == "m12" then some 12 else some 2;
  format = λ n. "id";
}

-- A member asks for the message that is deleted.
abbrev shown : ProtoMessage
shown = message_to_proto packages (message 12 1 "oops" 102 (some 103))

get_message_by_id_deleted_example :
    (id : ℕ) × (m : Row) × (packages.parse "m12" ≡ some id)
    × (select_row id db ≡ some m)
    × (is_some m.deleted_at ≡ true → (shown.content ≡ none) × (shown.is_deleted ≡ true))
    × ((rm : Row)
        → reply_of db m ≡ some rm
        → is_some rm.deleted_at ≡ true
        → shown.reply_to ≡ some (bare_preview packages rm))
unfolding Methods.get_message_by_id Methods.validate Methods.parse_id Service.get_message_by_id
    Service.is_member Repository.get_message_by_id select_row scan unmarshal_content
    build_reply_preview running
get_message_by_id_deleted_example =
    get_message_by_id_deleted packages plain "m12" "two" now_world shown refl
