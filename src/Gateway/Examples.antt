-- ===== src/Gateway/Examples.antt =====
-- The gateway's theorems at a group of two, one message and one account.
use efir.Prelude.{
  ◌&&◌, ℕ, String, ◌≡◌, refl, [], ◌∷◌, true, Option, none, some, ◌==◌, if◌then◌else◌, nat_eq,
  string_eq, arith,
}
use efir.Exec.{running}
use efir.Shared.Errors.{unavailable}
use efir.Room.Types.{Room, RoomMember, group, owner, member, RoomWorld}
use efir.Room.Types as RoomTypes
use efir.Room.Handler as RoomHandler
use efir.Room.Repository.{select_member, select_room}
use efir.Room.Rules.{served_world}
use efir.Message.Methods
use efir.Message.Types.{Row, text, text_content}
use efir.Message.Content.{Json, scan, unmarshal_content, build_reply_preview}
use efir.Message.Repository as MessageRepository
use efir.Message.Service as MessageService
use efir.Gateway.Reading.{IsPage, get_messages-IsPage}
use efir.Message.Handler.{message_type_unspecified, RequestContent}
use efir.Message.Rules.{MessageWorld}
use efir.Auth.Types.{Account}
use efir.Auth.Repository
use efir.Auth.Repository.{select_account, count, incr_with_expiry, get, save_token}
use efir.Auth.Service
use efir.Auth.Service.{Config, Claims}
use efir.Auth.Tokens.{AuthWorld}
use efir.Auth.Handler as AuthHandler
use efir.Prelude.Int.{negsuc}
use efir.Prelude.Keyed.{lookup, insert, erase}
use efir.Gateway.Http.{write_proto, read_proto, with_body, call, remote, answer}
use efir.Gateway.Messages
use efir.Gateway.Sessions
use efir.Gateway.Sessions.{auth_cookies}
use efir.Gateway.Posting.{NotMember, send_message-Leaves}
use efir.Gateway.Identity.{IsJwt, login_proves}
use efir.Gateway.Access.{Parser, Token, Arrival, subject, protected}
use efir.Gateway.Effects.{Leaves}
use efir.Gateway.Rooms
use efir.Gateway.Rights.{NotOwner, rooms_need_owner}
use efir.Gateway.Statuses.{remove_member_status, add_member_status}

abbrev parse_id : String → Option ℕ
parse_id t =
    if t == "one"
    then some 1
    else if t == "two"
    then some 2
    else if t == "club"
    then some 7
    else none

abbrev packages : RoomHandler.Packages
packages = record {
  is_valid = λ _. true;
  parse = parse_id;
  format = λ n. if n == 1 then "one" else "two";
}

abbrev rooms_codec : Rooms.Codec
rooms_codec = record {
  read_create = λ _. none;
  read_update = λ body. some (body, body, some body);
  read_add = λ body. some ("", body, "");
  write_room = λ r. some r.name;
  write_rooms = λ _. "[]";
}

-- A library for tokens that are their subject.
abbrev read_token : Parser
read_token key t = some (record { valid = true; claims = some (some t) })

abbrev arrival : Arrival
arrival = record { cookie = some "two"; header = ""; fresh = "r1"; count = some 3 }

abbrev rooms : RoomTypes.Db
rooms = record {
  rooms =
      record {
        id = 7;
        name = "club";
        type = group;
        created_by = 1;
        created_at = 100;
        updated_at = 100;
      }
      ∷ [];
  members =
      record { room_id = 7; user_id = 1; role = owner; joined_at = 100 }
      ∷ record { room_id = 7; user_id = 2; role = member; joined_at = 101 }
      ∷ [];
}

abbrev rooms_now : RoomWorld
rooms_now = served_world rooms []

same_text : (a b : String) → ◌≡◌ {A = Option String} (some b) (some a) → a ≡ b
same_text a b k = ground (arith, k)

same_id : (a b : ℕ) → ◌≡◌ {A = Option ℕ} (some a) (some b) → b ≡ a
same_id a b k = ground (arith, k)

-- Of the users and rooms that the request's texts can stand for, none owns the club.
two_owns_none :
    (sub : String)
    → subject read_token "secret" (some "two") ≡ some sub
    → NotOwner packages rooms_now sub "club"
unfolding subject select_member
two_owns_none sub e u r eu er =
    let is_two : sub ≡ "two" = same_text sub "two" e in
    let is_user : u ≡ 2 = same_id 2 u (rw is_two at eu) in
    let is_club : r ≡ 7 = same_id 7 r er in rw (is_user, is_club) refl

rooms_need_owner_example :
    Leaves rooms_now (
      protected read_token "secret" 100 arrival
        (Rooms.update_room packages rooms_codec unavailable 1000 "club" (some "den") 200))
    × Leaves rooms_now (
        protected read_token "secret" 100 arrival
          (Rooms.delete_room packages rooms_codec unavailable 1000 "club"))
rooms_need_owner_example =
    rooms_need_owner read_token "secret" 100 packages rooms_codec unavailable 1000 arrival "club"
      (some "den") 200 rooms_now two_owns_none

remove_member_status_example :
    (Rooms.remove_member packages rooms_codec unavailable 1000 "club" "one"
      (record { user_id = "two"; request_id = "r1" })
      rooms_now).0.status
    ≡ 403
unfolding select_room select_member
remove_member_status_example =
    remove_member_status packages "club" "one" "two" 7 1 2 refl refl refl rooms_codec unavailable
      1000 "r1" rooms [] refl

add_member_status_example :
    (Rooms.add_member packages rooms_codec unavailable 1000 "club"
      (some "one")
      200
      (record { user_id = "two"; request_id = "r1" })
      rooms_now).0.status
    ≡ 204
unfolding select_room select_member read_proto
add_member_status_example =
    add_member_status packages "club" "one" "two" 7 1 2 refl refl refl rooms_codec unavailable 1000
      "r1" "" "" (some "one") 200 rooms [] refl refl

abbrev message_packages : Methods.Packages
message_packages = record { is_valid = λ _. true; parse = parse_id; format = λ n. "one" }

-- An encoding that writes nothing of a content.
abbrev no_json : Json
no_json = record { marshal = λ _. ""; unmarshal = λ _ _. none }

abbrev messages_codec : Messages.Codec
messages_codec = record {
  read_send = λ body. some ("other", "one", none, message_type_unspecified, RequestContent.empty);
  write_message = λ _. some "message";
  write_page = λ _. some "page";
  parse_int = λ _. none;
}

abbrev messages_now : MessageWorld
messages_now = record {
  db = record { messages = []; members = λ r. if r == 7 then 1 ∷ [] else [] };
  outcomes = [];
  events = [];
}

two_is_no_member :
    (sub : String)
    → subject read_token "secret" (some "two") ≡ some sub
    → NotMember message_packages messages_now sub "club"
unfolding subject
two_is_no_member sub e u r eu er =
    let is_two : sub ≡ "two" = same_text sub "two" e in
    let is_user : u ≡ 2 = same_id 2 u (rw is_two at eu) in
    let is_club : r ≡ 7 = same_id 7 r er in rw (is_user, is_club) refl

send_message-Leaves_example : Leaves messages_now (
    protected read_token "secret" 100 arrival (
      Messages.send_message message_packages no_json messages_codec unavailable 1000 "club"
        (some "{}")
        1
        200))
send_message-Leaves_example =
    send_message-Leaves read_token "secret" 100 message_packages no_json messages_codec unavailable
      1000 arrival "club" (some "{}") 1 200 messages_now two_is_no_member

abbrev text_row : ℕ → ℕ → Row
text_row id at' = record {
  id = id;
  room_id = 7;
  sender_id = 2;
  type = text;
  content = "hi";
  reply_to_id = none;
  deleted_at = none;
  edited_at = none;
  created_at = at';
  updated_at = at';
}

abbrev read_text : Json
read_text = record {
  marshal = λ _. "hi";
  unmarshal = λ _ t. some (text_content (record { text = t }));
}

abbrev club_now : MessageWorld
club_now = record {
  db = record {
    messages = text_row 1 100 ∷ text_row 2 101 ∷ [];
    members = messages_now.db.members;
  };
  outcomes = [];
  events = [];
}

-- A query with a limit below 1 is answered with one message.
abbrev one_row : Messages.Codec
one_row = record messages_codec { parse_int = λ _. some (negsuc 4) }

get_messages-IsPage_example :
    IsPage message_packages one_row "club" "one" "" club_now
      (Messages.get_messages message_packages read_text one_row unavailable 1000 "club" "" "-5"
        (record { user_id = "one"; request_id = "r1" })
        club_now).0
unfolding Messages.get_messages Messages.limit_of Messages.clamp Messages.cursor_of call remote
    answer Methods.get_messages Methods.validate Methods.parse_id Methods.parse_optional
    MessageService.get_messages MessageService.is_member MessageRepository.get_messages_by_room_id
    MessageRepository.check_cursor MessageRepository.scan_rows MessageRepository.cut
    MessageRepository.listing scan unmarshal_content build_reply_preview
    MessageRepository.newest_first MessageRepository.insert_newest MessageRepository.before running
    write_proto
get_messages-IsPage_example =
    get_messages-IsPage message_packages read_text one_row unavailable 1000 "club" "" "-5"
      (record { user_id = "one"; request_id = "r1" }) club_now ((refl, tt), (tt, tt)) refl

-- A library that signs for the first account only, by one secret.
abbrev signed : String → Claims → Option String
signed secret claims = if (secret == "secret") && (claims.sub == "one") then some "jwt" else none

abbrev settings : Config
settings = record {
  generate = λ p. some p;
  compare = λ h p. h == p;
  format = λ n. if n == 1 then "one" else "two";
  sign = signed;
  secret = "secret";
  limit = 2;
  window = 60;
  access_ttl = 900;
  refresh_ttl = 1000;
}

abbrev account : Account
account = record { id = 1; email = "a@b.c"; password_hash = "pw"; created_at = 10; updated_at = 10 }

abbrev auth_now : AuthWorld
auth_now = record {
  db = record { accounts = account ∷ []; refresh = []; limits = λ _. []; now = 100 };
  outcomes = [];
  events = [];
}

abbrev auth_packages : AuthHandler.Packages
auth_packages = record { is_valid = λ _. true; format = λ n. if n == 1 then "one" else "two" }

abbrev sessions_codec : Sessions.Codec
sessions_codec = record { read_credentials = λ body. some (body, "pw"); write_user_id = λ id. id }

abbrev with_key : Option String → String → Option Token
with_key none t = none
with_key (some key) t =
    if (key == "secret") && (t == "jwt")
    then some (record { valid = true; claims = some (some "one") })
    else none

abbrev read_jwt : Parser
read_jwt keys t = with_key (keys true) t

signed_by :
    (secret token : String) (claims : Claims)
    → signed secret claims ≡ some token
    → (secret ≡ "secret") × (claims.sub ≡ "one") × (token ≡ "jwt")
signed_by secret token claims made =
    ground (arith, made, string_eq.same_iff secret "secret", string_eq.same_iff claims.sub "one")

read_jwt-IsJwt : IsJwt settings read_jwt 400
read_jwt-IsJwt keys secret token claims made found from until =
    let (key, sub, t) = signed_by secret token claims made in rw (found, key, sub, t) refl

login_proves_example :
    (access : String) × ((Sessions.login auth_packages settings sessions_codec unavailable 1000 true
        (some "a@b.c")
        77
        auth_now).0.cookies
      ≡ auth_cookies true access 77)
    × (subject read_jwt "secret" (some access) ≡ some "one")
unfolding read_proto select_account Sessions.login with_body call remote answer Sessions.opened
    AuthHandler.login AuthHandler.validate Service.login Repository.allow count incr_with_expiry get
    Repository.get_account_by_email Service.generate_token_pair Service.time_now Service.or_fail
    Repository.save_refresh_token save_token running lookup insert erase
login_proves_example =
    login_proves auth_packages settings sessions_codec unavailable 1000 true read_jwt (some "a@b.c")
      77 auth_now account "a@b.c" "pw" refl refl 400 read_jwt-IsJwt (omega arith) (omega arith) (cc)
      refl
