-- ===== src/Room/Handler.antt =====
-- services/room/internal/handler/{room,mapper}.go: the gRPC methods of the room service. The rules of
-- protovalidate and the two directions of uuid's texts are parameters.
use efir.Prelude.{
  ℕ, String, List, map, Bool, not, Option, none, some, ◌==◌, if◌then◌else◌, string_eq,
}
use efir.Exec.{Exec, pure, raise, ◌>>=◌, ◌>>◌, fail_if, on_error}
use efir.Shared.Errors.{
  Code, not_found, already_exists, permission_denied, invalid_argument, internal,
}
use efir.Room.Types.{RoomType, direct, group, Room, Db, RoomEvent}
use efir.Room.Service
use efir.Room.Service.{
  ServiceError, room_not_found, not_owner, not_member, direct_room_exists, member_not_found,
  cannot_remove_owner,
}

-- The enum roomv1.RoomType; a number that is not declared is kept by the wire format.
pub data ProtoType : Type 0 where
  room_type_unspecified room_type_direct room_type_group : ProtoType
  undeclared : ℕ → ProtoType

unfoldable pub room_type_to_proto : RoomType → ProtoType
room_type_to_proto direct = room_type_direct
room_type_to_proto group = room_type_group

unfoldable pub proto_to_room_type : ProtoType → Option RoomType
proto_to_room_type room_type_direct = some direct
proto_to_room_type room_type_group = some group
proto_to_room_type _ = none

pub record ProtoRoom : Type 0 where
  pub room_id : String
  pub name : String
  pub type : ProtoType
  pub created_by : String
  pub created_at : ℕ
  pub updated_at : ℕ

-- The requests, with their fields in the order of the .proto file.
pub data Request : Type 0 where
  create_room_request : String → ProtoType → String → String → Request
  get_room_request : String → Request
  update_room_request : String → String → Option String → Request
  delete_room_request : String → String → Request
  add_member_request : String → String → String → Request
  remove_member_request : String → String → String → Request
  get_room_members_request : String → Request
  is_member_request : String → String → Request
  get_user_rooms_request : String → Request

-- What the handler uses of other packages: protovalidate's verdict, uuid.Parse and UUID.String.
pub record Packages : Type 0 where
  pub is_valid : Request → Bool
  pub parse : String → Option ℕ
  pub format : ℕ → String

abbrev pub Handler : Type 0 → Type 0
Handler A = Exec Db RoomEvent Code A

-- The codes that the methods' errors become.
abbrev pub create_room_code : ServiceError → Code
create_room_code direct_room_exists = already_exists
create_room_code _ = internal

abbrev pub get_room_code : ServiceError → Code
get_room_code room_not_found = not_found
get_room_code _ = internal

abbrev pub owner_only_code : ServiceError → Code
owner_only_code room_not_found = not_found
owner_only_code not_owner = permission_denied
owner_only_code not_member = permission_denied
owner_only_code _ = internal

abbrev pub add_member_code : ServiceError → Code
add_member_code room_not_found = not_found
add_member_code not_member = permission_denied
add_member_code _ = internal

abbrev pub remove_member_code : ServiceError → Code
remove_member_code room_not_found = not_found
remove_member_code not_owner = permission_denied
remove_member_code not_member = permission_denied
remove_member_code member_not_found = not_found
remove_member_code cannot_remove_owner = permission_denied
remove_member_code _ = internal

abbrev pub any_code : ServiceError → Code
any_code _ = internal

module _ (packages : Packages) where
  unfoldable pub validate : Request → Handler (Unit {0})
  validate req = fail_if (not (packages.is_valid req)) invalid_argument

  unfoldable pub parse_id : String → Handler ℕ
  parse_id text = elim (packages.parse text) [ none ↦ raise invalid_argument | some id ↦ pure id ]

  unfoldable pub room_to_proto : Room → ProtoRoom
  room_to_proto room = record {
    room_id = packages.format room.id;
    name = room.name;
    type = room_type_to_proto room.type;
    created_by = packages.format room.created_by;
    created_at = room.created_at;
    updated_at = room.updated_at;
  }

  -- An absent participant is uuid.Nil.
  unfoldable pub parse_participant : String → Handler ℕ
  parse_participant participant_id =
      if participant_id == "" then pure 0 else parse_id participant_id

  unfoldable pub parse_type : ProtoType → Handler RoomType
  parse_type type = elim (proto_to_room_type type) [
    | none ↦ raise invalid_argument
    | some t ↦ pure t
  ]

  unfoldable pub parse_name : Option String → Handler String
  parse_name none = raise invalid_argument
  parse_name (some name) = if name == "" then raise invalid_argument else pure name

  unfoldable pub create_room : String → ProtoType → String → String → ℕ → ℕ → Handler ProtoRoom
  create_room name type created_by participant_id id now = do
    validate (create_room_request name type created_by participant_id)
    creator ← parse_id created_by
    participant ← parse_participant participant_id
    room_type ← parse_type type
    room ← on_error create_room_code (Service.create_room name room_type creator participant id now)
    pure (room_to_proto room)

  unfoldable pub get_room : String → Handler ProtoRoom
  get_room room_id = do
    validate (get_room_request room_id)
    room ← parse_id room_id
    found ← on_error get_room_code (Service.get_room room)
    pure (room_to_proto found)

  unfoldable pub update_room : String → String → Option String → ℕ → Handler ProtoRoom
  update_room room_id requester_id name now = do
    validate (update_room_request room_id requester_id name)
    room ← parse_id room_id
    requester ← parse_id requester_id
    new_name ← parse_name name
    updated ← on_error owner_only_code (Service.update_room room requester new_name now)
    pure (room_to_proto updated)

  unfoldable pub delete_room : String → String → Handler (Unit {0})
  delete_room room_id requester_id = do
    validate (delete_room_request room_id requester_id)
    room ← parse_id room_id
    requester ← parse_id requester_id
    on_error owner_only_code (Service.delete_room room requester)

  unfoldable pub add_member : String → String → String → ℕ → Handler (Unit {0})
  add_member room_id user_id requester_id now = do
    validate (add_member_request room_id user_id requester_id)
    room ← parse_id room_id
    user ← parse_id user_id
    requester ← parse_id requester_id
    on_error add_member_code (Service.add_member room user requester now)

  unfoldable pub remove_member : String → String → String → Handler (Unit {0})
  remove_member room_id user_id requester_id = do
    validate (remove_member_request room_id user_id requester_id)
    room ← parse_id room_id
    user ← parse_id user_id
    requester ← parse_id requester_id
    on_error remove_member_code (Service.remove_member room user requester)

  unfoldable pub get_room_members : String → Handler (List String)
  get_room_members room_id = do
    validate (get_room_members_request room_id)
    room ← parse_id room_id
    members ← on_error get_room_code (Service.get_room_members room)
    pure (map (λ m. packages.format m.user_id) members)

  unfoldable pub is_member : String → String → Handler Bool
  is_member room_id user_id = do
    validate (is_member_request room_id user_id)
    room ← parse_id room_id
    user ← parse_id user_id
    on_error any_code (Service.is_member room user)

  unfoldable pub get_user_rooms : String → Handler (List ProtoRoom)
  get_user_rooms user_id = do
    validate (get_user_rooms_request user_id)
    user ← parse_id user_id
    rooms ← on_error any_code (Service.get_user_rooms user)
    pure (map room_to_proto rooms)
