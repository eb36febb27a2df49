-- ===== src/Gateway/Rooms.antt =====
-- services/gateway/internal/handler/room/handler.go, over the room service's methods. protojson and
-- encoding/json are parameters; the path's parts and the body are those of the request.
use efir.Prelude.{ℕ, String, List, Option}
use efir.Shared.Errors.{GrpcCode}
use efir.Room.Types.{RoomWorld}
use efir.Room.Handler
use efir.Room.Handler.{ProtoType, ProtoRoom, Packages}
use efir.Gateway.Http.{Response, empty, json, respond, write_proto, read_proto, call, with_body}
use efir.Gateway.Access.{Endpoint}

-- The requests that a body may hold, with all their fields, and what is written of rooms.
pub record Codec : Type 0 where
  pub read_create : String → Option (String × ProtoType × String × String)
  pub read_update : String → Option (String × String × Option String)
  pub read_add : String → Option (String × String × String)
  pub write_room : ProtoRoom → Option String
  pub write_rooms : List ProtoRoom → String

module _ (packages : Packages) (codec : Codec) (failure : GrpcCode) (max_body_size : ℕ) where
  abbrev no_content : Unit {0} → Response
  no_content _ = respond 204 empty

  unfoldable pub get_user_rooms : Endpoint RoomWorld
  get_user_rooms ctx =
      call failure (Handler.get_user_rooms packages ctx.user_id)
        (λ rooms. respond 200 (json (codec.write_rooms rooms)))

  -- The user's id takes the place of the body's.
  unfoldable pub create_room : Option String → ℕ → ℕ → Endpoint RoomWorld
  create_room body id now ctx =
      with_body (read_proto max_body_size codec.read_create body) λ (name, type, _, participant_id).
        call failure (Handler.create_room packages name type ctx.user_id participant_id id now)
          (write_proto codec.write_room 201)

  unfoldable pub get_room : String → Endpoint RoomWorld
  get_room room_id ctx =
      call failure (Handler.get_room packages room_id) (write_proto codec.write_room 200)

  unfoldable pub update_room : String → Option String → ℕ → Endpoint RoomWorld
  update_room room_id body now ctx =
      with_body (read_proto max_body_size codec.read_update body) λ (_, _, name).
        call failure (Handler.update_room packages room_id ctx.user_id name now)
          (write_proto codec.write_room 200)

  unfoldable pub delete_room : String → Endpoint RoomWorld
  delete_room room_id ctx =
      call failure (Handler.delete_room packages room_id ctx.user_id) no_content

  unfoldable pub add_member : String → Option String → ℕ → Endpoint RoomWorld
  add_member room_id body now ctx =
      with_body (read_proto max_body_size codec.read_add body) λ (_, user_id, _).
        call failure (Handler.add_member packages room_id user_id ctx.user_id now) no_content

  unfoldable pub remove_member : String → String → Endpoint RoomWorld
  remove_member room_id user_id ctx =
      call failure (Handler.remove_member packages room_id user_id ctx.user_id) no_content
