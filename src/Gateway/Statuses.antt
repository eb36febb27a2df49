-- ===== src/Gateway/Statuses.antt =====
-- services/gateway and services/room together: the HTTP statuses of the endpoints for members.
use efir.Prelude.{ℕ, String, ◌≡◌, refl, List, true, Option, some, Bool-cases, inl, inr}
use efir.Exec.{Result, ok, err, translate, ◌>>=◌, pure, on_error, fail_if}
use efir.Shared.Errors.{Code, GrpcCode, to_grpc_code, from_error, to_http_code}
use efir.Room.Types.{Db, RoomEvent, RoomWorld}
use efir.Room.Service
use efir.Room.Service.{
  ServiceError, room_not_found, not_owner, not_member, direct_room_exists, member_not_found,
  cannot_remove_owner, invalid_direct_room, direct_room_immutable, wrapped,
}
use efir.Room.Handler
use efir.Room.Handler.{
  Packages, Request, remove_member_request, add_member_request, validate, parse_id,
  remove_member_code, add_member_code,
}
use efir.Room.Invariant.{joined}
use efir.Room.Rules.{
  removal, addition, effect, served_world, remove_member_served, add_member_served,
}
use efir.Gateway.Http.{
  call, with_body, remote, answer, write_error, write_code, empty, respond, read_proto,
}
use efir.Gateway.Rooms
use efir.Gateway.Rooms.{Codec}

-- The statuses by the service's answers.
abbrev pub removal_status : Result ServiceError (Unit {0}) → ℕ
removal_status (ok _) = 204
removal_status (err room_not_found) = 404
removal_status (err member_not_found) = 404
removal_status (err not_owner) = 403
removal_status (err not_member) = 403
removal_status (err cannot_remove_owner) = 403
removal_status (err _) = 500

abbrev pub addition_status : Result ServiceError (Unit {0}) → ℕ
addition_status (ok _) = 204
addition_status (err room_not_found) = 404
addition_status (err not_member) = 403
addition_status (err _) = 500

-- What a client of the gateway sees of an answer of the service.
abbrev seen : (ServiceError → Code) → Result ServiceError (Unit {0}) → ℕ
seen code r =
    (answer (λ _. respond 204 empty)
      (translate (λ c. some (to_grpc_code c)) (translate code r))).status

seen_removal : (r : Result ServiceError (Unit {0})) → seen remove_member_code r ≡ removal_status r
unfolding answer write_error write_code to_http_code to_grpc_code from_error
seen_removal (ok _) = refl
seen_removal (err room_not_found) = refl
seen_removal (err member_not_found) = refl
seen_removal (err not_owner) = refl
seen_removal (err not_member) = refl
seen_removal (err cannot_remove_owner) = refl
seen_removal (err direct_room_exists) = refl
seen_removal (err invalid_direct_room) = refl
seen_removal (err direct_room_immutable) = refl
seen_removal (err (wrapped e)) = refl

seen_addition : (r : Result ServiceError (Unit {0})) → seen add_member_code r ≡ addition_status r
unfolding answer write_error write_code to_http_code to_grpc_code from_error
seen_addition (ok _) = refl
seen_addition (err room_not_found) = refl
seen_addition (err member_not_found) = refl
seen_addition (err not_owner) = refl
seen_addition (err not_member) = refl
seen_addition (err cannot_remove_owner) = refl
seen_addition (err direct_room_exists) = refl
seen_addition (err invalid_direct_room) = refl
seen_addition (err direct_room_immutable) = refl
seen_addition (err (wrapped e)) = refl

effect-answer :
    (r : Result ServiceError (Unit {0})) (db db' : Db) (es es' : List RoomEvent)
    → (effect r db es db' es').0 ≡ r
effect-answer (ok _) db db' es es' = refl
effect-answer (err e) db db' es es' = refl

module _ (packages : Packages) (room_id user_id requester_id : String) (r u q : ℕ)
    (room : packages.parse room_id ≡ some r) (user : packages.parse user_id ≡ some u)
    (requester : packages.parse requester_id ≡ some q) where
  handler-remove_member :
      (w : RoomWorld)
      → packages.is_valid (remove_member_request room_id user_id requester_id) ≡ true
      → Handler.remove_member packages room_id user_id requester_id w
        ≡ on_error remove_member_code (Service.remove_member r u q) w
  unfolding Handler.remove_member validate parse_id pure ◌>>=◌ fail_if
  handler-remove_member w valid = rw (valid, fail_if, room, parse_id, user, requester) refl

  handler-add_member :
      (now : ℕ) (w : RoomWorld)
      → packages.is_valid (add_member_request room_id user_id requester_id) ≡ true
      → Handler.add_member packages room_id user_id requester_id now w
        ≡ on_error add_member_code (Service.add_member r u q now) w
  unfolding Handler.add_member validate parse_id pure ◌>>=◌ fail_if
  handler-add_member now w valid = rw (valid, fail_if, room, parse_id, user, requester) refl

  module _ (codec : Codec) (failure : GrpcCode) (max_body_size : ℕ) where
    -- If every call is served and the request's texts are valid UUIDs, then DELETE
    -- /rooms/{id}/members/{userId} answers 204 if the member is removed, 404 if there is no such
    -- room or member, 403 if the requester may not remove the user, and 500 in a direct room.
    pub remove_member_status :
        (request : String) (db : Db) (es : List RoomEvent)
        → packages.is_valid (remove_member_request room_id user_id requester_id) ≡ true
        → (Rooms.remove_member packages codec failure max_body_size room_id user_id
            (record { user_id = requester_id; request_id = request })
            (served_world db es)).0.status
          ≡ removal_status (removal r u q db)
    unfolding Rooms.remove_member call remote on_error
    remove_member_status request db es valid =
        rw (handler-remove_member (served_world db es) valid, remove_member_served, effect-answer)
          (seen_removal (removal r u q db))

    -- If every call is served, the body can be read and the texts are valid UUIDs, then POST
    -- /rooms/{id}/members answers 204 to a member of a group, whether or not the user is a member
    -- already, 404 if there is no such room, 403 to a requester who is not a member, and 500 in a
    -- direct room. The ids that the body gives for the room and the requester do not count.
    pub add_member_status :
        (request any_room any_requester : String) (body : Option String) (now : ℕ) (db : Db)
        (es : List RoomEvent)
        → read_proto max_body_size codec.read_add body ≡ ok (any_room, user_id, any_requester)
        → packages.is_valid (add_member_request room_id user_id requester_id) ≡ true
        → (Rooms.add_member packages codec failure max_body_size room_id body now
            (record { user_id = requester_id; request_id = request })
            (served_world db es)).0.status
          ≡ addition_status (addition r q db)
    unfolding Rooms.add_member with_body call remote on_error
    add_member_status request any_room any_requester body now db es readable valid =
        rw
          (
            readable,
            with_body,
            handler-add_member now (served_world db es) valid,
            add_member_served,
          )
          (elim (Bool-cases (joined db r u)) [
            | inl e ↦ rw e (seen_addition (addition r q db))
            | inr e ↦ rw (e, effect-answer) (seen_addition (addition r q db))
          ])
