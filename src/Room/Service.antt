-- ===== src/Room/Service.antt =====
-- services/room/internal/service/room.go: the room service's methods, over the repository and the
-- publisher. Where Go logs an error and goes on, the error is dropped. A repository's error that is
-- wrapped keeps its cause, and is none of the service's own errors.
use efir.Prelude.{ℕ, String, List, map, Bool, true, false, ◌&&◌, not, ◌==◌, nat_eq}
use efir.Exec.{
  Result, ok, err, Exec, pure, raise, publish, ◌>>=◌, ◌>>◌, fail_if, on_error, attempt,
  ignore_error,
}
use efir.Room.Types.{
  RoomType, is_direct, member, is_owner, Room, RoomMember, Db, RepoError, backend, RoomEvent,
  room_created, membership_changed, room_updated, room_deleted,
}
use efir.Room.Repository

pub data ServiceError : Type 0 where
  room_not_found not_owner not_member direct_room_exists member_not_found : ServiceError
  cannot_remove_owner invalid_direct_room direct_room_immutable : ServiceError
  wrapped : RepoError → ServiceError

abbrev pub Service : Type 0 → Type 0
Service A = Exec Db RoomEvent ServiceError A

-- How each method names the repository's errors.
abbrev pub create_err : RepoError → ServiceError
create_err RepoError.direct_room_exists = direct_room_exists
create_err e = wrapped e

abbrev pub room_err : RepoError → ServiceError
room_err RepoError.room_not_found = room_not_found
room_err e = wrapped e

abbrev pub requester_err : RepoError → ServiceError
requester_err RepoError.member_not_found = not_member
requester_err e = wrapped e

abbrev pub target_err : RepoError → ServiceError
target_err RepoError.member_not_found = member_not_found
target_err e = wrapped e

abbrev pub member_user_ids : List RoomMember → List ℕ
member_user_ids = map (λ m. m.user_id)

-- The members are read for the event's recipients; without them there is no event.
unfoldable pub send_event :
    (List ℕ → RoomEvent) → Result RepoError (List RoomMember) → Service (Unit {0})
send_event event (err e) = pure tt
send_event event (ok members) =
    ignore_error {E = RepoError} (publish backend (event (member_user_ids members)))

unfoldable pub notify : ℕ → (List ℕ → RoomEvent) → Service (Unit {0})
notify room_id event = attempt (Repository.get_room_members room_id) >>= send_event event

unfoldable pub create_room : String → RoomType → ℕ → ℕ → ℕ → ℕ → Service Room
create_room name type created_by participant_id id now = do
  fail_if (is_direct type && (participant_id == 0)) invalid_direct_room
  fail_if (is_direct type && (created_by == participant_id)) invalid_direct_room
  room ← on_error create_err (Repository.create_room name type created_by participant_id id now)
  notify room.id (room_created room.id)
  pure room

unfoldable pub get_room : ℕ → Service Room
get_room room_id = on_error room_err (Repository.get_room_by_id room_id)

unfoldable pub update_room : ℕ → ℕ → String → ℕ → Service Room
update_room room_id requester_id name now = do
  _ ← on_error room_err (Repository.get_room_by_id room_id)
  role ← on_error requester_err (Repository.get_member_role room_id requester_id)
  fail_if (not (is_owner role)) not_owner
  room ← on_error room_err (Repository.update_room room_id name now)
  notify room_id (room_updated room_id room.name)
  pure room

unfoldable pub delete_room : ℕ → ℕ → Service (Unit {0})
delete_room room_id requester_id = do
  _ ← on_error room_err (Repository.get_room_by_id room_id)
  role ← on_error requester_err (Repository.get_member_role room_id requester_id)
  fail_if (not (is_owner role)) not_owner
  notify room_id (room_deleted room_id)
  on_error wrapped (Repository.delete_room room_id)

-- A user who is a member already is no error, and no news.
unfoldable pub after_add : ℕ → ℕ → Result RepoError RoomMember → Service (Unit {0})
after_add room_id user_id (err RepoError.member_already_exists) = pure tt
after_add room_id user_id (err e) = raise (wrapped e)
after_add room_id user_id (ok _) = notify room_id (membership_changed room_id user_id "added")

unfoldable pub add_member : ℕ → ℕ → ℕ → ℕ → Service (Unit {0})
add_member room_id user_id requester_id now = do
  room ← on_error room_err (Repository.get_room_by_id room_id)
  fail_if (is_direct room.type) direct_room_immutable
  joined ← on_error wrapped (Repository.is_member room_id requester_id)
  fail_if (not joined) not_member
  added ← attempt (Repository.add_member room_id user_id member now)
  after_add room_id user_id added

-- Another user is removed only if that user is a member and not the owner.
unfoldable pub check_target : Bool → ℕ → ℕ → Service (Unit {0})
check_target true room_id user_id = pure tt
check_target false room_id user_id = do
  role ← on_error target_err (Repository.get_member_role room_id user_id)
  fail_if (is_owner role) cannot_remove_owner

unfoldable pub remove_member : ℕ → ℕ → ℕ → Service (Unit {0})
remove_member room_id user_id requester_id = do
  room ← on_error room_err (Repository.get_room_by_id room_id)
  fail_if (is_direct room.type) direct_room_immutable
  role ← on_error requester_err (Repository.get_member_role room_id requester_id)
  let is_self_removal = user_id == requester_id
  fail_if (not is_self_removal && not (is_owner role)) not_owner
  fail_if (is_self_removal && is_owner role) cannot_remove_owner
  check_target is_self_removal room_id user_id
  on_error wrapped (Repository.remove_member room_id user_id)
  notify room_id (membership_changed room_id user_id "removed")

unfoldable pub get_room_members : ℕ → Service (List RoomMember)
get_room_members room_id = do
  _ ← on_error room_err (Repository.get_room_by_id room_id)
  on_error wrapped (Repository.get_room_members room_id)

unfoldable pub is_member : ℕ → ℕ → Service Bool
is_member room_id user_id = on_error wrapped (Repository.is_member room_id user_id)

unfoldable pub get_user_rooms : ℕ → Service (List Room)
get_user_rooms user_id = on_error wrapped (Repository.get_user_rooms user_id)
