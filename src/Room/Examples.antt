-- ===== src/Room/Examples.antt =====
-- The room service's theorems at a group of two and a direct room.
use efir.Prelude.{
  ℕ, ◌≡◌, refl, List, [], ◌∷◌, ◌++◌, Bool, ◌&&◌, nat_eq, ◌==◌, count_if, if◌then◌else◌, arith,
}
use efir.Exec.{ok, err, Outcome, served, reply_lost, running}
use efir.Room.Types.{
  Room, Db, direct, group, owner, member, membership_changed, room_created, RoomWorld,
}
use efir.Room.Repository
use efir.Room.Repository.{select_room, select_member, members_of, remove_row, insert_member}
use efir.Room.Service
use efir.Room.Service.{member_user_ids, direct_room_exists}
use efir.Room.Invariant.{IsValid, joined}
use efir.Room.Reachable.{
  Call, create_room, add_member, remove_member, delete_room, run, no_rooms, run-no_rooms-IsValid,
}
use efir.Room.Rules.{
  served_world, effect, removal, addition, plain_row, remove_member_served, add_member_served,
}
use efir.Room.Listing.{IsNewestFirst, get_user_rooms_served}
use efir.Room.Opening.{create_room_again, create_room_opens}

abbrev calls : List (Call × List Outcome)
calls =
    (create_room "club" group 1 0 7 100, [])
    ∷ (add_member 7 2 1 101, served ∷ served ∷ reply_lost ∷ [])
    ∷ (create_room "" direct 1 2 8 102, [])
    ∷ (remove_member 7 2 2, [])
    ∷ (delete_room 8 1, [])
    ∷ []

abbrev club : Room
club = record {
  id = 7;
  name = "club";
  type = group;
  created_by = 1;
  created_at = 100;
  updated_at = 100;
}

abbrev pair : Room
pair = record {
  id = 8;
  name = "";
  type = direct;
  created_by = 1;
  created_at = 102;
  updated_at = 102;
}

abbrev db : Db
db = record {
  rooms = club ∷ pair ∷ [];
  members =
      record { room_id = 7; user_id = 1; role = owner; joined_at = 100 }
      ∷ record { room_id = 7; user_id = 2; role = member; joined_at = 101 }
      ∷ record { room_id = 8; user_id = 1; role = owner; joined_at = 102 }
      ∷ record { room_id = 8; user_id = 2; role = member; joined_at = 102 }
      ∷ [];
}

abbrev now_world : RoomWorld
now_world = served_world db []

run-no_rooms-IsValid_example : IsValid (run calls no_rooms).db
run-no_rooms-IsValid_example = run-no_rooms-IsValid calls

remove_member_served_example :
    Service.remove_member 7 2 1 (served_world db [])
    ≡ effect (removal 7 2 1 db) db [] (remove_row 7 2 db).1 (
        membership_changed 7 2 "removed" (member_user_ids (members_of 7 (remove_row 7 2 db).1))
        ∷ [])
remove_member_served_example = remove_member_served 7 2 1 db []

add_member_served_example : Service.add_member 7 3 2 200 (served_world db []) ≡ (
    if joined db 7 3
    then (addition 7 2 db, served_world db [])
    else effect (addition 7 2 db) db [] (insert_member (plain_row 7 3 200) db).1 (
        membership_changed 7 3 "added" (member_user_ids (members_of 7 db ++ plain_row 7 3 200 ∷ []))
        ∷ []))
add_member_served_example = add_member_served 7 3 2 200 db []

get_user_rooms_served_example :
    IsNewestFirst (pair ∷ club ∷ [])
    × ((p : Room → Bool)
        → count_if p (pair ∷ club ∷ [])
          ≡ count_if (λ r. p r && joined db r.id 2) (club ∷ pair ∷ []))
unfolding Service.get_user_rooms Repository.get_user_rooms Repository.newest_first
    Repository.insert_by_date Repository.rooms_joined running
get_user_rooms_served_example = get_user_rooms_served 2 now_world (pair ∷ club ∷ []) refl

create_room_again_example :
    Service.create_room "" direct 2 1 9 200 (served_world db [])
    ≡ (err direct_room_exists, served_world db [])
unfolding select_room select_member
create_room_again_example =
    create_room_again "" 2 1 9 200 8 db [] (λ e. omega (arith, e)) refl refl refl refl

create_room_opens_example :
    let w = (Service.create_room "den" group 3 0 9 200 (served_world db [])).1 in
    ((Service.get_room 9 w).0 ≡ (Service.create_room "den" group 3 0 9 200 (served_world db [])).0)
    × ((x : ℕ) → (Service.is_member 9 x w).0 ≡ ok (3 == x))
    × (w.events ≡ [] ++ room_created 9 (3 ∷ []) ∷ [])
unfolding select_room select_member
create_room_opens_example = create_room_opens "den" 3 0 9 200 db [] refl (λ x. refl)
