-- ===== src/Room/Reachable.antt =====
-- services/room/internal/service/room.go: the tables after any sequence of calls of the service.
use efir.Prelude.{ℕ, String, List, [], ◌∷◌}
use efir.Exec.{Outcome}
use efir.Room.Types.{RoomType, RoomWorld}
use efir.Room.Repository.{select_room, select_member}
use efir.Room.Service
use efir.Room.Invariant.{IsValid}
use efir.Room.Safety.{
  update_room-Ends, delete_room-Ends, add_member-Ends, remove_member-Ends, create_room-Ends,
  get_room-Ends, get_room_members-Ends, is_member-Ends, get_user_rooms-Ends,
}

-- The arguments of each method, with the id and the time that the call gives to a new row.
pub data Call : Type 0 where
  create_room : String → RoomType → ℕ → ℕ → ℕ → ℕ → Call
  get_room : ℕ → Call
  update_room : ℕ → ℕ → String → ℕ → Call
  delete_room : ℕ → ℕ → Call
  add_member : ℕ → ℕ → ℕ → ℕ → Call
  remove_member : ℕ → ℕ → ℕ → Call
  get_room_members : ℕ → Call
  is_member : ℕ → ℕ → Call
  get_user_rooms : ℕ → Call

unfoldable pub serve : Call → RoomWorld → RoomWorld
serve (create_room name type u p id now) w = (Service.create_room name type u p id now w).1
serve (get_room r) w = (Service.get_room r w).1
serve (update_room r q name now) w = (Service.update_room r q name now w).1
serve (delete_room r q) w = (Service.delete_room r q w).1
serve (add_member r u q now) w = (Service.add_member r u q now w).1
serve (remove_member r u q) w = (Service.remove_member r u q w).1
serve (get_room_members r) w = (Service.get_room_members r w).1
serve (is_member r u) w = (Service.is_member r u w).1
serve (get_user_rooms u) w = (Service.get_user_rooms u w).1

-- Each call comes with the outcomes of the statements that it makes.
unfoldable pub run : List (Call × List Outcome) → RoomWorld → RoomWorld
run [] w = w
run ((c, os) ∷ cs) w = run cs (serve c (record w { outcomes = os }))

abbrev pub no_rooms : RoomWorld
no_rooms = record { db = record { rooms = []; members = [] }; outcomes = []; events = [] }

no_rooms-IsValid : IsValid no_rooms.db
unfolding select_room select_member
no_rooms-IsValid = record {
  home = λ r u m e. cc;
  owned = λ r room e. cc;
  pair = λ r s u v dr ds ne ru rv su sv. cc;
}

pub serve-IsValid : (c : Call) (w : RoomWorld) → IsValid w.db → IsValid (serve c w).db
unfolding serve
serve-IsValid (create_room name type u p id now) w v = create_room-Ends name type u p id now w v
serve-IsValid (get_room r) w v = get_room-Ends r w v
serve-IsValid (update_room r q name now) w v = update_room-Ends r q name now w v
serve-IsValid (delete_room r q) w v = delete_room-Ends r q w v
serve-IsValid (add_member r u q now) w v = add_member-Ends r u q now w v
serve-IsValid (remove_member r u q) w v = remove_member-Ends r u q w v
serve-IsValid (get_room_members r) w v = get_room_members-Ends r w v
serve-IsValid (is_member r u) w v = is_member-Ends r u w v
serve-IsValid (get_user_rooms u) w v = get_user_rooms-Ends u w v

run_from : (cs : List (Call × List Outcome)) (w : RoomWorld) → IsValid w.db → IsValid (run cs w).db
unfolding run
run_from [] w v = v
run_from ((c, os) ∷ cs) w v = run_from cs _ (serve-IsValid c (record w { outcomes = os }) v)

-- From empty tables, after any calls, one after the other, whatever the outcomes of their
-- statements: a member's room exists, a member is the owner exactly if the member created the room,
-- the creator of a room is a member of it, and two users share one direct room at most.
pub run-no_rooms-IsValid : (cs : List (Call × List Outcome)) → IsValid (run cs no_rooms).db
run-no_rooms-IsValid cs = run_from cs no_rooms no_rooms-IsValid
