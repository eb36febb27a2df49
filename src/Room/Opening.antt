-- ===== src/Room/Opening.antt =====
-- services/room: a room that CreateRoom opens, and a direct room that is there already.
use efir.Prelude.{
  ℕ, String, ◌≡◌, ◌≢◌, refl, List, [], ◌∷◌, ◌++◌, true, false, none, ◌==◌, is_some, nat_eq, arith,
  any_of-find_if, find_if, find_if-none, Option-cases, inl, inr, find_if-append, keep_if,
  keep_if-append, eq_self,
}
use efir.Exec.{ok, err, running}
use efir.Room.Types.{direct, group, Room, RoomMember, Db, owner, RoomEvent, room_created}
use efir.Room.Repository
use efir.Room.Repository.{
  is_row, select_room, select_member, select_direct, insert_room, insert_member, check_direct,
  begin, create_room_body, transaction, get_room_by_id, get_direct_room_by_users,
}
use efir.Room.Service
use efir.Room.Service.{direct_room_exists, notify, send_event}
use efir.Room.Tables.{select_room-id}
use efir.Room.Invariant.{IsDirect, joined}
use efir.Room.Rules.{served_world}

select_direct_some :
    (db : Db) (u v r : ℕ)
    → IsDirect db r
    → joined db r u ≡ true
    → joined db r v ≡ true
    → is_some (select_direct u v db) ≡ true
unfolding select_direct select_room select_member
select_direct_some db u v r d j k = elim (Option-cases (select_direct u v db)) [
  | inr (a, e) ↦ rw e refl
  | inl e ↦ elim (Option-cases (select_room r db)) [
    | inl f ↦ ground (arith, f)
    | inr (a, f) ↦ ground (
      arith,
      f,
      find_if-none _ (λ (s : Room). s.id == r) db.rooms a e f,
      select_room-id db r a f,
      any_of-find_if (is_row a.id u) db.members,
      any_of-find_if (is_row a.id v) db.members,
    )
  ]
]

-- Two users who share a direct room get no other one: a served CreateRoom answers that the room
-- exists, whichever of the two asks, and changes nothing.
pub create_room_again :
    (name : String) (u v id now r : ℕ) (db : Db) (es : List RoomEvent)
    → u ≢ v
    → (v == 0) ≡ false
    → IsDirect db r
    → joined db r u ≡ true
    → joined db r v ≡ true
    → Service.create_room name direct u v id now (served_world db es)
      ≡ (err direct_room_exists, served_world db es)
unfolding Service.create_room Repository.create_room create_room_body transaction begin check_direct
    get_direct_room_by_users running
create_room_again name u v id now r db es ne nz d j k =
    ground (arith, select_direct_some db u v r d j k, nat_eq.same_iff u v)

members_of_nobody :
    (id : ℕ) (ms : List RoomMember)
    → ((x : ℕ) → find_if (is_row id x) ms ≡ none)
    → keep_if (λ m. m.room_id == id) ms ≡ []
members_of_nobody id [] h = refl
members_of_nobody id (m ∷ ms) h =
    ground
      (arith, members_of_nobody id ms (λ x. ground (arith, h x)), h m.user_id, eq_self m.user_id)

abbrev new_group : String → ℕ → ℕ → ℕ → Room
new_group name u id now = record {
  id = id;
  name = name;
  type = group;
  created_by = u;
  created_at = now;
  updated_at = now;
}

abbrev new_owner : ℕ → ℕ → ℕ → RoomMember
new_owner u id now = record { room_id = id; user_id = u; role = owner; joined_at = now }

-- The tables and the event of a new group.
new_group_world :
    (name : String) (u p id now : ℕ) (db : Db) (es : List RoomEvent)
    → select_room id db ≡ none
    → ((x : ℕ) → select_member id x db ≡ none)
    → Service.create_room name group u p id now (served_world db es) ≡ (
      ok (new_group name u id now),
      served_world
          (record {
            rooms = db.rooms ++ new_group name u id now ∷ [];
            members = db.members ++ new_owner u id now ∷ [];
          })
          (es ++ room_created id (u ∷ []) ∷ []),
    )
unfolding Service.create_room Repository.create_room create_room_body transaction begin
    Repository.get_room_members notify send_event insert_room insert_member select_room
    select_member running
new_group_world name u p id now db es fresh alone = ground (
  arith,
  alone u,
  eq_self id,
  find_if-append (λ (r : Room). r.id == id) db.rooms (new_group name u id now ∷ []),
  keep_if-append (λ (m : RoomMember). m.room_id == id) db.members (new_owner u id now ∷ []),
  members_of_nobody id db.members alone,
)

-- A served CreateRoom with a fresh id opens a group: GetRoom then returns it, its creator is a
-- member and no other user is, and the creator is the one who is told.
pub create_room_opens :
    (name : String) (u p id now : ℕ) (db : Db) (es : List RoomEvent)
    → select_room id db ≡ none
    → ((x : ℕ) → select_member id x db ≡ none)
    → let w = (Service.create_room name group u p id now (served_world db es)).1 in
      ((Service.get_room id w).0
        ≡ (Service.create_room name group u p id now (served_world db es)).0)
      × ((x : ℕ) → (Service.is_member id x w).0 ≡ ok (u == x))
      × (w.events ≡ es ++ room_created id (u ∷ []) ∷ [])
unfolding Service.get_room Service.is_member get_room_by_id Repository.is_member select_room
    select_member running
create_room_opens name u p id now db es fresh alone =
    rw (new_group_world name u p id now db es fresh alone) (
      ground (
        arith,
        find_if-append (λ (r : Room). r.id == id) db.rooms (new_group name u id now ∷ []),
        eq_self id,
      ),
      λ x. ground (
        arith,
        find_if-append (is_row id x) db.members (new_owner u id now ∷ []),
        alone x,
        eq_self id,
      ),
      refl,
    )
