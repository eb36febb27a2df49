-- ===== src/Room/Rules.antt =====
-- services/room/internal/service/room.go: who may do what, and what a served call does.
use efir.Prelude.{
  ℕ, String, ◌≡◌, refl, ◌∙◌, List, [], ◌∷◌, ◌++◌, Bool, false, not, none, some, ◌==◌, if◌then◌else◌,
  nat_eq, arith, keep_if-append,
}
use efir.Exec.{Result, ok, err, running}
use efir.Exec.Ends.{Ends, read-Ends, fail_if-Ends}
use efir.Room.Types.{
  RoomMember, Db, is_owner, is_direct, member, backend, RoomEvent, membership_changed, RoomWorld,
}
use efir.Room.Repository
use efir.Room.Repository.{
  select_room, select_member, select_direct, members_of, or_error, role_of, remove_row, add_row,
  insert_member, get_room_by_id, get_member_role,
}
use efir.Room.Tables.{select_room-id}
use efir.Room.Invariant.{joined}
use efir.Room.Service.{
  ServiceError, room_not_found, not_owner, not_member, member_not_found, cannot_remove_owner,
  direct_room_immutable, member_user_ids, room_err, requester_err, update_room, delete_room,
  add_member, remove_member, check_target, after_add, send_event, notify,
}

-- The user is the owner of the room.
abbrev pub owns : Db → ℕ → ℕ → Bool
owns db r u = elim (select_member r u db) [ none ↦ false | some m ↦ is_owner m.role ]

abbrev pub Unchanged : RoomWorld → Db → List RoomEvent → Type 0
Unchanged w db events = (db ≡ w.db) × (events ≡ w.events)

-- A user who is not the owner of the room neither renames it nor tells anyone that it is renamed,
-- whatever the outcomes of the calls.
pub update_room_needs_owner :
    (room_id requester_id : ℕ) (name : String) (now : ℕ) (w : RoomWorld)
    → owns w.db room_id requester_id ≡ false
    → Ends (Unchanged w) (update_room room_id requester_id name now) w
unfolding update_room get_room_by_id get_member_role
update_room_needs_owner room_id requester_id name now w h =
    read-Ends (Unchanged w) room_err backend _ _ w (refl, refl)
      λ w1 s1 _ _.
        read-Ends (Unchanged w) requester_err backend _ _ w1 (s1.same_db, s1.same_events)
          λ w2 s2 role e.
            fail_if-Ends (Unchanged w) _ _ _ w2
              (s2.same_db ∙ s1.same_db, s2.same_events ∙ s1.same_events)
              λ f. ground (arith, rw s1.same_db at e)

-- A user who is not the owner of the room neither deletes it nor tells anyone that it is deleted,
-- whatever the outcomes of the calls.
pub delete_room_needs_owner :
    (room_id requester_id : ℕ) (w : RoomWorld)
    → owns w.db room_id requester_id ≡ false
    → Ends (Unchanged w) (delete_room room_id requester_id) w
unfolding delete_room get_room_by_id get_member_role
delete_room_needs_owner room_id requester_id w h =
    read-Ends (Unchanged w) room_err backend _ _ w (refl, refl)
      λ w1 s1 _ _.
        read-Ends (Unchanged w) requester_err backend _ _ w1 (s1.same_db, s1.same_events)
          λ w2 s2 role e.
            fail_if-Ends (Unchanged w) _ _ _ w2
              (s2.same_db ∙ s1.same_db, s2.same_events ∙ s1.same_events)
              λ f. ground (arith, rw s1.same_db at e)

-- What a served RemoveMember answers.
abbrev pub removal : ℕ → ℕ → ℕ → Db → Result ServiceError (Unit {0})
removal room_id user_id requester_id db = elim (select_room room_id db) [
  | none ↦ err room_not_found
  | some room ↦
      if is_direct room.type
      then err direct_room_immutable
      else if not (joined db room_id requester_id)
      then err not_member
      else if user_id == requester_id
      then (if owns db room_id user_id then err cannot_remove_owner else ok tt)
      else if not (owns db room_id requester_id)
      then err not_owner
      else if not (joined db room_id user_id)
      then err member_not_found
      else if owns db room_id user_id
      then err cannot_remove_owner
      else ok tt
]

abbrev pub served_world : Db → List RoomEvent → RoomWorld
served_world db events = record { db = db; outcomes = []; events = events }

-- The tables after a change and what is published, or neither.
abbrev pub effect :
    Result ServiceError (Unit {0})
    → Db
    → List RoomEvent
    → Db
    → List RoomEvent
    → Result ServiceError (Unit {0}) × RoomWorld
effect (err e) db es db' es' = (err e, served_world db es)
effect (ok _) db es db' es' = (ok tt, served_world db' (es ++ es'))

-- If every call is served, RemoveMember answers as `removal` says. If it answers with no error, the
-- member's row is gone and the members that are left are told; if it answers with an error, the
-- tables are as before and nobody is told.
pub remove_member_served :
    (room_id user_id requester_id : ℕ) (db : Db) (es : List RoomEvent)
    → remove_member room_id user_id requester_id (served_world db es)
      ≡ effect (removal room_id user_id requester_id db) db es (remove_row room_id user_id db).1 (
          membership_changed room_id user_id "removed"
            (member_user_ids (members_of room_id (remove_row room_id user_id db).1))
          ∷ [])
unfolding remove_member check_target notify send_event get_room_by_id get_member_role
    Repository.remove_member Repository.get_room_members remove_row running
remove_member_served room_id user_id requester_id db es =
    ground (arith, nat_eq.same_iff user_id requester_id)

-- What a served AddMember answers.
abbrev pub addition : ℕ → ℕ → Db → Result ServiceError (Unit {0})
addition room_id requester_id db = elim (select_room room_id db) [
  | none ↦ err room_not_found
  | some room ↦
      if is_direct room.type
      then err direct_room_immutable
      else if not (joined db room_id requester_id)
      then err not_member
      else ok tt
]

abbrev pub plain_row : ℕ → ℕ → ℕ → RoomMember
plain_row room_id user_id now = record {
  room_id = room_id;
  user_id = user_id;
  role = member;
  joined_at = now;
}

-- If every call is served, AddMember answers as `addition` says. With no error and a user who was
-- not a member, the user's row is added and all members are told, the new one too; with an error, or
-- a user who was a member already, the tables are as before and nobody is told.
pub add_member_served :
    (room_id user_id requester_id now : ℕ) (db : Db) (es : List RoomEvent)
    → add_member room_id user_id requester_id now (served_world db es) ≡ (
        if joined db room_id user_id
        then (addition room_id requester_id db, served_world db es)
        else effect
            (addition room_id requester_id db)
            db
            es
            (insert_member (plain_row room_id user_id now) db).1
            (membership_changed room_id user_id "added"
                (member_user_ids (members_of room_id db ++ plain_row room_id user_id now ∷ []))
              ∷ []))
unfolding add_member after_add notify send_event get_room_by_id Repository.is_member
    Repository.add_member Repository.get_room_members add_row insert_member running
add_member_served room_id user_id requester_id now db es = ground (
  arith,
  keep_if-append (λ (m : RoomMember). m.room_id == room_id) db.members
      (plain_row room_id user_id now ∷ []),
  select_room-id db room_id,
)
