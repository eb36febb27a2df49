-- ===== src/Room/Safety.antt =====
-- services/room/internal/service/room.go: the methods, and the validity of the tables.
use efir.Prelude.{
  ℕ, String, ◌≡◌, refl, ◌∙◌, List, Bool, true, false, ◌&&◌, some, ◌==◌, nat_eq, arith, Option-cases,
  eq-cases, inl, inr,
}
use efir.Exec.{Result, ok, err, Exec, pure, raise, ◌>>=◌, attempt, on_error, ignore_error}
use efir.Exec.Ends.{
  Ends, read-Ends, write-Ends, fail_if-Ends, always-Ends, attempt-Ends, read_db, publish_db,
  write_last-Ends, write_db-Ends, bind_assoc,
}
use efir.Room.Types.{
  RoomType, Room, RoomMember, Db, MemberRole, is_owner, is_direct, member, RepoError, backend,
  RoomEvent, RoomWorld,
}
use efir.Room.Repository
use efir.Room.Repository.{
  select_room, select_member, update_rows, delete_rows, add_row, remove_row, members_of, or_error,
  role_of, insert_member, get_room_by_id, get_member_role,
}
use efir.Room.Invariant.{
  IsValid, IsDirect, update_rows-IsValid, delete_rows-IsValid, remove_row-IsValid,
}
use efir.Room.Creation.{insert_member-IsValid, created-IsValid}
use efir.Room.Transaction
use efir.Room.Transaction.{created-Creates}
use efir.Room.Service.{
  ServiceError, wrapped, create_room, get_room, get_room_members, is_member, get_user_rooms,
  send_event, notify, update_room, delete_room, add_member, after_add, remove_member, check_target,
  room_err, requester_err, target_err, create_err,
}

abbrev Valid : Db → List RoomEvent → Type 0
Valid db _ = IsValid db

send_event_ok :
    (event : List ℕ → RoomEvent) (r : Result RepoError (List RoomMember)) (w : RoomWorld)
    → ((send_event event r w).0 ≡ ok tt) × ((send_event event r w).1.db ≡ w.db)
unfolding send_event ignore_error pure
send_event_ok event (err e) w = (refl, refl)
send_event_ok event (ok ms) w = (refl, publish_db backend _ w)

-- Telling the members changes no table, and does not fail.
pub notify_ok :
    (r : ℕ) (event : List ℕ → RoomEvent) (w : RoomWorld)
    → ((notify r event w).0 ≡ ok tt) × ((notify r event w).1.db ≡ w.db)
unfolding notify ◌>>=◌ attempt Repository.get_room_members
notify_ok r event w =
    let (e, d) =
      send_event_ok event (Repository.get_room_members r w).0 (Repository.get_room_members r w).1 in
    (e, d ∙ read_db backend _ w)

pub notify-Ends :
    {A : Type 0} (r : ℕ) (event : List ℕ → RoomEvent)
    (k : Unit {0} → Exec Db RoomEvent ServiceError A) (w : RoomWorld)
    → IsValid w.db
    → ((w' : RoomWorld) → IsValid w'.db → Ends Valid (k tt) w')
    → Ends Valid (notify r event >>= k) w
notify-Ends r event k w v rest =
    always-Ends Valid (notify r event) k tt w (notify_ok r event w).0
      (rest (notify r event w).1 (rw (notify_ok r event w).1 v))

pub update_room-Ends :
    (room_id requester_id : ℕ) (name : String) (now : ℕ) (w : RoomWorld)
    → IsValid w.db
    → Ends Valid (update_room room_id requester_id name now) w
unfolding update_room get_room_by_id get_member_role Repository.update_room pure
update_room-Ends room_id requester_id name now w v =
    read-Ends Valid room_err backend _ _ w v λ w1 s1 _ _.
      let v1 : IsValid w1.db = rw s1.same_db v in
      read-Ends Valid requester_err backend _ _ w1 v1 λ w2 s2 role e.
        let v2 : IsValid w2.db = rw s2.same_db v1 in
        fail_if-Ends Valid _ _ _ w2 v2 λ _.
          write-Ends Valid room_err backend _ _ w2 v2
            (update_rows-IsValid w2.db v2 room_id name now)
            λ w3 d3 _ room _.
              notify-Ends room_id _ _ w3 (rw d3 (update_rows-IsValid w2.db v2 room_id name now))
                λ w4 v4. v4

pub delete_room-Ends :
    (room_id requester_id : ℕ) (w : RoomWorld)
    → IsValid w.db
    → Ends Valid (delete_room room_id requester_id) w
unfolding delete_room get_room_by_id get_member_role Repository.delete_room
delete_room-Ends room_id requester_id w v = read-Ends Valid room_err backend _ _ w v λ w1 s1 _ _.
    let v1 : IsValid w1.db = rw s1.same_db v in
    read-Ends Valid requester_err backend _ _ w1 v1 λ w2 s2 role e.
      let v2 : IsValid w2.db = rw s2.same_db v1 in
      fail_if-Ends Valid _ _ _ w2 v2 λ _. notify-Ends room_id _ _ w2 v2 λ w3 v3.
        write_last-Ends Valid wrapped backend _ w3 v3 (delete_rows-IsValid w3.db v3 room_id)

pub after_add-Ends :
    (room_id user_id : ℕ) (r : Result RepoError RoomMember) (w : RoomWorld)
    → IsValid w.db
    → Ends Valid (after_add room_id user_id r) w
unfolding after_add pure raise
after_add-Ends room_id user_id (ok m) w v = rw (notify_ok room_id _ w).1 v
after_add-Ends room_id user_id (err RepoError.member_already_exists) w v = v
after_add-Ends room_id user_id (err RepoError.room_not_found) w v = v
after_add-Ends room_id user_id (err RepoError.member_not_found) w v = v
after_add-Ends room_id user_id (err RepoError.direct_room_exists) w v = v
after_add-Ends room_id user_id (err RepoError.backend) w v = v

not-IsDirect :
    (db db' : Db)
    → db' ≡ db
    → (id : ℕ) (room : Room) → or_error RepoError.room_not_found (select_room id db) ≡ ok room
    → is_direct room.type ≡ false
    → ¬ IsDirect db' id
not-IsDirect db db' e id room f g d = ground (arith, rw e at d)

add_row_db :
    (room_id user_id : ℕ) (role : MemberRole) (now : ℕ) (db : Db)
    → (add_row room_id user_id role now db).1
      ≡ (insert_member
          (record { room_id = room_id; user_id = user_id; role = role; joined_at = now })
          db).1
unfolding add_row
add_row_db room_id user_id role now db = refl

pub add_member-Ends :
    (room_id user_id requester_id now : ℕ) (w : RoomWorld)
    → IsValid w.db
    → Ends Valid (add_member room_id user_id requester_id now) w
unfolding add_member get_room_by_id Repository.is_member Repository.add_member
add_member-Ends room_id user_id requester_id now w v =
    read-Ends Valid room_err backend _ _ w v λ w1 s1 room e1.
      let v1 : IsValid w1.db = rw s1.same_db v in
      fail_if-Ends Valid _ _ _ w1 v1 λ open'. read-Ends Valid wrapped backend _ _ w1 v1 λ w2 s2 _ _.
        let v2 : IsValid w2.db = rw s2.same_db v1 in
        fail_if-Ends Valid _ _ _ w2 v2 λ _.
          let m : RoomMember = record {
            room_id = room_id;
            user_id = user_id;
            role = member;
            joined_at = now;
          } in
          let v3 : IsValid (add_row room_id user_id member now w2.db).1 = rw add_row_db (
            insert_member-IsValid w2.db v2 m refl
              (not-IsDirect w.db w2.db (s2.same_db ∙ s1.same_db) room_id room e1 open')) in
          attempt-Ends Valid _ _ w2 (
            after_add-Ends room_id user_id _ (Repository.add_member room_id user_id member now w2).1
              (write_db-Ends Valid backend (add_row room_id user_id member now) w2 v2 v3))

pub check_target-Ends :
    (self : Bool) (room_id user_id : ℕ) (k : Unit {0} → Exec Db RoomEvent ServiceError (Unit {0}))
    (w : RoomWorld)
    → IsValid w.db
    → ((w' : RoomWorld)
        → w'.db ≡ w.db
        → (self ≡ false
            → (m : RoomMember) → select_member room_id user_id w.db ≡ some m
            → is_owner m.role ≡ false)
        → Ends Valid (k tt) w')
    → Ends Valid (check_target self room_id user_id >>= k) w
unfolding check_target get_member_role pure
check_target-Ends true room_id user_id k w v rest =
    always-Ends Valid _ k tt w refl (rest w refl λ f. cc)
check_target-Ends false room_id user_id k w v rest =
    rw (bind_assoc (on_error target_err (get_member_role room_id user_id)) _ k w) (
      read-Ends Valid target_err backend _ _ w v λ w1 s1 role e.
        fail_if-Ends Valid _ _ _ w1 (rw s1.same_db v)
          λ plain. rest w1 s1.same_db λ _ m f. ground arith)

not_creator :
    (db : Db)
    → IsValid db
    → (r u : ℕ) → ((m : RoomMember) → select_member r u db ≡ some m → is_owner m.role ≡ false)
    → (room : Room) → select_room r db ≡ some room
    → (room.created_by == u) ≡ false
not_creator db v r u plain room f = elim (Option-cases (select_member r u db)) [
  | inl e ↦ ground (arith, v.owned r room f, nat_eq.same_iff room.created_by u)
  | inr (m, e) ↦ let (a, found, role) = v.home r u m e in ground (arith, plain m e)
]

-- The role that was read, of the one who leaves or of the one who is removed, is not the owner's.
plain_target :
    (db db' : Db) (room_id user_id requester_id : ℕ) (role : MemberRole)
    → role_of (select_member room_id requester_id db) ≡ ok role
    → ((user_id == requester_id) && is_owner role) ≡ false
    → db' ≡ db
    → ((user_id == requester_id) ≡ false
        → (m : RoomMember) → select_member room_id user_id db ≡ some m
        → is_owner m.role ≡ false)
    → (m : RoomMember) → select_member room_id user_id db' ≡ some m
    → is_owner m.role ≡ false
plain_target db db' room_id user_id requester_id role e no_self d no_owner m f =
    let f' : select_member room_id user_id db ≡ some m = rw (← d) f in
    elim (eq-cases user_id requester_id) [
      | inl (p, q) ↦
          let g : select_member room_id requester_id db ≡ some m = rw (← p) f' in ground (arith, g)
      | inr q ↦ no_owner q m f'
    ]

pub remove_member-Ends :
    (room_id user_id requester_id : ℕ) (w : RoomWorld)
    → IsValid w.db
    → Ends Valid (remove_member room_id user_id requester_id) w
unfolding remove_member get_room_by_id get_member_role Repository.remove_member
remove_member-Ends room_id user_id requester_id w v =
    read-Ends Valid room_err backend _ _ w v λ w1 s1 room e1.
      let v1 : IsValid w1.db = rw s1.same_db v in
      fail_if-Ends Valid _ _ _ w1 v1 λ _.
        read-Ends Valid requester_err backend _ _ w1 v1 λ w2 s2 role e2.
          let v2 : IsValid w2.db = rw s2.same_db v1 in
          fail_if-Ends Valid _ _ _ w2 v2 λ _. fail_if-Ends Valid _ _ _ w2 v2 λ no_self.
            check_target-Ends (user_id == requester_id) room_id user_id _ w2 v2 λ w3 d3 no_owner.
              let v3 : IsValid w3.db = rw d3 v2 in
              let v4 = remove_row-IsValid w3.db v3 room_id user_id (
                not_creator w3.db v3 room_id user_id (
                  plain_target w1.db w3.db room_id user_id requester_id role e2 no_self
                    (d3 ∙ s2.same_db) (rw s2.same_db at no_owner))) in
              write-Ends Valid wrapped backend _ _ w3 v3 v4
                λ w4 d4 _ _ _. rw ((notify_ok room_id _ w4).1, d4) v4

pub create_room-Ends :
    (name : String) (type : RoomType) (created_by participant_id id now : ℕ) (w : RoomWorld)
    → IsValid w.db
    → Ends Valid (create_room name type created_by participant_id id now) w
unfolding create_room pure
create_room-Ends name type created_by participant_id id now w v = fail_if-Ends Valid _ _ _ w v λ _.
    fail_if-Ends Valid _ _ _ w v λ _.
      Transaction.create_room-Ends name type created_by participant_id id now IsValid create_err _ w
        v
        (λ fresh free.
          created-IsValid w.db _ v _ _ _ _
            (created-Creates name type created_by participant_id id now _ w.db fresh free))
        λ w1 v1. notify-Ends id _ _ w1 v1 λ w2 v2. v2

pub get_room-Ends : (r : ℕ) (w : RoomWorld) → IsValid w.db → Ends Valid (get_room r) w
unfolding get_room get_room_by_id on_error
get_room-Ends r w v = rw (read_db backend _ w) v

pub get_room_members-Ends :
    (r : ℕ) (w : RoomWorld) → IsValid w.db → Ends Valid (get_room_members r) w
unfolding get_room_members Repository.get_room_members get_room_by_id on_error
get_room_members-Ends r w v =
    read-Ends Valid room_err backend _ _ w v λ w1 s1 _ _. rw (read_db backend _ w1, s1.same_db) v

pub is_member-Ends : (r u : ℕ) (w : RoomWorld) → IsValid w.db → Ends Valid (is_member r u) w
unfolding is_member Repository.is_member on_error
is_member-Ends r u w v = rw (read_db backend _ w) v

pub get_user_rooms-Ends : (u : ℕ) (w : RoomWorld) → IsValid w.db → Ends Valid (get_user_rooms u) w
unfolding get_user_rooms Repository.get_user_rooms on_error
get_user_rooms-Ends u w v = rw (read_db backend _ w) v
