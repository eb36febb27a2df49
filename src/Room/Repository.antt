-- ===== src/Room/Repository.antt =====
-- services/room/internal/repository/room.go: each method is its SQL statement on the two tables.
-- The id of a new row and now() are arguments. The rows of a SELECT without ORDER BY come in the
-- order of insertion, one of the orders that the database may choose.
use efir.Prelude.{
  ℕ, String, List, [], ◌∷◌, ◌++◌, map, Bool, ◌&&◌, not, Option, none, some, ◌==◌, if◌then◌else◌,
  keep_if, find_if, any_of, is_some, leb, nat_eq,
}
use efir.Exec.{
  Result, ok, err, served, refused, reply_lost, first_outcome, later_outcomes, advance, pure, raise,
  read, write, ◌>>=◌, ◌>>◌, attempt,
}
use efir.Room.Types.{
  RoomType, is_direct, MemberRole, owner, member, Room, RoomMember, Db, RepoError, room_not_found,
  member_not_found, member_already_exists, direct_room_exists, backend, Repo,
}

abbrev pub is_row : ℕ → ℕ → RoomMember → Bool
is_row room_id user_id m = (m.room_id == room_id) && (m.user_id == user_id)

abbrev pub or_error : {E A : Type 0} → E → Option A → Result E A
or_error e none = err e
or_error e (some a) = ok a

-- SELECT … FROM rooms WHERE id = $1
unfoldable pub select_room : ℕ → Db → Option Room
select_room id db = find_if (λ r. r.id == id) db.rooms

-- SELECT … FROM room_members WHERE room_id = $1 AND user_id = $2
unfoldable pub select_member : ℕ → ℕ → Db → Option RoomMember
select_member room_id user_id db = find_if (is_row room_id user_id) db.members

-- A direct room of which both users are members, LIMIT 1.
unfoldable pub select_direct : ℕ → ℕ → Db → Option Room
select_direct u1 u2 db =
    find_if
      (λ r.
        is_direct r.type
        && any_of (is_row r.id u1) db.members
        && any_of (is_row r.id u2) db.members)
      db.rooms

-- INSERT INTO rooms: the primary key and the order of the rows.
unfoldable pub insert_room : Room → Db → Result RepoError Room × Db
insert_room r db =
    if is_some (select_room r.id db)
    then (err backend, db)
    else (ok r, record db { rooms = db.rooms ++ r ∷ [] })

-- INSERT INTO room_members … ON CONFLICT DO NOTHING; the room must exist.
unfoldable pub insert_member : RoomMember → Db → Result RepoError (Option RoomMember) × Db
insert_member m db =
    if is_some (select_member m.room_id m.user_id db)
    then (ok none, db)
    else if is_some (select_room m.room_id db)
    then (ok (some m), record db { members = db.members ++ m ∷ [] })
    else (err backend, db)

unfoldable pub get_direct_room_by_users : ℕ → ℕ → Repo Room
get_direct_room_by_users u1 u2 =
    read backend (λ db. or_error room_not_found (select_direct u1 u2 db))

-- A transaction: an error before COMMIT rolls the tables back, and so does a COMMIT that is refused.
unfoldable pub transaction : {A : Type 0} → Repo A → Repo A
transaction m w = elim (m w).0 [
  | err e ↦ (err e, record (m w).1 { db = w.db })
  | ok a ↦ elim (first_outcome (m w).1.outcomes) [
    | served ↦ (ok a, advance (m w).1)
    | refused ↦
        (err backend, record (m w).1 { db = w.db; outcomes = later_outcomes (m w).1.outcomes })
    | reply_lost ↦ (err backend, advance (m w).1)
  ]
]

-- Finding a direct room is the error, and finding none is not.
abbrev pub none_found : Result RepoError Room → Repo (Unit {0})
none_found (ok _) = raise direct_room_exists
none_found (err room_not_found) = pure tt
none_found (err e) = raise e

unfoldable pub check_direct : ℕ → ℕ → Repo (Unit {0})
check_direct u1 u2 = attempt (get_direct_room_by_users u1 u2) >>= none_found

-- BEGIN is a call of its own.
unfoldable pub begin : Repo (Unit {0})
begin = read backend (λ _. ok tt)

unfoldable pub create_room_body : String → RoomType → ℕ → ℕ → ℕ → ℕ → Repo Room
create_room_body name type created_by participant_id id now = do
  begin
  (if is_direct type && not (participant_id == 0)
      then check_direct created_by participant_id
      else pure tt)
  room ← write backend (
      insert_room (record {
        id = id;
        name = name;
        type = type;
        created_by = created_by;
        created_at = now;
        updated_at = now;
      }))
  _ ← write backend (
      insert_member
        (record { room_id = room.id; user_id = created_by; role = owner; joined_at = now }))
  _ ←
      (if is_direct type && not (participant_id == 0)
        then write backend (
            insert_member (record {
              room_id = room.id;
              user_id = participant_id;
              role = member;
              joined_at = now;
            }))
        else pure none)
  pure room

unfoldable pub create_room : String → RoomType → ℕ → ℕ → ℕ → ℕ → Repo Room
create_room name type created_by participant_id id now =
    transaction (create_room_body name type created_by participant_id id now)

unfoldable pub get_room_by_id : ℕ → Repo Room
get_room_by_id id = read backend (λ db. or_error room_not_found (select_room id db))

abbrev pub rename : ℕ → String → ℕ → Room → Room
rename id name now r = if r.id == id then record r { name = name; updated_at = now } else r

-- UPDATE rooms … WHERE id = $1 RETURNING …
unfoldable pub update_rows : ℕ → String → ℕ → Db → Result RepoError Room × Db
update_rows id name now db =
    let db' = record db { rooms = map (rename id name now) db.rooms } in
    (or_error room_not_found (select_room id db'), db')

unfoldable pub update_room : ℕ → String → ℕ → Repo Room
update_room id name now = write backend (update_rows id name now)

-- DELETE FROM rooms WHERE id = $1; the members go by ON DELETE CASCADE.
unfoldable pub delete_rows : ℕ → Db → Result RepoError (Unit {0}) × Db
delete_rows id db = (
  (if is_some (select_room id db) then ok tt else err room_not_found),
  record {
    rooms = keep_if (λ r. not (r.id == id)) db.rooms;
    members = keep_if (λ m. not (m.room_id == id)) db.members;
  },
)

unfoldable pub delete_room : ℕ → Repo (Unit {0})
delete_room id = write backend (delete_rows id)

-- No row back from the INSERT means that the member was there already.
abbrev pub already_there : Result RepoError (Option RoomMember) → Result RepoError RoomMember
already_there (err e) = err e
already_there (ok none) = err member_already_exists
already_there (ok (some m)) = ok m

unfoldable pub add_row : ℕ → ℕ → MemberRole → ℕ → Db → Result RepoError RoomMember × Db
add_row room_id user_id role now db =
    let (r, db') =
      insert_member (record { room_id = room_id; user_id = user_id; role = role; joined_at = now })
        db in
    (already_there r, db')

unfoldable pub add_member : ℕ → ℕ → MemberRole → ℕ → Repo RoomMember
add_member room_id user_id role now = write backend (add_row room_id user_id role now)

unfoldable pub remove_row : ℕ → ℕ → Db → Result RepoError (Unit {0}) × Db
remove_row room_id user_id db = (
  (if is_some (select_member room_id user_id db) then ok tt else err member_not_found),
  record db { members = keep_if (λ m. not (is_row room_id user_id m)) db.members },
)

unfoldable pub remove_member : ℕ → ℕ → Repo (Unit {0})
remove_member room_id user_id = write backend (remove_row room_id user_id)

-- SELECT … FROM room_members WHERE room_id = $1
abbrev pub members_of : ℕ → Db → List RoomMember
members_of room_id db = keep_if (λ m. m.room_id == room_id) db.members

unfoldable pub get_room_members : ℕ → Repo (List RoomMember)
get_room_members room_id = read backend (λ db. ok (members_of room_id db))

unfoldable pub is_member : ℕ → ℕ → Repo Bool
is_member room_id user_id = read backend (λ db. ok (is_some (select_member room_id user_id db)))

abbrev pub role_of : Option RoomMember → Result RepoError MemberRole
role_of none = err member_not_found
role_of (some m) = ok m.role

unfoldable pub get_member_role : ℕ → ℕ → Repo MemberRole
get_member_role room_id user_id = read backend (λ db. role_of (select_member room_id user_id db))

-- ORDER BY r.created_at DESC
unfoldable pub insert_by_date : Room → List Room → List Room
insert_by_date r [] = r ∷ []
insert_by_date r (s ∷ rs) =
    if leb s.created_at r.created_at then r ∷ s ∷ rs else s ∷ insert_by_date r rs

unfoldable pub newest_first : List Room → List Room
newest_first [] = []
newest_first (r ∷ rs) = insert_by_date r (newest_first rs)

-- The join of rooms and room_members on one user: a row for each membership.
unfoldable pub rooms_joined : ℕ → Db → List Room
rooms_joined user_id db = keep_if (λ r. any_of (is_row r.id user_id) db.members) db.rooms

unfoldable pub get_user_rooms : ℕ → Repo (List Room)
get_user_rooms user_id = read backend (λ db. ok (newest_first (rooms_joined user_id db)))
