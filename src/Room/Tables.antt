-- ===== src/Room/Tables.antt =====
-- repository/room.go: what each statement leaves for the later SELECTs.
use efir.Prelude.{
  ℕ, String, ◌≡◌, refl, [], ◌∷◌, ◌&&◌, none, some, ◌==◌, if◌then◌else◌, is_some, nat_eq, arith,
  or_else, map_option, find_if-append, find_if-holds, find_if-keep_if, find_if-keep_if-none,
  find_if-map, Bool-cases, inl, inr,
}
use efir.Room.Types.{Room, RoomMember, Db}
use efir.Room.Repository.{
  is_row, select_room, select_member, insert_room, insert_member, rename, update_rows, delete_rows,
  remove_row,
}

pub select_room-insert_room :
    (r : Room) (db : Db) (id : ℕ)
    → select_room id (insert_room r db).1
      ≡ or_else (select_room id db) (if r.id == id then some r else none)
unfolding insert_room select_room select_member
select_room-insert_room r db id =
    ground
      (arith, find_if-append (λ (s : Room). s.id == id) db.rooms (r ∷ []), nat_eq.same_iff r.id id)

pub select_member-insert_room :
    (r : Room) (db : Db) (id u : ℕ)
    → select_member id u (insert_room r db).1 ≡ select_member id u db
unfolding insert_room select_room select_member
select_member-insert_room r db id u = ground arith

pub select_room-insert_member :
    (m : RoomMember) (db : Db) (id : ℕ) → select_room id (insert_member m db).1 ≡ select_room id db
unfolding insert_member select_room select_member
select_room-insert_member m db id = ground arith

pub select_member-insert_member :
    (m : RoomMember) (db : Db) (id u : ℕ)
    → select_member id u (insert_member m db).1
      ≡ or_else
          (select_member id u db)
          (if is_row id u m && is_some (select_room m.room_id db) then some m else none)
unfolding insert_member select_room select_member
select_member-insert_member m db id u =
    ground (arith, find_if-append (is_row id u) db.members (m ∷ []))

pub select_room-update_rows :
    (id : ℕ) (name : String) (now : ℕ) (db : Db) (j : ℕ)
    → select_room j (update_rows id name now db).1
      ≡ map_option (rename id name now) (select_room j db)
unfolding update_rows select_room select_member
select_room-update_rows id name now db j =
    find_if-map (λ (s : Room). s.id == j) (rename id name now) db.rooms (λ r. ground arith)

pub select_room-delete_rows :
    (id : ℕ) (db : Db) (j : ℕ)
    → select_room j (delete_rows id db).1 ≡ (if j == id then none else select_room j db)
unfolding delete_rows select_room select_member
select_room-delete_rows id db j = elim (Bool-cases (j == id)) [
  | inl e ↦ rw e (find_if-keep_if-none _ _ db.rooms (λ a h. ground arith))
  | inr e ↦ rw e (find_if-keep_if _ _ db.rooms (λ a h. ground arith))
]

pub select_member-delete_rows :
    (id : ℕ) (db : Db) (j u : ℕ)
    → select_member j u (delete_rows id db).1 ≡ (if j == id then none else select_member j u db)
unfolding delete_rows select_room select_member
select_member-delete_rows id db j u = elim (Bool-cases (j == id)) [
  | inl e ↦ rw e (find_if-keep_if-none _ _ db.members (λ a h. ground arith))
  | inr e ↦ rw e (find_if-keep_if _ _ db.members (λ a h. ground arith))
]

pub select_member-remove_row :
    (id u : ℕ) (db : Db) (j v : ℕ)
    → select_member j v (remove_row id u db).1
      ≡ (if (j == id) && (v == u) then none else select_member j v db)
unfolding remove_row select_room select_member
select_member-remove_row id u db j v = elim (Bool-cases ((j == id) && (v == u))) [
  | inl e ↦ rw e (find_if-keep_if-none _ _ db.members (λ a h. ground arith))
  | inr e ↦ rw e (find_if-keep_if _ _ db.members (λ a h. ground arith))
]

pub select_member-update_rows :
    (id : ℕ) (name : String) (now : ℕ) (db : Db) (j u : ℕ)
    → select_member j u (update_rows id name now db).1 ≡ select_member j u db
unfolding update_rows select_member
select_member-update_rows id name now db j u = refl

pub select_room-remove_row :
    (id u : ℕ) (db : Db) (j : ℕ) → select_room j (remove_row id u db).1 ≡ select_room j db
unfolding remove_row select_room
select_room-remove_row id u db j = refl

pub select_room-id : (db : Db) (id : ℕ) (r : Room) → select_room id db ≡ some r → r.id ≡ id
unfolding select_room
select_room-id db id r e = ground (arith, find_if-holds (λ (s : Room). s.id == id) db.rooms r e)

pub select_member-key :
    (db : Db) (id u : ℕ) (m : RoomMember)
    → select_member id u db ≡ some m
    → (m.room_id ≡ id) × (m.user_id ≡ u)
unfolding select_member
select_member-key db id u m e = ground (arith, find_if-holds (is_row id u) db.members m e)
