-- ===== src/Room/Transaction.antt =====
-- repository/room.go, CreateRoom: what the transaction leaves when it commits.
use efir.Prelude.{
  ℕ, String, ◌≡◌, refl, ap, ap₂, ◌∙◌, Bool, true, false, ◌&&◌, not, none, some, ◌==◌, if◌then◌else◌,
  nat_eq, arith, or_else,
}
use efir.Exec.{
  Result, ok, err, Outcome, served, refused, reply_lost, Exec, first_outcome, advance, pure, write,
  ◌>>=◌, on_error,
}
use efir.Exec.Ends.{Ends}
use efir.Exec.Returns.{Returns, read-Returns, write-Returns}
use efir.Room.Types.{
  RoomType, Room, RoomMember, Db, is_direct, owner, member, RepoError, backend, RoomEvent,
  RoomWorld, Repo,
}
use efir.Room.Repository.{
  is_row, select_room, select_member, select_direct, insert_room, insert_member, check_direct,
  begin, create_room_body, create_room, transaction,
}
use efir.Room.Tables.{
  select_room-insert_room, select_member-insert_room, select_room-insert_member,
  select_member-insert_member,
}
use efir.Room.Creation.{Creates}
use efir.Room.Pairs.{select_direct-none, check_direct-Returns, insert_room_ok}

module _ (name : String) (type : RoomType) (created_by participant_id id now : ℕ) where
  -- Whether the room has a second member from the start.
  abbrev pub two : Bool
  two = is_direct type && not (participant_id == 0)

  abbrev pub new_room : Room
  new_room = record {
    id = id;
    name = name;
    type = type;
    created_by = created_by;
    created_at = now;
    updated_at = now;
  }

  abbrev pub owner_row : RoomMember
  owner_row = record { room_id = id; user_id = created_by; role = owner; joined_at = now }

  abbrev pub other_row : RoomMember
  other_row = record { room_id = id; user_id = participant_id; role = member; joined_at = now }

  -- The tables after the inserts.
  abbrev pub created : Bool → Db → Db
  created true db =
      (insert_member other_row (insert_member owner_row (insert_room new_room db).1).1).1
  created false db = (insert_member owner_row (insert_room new_room db).1).1

  pub created-Creates :
      (b : Bool) (db : Db)
      → select_room id db ≡ none
      → (b ≡ true → select_direct created_by participant_id db ≡ none)
      → Creates new_room owner_row other_row b db (created b db)
  created-Creates b db fresh free = record {
    fresh = fresh;
    own_room = refl;
    own_user = refl;
    own_role = refl;
    other_room = refl;
    other_role = refl;
    rooms = rooms b;
    members = members b;
    unpaired = λ r _ t d j k. select_direct-none db created_by participant_id r (free t) d j k;
  }
    where
      here : select_room id (insert_room new_room db).1 ≡ some new_room
      here = ground (arith, select_room-insert_room new_room db id, fresh)

      rooms :
          (c : Bool) (r : ℕ)
          → select_room r (created c db)
            ≡ or_else (select_room r db) (if id == r then some new_room else none)
      rooms true r =
          rw (select_room-insert_member, select_room-insert_member)
            (select_room-insert_room new_room db r)
      rooms false r = rw select_room-insert_member (select_room-insert_room new_room db r)

      first :
          (r u : ℕ)
          → select_member r u (insert_member owner_row (insert_room new_room db).1).1
            ≡ or_else (select_member r u db) (if is_row r u owner_row then some owner_row else none)
      first r u = ground (
        arith,
        select_member-insert_member owner_row (insert_room new_room db).1 r u,
        select_member-insert_room new_room db r u,
        here,
      )

      members :
          (c : Bool) (r u : ℕ)
          → select_member r u (created c db)
            ≡ or_else (select_member r u db) (
                or_else
                  (if is_row r u owner_row then some owner_row else none)
                  (if c && is_row r u other_row then some other_row else none))
      members true r u = ground (
        arith,
        select_member-insert_member other_row
            (insert_member owner_row (insert_room new_room db).1).1 r u,
        select_room-insert_member owner_row (insert_room new_room db).1 id,
        first r u,
        here,
      )
      members false r u = ground (arith, first r u)

  -- What the transaction's body leaves if it runs to its end.
  abbrev pub Created : Bool → RoomWorld → Room → RoomWorld → Type 0
  Created b w room w' =
      (room ≡ new_room)
      × (w'.db ≡ created b w.db)
      × (w'.events ≡ w.events)
      × (select_room id w.db ≡ none)

  -- The inserts after the check, from a world whose tables are those at the start.
  inserts : Bool → Repo Room
  inserts b = write backend (insert_room new_room) >>= λ room.
      write backend (insert_member (record owner_row { room_id = room.id })) >>= λ _.
      (if b
        then write backend (insert_member (record other_row { room_id = room.id }))
        else pure none)
      >>= λ _. pure room

  put_row :
      (room : Room) (db db' : Db)
      → room ≡ new_room
      → db ≡ db'
      → (m : RoomMember)
      → (insert_member (record m { room_id = room.id }) db).1
        ≡ (insert_member (record m { room_id = id }) db').1
  put_row room db db' r e m =
      ap₂ (λ (t : Room) (x : Db). (insert_member (record m { room_id = t.id }) x).1) r e

  inserts-Returns :
      (b : Bool) (w v : RoomWorld)
      → v.db ≡ w.db
      → v.events ≡ w.events
      → Returns (Created b w) (inserts b) v
  unfolding inserts pure ◌>>=◌
  inserts-Returns b w v d e = write-Returns (Created b w) backend _ _ v λ w1 d1 e1 room ok1.
      let (fresh, r) = insert_room_ok new_room v.db room ok1 in
      write-Returns (Created b w) backend _ _ w1 λ w2 d2 e2 _ _.
        last b w2 room
          (d2
            ∙ put_row room w1.db _ r (d1 ∙ ap (λ (t : Db). (insert_room new_room t).1) d) owner_row)
          r (e2 ∙ e1 ∙ e) (rw d at fresh)
    where
      last :
          (c : Bool) (w2 : RoomWorld) (room : Room)
          → w2.db ≡ (insert_member owner_row (insert_room new_room w.db).1).1
          → room ≡ new_room
          → w2.events ≡ w.events
          → select_room id w.db ≡ none
          → Returns
              (Created c w)
              ((if c
                  then write backend (insert_member (record other_row { room_id = room.id }))
                  else pure none)
                >>= λ _. pure room)
              w2
      last true w2 room d2 r e2 fresh =
          write-Returns (Created true w) backend _ (λ _. pure room) w2
            λ w3 d3 e3 _ _ a h. (cc, d3 ∙ put_row room w2.db _ r d2 other_row, e3 ∙ e2, fresh)
      last false w2 room d2 r e2 fresh = λ a h. (cc, d2, e2, fresh)

  body-Returns :
      (w : RoomWorld)
      → Returns
          (λ room w'.
            Created two w room w'
            × (two ≡ true → select_direct created_by participant_id w.db ≡ none))
          (create_room_body name type created_by participant_id id now)
          w
  unfolding create_room_body begin inserts pure write insert_member insert_room ◌>>=◌
  body-Returns w =
      read-Returns (λ room w'. Created two w room w' × (two ≡ true → free w)) backend (λ _. ok tt) _
        w λ w1 d1 e1 _ _. checked two w1 d1 e1
    where
      free : RoomWorld → Type 0
      free v = select_direct created_by participant_id v.db ≡ none

      checked :
          (b : Bool) (w1 : RoomWorld)
          → w1.db ≡ w.db
          → w1.events ≡ w.events
          → Returns
              (λ room w'. Created b w room w' × (b ≡ true → free w))
              ((if b then check_direct created_by participant_id else pure tt) >>= λ _. inserts b)
              w1
      checked true w1 d1 e1 =
          check_direct-Returns (λ room w'. Created true w room w' × (Path Bool true true → free w))
            created_by participant_id (λ _. inserts true) w1
            λ w2 d2 e2 f a h. (inserts-Returns true w w2 (d2 ∙ d1) (e2 ∙ e1) a h, λ _. rw d1 at f)
      checked false w1 d1 e1 = λ a h. (inserts-Returns false w w1 d1 e1 a h, λ t. cc)

  -- However the calls turn out, CreateRoom leaves the tables as they were, or with the new room in
  -- them.
  pub create_room-Ends :
      (P : Db → Type 0) {F B : Type 0} (g : RepoError → F) (k : Room → Exec Db RoomEvent F B)
      (w : RoomWorld)
      → P w.db
      → (select_room id w.db ≡ none
          → (two ≡ true → select_direct created_by participant_id w.db ≡ none)
          → P (created two w.db))
      → ((w' : RoomWorld) → P w'.db → Ends (λ d _. P d) (k new_room) w')
      → Ends
          (λ d _. P d)
          (on_error g (create_room name type created_by participant_id id now) >>= k)
          w
  unfolding create_room transaction ◌>>=◌ on_error
  create_room-Ends P {F = F} {B = B} g k w p q rest =
      go (body w).0 (body w).1 (body-Returns w) (first_outcome (body w).1.outcomes)
    where
      body : Repo Room
      body = create_room_body name type created_by participant_id id now

      go :
          (r : Result RepoError Room) (v : RoomWorld)
          → ((a : Room)
              → r ≡ ok a
              → Created two w a v
                × (two ≡ true → select_direct created_by participant_id w.db ≡ none))
          → (o : Outcome)
          → Ends
              (λ d _. P d)
              (on_error g (λ (_ : RoomWorld). elim r [
                | err e ↦ (err e, record v { db = w.db })
                | ok a ↦ elim o [
                  | served ↦ (ok a, advance v)
                  | refused ↦ (err backend, record v { db = w.db; outcomes = (advance v).outcomes })
                  | reply_lost ↦ (err backend, advance v)
                ]
              ])
                >>= k)
              w
      go (err e) v c o = p
      go (ok a) v c refused = p
      go (ok a) v c reply_lost = let ((r, d, e, f), u) = c a refl in rw d (q f u)
      go (ok a) v c served =
          let ((r, d, e, f), u) = c a refl in rw r (rest (advance v) (rw d (q f u)))
