-- ===== src/Room/Invariant.antt =====
-- services/room: what makes the tables of rooms and members valid.
use efir.Prelude.{
  ℕ, String, ◌≡◌, ◌≢◌, Bool, true, false, some, ◌==◌, is_some, nat_eq, arith, map_option,
  Option-cases, inl, inr,
}
use efir.Room.Types.{Room, RoomMember, Db, is_owner, is_direct}
use efir.Room.Repository.{select_room, select_member, rename, update_rows, delete_rows, remove_row}
use efir.Room.Tables.{
  select_room-update_rows, select_room-delete_rows, select_member-delete_rows,
  select_member-remove_row, select_member-update_rows, select_room-remove_row,
}

-- The user is a member of the room.
abbrev pub joined : Db → ℕ → ℕ → Bool
joined db r u = is_some (select_member r u db)

-- The room exists and is a direct room.
abbrev pub IsDirect : Db → ℕ → Type 0
IsDirect db r = map_option (λ (a : Room). is_direct a.type) (select_room r db) ≡ some true

pub record IsValid (db : Db) : Type 0 where
  -- A member's room exists, and the member is its owner exactly if the member created it.
  pub home :
      (r u : ℕ) (m : RoomMember)
      → select_member r u db ≡ some m
      → (room : Room) × (select_room r db ≡ some room) × (is_owner m.role ≡ (room.created_by == u))
  -- The creator of a room is a member of it.
  pub owned :
      (r : ℕ) (room : Room) → select_room r db ≡ some room → joined db r room.created_by ≡ true
  -- Two users share one direct room at most.
  pub pair :
      (r s u v : ℕ)
      → IsDirect db r
      → IsDirect db s
      → u ≢ v
      → joined db r u ≡ true
      → joined db r v ≡ true
      → joined db s u ≡ true
      → joined db s v ≡ true
      → r ≡ s

module _ (db : Db) (v : IsValid db) where
  module _ (id : ℕ) (name : String) (now : ℕ) where
    IsDirect-of-update_rows : (r : ℕ) → IsDirect (update_rows id name now db).1 r → IsDirect db r
    IsDirect-of-update_rows r d = ground (arith, select_room-update_rows id name now db r, d)

    pub update_rows-IsValid : IsValid (update_rows id name now db).1
    update_rows-IsValid = record {
      home = λ r u m e.
          let (room, found, role) =
            v.home r u m (rw (← select_member-update_rows id name now db r u) e) in
          (
            rename id name now room,
            ground (arith, select_room-update_rows id name now db r, found),
            ground (arith, role),
          );
      owned = λ r room e. rw select_member-update_rows (elim (Option-cases (select_room r db)) [
        | inl f ↦ ground (arith, select_room-update_rows id name now db r)
        | inr (old, f) ↦ ground (arith, select_room-update_rows id name now db r, v.owned r old f)
      ]);
      pair = λ r s u w dr ds ne ru rw' su sw.
          v.pair r s u w (IsDirect-of-update_rows r dr) (IsDirect-of-update_rows s ds) ne
            (rw (← select_member-update_rows id name now db r u) ru)
            (rw (← select_member-update_rows id name now db r w) rw')
            (rw (← select_member-update_rows id name now db s u) su)
            (rw (← select_member-update_rows id name now db s w) sw);
    }

  module _ (id : ℕ) where
    IsDirect-of-delete_rows : (r : ℕ) → IsDirect (delete_rows id db).1 r → IsDirect db r
    IsDirect-of-delete_rows r d = ground (arith, select_room-delete_rows id db r, d)

    joined_of-delete_rows :
        (r u : ℕ) → joined (delete_rows id db).1 r u ≡ true → joined db r u ≡ true
    joined_of-delete_rows r u d = ground (arith, select_member-delete_rows id db r u, d)

    pub delete_rows-IsValid : IsValid (delete_rows id db).1
    delete_rows-IsValid = record {
      home = λ r u m e.
          let (room, found, role) =
            v.home r u m (ground (arith, select_member-delete_rows id db r u)) in
          (
            room,
            ground (
              arith,
              select_room-delete_rows id db r,
              select_member-delete_rows id db r u,
              found,
            ),
            role,
          );
      owned = λ r room e.
          let found : select_room r db ≡ some room =
            ground (arith, select_room-delete_rows id db r) in
          ground (
            arith,
            select_room-delete_rows id db r,
            select_member-delete_rows id db r room.created_by,
            v.owned r room found,
          );
      pair = λ r s u w dr ds ne ru rw' su sw.
          v.pair r s u w (IsDirect-of-delete_rows r dr) (IsDirect-of-delete_rows s ds) ne
            (joined_of-delete_rows r u ru) (joined_of-delete_rows r w rw')
            (joined_of-delete_rows s u su) (joined_of-delete_rows s w sw);
    }

  -- A member who did not create the room may go.
  pub remove_row-IsValid :
      (id u : ℕ)
      → ((room : Room) → select_room id db ≡ some room → (room.created_by == u) ≡ false)
      → IsValid (remove_row id u db).1
  remove_row-IsValid id u other = record {
    home = λ r w m e.
        let (room, found, role) =
          v.home r w m (ground (arith, select_member-remove_row id u db r w)) in
        (room, rw select_room-remove_row found, role);
    owned = λ r room e.
        let found : select_room r db ≡ some room = rw (← select_room-remove_row id u db r) e in
        ground (
          arith,
          select_member-remove_row id u db r room.created_by,
          v.owned r room found,
          other room,
        );
    pair = λ r s w x dr ds ne rw' rx sw sx.
        v.pair r s w x (rw (← select_room-remove_row id u db r) dr)
          (rw (← select_room-remove_row id u db s) ds) ne (kept r w rw') (kept r x rx) (kept s w sw)
          (kept s x sx);
  }
    where
      kept : (r w : ℕ) → joined (remove_row id u db).1 r w ≡ true → joined db r w ≡ true
      kept r w d = ground (arith, select_member-remove_row id u db r w, d)
