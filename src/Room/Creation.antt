-- ===== src/Room/Creation.antt =====
-- Rows that come in: a member who is added, and a room that is created with its first members.
use efir.Prelude.{
  ℕ, ◌≡◌, ◌≢◌, ◌⊎◌, ap, ◌∙◌, sym, Bool, true, false, ◌&&◌, none, some, ◌==◌, if◌then◌else◌, is_some,
  nat_eq, arith, or_else, Option-cases, eq-cases, inl, inr,
}
use efir.Room.Types.{Room, RoomMember, Db, is_owner, is_direct}
use efir.Room.Repository.{is_row, select_room, select_member, insert_member}
use efir.Room.Tables.{select_room-insert_member, select_member-insert_member}
use efir.Room.Invariant.{IsValid, IsDirect, joined}

module _ (db : Db) (v : IsValid db) where
  -- A plain member may come into a room that is not direct.
  module _ (m : RoomMember) (plain : is_owner m.role ≡ false)
      (open' : ¬ IsDirect db m.room_id) where
    kept :
        (r u : ℕ) → IsDirect db r → joined (insert_member m db).1 r u ≡ true → joined db r u ≡ true
    kept r u d j = ground (arith, select_member-insert_member m db r u)

    -- The row that a search finds in the new table is an old one or the new one.
    old_or_new :
        (r u : ℕ) (x : RoomMember)
        → select_member r u (insert_member m db).1 ≡ some x
        → (select_member r u db ≡ some x)
          ⊎ ((select_member r u db ≡ none)
              × (x ≡ m)
              × (m.room_id ≡ r)
              × (m.user_id ≡ u)
              × (is_some (select_room r db) ≡ true))
    old_or_new r u x e = ground (arith, select_member-insert_member m db r u)

    home :
        (r u : ℕ) (x : RoomMember)
        → select_member r u (insert_member m db).1 ≡ some x
        → (room : Room) × (select_room r (insert_member m db).1 ≡ some room)
          × (is_owner x.role ≡ (room.created_by == u))
    home r u x e = elim (old_or_new r u x e) [
      | inl f ↦
          let (room, found, role) = v.home r u x f in
          (room, rw select_room-insert_member found, role)
      | inr (absent, new, _, _, there) ↦ elim (Option-cases (select_room r db)) [
        | inl f ↦ cc (ap is_some f)
        | inr (room, f) ↦
            (room, rw select_room-insert_member f, ground (arith, v.owned r room f, plain, new))
      ]
    ]

    pub insert_member-IsValid : IsValid (insert_member m db).1
    insert_member-IsValid = record {
      home = home;
      owned = λ r room e.
          let found : select_room r db ≡ some room = rw (← select_room-insert_member m db r) e in
          ground (arith, select_member-insert_member m db r room.created_by, v.owned r room found);
      pair = λ r s u w dr ds ne ru rw' su sw.
          let dr' : IsDirect db r = rw (← select_room-insert_member m db r) dr in
          let ds' : IsDirect db s = rw (← select_room-insert_member m db s) ds in
          v.pair r s u w dr' ds' ne (kept r u dr' ru) (kept r w dr' rw') (kept s u ds' su)
            (kept s w ds' sw);
    }

-- What a transaction that creates a room leaves: the room, its owner, and for a direct room the
-- participant.
pub record Creates (room : Room) (owner_row other : RoomMember) (two : Bool) (db db' : Db)
    : Type 0 where
  pub fresh : select_room room.id db ≡ none
  pub own_room : owner_row.room_id ≡ room.id
  pub own_user : owner_row.user_id ≡ room.created_by
  pub own_role : is_owner owner_row.role ≡ true
  pub other_room : other.room_id ≡ room.id
  pub other_role : is_owner other.role ≡ false
  pub rooms :
      (r : ℕ)
      → select_room r db' ≡ or_else (select_room r db) (if room.id == r then some room else none)
  pub members :
      (r u : ℕ)
      → select_member r u db'
        ≡ or_else (select_member r u db) (
            or_else
              (if is_row r u owner_row then some owner_row else none)
              (if two && is_row r u other then some other else none))
  pub unpaired :
      (r : ℕ)
      → is_direct room.type ≡ true
      → two ≡ true
      → IsDirect db r
      → joined db r room.created_by ≡ true
      → joined db r other.user_id ≡ true
      → ⊥

module _ (db db' : Db) (v : IsValid db) (room : Room) (owner_row other : RoomMember) (two : Bool)
    (c : Creates room owner_row other two db db') where
  nobody : (u : ℕ) → select_member room.id u db ≡ none
  nobody u = elim (Option-cases (select_member room.id u db)) [
    | inl e ↦ e
    | inr (m, e) ↦ let (r, found, _) = v.home room.id u m e in cc (c.fresh, found)
  ]

  home_created :
      (r u : ℕ) (x : RoomMember)
      → select_member r u db' ≡ some x
      → (a : Room) × (select_room r db' ≡ some a) × (is_owner x.role ≡ (a.created_by == u))
  home_created r u x e = elim (Option-cases (select_member r u db)) [
    | inl f ↦ (
      room,
      ground (arith, c.members r u, c.rooms r, c.fresh, c.own_room, c.other_room),
      ground (arith, c.members r u, c.own_room, c.own_user, c.own_role, c.other_room, c.other_role),
    )
    | inr (m, f) ↦
        let (a, found, role) = v.home r u m f in
        (a, ground (arith, c.rooms r, found), ground (arith, c.members r u, role))
  ]

  owned_created : (r : ℕ) (a : Room) → select_room r db' ≡ some a → joined db' r a.created_by ≡ true
  owned_created r a e = elim (Option-cases (select_room r db)) [
    | inl f ↦ ground (arith, c.rooms r, c.members r a.created_by, c.own_room, c.own_user)
    | inr (b, f) ↦ ground (arith, c.rooms r, c.members r b.created_by, v.owned r b f)
  ]

  -- In the new room there are its creator and the participant.
  one_of :
      (u : ℕ)
      → joined db' room.id u ≡ true
      → (u ≡ room.created_by) ⊎ ((two ≡ true) × (u ≡ other.user_id))
  one_of u j = ground (arith, c.members room.id u, nobody u, c.own_user)

  elsewhere : (r u : ℕ) → (room.id == r) ≡ false → joined db' r u ≡ true → joined db r u ≡ true
  elsewhere r u ne j = ground (arith, c.members r u, c.own_room, c.other_room)

  IsDirect-elsewhere : (r : ℕ) → (room.id == r) ≡ false → IsDirect db' r → IsDirect db r
  IsDirect-elsewhere r ne d = ground (arith, c.rooms r)

  direct_here : IsDirect db' room.id → is_direct room.type ≡ true
  direct_here d = ground (arith, c.rooms room.id, c.fresh)

  -- An older direct room cannot have the two members of the new one.
  apart :
      (r u w : ℕ)
      → IsDirect db' room.id
      → IsDirect db r
      → u ≢ w
      → joined db' room.id u ≡ true
      → joined db' room.id w ≡ true
      → joined db r u ≡ true
      → joined db r w ≡ true
      → ⊥
  apart r u w dn dr ne nu nw ju jw = elim (one_of u nu) [
    | inl p ↦ elim (one_of w nw) [
      | inl q ↦ ne (p ∙ sym q)
      | inr (t, q) ↦ c.unpaired r (direct_here dn) t dr (rw (← p) ju) (rw (← q) jw)
    ]
    | inr (t, p) ↦ elim (one_of w nw) [
      | inl q ↦ c.unpaired r (direct_here dn) t dr (rw (← q) jw) (rw (← p) ju)
      | inr (_, q) ↦ ne (p ∙ sym q)
    ]
  ]

  pub created-IsValid : IsValid db'
  created-IsValid = record {
    home = home_created;
    owned = owned_created;
    pair = λ r s u w dr ds ne ru rw' su sw. elim (eq-cases room.id r) [
      | inl (p, _) ↦ elim (eq-cases room.id s) [
        | inl (q, _) ↦ sym p ∙ q
        | inr ns ↦ absurd (
            apart s u w (rw p dr) (IsDirect-elsewhere s ns ds) ne (rw p ru) (rw p rw')
              (elsewhere s u ns su) (elsewhere s w ns sw))
      ]
      | inr nr ↦ elim (eq-cases room.id s) [
        | inl (q, _) ↦ absurd (
            apart r u w (rw q ds) (IsDirect-elsewhere r nr dr) ne (rw q su) (rw q sw)
              (elsewhere r u nr ru) (elsewhere r w nr rw'))
        | inr ns ↦
            v.pair r s u w (IsDirect-elsewhere r nr dr) (IsDirect-elsewhere s ns ds) ne
              (elsewhere r u nr ru) (elsewhere r w nr rw') (elsewhere s u ns su)
              (elsewhere s w ns sw)
      ]
    ];
  }
