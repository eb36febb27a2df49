-- ===== src/Room/Pairs.antt =====
-- repository/room.go, CreateRoom: the search for the room of two users, and the insert of a room.
use efir.Prelude.{
  ℕ, ◌≡◌, refl, true, Option, none, some, ◌==◌, nat_eq, arith, any_of-find_if, find_if-none,
  Option-cases, inl, inr,
}
use efir.Exec.{
  ok, err, Outcome, served, refused, reply_lost, first_outcome, advance, pure, raise, read, ◌>>=◌,
  attempt,
}
use efir.Exec.Returns.{Returns}
use efir.Room.Types.{Room, Db, backend, room_not_found, RoomWorld, Repo}
use efir.Room.Repository.{
  is_row, select_room, select_member, select_direct, insert_room, check_direct, none_found,
  get_direct_room_by_users, or_error,
}
use efir.Room.Tables.{select_room-id}
use efir.Room.Invariant.{IsDirect, joined}

pub select_direct-none :
    (db : Db) (u1 u2 r : ℕ)
    → select_direct u1 u2 db ≡ none
    → IsDirect db r
    → joined db r u1 ≡ true
    → joined db r u2 ≡ true
    → ⊥
unfolding select_direct select_room select_member
select_direct-none db u1 u2 r e d j k = elim (Option-cases (select_room r db)) [
  | inl f ↦ ground (arith, f)
  | inr (a, f) ↦ ground (
    arith,
    f,
    find_if-none _ (λ (s : Room). s.id == r) db.rooms a e f,
    select_room-id db r a f,
    any_of-find_if (is_row a.id u1) db.members,
    any_of-find_if (is_row a.id u2) db.members,
  )
]

module _ {B : Type 0} (Q : B → RoomWorld → Type 0) (u1 u2 : ℕ) where
  pub check_direct-Returns :
      (k : Unit {0} → Repo B) (w : RoomWorld)
      → ((w' : RoomWorld)
          → w'.db ≡ w.db
          → w'.events ≡ w.events
          → select_direct u1 u2 w.db ≡ none
          → Returns Q (k tt) w')
      → Returns Q (check_direct u1 u2 >>= k) w
  unfolding check_direct get_direct_room_by_users read raise pure ◌>>=◌ attempt
  check_direct-Returns k w rest = go (first_outcome w.outcomes) (select_direct u1 u2 w.db) refl
    where
      go :
          (o : Outcome) (r : Option Room)
          → select_direct u1 u2 w.db ≡ r
          → Returns Q
              ((attempt (λ v. elim o [
                | served ↦ (or_error room_not_found r, advance v)
                | refused ↦ (err backend, advance v)
                | reply_lost ↦ (err backend, advance v)
              ])
                  >>= none_found)
                >>= k)
              w
      go served (some a) e = λ b h. cc
      go served none e = rest (advance w) refl refl e
      go refused r e = λ b h. cc
      go reply_lost r e = λ b h. cc

pub insert_room_ok :
    (r : Room) (db : Db) (a : Room)
    → (insert_room r db).0 ≡ ok a
    → (select_room r.id db ≡ none) × (a ≡ r)
unfolding insert_room
insert_room_ok r db a h = ground arith
