-- ===== src/Room/Listing.antt =====
-- services/room: what GetUserRooms returns.
use efir.Prelude.{
  ℕ, ◌≡◌, ◌≤◌, refl, List, [], ◌∷◌, Bool, ◌&&◌, leb, nat_eq, arith, keep_if, count_if, All,
  any_of-find_if, Bool-cases, inl, inr,
}
use efir.Exec.{ok, World, read, on_error}
use efir.Room.Types.{Room, Db, RoomEvent}
use efir.Room.Repository
use efir.Room.Repository.{insert_by_date, newest_first, rooms_joined, is_row, select_member}
use efir.Room.Service
use efir.Room.Invariant.{joined}

-- Each room is at least as new as those after it.
abbrev pub IsNewestFirst : List Room → Type 0
IsNewestFirst [] = Unit
IsNewestFirst (r ∷ rs) = All (λ s. s.created_at ≤ r.created_at) rs × IsNewestFirst rs

All-later :
    (a b : ℕ) (rs : List Room)
    → a ≤ b
    → All (λ s. s.created_at ≤ a) rs
    → All (λ s. s.created_at ≤ b) rs
All-later a b [] h k = tt
All-later a b (r ∷ rs) h k = (omega (arith, k.0), All-later a b rs h k.1)

All-insert_by_date :
    (n : ℕ) (r : Room) (rs : List Room)
    → r.created_at ≤ n
    → All (λ s. s.created_at ≤ n) rs
    → All (λ s. s.created_at ≤ n) (insert_by_date r rs)
unfolding insert_by_date
All-insert_by_date n r [] h k = (h, tt)
All-insert_by_date n r (s ∷ rs) h k = elim (Bool-cases (leb s.created_at r.created_at)) [
  | inl e ↦ rw e (h, k)
  | inr e ↦ rw e (k.0, All-insert_by_date n r rs h k.1)
]

insert_by_date_sorted :
    (r : Room) (rs : List Room) → IsNewestFirst rs → IsNewestFirst (insert_by_date r rs)
unfolding insert_by_date
insert_by_date_sorted r [] k = (tt, tt)
insert_by_date_sorted r (s ∷ rs) k = elim (Bool-cases (leb s.created_at r.created_at)) [
  | inl e ↦
      let le : s.created_at ≤ r.created_at = ground arith in
      rw e ((le, All-later s.created_at r.created_at rs le k.0), k)
  | inr e ↦
      rw e (All-insert_by_date s.created_at r rs (ground arith) k.0, insert_by_date_sorted r rs k.1)
]

newest_first_sorted : (rs : List Room) → IsNewestFirst (newest_first rs)
unfolding newest_first
newest_first_sorted [] = tt
newest_first_sorted (r ∷ rs) = insert_by_date_sorted r (newest_first rs) (newest_first_sorted rs)

count_if-insert_by_date :
    (p : Room → Bool) (r : Room) (rs : List Room)
    → count_if p (insert_by_date r rs) ≡ count_if p (r ∷ rs)
unfolding insert_by_date
count_if-insert_by_date p r [] = refl
count_if-insert_by_date p r (s ∷ rs) = ground (arith, count_if-insert_by_date p r rs)

count_if-newest_first :
    (p : Room → Bool) (rs : List Room) → count_if p (newest_first rs) ≡ count_if p rs
unfolding newest_first
count_if-newest_first p [] = refl
count_if-newest_first p (r ∷ rs) =
    ground (arith, count_if-newest_first p rs, count_if-insert_by_date p r (newest_first rs))

count_if-keep_if :
    (p q : Room → Bool) (rs : List Room) → count_if p (keep_if q rs) ≡ count_if (λ r. p r && q r) rs
count_if-keep_if p q [] = refl
count_if-keep_if p q (r ∷ rs) = ground (arith, count_if-keep_if p q rs)

count_if_same :
    (p q : Room → Bool) (rs : List Room) → ((r : Room) → p r ≡ q r) → count_if p rs ≡ count_if q rs
count_if_same p q [] h = refl
count_if_same p q (r ∷ rs) h = ground (arith, count_if_same p q rs h, h r)

-- The rooms that GetUserRooms returns are those of which the user is a member, each as often as the
-- table has it, and the newest come first.
pub get_user_rooms_served :
    (u : ℕ) (w : World Db RoomEvent) (rooms : List Room)
    → (Service.get_user_rooms u w).0 ≡ ok rooms
    → IsNewestFirst rooms
      × ((p : Room → Bool)
          → count_if p rooms ≡ count_if (λ r. p r && joined w.db r.id u) w.db.rooms)
unfolding Service.get_user_rooms Repository.get_user_rooms select_member rooms_joined read on_error
get_user_rooms_served u w rooms e =
    let same : newest_first (rooms_joined u w.db) ≡ rooms = ground arith in
    (
      rw (← same) (newest_first_sorted _),
      λ p.
          rw (← same, count_if-newest_first, count_if-keep_if)
            (count_if_same _ _ w.db.rooms
              (λ r. rw (any_of-find_if (is_row r.id u) w.db.members) refl)),
    )
