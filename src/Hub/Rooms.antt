-- ===== src/Hub/Rooms.antt =====
-- hub.go: how each step of the hub changes the list of a user's connections in a room.
use efir.Prelude.{
  ℕ, String, ◌≡◌, refl, inl, inr, some, List, [], ◌&&◌, ◌==◌, if◌then◌else◌, contains, remove_first,
  remove_first_absent, get_or, nat_eq, string_eq, arith, eq-cases, Bool-cases, Option-cases,
  List-cases,
}
use efir.Prelude.Keyed.{Map, lookup, insert, erase, lookup-insert, lookup-erase}
use efir.Hub.{
  Rooms, room_of, conns_of, ensure_room, put_conns, drop_conn, prune_user, prune_room, leave,
}

pub conns_of-put_conns :
    (rooms : Rooms) (r u s v : String) (l : List ℕ)
    → conns_of (put_conns rooms r u l) s v
      ≡ (if (r == s) && (u == v) then l else conns_of rooms s v)
unfolding conns_of put_conns room_of
conns_of-put_conns rooms r u s v l = elim (eq-cases r s) [
  | inl (p, e) ↦ rw (lookup-insert, e, lookup-insert, p) (ground arith)
  | inr e ↦ rw (lookup-insert, e) refl
]

pub conns_of-ensure_room :
    (rooms : Rooms) (r s v : String) → conns_of (ensure_room rooms r) s v ≡ conns_of rooms s v
unfolding conns_of ensure_room room_of
conns_of-ensure_room rooms r s v = elim (Option-cases (lookup r rooms)) [
  | inl e ↦ elim (eq-cases r s) [
    | inl (p, q) ↦ rw (e, ensure_room) (rw (lookup-insert, q) (rw (← p, e) refl))
    | inr q ↦ rw (e, ensure_room) (rw (lookup-insert, q) refl)
  ]
  | inr (m, e) ↦ rw (e, ensure_room) refl
]

pub conns_of-drop_conn :
    (rooms : Rooms) (r u s v : String) (c : ℕ)
    → conns_of (drop_conn rooms r u c) s v
      ≡ (if (r == s) && (u == v) then remove_first (conns_of rooms r u) c else conns_of rooms s v)
unfolding drop_conn
conns_of-drop_conn rooms r u s v c = elim (Bool-cases (contains (conns_of rooms r u) c)) [
  | inl e ↦ rw (e, drop_conn) (conns_of-put_conns rooms r u s v _)
  | inr e ↦
      rw (e, drop_conn)
        (rw (remove_first_absent _ c e)
          (ground (arith, string_eq.same_iff r s, string_eq.same_iff u v)))
]

conns_of-erase :
    (rooms : Rooms) (r u s v : String) (m : Map String (List ℕ))
    → lookup r rooms ≡ some m
    → conns_of rooms r u ≡ []
    → conns_of (insert r (erase u m) rooms) s v ≡ conns_of rooms s v
unfolding conns_of room_of
conns_of-erase rooms r u s v m e h = elim (eq-cases r s) [
  | inl (p, q) ↦
      rw (lookup-insert, q)
        (rw (← p, e)
          (rw lookup-erase (
            ground (
              arith,
              string_eq.same_iff u v,
              let k : get_or (lookup u m) [] ≡ [] = (rw (e, get_or) at h) in k,
            ))))
  | inr q ↦ rw (lookup-insert, q) refl
]

pub conns_of-prune_user :
    (rooms : Rooms) (r u s v : String) → conns_of (prune_user rooms r u) s v ≡ conns_of rooms s v
unfolding prune_user
conns_of-prune_user rooms r u s v = elim (List-cases (conns_of rooms r u)) [
  | inl e ↦ elim (Option-cases (lookup r rooms)) [
    | inl f ↦ rw (e, prune_user) (rw (f, prune_user) refl)
    | inr (m, f) ↦ rw (e, prune_user) (rw (f, prune_user) (conns_of-erase rooms r u s v m f e))
  ]
  | inr (c, cs, e) ↦ rw (e, prune_user) refl
]

pub conns_of-prune_room :
    (rooms : Rooms) (r s v : String) → conns_of (prune_room rooms r) s v ≡ conns_of rooms s v
unfolding prune_room conns_of room_of
conns_of-prune_room rooms r s v = elim (List-cases (room_of rooms r)) [
  | inl e ↦ elim (eq-cases r s) [
    | inl (p, q) ↦ rw (e, prune_room) (rw (lookup-erase, q) (rw (← p, e) refl))
    | inr q ↦ rw (e, prune_room) (rw (lookup-erase, q) refl)
  ]
  | inr (entry, room, e) ↦ rw (e, prune_room) refl
]

-- Leaving a room cuts one entry out of one list, and touches no other list.
pub conns_of-leave :
    (rooms : Rooms) (r u s v : String) (c : ℕ)
    → conns_of (leave rooms r u c) s v
      ≡ (if (r == s) && (u == v) then remove_first (conns_of rooms r u) c else conns_of rooms s v)
unfolding leave
conns_of-leave rooms r u s v c =
    rw (conns_of-prune_room, conns_of-prune_user) (conns_of-drop_conn rooms r u s v c)
