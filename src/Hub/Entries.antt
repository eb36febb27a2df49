-- ===== src/Hub/Entries.antt =====
-- hub.go: the entries of connRooms.
use efir.Prelude.{
  ℕ, String, ◌≢◌, inl, inr, some, [], ◌∷◌, contains, ◌==◌, nat_eq, string_eq, arith, Bool-cases,
  List-cases,
}
use efir.Prelude.Keyed.{Map, lookup, insert, erase, lookup-insert, lookup-erase}
use efir.Hub.{
  Hub, Rooms, conns_of, ensure_room, rooms_of, user_of, leave, forget_room, add_conn, remove_conn,
  disconnect_all,
}

-- No connection has an empty entry.
abbrev pub HasLiveConns : Map ℕ (Map String (Unit {0})) → Type 0
HasLiveConns m = (c : ℕ) → lookup c m ≢ some []

insert-HasLiveConns :
    (c : ℕ) (r : String) (rest : Map String (Unit {0})) (m : Map ℕ (Map String (Unit {0})))
    → HasLiveConns m
    → HasLiveConns (insert c ((r, tt) ∷ rest) m)
insert-HasLiveConns c r rest m live d e =
    ground (arith, lookup-insert c d ((r, tt) ∷ rest) m, live d)

erase-HasLiveConns :
    (c : ℕ) (m : Map ℕ (Map String (Unit {0}))) → HasLiveConns m → HasLiveConns (erase c m)
erase-HasLiveConns c m live d e = ground (arith, lookup-erase c d m, live d)

pub add_conn-HasLiveConns :
    (h : Hub) (c : ℕ) (u r : String)
    → HasLiveConns h.conn_rooms
    → HasLiveConns (add_conn h c u r).conn_rooms
unfolding add_conn
add_conn-HasLiveConns h c u r live =
    elim (Bool-cases (contains (conns_of (ensure_room h.rooms r) r u) c)) [
      | inl e ↦ rw (e, add_conn) live
      | inr e ↦
          rw (e, add_conn) (insert-HasLiveConns c r (erase r (rooms_of h c)) h.conn_rooms live)
    ]

forget_room-HasLiveConns :
    (h : Hub) (rooms : Rooms) (c : ℕ) (r : String)
    → HasLiveConns h.conn_rooms
    → HasLiveConns (forget_room h rooms c r).conn_rooms
unfolding forget_room
forget_room-HasLiveConns h rooms c r live = elim (List-cases (erase r (rooms_of h c))) [
  | inl e ↦ rw (e, forget_room) (erase-HasLiveConns c h.conn_rooms live)
  | inr ((s, _), rest, e) ↦ rw (e, forget_room) (insert-HasLiveConns c s rest h.conn_rooms live)
]

pub remove_conn-HasLiveConns :
    (h : Hub) (c : ℕ) (r : String)
    → HasLiveConns h.conn_rooms
    → HasLiveConns (remove_conn h c r).conn_rooms
unfolding remove_conn
remove_conn-HasLiveConns h c r live = elim (Bool-cases (user_of h c == "")) [
  | inl e ↦ rw (e, remove_conn) live
  | inr e ↦
      rw (e, remove_conn) (forget_room-HasLiveConns h (leave h.rooms r (user_of h c) c) c r live)
]

pub disconnect_all-HasLiveConns :
    (h : Hub) (c : ℕ) → HasLiveConns h.conn_rooms → HasLiveConns (disconnect_all h c).conn_rooms
unfolding disconnect_all
disconnect_all-HasLiveConns h c live = elim (Bool-cases (user_of h c == "")) [
  | inl e ↦ rw (e, disconnect_all) live
  | inr e ↦ rw (e, disconnect_all) (erase-HasLiveConns c h.conn_rooms live)
]
