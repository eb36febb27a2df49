-- ===== src/Hub.antt =====
-- services/websocket/internal/hub/hub.go: the hub's state and the operations that its one
-- goroutine makes on it. Connections are compared by identity, a number here; rooms and users are
-- texts. A map's missing inner map or list reads as empty, as in Go.
pub mod Rooms
pub mod Invariant
pub mod Departure
pub mod Tidy
pub mod Pruning
pub mod Entries
pub mod Actor
pub mod Delivery
mod Examples
use efir.Prelude.{
  ℕ, String, Option, none, some, List, [], ◌∷◌, ◌++◌, ◌==◌, if◌then◌else◌, contains, remove_first,
  get_or, length, nat_eq, string_eq,
}
use efir.Prelude.Keyed.{Map, lookup, insert, erase}
use efir.WsConn.{Outbound, send}

pub record Envelope : Type 0 where
  pub type : String
  pub payload : String

abbrev pub Rooms : Type 0
Rooms = Map String (Map String (List ℕ))

pub record Hub : Type 0 where
  pub rooms : Rooms
  pub user_ids : Map ℕ String
  pub conn_rooms : Map ℕ (Map String (Unit {0}))

unfoldable pub new_hub : Hub
new_hub = record { rooms = []; user_ids = []; conn_rooms = [] }

-- h.rooms[roomID], the empty map where there is none.
unfoldable pub room_of : Rooms → String → Map String (List ℕ)
unfolding lookup
room_of rooms r = get_or (lookup r rooms) []

-- h.rooms[roomID][userID], the empty list where there is none.
unfoldable pub conns_of : Rooms → String → String → List ℕ
unfolding room_of lookup
conns_of rooms r u = get_or (lookup u (room_of rooms r)) []

-- h.connRooms[conn], the empty set where there is none.
unfoldable pub rooms_of : Hub → ℕ → Map String (Unit {0})
unfolding lookup
rooms_of h c = get_or (lookup c h.conn_rooms) []

-- A room that h.rooms lacks gets an empty map.
unfoldable pub ensure_room : Rooms → String → Rooms
unfolding lookup insert
ensure_room rooms r = elim (lookup r rooms) [ none ↦ insert r [] rooms | some _ ↦ rooms ]

-- h.rooms[roomID][userID] = conns
unfoldable pub put_conns : Rooms → String → String → List ℕ → Rooms
unfolding room_of insert
put_conns rooms r u conns = insert r (insert u conns (room_of rooms r)) rooms

pub add_conn : Hub → ℕ → String → String → Hub
unfolding insert ensure_room conns_of rooms_of put_conns
add_conn h conn user_id room_id =
    let user_ids = insert conn user_id h.user_ids in
    let rooms = ensure_room h.rooms room_id in
    let user_conns = conns_of rooms room_id user_id in
    if contains user_conns conn then record h { rooms = rooms; user_ids = user_ids } else record {
      rooms = put_conns rooms room_id user_id (user_conns ++ conn ∷ []);
      user_ids = user_ids;
      conn_rooms = insert conn (insert room_id tt (rooms_of h conn)) h.conn_rooms;
    }

-- The loop over the user's connections in the room: the first occurrence is cut out.
unfoldable pub drop_conn : Rooms → String → String → ℕ → Rooms
unfolding conns_of put_conns
drop_conn rooms r u conn =
    let conns = conns_of rooms r u in
    if contains conns conn then put_conns rooms r u (remove_first conns conn) else rooms

-- len(h.rooms[roomID][userID]) == 0: the user's entry goes. delete on a nil map does nothing.
unfoldable pub prune_user : Rooms → String → String → Rooms
unfolding conns_of lookup erase insert
prune_user rooms r u = elim (conns_of rooms r u) [
  | [] ↦ elim (lookup r rooms) [ none ↦ rooms | some room ↦ insert r (erase u room) rooms ]
  | _ ∷ _ ↦ rooms
]

-- len(h.rooms[roomID]) == 0: the room's entry goes.
unfoldable pub prune_room : Rooms → String → Rooms
unfolding room_of erase
prune_room rooms r = elim (room_of rooms r) [ [] ↦ erase r rooms | _ ∷ _ ↦ rooms ]

-- What removeConn and the loop of disconnectAll do to the rooms.
unfoldable pub leave : Rooms → String → String → ℕ → Rooms
unfolding drop_conn prune_user prune_room
leave rooms r u conn = prune_room (prune_user (drop_conn rooms r u conn) r u) r

-- delete(h.connRooms[conn], roomID), and the connection's entries when that was its last room.
unfoldable pub forget_room : Hub → Rooms → ℕ → String → Hub
unfolding rooms_of erase insert
forget_room h rooms conn room_id = elim (erase room_id (rooms_of h conn)) [
  | [] ↦ record {
    rooms = rooms;
    user_ids = erase conn h.user_ids;
    conn_rooms = erase conn h.conn_rooms;
  }
  | entry ∷ rest ↦ record h { rooms = rooms; conn_rooms = insert conn (entry ∷ rest) h.conn_rooms }
]

-- h.userIDs[conn], the empty text where there is none.
unfoldable pub user_of : Hub → ℕ → String
unfolding lookup
user_of h conn = get_or (lookup conn h.user_ids) ""

pub remove_conn : Hub → ℕ → String → Hub
unfolding user_of leave forget_room
remove_conn h conn room_id =
    let user_id = user_of h conn in
    if user_id == "" then h else forget_room h (leave h.rooms room_id user_id conn) conn room_id

-- for roomID := range h.connRooms[conn]
unfoldable pub leave_all : Rooms → Map String (Unit {0}) → String → ℕ → Rooms
unfolding leave
leave_all rooms [] u conn = rooms
leave_all rooms ((r, _) ∷ rest) u conn = leave_all (leave rooms r u conn) rest u conn

pub disconnect_all : Hub → ℕ → Hub
unfolding user_of leave_all rooms_of erase
disconnect_all h conn =
    let user_id = user_of h conn in
    if user_id == "" then h else record {
      rooms = leave_all h.rooms (rooms_of h conn) user_id conn;
      user_ids = erase conn h.user_ids;
      conn_rooms = erase conn h.conn_rooms;
    }

-- The connections of a room in the order of the two nested loops of sendToRoom.
unfoldable pub targets : Map String (List ℕ) → List ℕ
targets [] = []
targets ((_, conns) ∷ room) = conns ++ targets room

-- The inner loop: each connection is offered the data, and those that refuse it are closed.
unfoldable pub send_each : (ℕ → Outbound) → List ℕ → String → (ℕ → Outbound) × List ℕ
unfolding send
send_each out [] bytes = (out, [])
send_each out (c ∷ cs) bytes =
    let (sent, taken) = send (out c) bytes in
    let rest = send_each (λ d. if c == d then sent else out d) cs bytes in
    if taken then rest else (rest.0, c ∷ rest.1)

-- json.Marshal is a parameter; without data nothing is sent.
pub send_to_room :
    (Envelope → Option String) → Hub → (ℕ → Outbound) → String → Envelope → (ℕ → Outbound) × List ℕ
unfolding room_of targets send_each
send_to_room marshal h out room_id envelope = elim (room_of h.rooms room_id) [
  | [] ↦ (out, [])
  | entry ∷ room ↦ elim (marshal envelope) [
    | none ↦ (out, [])
    | some bytes ↦ send_each out (targets (entry ∷ room)) bytes
  ]
]

pub get_room_user_count : Hub → String → ℕ
unfolding lookup
get_room_user_count h room_id = elim (lookup room_id h.rooms) [ none ↦ 0 | some room ↦ length room ]
