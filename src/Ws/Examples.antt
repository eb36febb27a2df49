-- ===== src/Ws/Examples.antt =====
-- The WebSocket service's theorems at two connections, one ticket and two events.
use efir.Prelude.{
  ℕ, String, ◌≡◌, ◌≤◌, refl, List, [], ◌∷◌, true, false, some, ◌==◌, not, if◌then◌else◌, nat_eq,
  string_eq, Bool-cases, inl, inr, arith,
}
use efir.Exec.{ok, served, reply_lost}
use efir.Hub.Departure.{Named}
use efir.Hub.Invariant.{in_room}
use efir.Hub.Actor.{register, disconnect, run, members, in_room-run}
use efir.Shared.Json.{Object, Encoding}
use efir.Shared.Tickets.{Tickets, gateway_ws_ticket_key}
use efir.Gateway.Access.{Context}
use efir.Gateway.Tickets.{create_ticket}
use efir.Room.Types.{membership_changed}
use efir.Room.Publisher
use efir.Ws.Session.{Codec}
use efir.Ws.Admission.{handle_ws, through_proxy}
use efir.Ws.Tickets.{
  Use, create, validate, connect, admissions, is_ok, admissions-le-one, handle_ws-create_ticket,
  through_proxy_refused,
}
use efir.Ws.Events.{handle}
use efir.Ws.Relay.{relayed, relay_room_event}
use efir.Ws.System.{
  new_system, Action, accept, fail_read, fail_ping, leave_ping, end_ping, leave_by_ping, leave_read,
  close_read, take_register, take_disconnect, run_actions, act, accept_conn, end_read,
  leave_by_read, close_by_read, hub_take, offer,
}
use efir.Ws.Queues.{IsSound, run_actions-new_system-IsSound}
use efir.Ws.Left.{take_all, run_actions-new_system-Gone}

abbrev codec : Codec
codec = record {
  marshal = λ e. some e.payload;
  marshal_error = λ code message. some code;
  payload_room = λ payload. some payload;
  is_uuid = λ t. not (t == "");
}

abbrev owner_of : ℕ → String
owner_of c = if c == 1 then "alice" else "bob"

owner_of-Named : Named owner_of
owner_of-Named c = elim (Bool-cases (c == 1)) [ inl e ↦ rw e refl | inr e ↦ rw e refl ]

-- A connection that ends before the hub has taken its registration; the hub then takes the end of
-- the connection first.
abbrev overtaken : List Action
overtaken =
    accept 1 "lobby"
    ∷ fail_read 1
    ∷ leave_read 1
    ∷ close_read 1
    ∷ take_disconnect
    ∷ take_register
    ∷ []

run_actions-new_system-IsSound_example :
    IsSound owner_of (run_actions codec owner_of overtaken (new_system 256 64))
run_actions-new_system-IsSound_example =
    run_actions-new_system-IsSound codec owner_of owner_of-Named 256 64 overtaken

-- The connection is gone, and the hub keeps it in the room.
left_behind :
    in_room (run_actions codec owner_of overtaken (new_system 256 64)).hub 1 "lobby" ≡ true
unfolding run_actions act accept_conn end_read leave_by_read close_by_read hub_take offer new_system
    run members
left_behind =
    in_room-run owner_of owner_of-Named (disconnect 1 ∷ register 1 "alice" "lobby" ∷ [])
      (tt, (refl, tt)) 1 "lobby"

-- The hub takes the registration before an end of the connection: its pump has failed as well, and
-- a second end still waits.
abbrev in_order : List Action
in_order =
    accept 1 "lobby"
    ∷ fail_ping 1
    ∷ leave_ping 1
    ∷ take_register
    ∷ fail_read 1
    ∷ leave_read 1
    ∷ take_disconnect
    ∷ close_read 1
    ∷ []

run_actions-new_system-Gone_example :
    in_room
      (run_actions codec owner_of
        (take_all (run_actions codec owner_of in_order (new_system 256 64)).disconnects)
        (run_actions codec owner_of in_order (new_system 256 64))).hub
      1
      "lobby"
    ≡ false
unfolding run_actions act accept_conn end_read leave_by_read close_by_read end_ping leave_by_ping
    hub_take offer new_system
run_actions-new_system-Gone_example =
    run_actions-new_system-Gone 1 codec owner_of owner_of-Named 256 64 in_order
      (tt, (tt, (tt, (tt, (tt, (tt, (λ l e. refl, (tt, tt)))))))) refl refl "lobby"

abbrev alice : Context
alice = record { user_id = "alice"; request_id = "r" }

abbrev tickets : Tickets
tickets = (gateway_ws_ticket_key "t1", record { user_id = "alice"; expires_at = 130 }) ∷ []

-- A connection whose reply is lost, one that is let through, a new ticket, and one too many.
abbrev uses : List Use
uses =
    connect served 110 "t1" ""
    ∷ create served 111 alice "t2"
    ∷ validate served 112 "t1"
    ∷ connect reply_lost 113 "t2" "room"
    ∷ []

admissions-le-one_example : admissions codec 30 "t1" uses tickets ≤ 1
admissions-le-one_example =
    admissions-le-one codec 30 "t1" uses tickets (refl, (refl, (refl, (refl, tt))))

handle_ws-create_ticket_example :
    ((create_ticket codec.is_uuid 30 served "t2" 100 alice tickets).0.status ≡ 201)
    × ((handle_ws codec served "t2" "room" 120
          (create_ticket codec.is_uuid 30 served "t2" 100 alice tickets).1).0
        ≡ ok ("alice", "room"))
handle_ws-create_ticket_example =
    handle_ws-create_ticket codec 30 alice "t2" "room" 100 120 tickets (cc) refl (cc) (omega arith)
      (omega arith) refl

through_proxy_refused_example :
    is_ok (through_proxy codec served served "t1" "t1" "" 110 110 tickets).0 ≡ false
through_proxy_refused_example =
    through_proxy_refused codec served served "t1" "t1" "" 110 110 tickets refl

abbrev name_of : ℕ → String
name_of id = if id == 1 then "one" else "other"

-- An encoding that reads a given object.
abbrev encoding_of : Object → Encoding
encoding_of o = record { marshal = λ _. some "bytes"; unmarshal = λ _. some o }

abbrev room_encoding : Encoding
room_encoding =
    encoding_of (Publisher.publication name_of (membership_changed 5 1 "added" (1 ∷ []))).1

relay_room_event_example :
    handle room_encoding
      (Publisher.publication name_of (membership_changed 5 1 "added" (1 ∷ []))).0
      "bytes"
    ≡ relayed room_encoding name_of (membership_changed 5 1 "added" (1 ∷ []))
relay_room_event_example =
    relay_room_event room_encoding name_of (membership_changed 5 1 "added" (1 ∷ [])) "bytes"
      (refl, refl)
