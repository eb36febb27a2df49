-- ===== src/Ws/Chat.antt =====
-- A message's way to the connections of its room, at a lobby with one connection.
use efir.Prelude.{
  ◌&&◌, not, ℕ, String, ◌≡◌, refl, List, [], ◌∷◌, true, false, Option, none, some, ◌==◌,
  if◌then◌else◌, nat_eq, contains, All, Bool-cases, inl, inr,
}
use efir.Exec.{served, running}
use efir.Shared.Json.{Encoding}
use efir.WsConn.{new_outbound, send}
use efir.Hub.{Envelope, new_hub, send_to_room}
use efir.Hub.Departure.{Named}
use efir.Hub.Actor.{Request, register, disconnect, IsOwned, run, members}
use efir.Message.Types.{
  Message, MessageInput, MessageEvent, message_created, text, MessageContent, text_content,
}
use efir.Message.Content.{Json}
use efir.Message.Repository
use efir.Message.Repository.{insert_row, select_row}
use efir.Message.Service
use efir.Message.Service.{check_reply, send_event}
use efir.Message.Rules.{MessageWorld}
use efir.Message.Publisher
use efir.Ws.Events.{ack, handle}
use efir.Ws.Delivery.{envelope_of, send_message-send_to_room}

abbrev hi : MessageContent
hi = text_content (record { text = "hi" })

abbrev plain : Json
plain = record { marshal = λ _. "hi"; unmarshal = λ _ _. some hi }

abbrev input : MessageInput
input = record { room_id = 5; sender_id = 2; type = text; content = hi; reply_to_id = none }

abbrev world : MessageWorld
world = record {
  db = record { messages = []; members = λ r. if r == 5 then 1 ∷ 2 ∷ [] else [] };
  outcomes = served ∷ served ∷ served ∷ served ∷ [];
  events = [];
}

abbrev message : Message
message = record {
  id = 10;
  room_id = 5;
  sender_id = 2;
  type = text;
  content = hi;
  reply_to = none;
  deleted_at = none;
  edited_at = none;
  created_at = 100;
  updated_at = 100;
}

abbrev name_of : ℕ → String
name_of id = if id == 5 then "lobby" else "other"

abbrev event : MessageEvent
event = message_created message (1 ∷ 2 ∷ [])

abbrev encoding : Encoding
encoding = record {
  marshal = λ _. some "bytes";
  unmarshal = λ _. some (Publisher.publication name_of name_of event).1;
}

abbrev owner_of : ℕ → String
owner_of c = if c == 1 then "alice" else "bob"

owner_of-Named : Named owner_of
owner_of-Named c = elim (Bool-cases (c == 1)) [ inl e ↦ rw e refl | inr e ↦ rw e refl ]

abbrev requests : List Request
requests = register 1 "alice" "lobby" ∷ register 2 "bob" "lobby" ∷ disconnect 1 ∷ []

requests-IsOwned : All (IsOwned owner_of) requests
requests-IsOwned = (refl, (refl, (tt, tt)))

abbrev payload_of : Envelope → Option String
payload_of e = some e.payload

send_message-send_to_room_example :
    (contains (world.db.members 5) 2 ≡ true)
    × (event ≡ message_created message (world.db.members 5))
    × (handle encoding (Publisher.publication name_of name_of event).0 "bytes"
        ≡ some (record { broadcast = some ("lobby", envelope_of "bytes"); settled = ack }))
    × ((d : ℕ)
        → let sending =
            send_to_room payload_of
              (run new_hub requests)
              (λ _. new_outbound 2)
              "lobby"
              (envelope_of "bytes") in
          let joined = members (λ _ _. false) requests d "lobby" in
          (sending.0 d ≡ (if joined then (send (new_outbound 2) "bytes").0 else new_outbound 2))
          × (contains sending.1 d ≡ (joined && not (send (new_outbound 2) "bytes").1)))
unfolding Service.send_message check_reply send_event Repository.create_message insert_row
    select_row Service.get_room_members Service.is_member Repository.get_message_by_id running
send_message-send_to_room_example =
    send_message-send_to_room plain input 10 100 world message event encoding name_of name_of
      "bytes" "bytes" "bytes" payload_of owner_of requests (λ _. new_outbound 2) refl refl refl
      (refl, refl) refl refl owner_of-Named requests-IsOwned

-- The message goes to the second connection, and not to the one that has left.
sent_to :
    (members (λ _ _. false) requests 2 "lobby" ≡ true)
    × (members (λ _ _. false) requests 1 "lobby" ≡ false)
unfolding members
sent_to = (refl, refl)
