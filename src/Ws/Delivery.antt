-- ===== src/Ws/Delivery.antt =====
-- The message and WebSocket services together: from a SendMessage to the connections of its room.
use efir.Prelude.{
  ◌&&◌, not, ℕ, String, ◌≡◌, ap, sym, ◌∙◌, List, [], ◌∷◌, ◌++◌, Option, some, true, false,
  if◌then◌else◌, contains, All, arith, ◌⊎◌, inl, inr, nat_eq,
}
use mathlib.Core.Path.{subst}
use efir.Exec.{ok, running}
use efir.Exec.Returns.{only_event}
use efir.Shared.Json.{null, Encoding, IsWritten}
use efir.WsConn.{Outbound, send}
use efir.Hub.{Envelope, new_hub, send_to_room}
use efir.Hub.Departure.{Named}
use efir.Hub.Actor.{Request, IsOwned, run, members, run-new_hub-IsValid, in_room-run}
use efir.Hub.Delivery.{send_to_room_delivers}
use efir.Message.Plain.{send_message_lem}
use efir.Message.Types.{Message, MessageInput, MessageEvent, message_created}
use efir.Message.Content.{Json}
use efir.Message.Repository
use efir.Message.Repository.{insert_row}
use efir.Message.Service
use efir.Message.Service.{check_reply, send_event}
use efir.Message.Rules.{MessageWorld, sent_row, select_new}
use efir.Message.Publisher
use efir.Ws.Events.{ack, handle, message_created_payload}
use efir.Ws.Relay.{broadcast_to, relay_message_created}

sent_by_member :
    (j : Json) (input : MessageInput) (id now : ℕ) (w : MessageWorld) (msg : Message)
    → (Service.send_message j input id now w).0 ≡ ok msg
    → contains (w.db.members input.room_id) input.sender_id ≡ true
unfolding check_reply send_event Repository.create_message Service.get_room_members
    Service.is_member Repository.get_message_by_id running
sent_by_member j input id now w msg = rw send_message_lem (λ sent. ground arith)

told_inserted :
    (j : Json) (input : MessageInput) (id now : ℕ) (w : MessageWorld) (msg : Message)
    → (Service.send_message j input id now w).0 ≡ ok msg
    → ((Service.send_message j input id now w).1.events ≡ w.events)
      ⊎ ((Service.send_message j input id now w).1.events
          ≡ w.events
            ++ message_created msg ((insert_row j input id now w.db).1.members input.room_id) ∷ [])
unfolding check_reply send_event Repository.create_message Service.get_room_members
    Service.is_member Repository.get_message_by_id running
told_inserted j input id now w msg = rw send_message_lem (λ sent. ground arith)

-- What is known of the message that is returned, and of what has been published of it, if anything.
sent_and_told :
    (j : Json) (input : MessageInput) (id now : ℕ) (w : MessageWorld) (msg : Message)
    → (Service.send_message j input id now w).0 ≡ ok msg
    → (msg.id ≡ id)
      × (msg.room_id ≡ input.room_id)
      × (((Service.send_message j input id now w).1.events ≡ w.events)
          ⊎ ((Service.send_message j input id now w).1.events
              ≡ w.events ++ message_created msg (w.db.members input.room_id) ∷ []))
sent_and_told j input id now w msg sent =
    let (_, ins) = sent_row j input id now w msg sent in
    let (_, same_members, same_id, same_room) = select_new j input id now w.db msg ins in
    (
      same_id,
      same_room,
      elim (told_inserted j input id now w msg sent) [
        | inl k ↦ inl k
        | inr k ↦
            inr (k ∙ ap (λ f. w.events ++ message_created msg (f input.room_id) ∷ []) same_members)
      ],
    )

the_event :
    (j : Json) (input : MessageInput) (id now : ℕ) (w : MessageWorld) (msg : Message)
    (event : MessageEvent)
    → w.events ≡ []
    → (Service.send_message j input id now w).0 ≡ ok msg
    → (Service.send_message j input id now w).1.events ≡ event ∷ []
    → event ≡ message_created msg (w.db.members input.room_id)
the_event j input id now w msg event quiet sent told =
    let (_, _, published) = sent_and_told j input id now w msg sent in
    only_event w.events _ event (message_created msg (w.db.members input.room_id)) quiet told
      published

-- The broadcast of a new message.
abbrev pub envelope_of : String → Envelope
envelope_of payload = record { type = "message.created"; payload = payload }

handled :
    (encoding : Encoding) (format format_time : ℕ → String) (msg : Message) (recipients : List ℕ)
    (data' payload : String) (event : MessageEvent)
    → event ≡ message_created msg recipients
    → IsWritten encoding (Publisher.publication format format_time event).1 data'
    → encoding.marshal (message_created_payload (format msg.id) (format msg.room_id) "" null)
      ≡ some payload
    → handle encoding (Publisher.publication format format_time event).0 data'
      ≡ some (record { broadcast = some (format msg.room_id, envelope_of payload); settled = ack })
handled encoding format format_time msg recipients data' payload event e written filled =
    subst
      (λ m.
        IsWritten encoding (Publisher.publication format format_time m).1 data'
        → handle encoding (Publisher.publication format format_time m).0 data'
          ≡ some (record {
            broadcast = some (format msg.room_id, envelope_of payload);
            settled = ack;
          }))
      (sym e)
      (λ k.
        relay_message_created encoding format format_time msg recipients data' k
        ∙ ap (λ p. some (broadcast_to "message.created" (format msg.room_id) p)) filled)
      written

-- If a SendMessage returns its message, whatever the outcomes of its calls, and its event is not
-- lost, then the sender is a member of the room, the event names the message and all of the room's
-- members, and the subscriber acknowledges the event's data and broadcasts to the room; the hub,
-- whatever requests it has taken, then offers the broadcast to each connection that those requests
-- put in the room, and to no other, and closes just those that refuse it. The JSON is read back as it is written, each connection has registered for its own user, and nothing was published before.
pub send_message-send_to_room :
    (j : Json) (input : MessageInput) (id now : ℕ) (w : MessageWorld) (msg : Message)
    (event : MessageEvent) (encoding : Encoding) (format format_time : ℕ → String)
    (data' payload bytes : String) (marshal : Envelope → Option String) (owner : ℕ → String)
    (requests : List Request) (out : ℕ → Outbound)
    → w.events ≡ []
    → (Service.send_message j input id now w).0 ≡ ok msg
    → (Service.send_message j input id now w).1.events ≡ event ∷ []
    → IsWritten encoding (Publisher.publication format format_time event).1 data'
    → encoding.marshal (message_created_payload (format id) (format input.room_id) "" null)
      ≡ some payload
    → marshal (envelope_of payload) ≡ some bytes
    → Named owner
    → All (IsOwned owner) requests
    → (contains (w.db.members input.room_id) input.sender_id ≡ true)
      × (event ≡ message_created msg (w.db.members input.room_id))
      × (handle encoding (Publisher.publication format format_time event).0 data'
          ≡ some (record {
            broadcast = some (format input.room_id, envelope_of payload);
            settled = ack;
          }))
      × ((d : ℕ)
          → let sending =
              send_to_room marshal
                (run new_hub requests)
                out
                (format input.room_id)
                (envelope_of payload) in
            let joined = members (λ _ _. false) requests d (format input.room_id) in
            (sending.0 d ≡ (if joined then (send (out d) bytes).0 else out d))
            × (contains sending.1 d ≡ (joined && not (send (out d) bytes).1)))
send_message-send_to_room j input id now w msg event encoding format format_time data' payload bytes
      marshal owner requests out quiet sent told written filled enveloped named own =
    let (same_id, same_room, _) = sent_and_told j input id now w msg sent in
    let named_event = the_event j input id now w msg event quiet sent told in
    let v = run-new_hub-IsValid owner named requests own in
    (
      sent_by_member j input id now w msg sent,
      named_event,
      rw (← same_room) (
          handled encoding format format_time msg (w.db.members input.room_id) data' payload event
            named_event written (rw (same_id, same_room) filled)),
      λ d. rw (← in_room-run owner named requests own d (format input.room_id)) (
          send_to_room_delivers marshal owner (run new_hub requests) v out (format input.room_id)
            (envelope_of payload) bytes enveloped d),
    )
