-- ===== src/Ws/Asking.antt =====
-- services/websocket/internal/handler/ws.go: what a session may ask of the hub.
use efir.Prelude.{ℕ, String, ◌≡◌, Option, none, some, ◌==◌, string_eq, arith, Bool-cases, inl, inr}
use efir.Hub.{Envelope}
use efir.Hub.Actor.{Request, register, unregister}
use efir.Ws.Session.{
  Codec, Effect, on_message, handle_message, on_subscribe, on_unsubscribe, send_error,
}

abbrev pub OfMaybe : (Request → Type 0) → Option Request → Type 0
OfMaybe P none = Unit {0}
OfMaybe P (some q) = P q

send_error_asks :
    (codec : Codec) (code message : String) → (send_error codec code message).ask ≡ none
unfolding send_error
send_error_asks codec code message = ground arith

module _ (P : Request → Type 0) (codec : Codec) (conn : ℕ) (user_id : String)
    (joins : (r : String) → P (register conn user_id r))
    (leaves : (r : String) → P (unregister conn r)) where
  abbrev Asks : Effect → Type 0
  Asks e = OfMaybe P e.ask

  send_error-Asks : (code message : String) → Asks (send_error codec code message)
  send_error-Asks code message = rw (send_error_asks codec code message) tt

  on_subscribe-Asks : (r : Option String) → Asks (on_subscribe codec conn user_id r)
  unfolding on_subscribe
  on_subscribe-Asks none = send_error-Asks _ _
  on_subscribe-Asks (some r) = elim (Bool-cases (codec.is_uuid r)) [
    | inl e ↦ rw e (joins r)
    | inr e ↦ rw e (send_error-Asks _ _)
  ]

  on_unsubscribe-Asks : (r : Option String) → Asks (on_unsubscribe codec conn r)
  unfolding on_unsubscribe
  on_unsubscribe-Asks none = send_error-Asks _ _
  on_unsubscribe-Asks (some r) = leaves r

  -- What holds of the registrations and unregistrations of the connection for its user holds of all
  -- that a message leads to.
  pub on_message-Asks : (m : Option Envelope) → Asks (on_message codec conn user_id m)
  unfolding on_message handle_message
  on_message-Asks none = send_error-Asks _ _
  on_message-Asks (some env) = elim (Bool-cases (env.type == "subscribe")) [
    | inl e ↦ rw e (on_subscribe-Asks (codec.payload_room env.payload))
    | inr e ↦ rw e (elim (Bool-cases (env.type == "unsubscribe")) [
      | inl f ↦ rw f (on_unsubscribe-Asks (codec.payload_room env.payload))
      | inr f ↦ rw f (elim (Bool-cases (env.type == "ping")) [
        | inl g ↦ rw g tt
        | inr g ↦ rw g (send_error-Asks _ _)
      ])
    ])
  ]
