-- ===== src/Ws/Tickets.antt =====
-- The life of a ticket, over the gateway (wsauth/handler.go) and the WebSocket service (ws.go).
use Prim.Native.String.{len}
use efir.Prelude.{
  ℕ, ◌<◌, leb, suc, ◌+◌, ◌≤◌, ◌≡◌, ◌≢◌, refl, String, List, [], ◌∷◌, Bool, true, false, none, ◌==◌,
  if◌then◌else◌, All, ◌&&◌, string_eq, nat_eq, arith, eq_self, Bool-cases, inl, inr, ◌||◌, ltb,
}
use efir.Prelude.Keyed.{lookup, lookup-erase, lookup-insert, lookup-insert_self}
use efir.Exec.{Result, ok, err, Outcome, served}
use efir.Shared.Errors.{to_http_code}
use efir.Shared.Tickets.{
  Tickets, gateway_ws_ticket_key, key_injective, getdel, set_ticket, unexpired, found, Reply,
}
use efir.Gateway.Http.{write_code}
use efir.Gateway.Access.{Context}
use efir.Gateway.Tickets.{create_ticket, validate_ticket, validated, stored}
use efir.Ws.Session.{Codec, admit}
use efir.Ws.Admission
use efir.Ws.Admission.{handle_ws, user_of, through_proxy}

-- What is done with tickets: POST /auth/ws-ticket of a user, GET /auth/validate, and a connection
-- to the WebSocket service; each with its time, and with the outcome of its command.
pub data Use : Type 0 where
  create : Outcome → ℕ → Context → String → Use
  validate : Outcome → ℕ → String → Use
  connect : Outcome → ℕ → String → String → Use

abbrev pub is_ok : {E A : Type 0} → Result E A → Bool
is_ok (ok _) = true
is_ok (err _) = false

abbrev pub issues : Use → String → Bool
issues (create _ _ _ ticket) t = ticket == t
issues _ t = false

module _ (codec : Codec) (ttl : ℕ) where
  unfoldable pub use_ticket : Use → Tickets → Tickets
  use_ticket (create o now ctx ticket) s = (create_ticket codec.is_uuid ttl o ticket now ctx s).1
  use_ticket (validate o now ticket) s = (validate_ticket o ticket now s).1
  use_ticket (connect o now ticket room_id) s = (handle_ws codec o ticket room_id now s).1

  -- The use presents the ticket, and is let through.
  abbrev pub accepts : String → Use → Tickets → Bool
  accepts t (create _ _ _ _) s = false
  accepts t (validate o now ticket) s =
      (ticket == t) && ((validate_ticket o ticket now s).0.status == 200)
  accepts t (connect o now ticket room_id) s =
      (ticket == t) && is_ok (handle_ws codec o ticket room_id now s).0

  unfoldable pub admissions : String → List Use → Tickets → ℕ
  admissions t [] s = 0
  admissions t (u ∷ us) s =
      let rest = admissions t us (use_ticket u s) in if accepts t u s then suc rest else rest

abbrev pub Spent : String → Tickets → Type 0
Spent t s = lookup (gateway_ws_ticket_key t) s ≡ none

abbrev is_found : Reply → Bool
is_found (found _) = true
is_found _ = false

getdel_Spent :
    (o : Outcome) (key : String) (now : ℕ) (s : Tickets)
    → lookup key s ≡ none
    → is_found (getdel o key now s).0 ≡ false
unfolding getdel unexpired
getdel_Spent o key now s h = ground (arith, h)

getdel_spends :
    (o : Outcome) (key : String) (now : ℕ) (s : Tickets)
    → is_found (getdel o key now s).0 ≡ true
    → lookup key (getdel o key now s).1 ≡ none
unfolding getdel
getdel_spends o key now s h = ground (arith, lookup-erase key key s, eq_self key)

getdel_keeps :
    (o : Outcome) (k j : String) (now : ℕ) (s : Tickets)
    → lookup j s ≡ none
    → lookup j (getdel o k now s).1 ≡ none
unfolding getdel
getdel_keeps o k j now s h = ground (arith, lookup-erase k j s)

set_keeps :
    (o : Outcome) (k j u : String) (ttl now : ℕ) (s : Tickets)
    → (k == j) ≡ false
    → lookup j s ≡ none
    → lookup j (set_ticket o k u ttl now s) ≡ none
unfolding set_ticket
set_keeps o k j u ttl now s ne h =
    ground (arith, lookup-insert k j (record { user_id = u; expires_at = now + ttl }) s)

key_apart :
    (t u : String) → (t == u) ≡ false → (gateway_ws_ticket_key t == gateway_ws_ticket_key u) ≡ false
key_apart t u h = ground (
  arith,
  string_eq.same_iff t u,
  string_eq.same_iff (gateway_ws_ticket_key t) (gateway_ws_ticket_key u),
  key_injective t u,
)

-- Either service lets a ticket through only if GETDEL answers with a user.
validate_found :
    (o : Outcome) (t : String) (now : ℕ) (s : Tickets)
    → ((validate_ticket o t now s).0.status == 200) ≡ true
    → is_found (getdel o (gateway_ws_ticket_key t) now s).0 ≡ true
      × ((validate_ticket o t now s).1 ≡ (getdel o (gateway_ws_ticket_key t) now s).1)
unfolding validate_ticket validated write_code to_http_code
validate_found o t now s h = ground (arith)

connect_found :
    (codec : Codec) (o : Outcome) (t room_id : String) (now : ℕ) (s : Tickets)
    → is_ok (handle_ws codec o t room_id now s).0 ≡ true
    → is_found (getdel o (gateway_ws_ticket_key t) now s).0 ≡ true
      × ((handle_ws codec o t room_id now s).1 ≡ (getdel o (gateway_ws_ticket_key t) now s).1)
unfolding handle_ws Admission.validate_ticket user_of admit
connect_found codec o t room_id now s h = ground (arith)

module _ (codec : Codec) (ttl : ℕ) where
  accepted_found :
      (t : String) (u : Use) (s : Tickets)
      → accepts codec ttl t u s ≡ true
      → (o : Outcome) × (now : ℕ) × (is_found (getdel o (gateway_ws_ticket_key t) now s).0 ≡ true)
        × (use_ticket codec ttl u s ≡ (getdel o (gateway_ws_ticket_key t) now s).1)
  unfolding use_ticket
  accepted_found t (create o now ctx ticket) s h = cc
  accepted_found t (validate o now ticket) s h =
      let e : ticket ≡ t = ground (arith, string_eq.same_iff ticket t) in
      let (f, g) = validate_found o ticket now s (ground (arith)) in
      (o, now, rw (← e) f, rw (← e) g)
  accepted_found t (connect o now ticket room_id) s h =
      let e : ticket ≡ t = ground (arith, string_eq.same_iff ticket t) in
      let (f, g) = connect_found codec o ticket room_id now s (ground (arith)) in
      (o, now, rw (← e) f, rw (← e) g)

  use_ticket-Spent :
      (t : String) (u : Use) (s : Tickets)
      → issues u t ≡ false
      → Spent t s
      → Spent t (use_ticket codec ttl u s)
  unfolding use_ticket create_ticket validate_ticket handle_ws Admission.validate_ticket
  use_ticket-Spent t (create o now ctx ticket) s i h = ground (
    arith,
    set_keeps o (gateway_ws_ticket_key ticket) (gateway_ws_ticket_key t) ctx.user_id ttl now s
        (key_apart ticket t i) h,
  )
  use_ticket-Spent t (validate o now ticket) s i h =
      ground
        (arith, getdel_keeps o (gateway_ws_ticket_key ticket) (gateway_ws_ticket_key t) now s h)
  use_ticket-Spent t (connect o now ticket room_id) s i h =
      ground
        (arith, getdel_keeps o (gateway_ws_ticket_key ticket) (gateway_ws_ticket_key t) now s h)

  admissions-Spent :
      (t : String) (us : List Use) (s : Tickets)
      → All (λ u. issues u t ≡ false) us
      → Spent t s
      → admissions codec ttl t us s ≡ 0
  unfolding admissions
  admissions-Spent t [] s i h = refl
  admissions-Spent t (u ∷ us) s i h = elim (Bool-cases (accepts codec ttl t u s)) [
    | inl a ↦
        let (o, now, f, g) = accepted_found t u s a in
        cc (f, getdel_Spent o (gateway_ws_ticket_key t) now s h)
    | inr a ↦
        rw a (admissions-Spent t us (use_ticket codec ttl u s) i.1 (use_ticket-Spent t u s i.0 h))
  ]

  -- As long as a ticket is not issued anew, it is let through at most once, by the gateway's
  -- /auth/validate and by the WebSocket service taken together, whatever is done with this and with
  -- other tickets, at whatever times and with whatever outcomes of the commands.
  pub admissions-le-one :
      (t : String) (us : List Use) (s : Tickets)
      → All (λ u. issues u t ≡ false) us
      → admissions codec ttl t us s ≤ 1
  unfolding admissions
  admissions-le-one t [] s i = omega arith
  admissions-le-one t (u ∷ us) s i = elim (Bool-cases (accepts codec ttl t u s)) [
    | inl a ↦
        let (o, now, f, g) = accepted_found t u s a in
        let spent : Spent t (use_ticket codec ttl u s) =
          rw g (getdel_spends o (gateway_ws_ticket_key t) now s f) in
        rw a (rw (admissions-Spent t us (use_ticket codec ttl u s) i.1 spent) (omega arith))
    | inr a ↦ rw a (admissions-le-one t us (use_ticket codec ttl u s) i.1)
  ]

-- A ticket that the gateway has issued for an authenticated user, by a served call, admits that user
-- to the WebSocket service until it expires, if it is not used before: HandleWS goes on with the
-- user and with the room that is asked for, if the room is none or a UUID.
pub handle_ws-create_ticket :
    (codec : Codec) (ttl : ℕ) (ctx : Context) (ticket room_id : String) (now later : ℕ)
    (s : Tickets)
    → ctx.user_id ≢ ""
    → codec.is_uuid ctx.user_id ≡ true
    → ticket ≢ ""
    → len ticket ≤ 256
    → later < now + ttl
    → ((room_id == "") || codec.is_uuid room_id) ≡ true
    → ((create_ticket codec.is_uuid ttl served ticket now ctx s).0.status ≡ 201)
      × ((handle_ws codec served ticket room_id later
            (create_ticket codec.is_uuid ttl served ticket now ctx s).1).0
          ≡ ok (ctx.user_id, room_id))
unfolding create_ticket stored set_ticket handle_ws Admission.validate_ticket user_of getdel
    unexpired admit
handle_ws-create_ticket codec ttl ctx ticket room_id now later s named uuid given short live room =
    ground (
      arith,
      string_eq.same_iff ctx.user_id "",
      string_eq.same_iff ticket "",
      lookup-insert_self (gateway_ws_ticket_key ticket)
          (record { user_id = ctx.user_id; expires_at = now + ttl }) s,
    )

-- A status of 2xx is 200.
status_validated :
    (o : Outcome) (t : String) (now : ℕ) (s : Tickets)
    → (leb 200 (validate_ticket o t now s).0.status && ltb (validate_ticket o t now s).0.status 300)
      ≡ ((validate_ticket o t now s).0.status == 200)
unfolding validate_ticket validated write_code to_http_code
status_validated o t now s = ground (arith)

handle_ws-Spent :
    (codec : Codec) (o : Outcome) (t room_id : String) (now : ℕ) (s : Tickets)
    → Spent t s
    → is_ok (handle_ws codec o t room_id now s).0 ≡ false
handle_ws-Spent codec o t room_id now s h =
    elim (Bool-cases (is_ok (handle_ws codec o t room_id now s).0)) [
      | inl e ↦ cc (
        (connect_found codec o t room_id now s e).0,
        getdel_Spent o (gateway_ws_ticket_key t) now s h,
      )
      | inr e ↦ e
    ]

refused_behind :
    (codec : Codec) (o o' : Outcome) (ticket room_id : String) (now later : ℕ) (s : Tickets)
    → is_ok (through_proxy codec o o' ticket ticket room_id now later s).0 ≡ false
unfolding through_proxy
refused_behind codec o o' ticket room_id now later s =
    elim (Bool-cases ((validate_ticket o ticket now s).0.status == 200)) [
      | inl e ↦
          let (f, g) = validate_found o ticket now s e in
          rw (status_validated, e)
            (handle_ws-Spent codec o' ticket room_id later _
              (rw g (getdel_spends o (gateway_ws_ticket_key ticket) now s f)))
      | inr e ↦ rw (status_validated, e) refl
    ]

-- A query in which nginx and the service read the same ticket, as in one that gives it once and needs
-- no escapes, admits nobody behind nginx: whatever the ticket, the room, the times and the outcomes
-- of the two commands, the connection is refused, since the gateway's check takes the ticket away.
pub through_proxy_refused :
    (codec : Codec) (o o' : Outcome) (arg_ticket ticket room_id : String) (now later : ℕ)
    (s : Tickets)
    → arg_ticket ≡ ticket
    → is_ok (through_proxy codec o o' arg_ticket ticket room_id now later s).0 ≡ false
through_proxy_refused codec o o' arg_ticket ticket room_id now later s same =
    rw same (refused_behind codec o o' ticket room_id now later s)
