-- ===== src/Ws/Admission.antt =====
-- services/websocket/internal/handler/ws.go: HandleWS up to the upgrade, on the tickets that the
-- gateway keeps in Valkey.
use Prim.Native.String.{len}
use efir.Prelude.{
  ℕ, String, ◌||◌, Option, none, some, ◌==◌, if◌then◌else◌, ltb, leb, ◌&&◌, string_eq,
}
use efir.Exec.{Result, err, Outcome}
use efir.Shared.Errors.{Code, unauthenticated}
use efir.Shared.Tickets.{Tickets, gateway_ws_ticket_key, Reply, found, getdel}
use efir.Gateway.Tickets as WsAuth
use efir.Ws.Session.{Codec, admit}

unfoldable pub user_of : Reply → Option String
user_of (found user_id) = some user_id
user_of _ = none

unfoldable pub validate_ticket : Outcome → String → ℕ → Tickets → Option String × Tickets
validate_ticket o ticket now s =
    let (reply, s') = getdel o (gateway_ws_ticket_key ticket) now s in (user_of reply, s')

-- No command is sent for a ticket that is missing or too long.
unfoldable pub handle_ws :
    Codec → Outcome → String → String → ℕ → Tickets → Result Code (String × String) × Tickets
handle_ws codec o ticket room_id now s =
    if ticket == "" || ltb 256 (len ticket)
    then (admit codec ticket none room_id, s)
    else let (valid, s') = validate_ticket o ticket now s in (admit codec ticket valid room_id, s')

-- infra/nginx/nginx.conf: auth_request asks the gateway about the ticket, and a connection is proxied
-- only if the gateway answers with a status of 2xx. The two commands have an outcome and a time each.
-- nginx takes the ticket from the query as it is written, `arg_ticket`, and the service takes the
-- decoded one, `ticket`; the query may make them differ.
unfoldable pub through_proxy :
    Codec
    → Outcome
    → Outcome
    → String
    → String
    → String
    → ℕ
    → ℕ
    → Tickets
    → Result Code (String × String) × Tickets
through_proxy codec o o' arg_ticket ticket room_id now later s =
    let (response, s') = WsAuth.validate_ticket o arg_ticket now s in
    if leb 200 response.status && ltb response.status 300
    then handle_ws codec o' ticket room_id later s'
    else (err unauthenticated, s')
