-- ===== src/Gateway/Tickets.antt =====
-- services/gateway/internal/handler/wsauth/handler.go: one-time tickets for the WebSocket service.
-- uuid.Parse's verdict and the new ticket are arguments, and so is each command's outcome.
use efir.Prelude.{ℕ, String, Bool, not, [], ◌==◌, if◌then◌else◌, string_eq}
use efir.Prelude.Keyed.{insert}
use efir.Exec.{Outcome, served}
use efir.Shared.Errors.{unauthenticated, invalid_argument, internal}
use efir.Shared.Tickets.{
  Tickets, gateway_ws_ticket_key, Reply, found, missing, failed, set_ticket, getdel,
}
use efir.Gateway.Http.{Response, json, respond, write_code}
use efir.Gateway.Access.{Context}

-- The answer to SET.
unfoldable pub stored : Outcome → String → Response
stored served ticket = respond 201 (json ticket)
stored _ ticket = write_code internal

unfoldable pub create_ticket :
    (String → Bool) → ℕ → Outcome → String → ℕ → Context → Tickets → Response × Tickets
create_ticket is_uuid ttl o ticket now ctx s =
    if ctx.user_id == ""
    then (write_code unauthenticated, s)
    else if not (is_uuid ctx.user_id)
    then (write_code invalid_argument, s)
    else (stored o ticket, set_ticket o (gateway_ws_ticket_key ticket) ctx.user_id ttl now s)

unfoldable pub validated : Reply → Response
validated (found user_id) = record (respond 200 (json user_id)) {
  headers = insert "X-User-Id" user_id [];
}
validated missing = write_code unauthenticated
validated failed = write_code internal

-- The ticket is the header X-Ws-Ticket.
unfoldable pub validate_ticket : Outcome → String → ℕ → Tickets → Response × Tickets
validate_ticket o ticket now s =
    if ticket == ""
    then (write_code unauthenticated, s)
    else let (reply, s') = getdel o (gateway_ws_ticket_key ticket) now s in (validated reply, s')
