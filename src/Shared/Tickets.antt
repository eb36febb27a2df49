-- ===== src/Shared/Tickets.antt =====
-- services/shared/pkg/valkey/keys.go and the two commands on the keys gateway:ws:ticket:…, by which
-- the gateway and the WebSocket service share the tickets. A time counts seconds.
use Prim.Native.String.{◌++◌}
use text.Mathlib.TextLemmas.{append_cancel_left}
use efir.Prelude.{ℕ, ◌≡◌, ◌+◌, String, Option, none, some, if◌then◌else◌, ltb, string_eq}
use efir.Prelude.Keyed.{Map, lookup, insert, erase}
use efir.Exec.{Outcome, served, refused, reply_lost}

pub record Ticket : Type 0 where
  pub user_id : String
  pub expires_at : ℕ

abbrev pub Tickets : Type 0
Tickets = Map String Ticket

unfoldable pub gateway_ws_ticket_key : String → String
gateway_ws_ticket_key ticket = "gateway:ws:ticket:" ++ ticket

-- What a command answers: a value, that there is no such key, or an error of Valkey.
pub data Reply : Type 0 where
  found : String → Reply
  missing failed : Reply

unfoldable pub unexpired : ℕ → Option Ticket → Reply
unexpired now none = missing
unexpired now (some t) = if ltb now t.expires_at then found t.user_id else missing

-- SET key user_id EX ttl: whether it is acknowledged.
unfoldable pub set_ticket : Outcome → String → String → ℕ → ℕ → Tickets → Tickets
set_ticket refused key user_id ttl now s = s
set_ticket _ key user_id ttl now s =
    insert key (record { user_id = user_id; expires_at = now + ttl }) s

-- GETDEL key
unfoldable pub getdel : Outcome → String → ℕ → Tickets → Reply × Tickets
getdel served key now s = (unexpired now (lookup key s), erase key s)
getdel refused key now s = (failed, s)
getdel reply_lost key now s = (failed, erase key s)

-- Two tickets have two keys.
pub key_injective : (t u : String) → gateway_ws_ticket_key t ≡ gateway_ws_ticket_key u → t ≡ u
unfolding gateway_ws_ticket_key
key_injective t u h = append_cancel_left "gateway:ws:ticket:" t u h
