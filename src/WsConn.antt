-- ===== src/WsConn.antt =====
-- services/websocket/internal/handler/ws.go, wsConnWrapper: the buffered channel between the hub
-- and the writePump of one connection.
use efir.Prelude.{ℕ, String, Bool, true, false, List, [], ◌∷◌, ◌++◌, ltb, if◌then◌else◌, length}

pub record Outbound : Type 0 where
  pub queue : List String
  pub buf_size : ℕ
  pub closed : Bool

unfoldable pub new_outbound : ℕ → Outbound
new_outbound buf_size = record { queue = []; buf_size = buf_size; closed = false }

-- A send on the closed channel panics; the deferred recover makes that `false`.
unfoldable pub send : Outbound → String → Outbound × Bool
send o bytes =
    if o.closed
    then (o, false)
    else if ltb (length o.queue) o.buf_size
    then (record o { queue = o.queue ++ bytes ∷ [] }, true)
    else (o, false)

-- closeOnce: a second close does nothing.
unfoldable pub close_outbound : Outbound → Outbound
close_outbound o = record o { closed = true }
