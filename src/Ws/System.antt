-- ===== src/Ws/System.antt =====
-- The WebSocket service as a whole: the hub with its channels (hub.go), and for each connection the
-- three goroutines of ws.go. An action is one atomic step of one goroutine; an action that its
-- goroutine cannot take, one whose channel is full among them, changes nothing. Any interleaving of the
-- goroutines is a list of actions.
use efir.Prelude.{
  ℕ, String, List, [], ◌∷◌, ◌++◌, Bool, true, false, ◌&&◌, Option, none, some, ◌==◌, if◌then◌else◌,
  ltb, length, nat_eq, string_eq,
}
use efir.WsConn.{Outbound, new_outbound, send, close_outbound}
use efir.Hub.{Hub, Envelope, new_hub, send_to_room}
use efir.Hub.Actor.{Request, register, unregister, disconnect, broadcast, room_count, step}
use efir.Ws.Session.{Codec, on_message}

-- Where a pump stands: not started, in its loop, about to call Disconnect, about to close the
-- outbound channel, or returned.
pub data Phase : Type 0 where
  idle serving leaving closing done : Phase

abbrev pub is_idle : Phase → Bool
is_idle idle = true
is_idle _ = false

abbrev pub is_serving : Phase → Bool
is_serving serving = true
is_serving _ = false

abbrev pub is_leaving : Phase → Bool
is_leaving leaving = true
is_leaving _ = false

abbrev pub is_closing : Phase → Bool
is_closing closing = true
is_closing _ = false

pub record Session : Type 0 where
  pub reader : Phase
  pub writer : Phase
  pub pinger : Phase
  pub cancelled : Bool
  pub outbound : Outbound

pub record System : Type 0 where
  pub hub : Hub
  pub sessions : ℕ → Session
  pub buffer_size : ℕ
  pub registers : List (ℕ × String × String)
  pub unregisters : List (ℕ × String)
  pub disconnects : List ℕ
  pub broadcasts : List (String × Envelope)
  pub counts : List String

abbrev pub no_session : ℕ → Session
no_session write_buffer = record {
  reader = idle;
  writer = idle;
  pinger = idle;
  cancelled = false;
  outbound = new_outbound write_buffer;
}

-- The channels are buffered: the size is positive.
unfoldable pub new_system : ℕ → ℕ → System
new_system buffer_size write_buffer = record {
  hub = new_hub;
  sessions = λ _. no_session write_buffer;
  buffer_size = buffer_size;
  registers = [];
  unregisters = [];
  disconnects = [];
  broadcasts = [];
  counts = [];
}

abbrev pub put_session : ℕ → Session → System → System
put_session c t s = record s { sessions = λ d. if c == d then t else s.sessions d }

abbrev pub has_room : {A : Type 0} → System → List A → Bool
has_room s queue = ltb (length queue) s.buffer_size

-- A send on one of the hub's channels: none if it would block.
unfoldable pub offer : Request → System → Option System
offer (register c u r) s =
    if has_room s s.registers
    then some (record s { registers = s.registers ++ (c, u, r) ∷ [] })
    else none
offer (unregister c r) s =
    if has_room s s.unregisters
    then some (record s { unregisters = s.unregisters ++ (c, r) ∷ [] })
    else none
offer (disconnect c) s =
    if has_room s s.disconnects
    then some (record s { disconnects = s.disconnects ++ c ∷ [] })
    else none
offer (broadcast r e) s =
    if has_room s s.broadcasts
    then some (record s { broadcasts = s.broadcasts ++ (r, e) ∷ [] })
    else none
offer (room_count r) s =
    if has_room s s.counts then some (record s { counts = s.counts ++ r ∷ [] }) else none

abbrev pub tell : Option String → Session → Session
tell none t = t
tell (some bytes) t = record t { outbound = (send t.outbound bytes).0 }

abbrev pub offer_maybe : Option Request → System → Option System
offer_maybe none s = some s
offer_maybe (some q) s = offer q s

-- The step of a pump that sends and then stands at its next phase, unless the send would block.
abbrev pub then_session : Option System → ℕ → Session → System → System
then_session none c t s = s
then_session (some s') c t s = put_session c t s'

pub data Action : Type 0 where
  accept : ℕ → String → Action
  read : ℕ → Option Envelope → Action
  fail_read leave_read close_read : ℕ → Action
  write : ℕ → Bool → Action
  leave_write : ℕ → Action
  fail_ping leave_ping close_ping stop_ping : ℕ → Action
  deliver : String → Envelope → Action
  count_room : String → Action
  take_register take_unregister take_disconnect take_broadcast take_count : Action

module _ (codec : Codec) (owner : ℕ → String) where
  -- The upgrade: the initial registration, then the three pumps.
  unfoldable pub accept_conn : ℕ → String → System → System
  accept_conn c room_id s =
      let t = record (s.sessions c) { reader = serving; writer = serving; pinger = serving } in
      if is_idle (s.sessions c).reader
      then then_session (if room_id == "" then some s else offer (register c (owner c) room_id) s) c
          t s
      else s

  unfoldable pub read_conn : ℕ → Option Envelope → System → System
  read_conn c message s =
      let t = s.sessions c in
      let effect = on_message codec c (owner c) message in
      if is_serving t.reader
      then then_session (offer_maybe effect.ask s) c (tell effect.tell t) s
      else s

  -- The deferred calls of readPump: cancel, Disconnect, closeOutbound.
  unfoldable pub end_read : ℕ → System → System
  end_read c s =
      let t = s.sessions c in
      if is_serving t.reader
      then put_session c (record t { reader = leaving; cancelled = true }) s
      else s

  unfoldable pub leave_by_read : ℕ → System → System
  leave_by_read c s =
      let t = s.sessions c in
      if is_leaving t.reader
      then then_session (offer (disconnect c) s) c (record t { reader = closing }) s
      else s

  unfoldable pub close_by_read : ℕ → System → System
  close_by_read c s =
      let t = s.sessions c in
      if is_closing t.reader
      then put_session c (record t { reader = done; outbound = close_outbound t.outbound }) s
      else s

  -- One turn of writePump's loop: the next data, or the end of a closed channel.
  unfoldable pub write_conn : ℕ → Bool → System → System
  write_conn c written s =
      let t = s.sessions c in
      if is_serving t.writer
      then elim t.outbound.queue [
        | [] ↦
            if t.outbound.closed
            then put_session c (record t { writer = done; cancelled = true }) s
            else s
        | _ ∷ queue ↦
            let t' = record t { outbound = record t.outbound { queue = queue } } in
            put_session c (if written then t' else record t' { writer = leaving }) s
      ]
      else s

  unfoldable pub leave_by_write : ℕ → System → System
  leave_by_write c s =
      let t = s.sessions c in
      if is_leaving t.writer
      then then_session (offer (disconnect c) s) c (record t { writer = done; cancelled = true }) s
      else s

  -- pingPump: a ping that fails, Disconnect, closeOutbound and cancel, or the end of the context.
  unfoldable pub end_ping : ℕ → System → System
  end_ping c s =
      let t = s.sessions c in
      if is_serving t.pinger then put_session c (record t { pinger = leaving }) s else s

  unfoldable pub leave_by_ping : ℕ → System → System
  leave_by_ping c s =
      let t = s.sessions c in
      if is_leaving t.pinger
      then then_session (offer (disconnect c) s) c (record t { pinger = closing }) s
      else s

  unfoldable pub close_by_ping : ℕ → System → System
  close_by_ping c s =
      let t = s.sessions c in
      if is_closing t.pinger
      then put_session c
          (record t { pinger = done; cancelled = true; outbound = close_outbound t.outbound }) s
      else s

  unfoldable pub stop_by_ping : ℕ → System → System
  stop_by_ping c s =
      let t = s.sessions c in
      if is_serving t.pinger && t.cancelled then put_session c (record t { pinger = done }) s else s

  abbrev pub or_stay : Option System → System → System
  or_stay none s = s
  or_stay (some s') s = s'

  -- The select of Run: one request from the channel that is chosen.
  unfoldable pub hub_take : Action → System → System
  hub_take take_register s = elim s.registers [
    | [] ↦ s
    | (c, u, r) ∷ queue ↦ record s { hub = step s.hub (register c u r); registers = queue }
  ]
  hub_take take_unregister s = elim s.unregisters [
    | [] ↦ s
    | (c, r) ∷ queue ↦ record s { hub = step s.hub (unregister c r); unregisters = queue }
  ]
  hub_take take_disconnect s = elim s.disconnects [
    | [] ↦ s
    | c ∷ queue ↦ record s { hub = step s.hub (disconnect c); disconnects = queue }
  ]
  hub_take take_broadcast s = elim s.broadcasts [
    | [] ↦ s
    | (r, e) ∷ queue ↦
        let out = (send_to_room codec.marshal s.hub (λ d. (s.sessions d).outbound) r e).0 in
        record s {
          hub = step s.hub (broadcast r e);
          broadcasts = queue;
          sessions = λ d. record (s.sessions d) { outbound = out d };
        }
  ]
  hub_take take_count s = elim s.counts [
    | [] ↦ s
    | r ∷ queue ↦ record s { hub = step s.hub (room_count r); counts = queue }
  ]
  hub_take _ s = s

  unfoldable pub act : Action → System → System
  act (accept c r) s = accept_conn c r s
  act (read c message) s = read_conn c message s
  act (fail_read c) s = end_read c s
  act (leave_read c) s = leave_by_read c s
  act (close_read c) s = close_by_read c s
  act (write c written) s = write_conn c written s
  act (leave_write c) s = leave_by_write c s
  act (fail_ping c) s = end_ping c s
  act (leave_ping c) s = leave_by_ping c s
  act (close_ping c) s = close_by_ping c s
  act (stop_ping c) s = stop_by_ping c s
  act (deliver r e) s = or_stay (offer (broadcast r e) s) s
  act (count_room r) s = or_stay (offer (room_count r) s) s
  act a s = hub_take a s

  unfoldable pub run_actions : List Action → System → System
  run_actions [] s = s
  run_actions (a ∷ acts) s = run_actions acts (act a s)
