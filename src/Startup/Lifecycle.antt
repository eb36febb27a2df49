-- ===== src/Startup/Lifecycle.antt =====
-- services/{auth,room,message,user,gateway,websocket}/cmd/main.go, the function run of each service:
-- the calls of its start in their order, the servers, and the way they stop. What a call does is up to
-- it: it succeeds, it fails, or it does not come back. A trace notes what is opened and closed.
use efir.Prelude.{List, [], ◌∷◌, ◌++◌, Bool, Option, none, some, if◌then◌else◌}

-- What is opened, and closed by a deferred call.
pub data Resource : Type 0 where
  postgres valkey nats room_client : Resource
  auth_conn user_conn room_conn message_conn : Resource

pub data Call : Type 0 where
  load_config ping_postgres ping_valkey create_jetstream provision_streams : Call
  create_handler start_subscriber listen_grpc listen_health : Call

pub data Step : Type 0 where
  call : Call → Step
  acquire : Resource → Step
  defer_close : Resource → Step

pub data Reply : Type 0 where
  succeeds fails hangs : Reply

pub data Server : Type 0 where
  grpc health http : Server

pub data Event : Type 0 where
  done : Call → Event
  opened closed : Resource → Event
  ready : Event
  stopped forced : Server → Event

pub data Failure : Type 0 where
  failed_step : Step → Failure
  failed_server : Failure

-- run has returned, with an error or nil, or it waits for ever.
pub data End : Type 0 where
  returned : Option Failure → End
  waiting : End

pub data Stop : Type 0 where
  signal server_error : Stop

-- What the select of run sees first, if anything, whether the calls in flight come to an end, and
-- whether they do before the timer of GRPC_GRACEFUL_TIMEOUT.
pub record Serving : Type 0 where
  pub first : Option Stop
  pub calls_end : Bool
  pub in_time : Bool

abbrev pub first_reply : List Reply → Reply
first_reply [] = succeeds
first_reply (r ∷ rs) = r

abbrev pub later_replies : List Reply → List Reply
later_replies [] = []
later_replies (r ∷ rs) = rs

-- The deferred calls run when run returns, the last deferred first.
abbrev pub close_all : List Resource → End → List Event
close_all [] end = []
close_all (r ∷ stack) waiting = []
close_all (r ∷ stack) (returned f) = closed r ∷ close_all stack (returned f)

-- A call of the start: the first error is returned.
abbrev pub after : Reply → Step → Event → List Resource → End × List Event → End × List Event
after succeeds s mark stack (end, events) = (end, mark ∷ events)
after fails s mark stack later =
    (returned (some (failed_step s)), close_all stack (returned (some (failed_step s))))
after hangs s mark stack later = (waiting, [])

-- The steps one after the other, then what follows. The stack holds what is deferred.
unfoldable pub start : List Step → List Reply → List Resource → End × List Event → End × List Event
start [] replies stack (end, events) = (end, events ++ close_all stack end)
start (defer_close r ∷ steps) replies stack rest = start steps replies (r ∷ stack) rest
start (call c ∷ steps) replies stack rest =
    let later = start steps (later_replies replies) stack rest in
    after (first_reply replies) (call c) (done c) stack later
start (acquire r ∷ steps) replies stack rest =
    let later = start steps (later_replies replies) stack rest in
    after (first_reply replies) (acquire r) (opened r) stack later

-- The gRPC server and the health server. After an error GracefulStop waits for the calls in flight;
-- after a signal a timer ends that wait by Stop, and the shutdown of the health server has a deadline.
unfoldable pub serve_grpc : Serving → End × List Event
serve_grpc v = elim v.first [
  | none ↦ (waiting, ready ∷ [])
  | some server_error ↦
      if v.calls_end
      then (returned (some failed_server), ready ∷ stopped grpc ∷ [])
      else (waiting, ready ∷ [])
  | some signal ↦ (
    returned none,
    ready ∷ (if v.in_time then stopped grpc else forced grpc) ∷ stopped health ∷ [],
  )
]

-- The HTTP server of the gateway and of the WebSocket service; its shutdown has a deadline.
unfoldable pub serve_http : Serving → End × List Event
serve_http v = elim v.first [
  | none ↦ (waiting, ready ∷ [])
  | some server_error ↦ (returned (some failed_server), ready ∷ [])
  | some signal ↦ (returned none, ready ∷ stopped http ∷ [])
]

unfoldable pub auth_steps : List Step
auth_steps =
    call load_config
    ∷ acquire postgres
    ∷ defer_close postgres
    ∷ call ping_postgres
    ∷ acquire valkey
    ∷ defer_close valkey
    ∷ acquire nats
    ∷ defer_close nats
    ∷ call create_jetstream
    ∷ call provision_streams
    ∷ call create_handler
    ∷ call listen_grpc
    ∷ call listen_health
    ∷ []

unfoldable pub run_auth : List Reply → Serving → End × List Event
run_auth replies v = start auth_steps replies [] (serve_grpc v)

unfoldable pub room_steps : List Step
room_steps =
    call load_config
    ∷ acquire postgres
    ∷ defer_close postgres
    ∷ call ping_postgres
    ∷ acquire nats
    ∷ defer_close nats
    ∷ call create_jetstream
    ∷ call provision_streams
    ∷ call create_handler
    ∷ call listen_grpc
    ∷ call listen_health
    ∷ []

unfoldable pub run_room : List Reply → Serving → End × List Event
run_room replies v = start room_steps replies [] (serve_grpc v)

unfoldable pub message_steps : List Step
message_steps =
    call load_config
    ∷ acquire postgres
    ∷ defer_close postgres
    ∷ call ping_postgres
    ∷ acquire nats
    ∷ defer_close nats
    ∷ call create_jetstream
    ∷ call provision_streams
    ∷ acquire room_client
    ∷ defer_close room_client
    ∷ call create_handler
    ∷ call listen_grpc
    ∷ call listen_health
    ∷ []

unfoldable pub run_message : List Reply → Serving → End × List Event
run_message replies v = start message_steps replies [] (serve_grpc v)

unfoldable pub user_steps : List Step
user_steps =
    call load_config
    ∷ acquire postgres
    ∷ defer_close postgres
    ∷ call ping_postgres
    ∷ acquire nats
    ∷ defer_close nats
    ∷ call create_jetstream
    ∷ call create_handler
    ∷ call start_subscriber
    ∷ call listen_grpc
    ∷ call listen_health
    ∷ []

unfoldable pub run_user : List Reply → Serving → End × List Event
run_user replies v = start user_steps replies [] (serve_grpc v)

unfoldable pub gateway_steps : List Step
gateway_steps =
    call load_config
    ∷ acquire valkey
    ∷ defer_close valkey
    ∷ call ping_valkey
    ∷ acquire auth_conn
    ∷ defer_close auth_conn
    ∷ acquire user_conn
    ∷ defer_close user_conn
    ∷ acquire room_conn
    ∷ defer_close room_conn
    ∷ acquire message_conn
    ∷ defer_close message_conn
    ∷ []

unfoldable pub run_gateway : List Reply → Serving → End × List Event
run_gateway replies v = start gateway_steps replies [] (serve_http v)

unfoldable pub websocket_steps : List Step
websocket_steps =
    call load_config
    ∷ acquire valkey
    ∷ defer_close valkey
    ∷ call ping_valkey
    ∷ acquire nats
    ∷ defer_close nats
    ∷ call create_jetstream
    ∷ call start_subscriber
    ∷ []

unfoldable pub run_websocket : List Reply → Serving → End × List Event
run_websocket replies v = start websocket_steps replies [] (serve_http v)

pub data Service : Type 0 where
  auth room message user gateway websocket : Service

-- The function run of each service.
abbrev pub run : Service → List Reply → Serving → End × List Event
run auth = run_auth
run room = run_room
run message = run_message
run user = run_user
run gateway = run_gateway
run websocket = run_websocket
