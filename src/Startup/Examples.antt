-- ===== src/Startup/Examples.antt =====
-- The start of the user service when its subscriber cannot be started, and its end by a signal.
use efir.Prelude.{false, List, refl, [], ◌∷◌, ◌≡◌, true, none, some}
use efir.Prelude.Int.{pos}
use efir.Exec.{ok}
use efir.Startup.Lifecycle.{
  Reply, succeeds, fails, Serving, user, gateway, websocket, user_steps, run, run_user, start,
  serve_grpc, signal,
}
use efir.Startup.Config.{
  GatewayConfig, load_gateway, gateway_defaults, is_environment, validate_gateway,
}
use efir.Startup.Unchecked.{WebSocketConfig, load_websocket, websocket_defaults}
use efir.Startup.Loading.{load}
use efir.Startup.Release.{IsReleased, run-IsReleased}
use efir.Startup.Prepared.{IsPrepared, run-IsPrepared}

abbrev no_subscriber : List Reply
no_subscriber = succeeds ∷ succeeds ∷ succeeds ∷ succeeds ∷ succeeds ∷ succeeds ∷ fails ∷ []

abbrev idle : Serving
idle = record { first = none; calls_end = true; in_time = true }

abbrev stopped_by_signal : Serving
stopped_by_signal = record { first = some signal; calls_end = false; in_time = false }

run-IsReleased_example : IsReleased (run user no_subscriber idle)
run-IsReleased_example = run-IsReleased user no_subscriber idle

-- A start without an error, and a signal.
run-IsPrepared_example : IsPrepared user (run user [] stopped_by_signal).1
unfolding run_user start user_steps serve_grpc
run-IsPrepared_example = run-IsPrepared user [] stopped_by_signal refl

-- A file of the gateway with no secret, whose rate limit has no window.
abbrev gateway_file : GatewayConfig
gateway_file = record {
  env = "production";
  log_level = "info";
  port = "8080";
  max_body_size = pos 1000;
  shutdown = pos 0;
  read_header = pos 0;
  grpc = pos 0;
  cache_addr = "valkey";
  cache_pass = "";
  secret = "";
  ws_ticket_ttl = pos 30;
  rate_limit = record { requests = pos 5; window = pos 0 };
  auth_addr = "auth";
  user_addr = "user";
  room_addr = "room";
  message_addr = "message";
}

-- The gateway starts with no secret.
no_secret : load gateway (λ _. some gateway_file) "config.yaml" ≡ ok (gateway_defaults gateway_file)
unfolding load_gateway gateway_defaults is_environment validate_gateway
no_secret = refl

-- A file of the WebSocket service that names its environment only.
abbrev websocket_file : WebSocketConfig
websocket_file = record {
  env = "production";
  log_level = "";
  nats = record {
    url = "";
    user = "";
    pass = "";
    reconnect_wait = pos 0;
    max_reconnects = pos 0;
    ack_wait = pos 0;
    max_deliver = pos 0;
    consumer_retry_wait = pos 0;
  };
  port = "";
  hub_buffer_size = pos 0;
  shutdown = pos 0;
  read_header = pos 0;
  cache_addr = "";
  cache_pass = "";
  gateway_url = "";
  write_limit = pos 0;
  read_limit = pos 0;
  ping_interval = pos 0;
  read_deadline = pos 0;
  write_deadline = pos 0;
  write_buffer = pos 0;
}

-- The service starts with it.
no_ping :
    load websocket (λ _. some websocket_file) "config.yaml" ≡ ok (websocket_defaults websocket_file)
unfolding load_websocket websocket_defaults is_environment
no_ping = refl
