-- ===== src/Startup/Unchecked.antt =====
-- The configurations of which Load checks the environment only: internal/config/config.go of the room,
-- user, message and WebSocket services.
use efir.Prelude.{String, List, Option, none, some, true}
use efir.Prelude.Int.{ℤ}
use efir.Exec.{Result, err}
use efir.Startup.Config.{
  ServerConfig, TimeoutsConfig, NatsConfig, ConfigError, read_config, is_environment, or_default,
  with_defaults, checked,
}

pub record RoomConfig : Type 0 where
  pub env : String
  pub log_level : String
  pub server : ServerConfig
  pub timeouts : TimeoutsConfig
  pub nats : NatsConfig
  pub dsn : String

unfoldable pub room_defaults : RoomConfig → RoomConfig
room_defaults c = record c { timeouts = with_defaults c.timeouts }

unfoldable pub load_room : (String → Option RoomConfig) → String → Result ConfigError RoomConfig
load_room read path = elim (read path) [
  | none ↦ err read_config
  | some raw ↦ let c = room_defaults raw in checked (is_environment c.env) true c
]

-- The user service's file has the same fields.
pub record UserConfig : Type 0 where
  pub env : String
  pub log_level : String
  pub server : ServerConfig
  pub timeouts : TimeoutsConfig
  pub nats : NatsConfig
  pub dsn : String

unfoldable pub user_defaults : UserConfig → UserConfig
user_defaults c = record c { timeouts = with_defaults c.timeouts }

unfoldable pub load_user : (String → Option UserConfig) → String → Result ConfigError UserConfig
load_user read path = elim (read path) [
  | none ↦ err read_config
  | some raw ↦ let c = user_defaults raw in checked (is_environment c.env) true c
]

pub record MessageConfig : Type 0 where
  pub env : String
  pub log_level : String
  pub server : ServerConfig
  pub timeouts : TimeoutsConfig
  pub nats : NatsConfig
  pub dsn : String
  pub room_addr : String
  pub call_timeout : ℤ
  pub retry_delays : List ℤ

unfoldable pub message_defaults : MessageConfig → MessageConfig
message_defaults c = record c { timeouts = with_defaults c.timeouts }

unfoldable pub load_message :
    (String → Option MessageConfig) → String → Result ConfigError MessageConfig
load_message read path = elim (read path) [
  | none ↦ err read_config
  | some raw ↦ let c = message_defaults raw in checked (is_environment c.env) true c
]

pub record WebSocketConfig : Type 0 where
  pub env : String
  pub log_level : String
  pub nats : NatsConfig
  pub port : String
  pub hub_buffer_size : ℤ
  pub shutdown : ℤ
  pub read_header : ℤ
  pub cache_addr : String
  pub cache_pass : String
  pub gateway_url : String
  pub write_limit : ℤ
  pub read_limit : ℤ
  pub ping_interval : ℤ
  pub read_deadline : ℤ
  pub write_deadline : ℤ
  pub write_buffer : ℤ

unfoldable pub websocket_defaults : WebSocketConfig → WebSocketConfig
websocket_defaults c = record c {
  shutdown = or_default c.shutdown 15;
  read_header = or_default c.read_header 5;
}

unfoldable pub load_websocket :
    (String → Option WebSocketConfig) → String → Result ConfigError WebSocketConfig
load_websocket read path = elim (read path) [
  | none ↦ err read_config
  | some raw ↦ let c = websocket_defaults raw in checked (is_environment c.env) true c
]
