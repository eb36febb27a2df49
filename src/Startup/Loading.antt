-- ===== src/Startup/Loading.antt =====
-- services/*/internal/config/config.go: what each service's Load accepts.
use efir.Prelude.{String, Option}
use efir.Exec.{Result}
use efir.Startup.Config.{
  AuthConfig, GatewayConfig, ConfigError, load_auth, load_gateway, auth_defaults, gateway_defaults,
}
use efir.Startup.Unchecked.{
  RoomConfig, UserConfig, MessageConfig, WebSocketConfig, load_room, load_user, load_message,
  load_websocket, room_defaults, user_defaults, message_defaults, websocket_defaults,
}
use efir.Startup.Settings.{IsEnvironment, IsUsableAuth, IsUsableGateway}
use efir.Startup.Lifecycle.{Service, auth, room, message, user, gateway, websocket}

abbrev pub Config : Service → Type 0
Config auth = AuthConfig
Config room = RoomConfig
Config message = MessageConfig
Config user = UserConfig
Config gateway = GatewayConfig
Config websocket = WebSocketConfig

-- The function Load of each service.
abbrev pub load :
    (s : Service) → (String → Option (Config s)) → String → Result ConfigError (Config s)
load auth = load_auth
load room = load_room
load message = load_message
load user = load_user
load gateway = load_gateway
load websocket = load_websocket

abbrev pub defaults : (s : Service) → Config s → Config s
defaults auth = auth_defaults
defaults room = room_defaults
defaults message = message_defaults
defaults user = user_defaults
defaults gateway = gateway_defaults
defaults websocket = websocket_defaults

abbrev pub IsUsable : (s : Service) → Config s → Type 0
IsUsable auth c = IsUsableAuth c
IsUsable room c = IsEnvironment c.env
IsUsable message c = IsEnvironment c.env
IsUsable user c = IsEnvironment c.env
IsUsable gateway c = IsUsableGateway c
IsUsable websocket c = IsEnvironment c.env
