-- ===== src/Startup/Config.antt =====
-- The configurations: services/shared/pkg/config/environment.go and the auth service's and gateway's
-- internal/config/config.go. cleanenv.ReadConfig is a parameter; a duration counts nanoseconds.
use Prim.Native.String.{len}
use efir.Prelude.{
  ℕ, ◌*◌, String, Bool, true, false, not, ◌||◌, Option, none, some, ◌==◌, if◌then◌else◌, ltb,
  string_eq,
}
use efir.Prelude.Int.{ℤ, pos, is_zero, at_least}
use efir.Exec.{Result, ok, err}

abbrev pub second : ℕ
second = 1_000_000_000

abbrev pub seconds : ℕ → ℤ
seconds n = pos (n * second)

-- Validate: the two environments.
unfoldable pub is_environment : String → Bool
is_environment e = (e == "development") || (e == "production")

pub record ServerConfig : Type 0 where
  pub grpc_port : String
  pub health_listen_addr : String

pub record TimeoutsConfig : Type 0 where
  pub shutdown : ℤ
  pub read_header : ℤ
  pub grpc_graceful : ℤ

pub record NatsConfig : Type 0 where
  pub url : String
  pub user : String
  pub pass : String
  pub reconnect_wait : ℤ
  pub max_reconnects : ℤ
  pub ack_wait : ℤ
  pub max_deliver : ℤ
  pub consumer_retry_wait : ℤ

abbrev pub or_default : ℤ → ℕ → ℤ
or_default z n = if is_zero z then seconds n else z

-- WithDefaults
unfoldable pub with_defaults : TimeoutsConfig → TimeoutsConfig
with_defaults t = record {
  shutdown = or_default t.shutdown 15;
  read_header = or_default t.read_header 5;
  grpc_graceful = or_default t.grpc_graceful 10;
}

pub record RateLimit : Type 0 where
  pub requests : ℤ
  pub window : ℤ

pub record AuthConfig : Type 0 where
  pub env : String
  pub log_level : String
  pub server : ServerConfig
  pub timeouts : TimeoutsConfig
  pub nats : NatsConfig
  pub dsn : String
  pub cache_addr : String
  pub cache_pass : String
  pub secret : String
  pub access_ttl : ℤ
  pub refresh_ttl : ℤ
  pub rate_limit : RateLimit

pub data ConfigError : Type 0 where
  read_config invalid_environment invalid_config : ConfigError

unfoldable pub validate_auth : AuthConfig → Bool
validate_auth c =
    if ltb (len c.secret) 32
    then false
    else if not (at_least 1 c.access_ttl)
    then false
    else if not (at_least 1 c.refresh_ttl)
    then false
    else if not (at_least 1 c.rate_limit.requests)
    then false
    else if not (at_least second c.rate_limit.window)
    then false
    else true

-- What Load sets before it validates.
unfoldable pub auth_defaults : AuthConfig → AuthConfig
auth_defaults c = record c {
  timeouts = with_defaults c.timeouts;
  rate_limit = record c.rate_limit { window = or_default c.rate_limit.window 60 };
}

abbrev pub checked : {C : Type 0} → Bool → Bool → C → Result ConfigError C
checked env valid c =
    if not env then err invalid_environment else if not valid then err invalid_config else ok c

unfoldable pub load_auth : (String → Option AuthConfig) → String → Result ConfigError AuthConfig
load_auth read path = elim (read path) [
  | none ↦ err read_config
  | some raw ↦ let c = auth_defaults raw in checked (is_environment c.env) (validate_auth c) c
]

pub record GatewayConfig : Type 0 where
  pub env : String
  pub log_level : String
  pub port : String
  pub max_body_size : ℤ
  pub shutdown : ℤ
  pub read_header : ℤ
  pub grpc : ℤ
  pub cache_addr : String
  pub cache_pass : String
  pub secret : String
  pub ws_ticket_ttl : ℤ
  pub rate_limit : RateLimit
  pub auth_addr : String
  pub user_addr : String
  pub room_addr : String
  pub message_addr : String

unfoldable pub validate_gateway : GatewayConfig → Bool
validate_gateway c =
    if not (at_least 1 c.rate_limit.requests)
    then false
    else if not (at_least second c.rate_limit.window)
    then false
    else true

unfoldable pub gateway_defaults : GatewayConfig → GatewayConfig
gateway_defaults c = record c {
  shutdown = or_default c.shutdown 15;
  read_header = or_default c.read_header 5;
  grpc = or_default c.grpc 10;
  rate_limit = record {
    requests = if is_zero c.rate_limit.requests then pos 100 else c.rate_limit.requests;
    window = or_default c.rate_limit.window 60;
  };
}

unfoldable pub load_gateway :
    (String → Option GatewayConfig) → String → Result ConfigError GatewayConfig
load_gateway read path = elim (read path) [
  | none ↦ err read_config
  | some raw ↦ let c = gateway_defaults raw in checked (is_environment c.env) (validate_gateway c) c
]
