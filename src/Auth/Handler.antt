-- ===== src/Auth/Handler.antt =====
-- services/auth/internal/handler/{auth,mapper}.go: the gRPC methods of the auth service. The rules of
-- protovalidate and UUID.String are parameters; a refresh token is a number, as in the service.
use efir.Prelude.{ℕ, String, Bool, not}
use efir.Exec.{Exec, pure, ◌>>=◌, ◌>>◌, fail_if, on_error}
use efir.Shared.Errors.{Code, already_exists}
use efir.Auth.Types.{Account, TokenPair, Db, AuthEvent}
use efir.Auth.Service
use efir.Auth.Service.{
  Config, ServiceError, account_already_exists, invalid_credentials, invalid_token,
  rate_limit_exceeded,
}

-- The requests, with their fields in the order of the .proto file.
pub data Request : Type 0 where
  register_request login_request : String → String → Request
  logout_request refresh_token_request : ℕ → Request

pub record Packages : Type 0 where
  pub is_valid : Request → Bool
  pub format : ℕ → String

-- RegisterResponse and LoginResponse.
pub record SessionResponse : Type 0 where
  pub user_id : String
  pub access_token : String
  pub refresh_token : ℕ

abbrev pub Handler : Type 0 → Type 0
Handler A = Exec Db AuthEvent Code A

-- The codes that the methods' errors become.
abbrev pub register_code : ServiceError → Code
register_code account_already_exists = already_exists
register_code rate_limit_exceeded = Code.unavailable
register_code _ = Code.internal

abbrev pub login_code : ServiceError → Code
login_code invalid_credentials = Code.unauthenticated
login_code rate_limit_exceeded = Code.unavailable
login_code _ = Code.internal

abbrev pub logout_code : ServiceError → Code
logout_code _ = Code.internal

abbrev pub refresh_code : ServiceError → Code
refresh_code invalid_token = Code.unauthenticated
refresh_code _ = Code.internal

module _ (packages : Packages) (c : Config) where
  unfoldable pub validate : Request → Handler (Unit {0})
  validate req = fail_if (not (packages.is_valid req)) Code.invalid_argument

  unfoldable pub response_to_proto : Account × TokenPair → SessionResponse
  response_to_proto (acc, tokens) = record {
    user_id = packages.format acc.id;
    access_token = tokens.access_token;
    refresh_token = tokens.refresh_token;
  }

  unfoldable pub register : String → String → ℕ → ℕ → Handler SessionResponse
  register email password id token = do
    validate (register_request email password)
    opened ← on_error register_code (Service.register c email password id token)
    pure (response_to_proto opened)

  unfoldable pub login : String → String → ℕ → Handler SessionResponse
  login email password token = do
    validate (login_request email password)
    opened ← on_error login_code (Service.login c email password token)
    pure (response_to_proto opened)

  unfoldable pub logout : ℕ → Handler (Unit {0})
  logout token = do validate (logout_request token); on_error logout_code (Service.logout token)

  unfoldable pub refresh_token : ℕ → ℕ → Handler TokenPair
  refresh_token token new_token = do
    validate (refresh_token_request token)
    on_error refresh_code (Service.refresh_token c token new_token)
