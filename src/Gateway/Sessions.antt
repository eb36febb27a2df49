-- ===== src/Gateway/Sessions.antt =====
-- services/gateway/internal/handler/auth/{handler,cookies}.go, over the auth service's methods.
-- protojson and encoding/json are parameters.
use efir.Prelude.{ℕ, String, [], ◌∷◌, List, Bool, true, false, Option, none, some}
use efir.Shared.Errors.{GrpcCode, unauthenticated}
use efir.Auth.Types.{TokenPair}
use efir.Auth.Tokens.{AuthWorld}
use efir.Auth.Service.{Config}
use efir.Auth.Handler
use efir.Auth.Handler.{Packages, SessionResponse}
use efir.Gateway.Http.{
  Response, Cookie, access_value, refresh_value, no_value, seconds, expired, empty, json, respond,
  write_code, read_proto, call, with_body,
}
use efir.Gateway.Access.{Endpoint}

pub record Codec : Type 0 where
  pub read_credentials : String → Option (String × String)
  pub write_user_id : String → String

-- 15 minutes and 30 days.
abbrev pub access_token_max_age : ℕ
access_token_max_age = 900

abbrev pub refresh_token_max_age : ℕ
refresh_token_max_age = 2592000

unfoldable pub auth_cookies : Bool → String → ℕ → List Cookie
auth_cookies secure access_token refresh_token =
    record {
      name = "access_token";
      value = access_value access_token;
      http_only = true;
      secure = secure;
      same_site_none = true;
      max_age = seconds access_token_max_age;
      path = "/";
    }
    ∷ record {
      name = "refresh_token";
      value = refresh_value refresh_token;
      http_only = true;
      secure = secure;
      same_site_none = true;
      max_age = seconds refresh_token_max_age;
      path = "/auth/session";
    }
    ∷ []

unfoldable pub cleared_cookies : Bool → List Cookie
cleared_cookies secure =
    record {
      name = "access_token";
      value = no_value;
      http_only = true;
      secure = secure;
      same_site_none = false;
      max_age = expired;
      path = "/";
    }
    ∷ record {
      name = "refresh_token";
      value = no_value;
      http_only = true;
      secure = secure;
      same_site_none = false;
      max_age = expired;
      path = "/auth/session";
    }
    ∷ []

module _ (packages : Packages) (c : Config) (codec : Codec) (failure : GrpcCode) (max_body_size : ℕ)
    (secure : Bool) where
  -- The answer to register and login.
  unfoldable pub opened : SessionResponse → Response
  opened resp = record (respond 200 (json (codec.write_user_id resp.user_id))) {
    cookies = auth_cookies secure resp.access_token resp.refresh_token;
  }

  unfoldable pub renewed : TokenPair → Response
  renewed resp = record (respond 204 empty) {
    cookies = auth_cookies secure resp.access_token resp.refresh_token;
  }

  unfoldable pub closed : Unit {0} → Response
  closed _ = record (respond 204 empty) { cookies = cleared_cookies secure }

  unfoldable pub register : Option String → ℕ → ℕ → AuthWorld → Response × AuthWorld
  register body id token =
      with_body (read_proto max_body_size codec.read_credentials body) λ (email, password).
        call failure (Handler.register packages c email password id token) opened

  unfoldable pub login : Option String → ℕ → AuthWorld → Response × AuthWorld
  login body token =
      with_body (read_proto max_body_size codec.read_credentials body)
        λ (email, password). call failure (Handler.login packages c email password token) opened

  -- The cookie refresh_token, of the session endpoints.
  unfoldable pub logout : Option ℕ → AuthWorld → Response × AuthWorld
  logout none w = (closed tt, w)
  logout (some token) w = call failure (Handler.logout packages c token) closed w

  unfoldable pub refresh : Option ℕ → ℕ → AuthWorld → Response × AuthWorld
  refresh none new_token w = (write_code unauthenticated, w)
  refresh (some token) new_token w =
      call failure (Handler.refresh_token packages c token new_token) renewed w

  unfoldable pub me : Endpoint AuthWorld
  me ctx w = (respond 200 (json (codec.write_user_id ctx.user_id)), w)
