-- ===== src/Gateway/Access.antt =====
-- services/gateway/internal/middleware/{auth,ratelimit}.go: the checks in front of the protected
-- endpoints. The JWT library is a parameter, and so is what Valkey answers to IncrWithExpiryScript.
use efir.Prelude.{
  ℕ, String, Bool, true, false, not, Option, none, some, ◌==◌, if◌then◌else◌, ltb, string_eq,
}
use efir.Prelude.Keyed.{insert}
use efir.Shared.Errors.{unauthenticated, rate_limited}
use efir.Gateway.Http.{Response, write_code}

-- A parsed token: whether it is valid, and its claims if they are a MapClaims, where `sub` is the
-- subject if it is a string.
pub record Token : Type 0 where
  pub valid : Bool
  pub claims : Option (Option String)

-- jwt.ParseWithClaims: the key is asked for by the token's signing method, which is or is not HMAC.
abbrev pub Parser : Type 0
Parser = (Bool → Option String) → String → Option Token

-- What the middleware puts into the request's context.
pub record Context : Type 0 where
  pub user_id : String
  pub request_id : String

-- The function that hands the secret to the parser, for tokens signed with HMAC only.
unfoldable pub key_func : String → Bool → Option String
key_func secret true = some secret
key_func secret false = none

-- The subject of the access_token cookie, if the token proves one.
unfoldable pub subject : Parser → String → Option String → Option String
subject parse secret none = none
subject parse secret (some token_string) = elim (parse (key_func secret) token_string) [
  | none ↦ none
  | some token ↦ if not token.valid then none else elim token.claims [
    | none ↦ none
    | some none ↦ none
    | some (some sub) ↦ if sub == "" then none else some sub
  ]
]

-- The request's own id, or a new one.
unfoldable pub request_id : String → String → String
request_id header fresh = if header == "" then fresh else header

-- An endpoint behind the middlewares: a function of the context and of the state.
abbrev pub Endpoint : Type 0 → Type 0
Endpoint S = Context → S → Response × S

-- The next handler runs only for a request with a subject.
unfoldable pub with_subject : {S : Type 0} → Option String → String → Endpoint S → S → Response × S
with_subject none id next s = (write_code unauthenticated, s)
with_subject (some sub) id next s = next (record { user_id = sub; request_id = id }) s

abbrev pub set_header : {S : Type 0} → String → String → Response × S → Response × S
set_header name value (response, s) =
    (record response { headers = insert name value response.headers }, s)

-- JWTAuth, of the cookie access_token and the header X-Request-ID.
unfoldable pub jwt_auth :
    {S : Type 0} → Parser → String → Option String → String → String → Endpoint S → S → Response × S
jwt_auth parse secret cookie header fresh next s =
    let id = request_id header fresh in
    set_header "X-Request-ID" id (with_subject (subject parse secret cookie) id next s)

-- UserRateLimiter: `count` is the counter's value after the increment, or none if Valkey failed.
unfoldable pub user_rate_limiter : {S : Type 0} → ℕ → Option ℕ → Endpoint S → Endpoint S
user_rate_limiter requests none next ctx s = next ctx s
user_rate_limiter requests (some count) next ctx s =
    if ltb requests count then (write_code rate_limited, s) else next ctx s

-- What a request brings to the protected endpoints: the cookie access_token, the header X-Request-ID,
-- the id that is drawn if there is none, and Valkey's answer to the rate limiter.
pub record Arrival : Type 0 where
  pub cookie : Option String
  pub header : String
  pub fresh : String
  pub count : Option ℕ

-- The group of protected routes in cmd/main.go: JWTAuth, then UserRateLimiter.
unfoldable pub protected :
    {S : Type 0} → Parser → String → ℕ → Arrival → Endpoint S → S → Response × S
protected parse secret requests a next =
    jwt_auth parse secret a.cookie a.header a.fresh (user_rate_limiter requests a.count next)
