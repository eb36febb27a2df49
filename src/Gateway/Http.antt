-- ===== src/Gateway/Http.antt =====
-- services/gateway/internal/handler/handler.go: how a request's body is read and a response written;
-- and how a gRPC client of the gateway gets its answer. protojson is a parameter.
use Prim.Native.String.{len}
use efir.Prelude.{ℕ, String, List, [], Bool, Option, none, some, if◌then◌else◌, ltb}
use efir.Prelude.Keyed.{Map}
use efir.Exec.{
  Result, ok, err, served, refused, reply_lost, World, Exec, first_outcome, advance, translate,
}
use efir.Shared.Errors.{
  Code, GrpcCode, rate_limited, other, to_http_code, to_grpc_code, from_error, code_text,
}

-- What stands in a response's body: nothing, the JSON of a message, or an error's message and code.
pub data Body : Type 0 where
  empty : Body
  json : String → Body
  error_response : String → String → Body

-- What a cookie holds: an access token, a refresh token (a number, as in the auth service), or nothing.
pub data CookieValue : Type 0 where
  access_value : String → CookieValue
  refresh_value : ℕ → CookieValue
  no_value : CookieValue

-- MaxAge: a time in seconds, or a negative number, by which the client drops the cookie.
pub data MaxAge : Type 0 where
  seconds : ℕ → MaxAge
  expired : MaxAge

pub record Cookie : Type 0 where
  pub name : String
  pub value : CookieValue
  pub http_only : Bool
  pub secure : Bool
  pub same_site_none : Bool
  pub max_age : MaxAge
  pub path : String

pub record Response : Type 0 where
  pub status : ℕ
  pub body : Body
  pub headers : Map String String
  pub cookies : List Cookie

abbrev pub respond : ℕ → Body → Response
respond status body = record { status = status; body = body; headers = []; cookies = [] }

-- codeToMessage
unfoldable pub code_to_message : Code → String
code_to_message Code.not_found = "resource not found"
code_to_message Code.already_exists = "resource already exists"
code_to_message Code.permission_denied = "permission denied"
code_to_message Code.unauthenticated = "authentication required"
code_to_message Code.invalid_argument = "invalid request"
code_to_message Code.unavailable = "service temporarily unavailable"
code_to_message Code.internal = "internal server error"
code_to_message rate_limited = "rate limit exceeded"
code_to_message (other s) = ""

unfoldable pub write_code : Code → Response
write_code code =
    respond (to_http_code code) (error_response (code_to_message code) (code_text code))

-- Of the error that a client or ReadProto returned; FromError knows a code for each.
unfoldable pub write_error : Option GrpcCode → Response
unfolding write_code
write_error e = write_code (from_error e)

-- `marshal` is none for a message that cannot be marshalled.
unfoldable pub write_proto : {A : Type 0} → (A → Option String) → ℕ → A → Response
write_proto marshal status msg = elim (marshal msg) [
  | none ↦ write_code Code.internal
  | some b ↦ respond status (json b)
]

-- A body that cannot be read at all is none. The errors are as status.FromError sees them.
unfoldable pub read_proto :
    {A : Type 0} → ℕ → (String → Option A) → Option String → Result (Option GrpcCode) A
read_proto max_body_size unmarshal none = err none
read_proto max_body_size unmarshal (some body) =
    if ltb max_body_size (len body)
    then err (some (to_grpc_code Code.invalid_argument))
    else elim (unmarshal body) [
      | none ↦ err (some (to_grpc_code Code.invalid_argument))
      | some msg ↦ ok msg
    ]

module _ {D V A : Type 0} (failure : GrpcCode) where
  -- A call over gRPC: a served one carries the method's code, and one that the transport fails has
  -- the code `failure`, whether or not the service has done its work.
  unfoldable pub remote : Exec D V Code A → Exec D V (Option GrpcCode) A
  remote m w = elim (first_outcome w.outcomes) [
    | served ↦ (translate (λ c. some (to_grpc_code c)) (m (advance w)).0, (m (advance w)).1)
    | refused ↦ (err (some failure), advance w)
    | reply_lost ↦ (err (some failure), (m (advance w)).1)
  ]

-- The end of an endpoint: the error that the client returned, or what is made of the response.
unfoldable pub answer : {A : Type 0} → (A → Response) → Result (Option GrpcCode) A → Response
answer f (ok a) = f a
answer f (err e) = write_error e

-- An endpoint that calls a service: the response is made of the answer.
unfoldable pub call :
    {D V A : Type 0}
    → GrpcCode
    → Exec D V Code A
    → (A → Response)
    → World D V
    → Response × World D V
call failure m f w = let (r, w') = remote failure m w in (answer f r, w')

-- An endpoint goes on only with a body that can be read.
unfoldable pub with_body :
    {S A : Type 0} → Result (Option GrpcCode) A → (A → S → Response × S) → S → Response × S
with_body (err e) next s = (write_error e, s)
with_body (ok msg) next s = next msg s
