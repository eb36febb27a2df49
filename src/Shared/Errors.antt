-- ===== src/Shared/Errors.antt =====
-- services/shared/pkg/errors/errors.go: the services' error codes, and what they are over gRPC and
-- HTTP. The names of gRPC's codes are those of google.golang.org/grpc/codes.
use efir.Prelude.{ℕ, String, ◌≡◌, refl, Option, none, some}

-- The declared codes; the Go type is a string, which may be another one.
pub data Code : Type 0 where
  not_found already_exists permission_denied unauthenticated : Code
  invalid_argument unavailable internal rate_limited : Code
  other : String → Code

pub data GrpcCode : Type 0 where
  ok canceled unknown invalid_argument deadline_exceeded not_found already_exists : GrpcCode
  permission_denied resource_exhausted failed_precondition aborted out_of_range : GrpcCode
  unimplemented internal unavailable data_loss unauthenticated : GrpcCode

-- string(code)
unfoldable pub code_text : Code → String
code_text Code.not_found = "NOT_FOUND"
code_text Code.already_exists = "ALREADY_EXISTS"
code_text Code.permission_denied = "PERMISSION_DENIED"
code_text Code.unauthenticated = "UNAUTHENTICATED"
code_text Code.invalid_argument = "INVALID_ARGUMENT"
code_text Code.unavailable = "UNAVAILABLE"
code_text Code.internal = "INTERNAL"
code_text rate_limited = "RATE_LIMITED"
code_text (other s) = s

-- codeToDefaultMessage, which has nothing for a code that is not declared.
unfoldable pub default_message : Code → String
default_message Code.not_found = "not found"
default_message Code.already_exists = "already exists"
default_message Code.permission_denied = "permission denied"
default_message Code.unauthenticated = "unauthenticated"
default_message Code.invalid_argument = "invalid argument"
default_message Code.unavailable = "service unavailable"
default_message Code.internal = "internal error"
default_message rate_limited = "rate limit exceeded"
default_message (other s) = ""

unfoldable pub to_grpc_code : Code → GrpcCode
to_grpc_code Code.not_found = GrpcCode.not_found
to_grpc_code Code.already_exists = GrpcCode.already_exists
to_grpc_code Code.permission_denied = GrpcCode.permission_denied
to_grpc_code Code.unauthenticated = GrpcCode.unauthenticated
to_grpc_code Code.invalid_argument = GrpcCode.invalid_argument
to_grpc_code Code.unavailable = GrpcCode.unavailable
to_grpc_code Code.internal = GrpcCode.internal
to_grpc_code rate_limited = resource_exhausted
to_grpc_code (other s) = GrpcCode.internal

unfoldable pub to_http_code : Code → ℕ
to_http_code Code.not_found = 404
to_http_code Code.already_exists = 409
to_http_code Code.permission_denied = 403
to_http_code Code.unauthenticated = 401
to_http_code Code.invalid_argument = 400
to_http_code Code.unavailable = 503
to_http_code Code.internal = 500
to_http_code rate_limited = 429
to_http_code (other s) = 500

-- What status.FromError makes of an error: no status at all, or a code.
unfoldable pub from_error : Option GrpcCode → Code
from_error none = Code.internal
from_error (some GrpcCode.not_found) = Code.not_found
from_error (some GrpcCode.already_exists) = Code.already_exists
from_error (some GrpcCode.permission_denied) = Code.permission_denied
from_error (some GrpcCode.unauthenticated) = Code.unauthenticated
from_error (some GrpcCode.invalid_argument) = Code.invalid_argument
from_error (some GrpcCode.unavailable) = Code.unavailable
from_error (some resource_exhausted) = rate_limited
from_error (some g) = Code.internal

-- What a client of the service can tell of a code.
abbrev pub declared : Code → Code
declared (other s) = Code.internal
declared c = c

-- A code that a service answers with reaches the gateway, over gRPC, as itself; one that is not
-- declared reaches it as an internal error.
from_error-to_grpc_code : (c : Code) → from_error (some (to_grpc_code c)) ≡ declared c
unfolding from_error to_grpc_code
from_error-to_grpc_code Code.not_found = refl
from_error-to_grpc_code Code.already_exists = refl
from_error-to_grpc_code Code.permission_denied = refl
from_error-to_grpc_code Code.unauthenticated = refl
from_error-to_grpc_code Code.invalid_argument = refl
from_error-to_grpc_code Code.unavailable = refl
from_error-to_grpc_code Code.internal = refl
from_error-to_grpc_code rate_limited = refl
from_error-to_grpc_code (other s) = refl
