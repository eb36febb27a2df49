-- ===== src/Shared/Interceptors.antt =====
-- services/shared/pkg/middleware/middleware.go: the interceptors around a gRPC method, and
-- StatusError's Wrap of errors.go. Metadata is what Get returns for a key, none where there is none.
-- The request and the times of the log are left out.
use efir.Prelude.{String, List, [], ◌∷◌, ◌++◌, Option, none, some, ◌==◌, if◌then◌else◌, string_eq}
use efir.Shared.Errors.{Code, GrpcCode, code_text, default_message}

-- An error: a StatusError, by itself or around another error, an error that another one was put in
-- by fmt.Errorf, or any other error, which may have a status of its own.
pub data Fault : Type 0 where
  status_error : Code → String → Fault
  status_around : Code → String → Fault → Fault
  annotated : String → Fault → Fault
  foreign : Option GrpcCode → String → Fault

-- errors.As for a *StatusError: its code, and what it is logged with, its cause or its own text.
pub data Cause : Type 0 where
  cause : Fault → Cause
  text : String → Cause

unfoldable pub as_status_error : Fault → Option (Code × Cause)
as_status_error (status_error c m) = some (c, text m)
as_status_error (status_around c m f) = some (c, cause f)
as_status_error (annotated m f) = as_status_error f
as_status_error (foreign g m) = none

-- Wrap of an error, by the StatusError found in it.
unfoldable pub wrap_found : Code → Fault → Option (Code × Cause) → Fault
wrap_found c f none = status_around c (default_message c) f
wrap_found c f (some (c', _)) =
    if code_text c' == code_text c then f else status_around c (default_message c) f

unfoldable pub wrap : Code → Option Fault → Option Fault
unfolding as_status_error wrap_found
wrap c none = none
wrap c (some f) = some (wrap_found c f (as_status_error f))

pub data Level : Type 0 where
  info error : Level

-- What is logged of an error.
pub data Report : Type 0 where
  no_error : Report
  coded : Code → Cause → Report
  bare : Fault → Report

-- The method and the request's id stand in each entry.
pub data Entry : Type 0 where
  request_started : String → String → Entry
  request_completed : Level → String → String → Report → Entry
  panic_recovered : String → String → Entry
  handler_entry : String → Entry

pub record Context : Type 0 where
  pub request_id : Option String
  pub user_id : Option String

abbrev pub Metadata : Type 0
Metadata = Option (String → List String)

pub data Outcome (A : Type 0) : Type 0 where
  returned : A → Outcome A
  failed : Fault → Outcome A
  panicked : Outcome A

abbrev pub Handler : Type 0 → Type 0
Handler A = Context → List Entry → Outcome A × List Entry

-- md.Get, which gives nothing where there is no metadata.
abbrev pub get : Metadata → String → List String
get none key = []
get (some md) key = md key

-- GetUserID is ctx.user_id.
unfoldable pub get_request_id : Context → String
get_request_id ctx = elim ctx.request_id [ none ↦ "" | some id ↦ id ]

-- The first x-request-id, unless it is empty, or a new one.
unfoldable pub request_id_of : Metadata → String → String
request_id_of md fresh = elim (get md "x-request-id") [
  | [] ↦ fresh
  | id ∷ _ ↦ if id == "" then fresh else id
]

unfoldable pub report_found : Fault → Option (Code × Cause) → Report
report_found f none = bare f
report_found f (some (c, why)) = coded c why

unfoldable pub report : Fault → Report
unfolding as_status_error report_found
report f = report_found f (as_status_error f)

module _ {A : Type 0} where
  unfoldable pub request_id_interceptor : Metadata → String → Handler A → Handler A
  unfolding request_id_of
  request_id_interceptor md fresh handler ctx =
      handler (record ctx { request_id = some (request_id_of md fresh) })

  unfoldable pub user_id_interceptor : Metadata → Handler A → Handler A
  user_id_interceptor md handler ctx = elim (get md "x-user-id") [
    | [] ↦ handler ctx
    | id ∷ _ ↦ handler (record ctx { user_id = some id })
  ]

  -- After the handler: a panic goes through, and nothing more is logged.
  unfoldable pub log_completed : String → String → Outcome A × List Entry → Outcome A × List Entry
  unfolding report
  log_completed method id (returned a, log) =
      (returned a, log ++ request_completed info method id no_error ∷ [])
  log_completed method id (failed f, log) =
      (failed f, log ++ request_completed error method id (report f) ∷ [])
  log_completed method id (panicked, log) = (panicked, log)

  unfoldable pub logging_interceptor : String → Handler A → Handler A
  unfolding get_request_id log_completed
  logging_interceptor method handler ctx log =
      let id = get_request_id ctx in
      log_completed method id (handler ctx (log ++ request_started method id ∷ []))

  unfoldable pub recover : String → String → Outcome A × List Entry → Outcome A × List Entry
  recover method id (returned a, log) = (returned a, log)
  recover method id (failed f, log) = (failed f, log)
  recover method id (panicked, log) = (
    failed (foreign (some GrpcCode.internal) "internal server error"),
    log ++ panic_recovered method id ∷ [],
  )

  unfoldable pub recovery_interceptor : String → Handler A → Handler A
  unfolding get_request_id recover
  recovery_interceptor method handler ctx log =
      recover method (get_request_id ctx) (handler ctx log)

  -- The chain of the four gRPC services, the first outermost, on a fresh context.
  unfoldable pub serve :
      Metadata → String → String → Handler A → List Entry → Outcome A × List Entry
  unfolding request_id_interceptor recovery_interceptor logging_interceptor
  serve md fresh method handler =
      request_id_interceptor md fresh
        (recovery_interceptor method (logging_interceptor method handler))
        (record { request_id = none; user_id = none })
