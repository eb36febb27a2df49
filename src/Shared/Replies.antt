-- ===== src/Shared/Replies.antt =====
-- The interceptors of services/shared/pkg/middleware: what a call is answered with, and what is logged.
use efir.Prelude.{
  ℕ, String, ◌≡◌, refl, List, [], ◌∷◌, ◌++◌, Option, none, some, ◌==◌, string_eq, Bool, true, false,
  Bool-cases, inl, inr, arith,
}
use efir.Exec.{Result, ok, err}
use efir.Shared.Errors.{
  Code, GrpcCode, code_text, to_grpc_code, to_http_code, from_error, other, rate_limited,
}
use efir.Shared.Interceptors.{
  Fault, status_error, status_around, annotated, foreign, Cause, cause, as_status_error, wrap_found,
  report_found, Level, info, error, no_error, coded, report, Entry, request_started,
  request_completed, panic_recovered, handler_entry, Metadata, Outcome, returned, failed, panicked,
  Handler, request_id_of, get_request_id, request_id_interceptor, log_completed,
  logging_interceptor, recover, recovery_interceptor, serve,
}

-- The code that gRPC sends for an error is that of the status it has, also inside fmt.Errorf.
pub record SendsStatus (sent : Fault → GrpcCode) : Type 0 where
  pub of_error : (c : Code) (m : String) → sent (status_error c m) ≡ to_grpc_code c
  pub of_around : (c : Code) (m : String) (f : Fault) → sent (status_around c m f) ≡ to_grpc_code c
  pub of_annotated : (m : String) (f : Fault) → sent (annotated m f) ≡ sent f
  pub of_foreign : (g : GrpcCode) (m : String) → sent (foreign (some g) m) ≡ g

-- The HTTP status that the gateway answers with.
abbrev pub http_status : (Fault → GrpcCode) → Fault → ℕ
http_status sent f = to_http_code (from_error (some (sent f)))

-- A handler's outcome as the client sees it.
abbrev pub seen_of : {A : Type 0} → Outcome A → Result Fault A
seen_of (returned a) = ok a
seen_of (failed f) = err f
seen_of panicked = err (foreign (some GrpcCode.internal) "internal server error")

abbrev pub outcome_of : {A : Type 0} → Result Fault A → Outcome A
outcome_of (ok a) = returned a
outcome_of (err f) = failed f

abbrev pub is_failure : {A : Type 0} → Result Fault A → Bool
is_failure (ok a) = false
is_failure (err f) = true

-- Whether an entry is logged at error level.
abbrev pub is_alarm : Entry → Bool
is_alarm (request_completed error method id r) = true
is_alarm (panic_recovered method id) = true
is_alarm _ = false

abbrev pub origin : Entry → Option (String × String)
origin (request_started method id) = some (method, id)
origin (request_completed level method id r) = some (method, id)
origin (panic_recovered method id) = some (method, id)
origin (handler_entry m) = none

abbrev pub logged_code : Entry → Option Code
logged_code (request_completed level method id (coded c why)) = some c
logged_code _ = none

to_http_code-from_error :
    (c : Code) → to_http_code (from_error (some (to_grpc_code c))) ≡ to_http_code c
unfolding to_http_code from_error to_grpc_code
to_http_code-from_error Code.not_found = refl
to_http_code-from_error Code.already_exists = refl
to_http_code-from_error Code.permission_denied = refl
to_http_code-from_error Code.unauthenticated = refl
to_http_code-from_error Code.invalid_argument = refl
to_http_code-from_error Code.unavailable = refl
to_http_code-from_error Code.internal = refl
to_http_code-from_error rate_limited = refl
to_http_code-from_error (other s) = refl

same_code :
    (a c : Code) (x y : Cause) → ◌≡◌ {A = Option (Code × Cause)} (some (a, x)) (some (c, y)) → a ≡ c
same_code a c x y h = ground (arith, h)

module _ (sent : Fault → GrpcCode) (sends : SendsStatus sent) where
  http_status-as_status_error :
      (f : Fault) (c : Code) (why : Cause)
      → as_status_error f ≡ some (c, why)
      → http_status sent f ≡ to_http_code c
  unfolding as_status_error
  http_status-as_status_error (status_error a m) c why h =
      rw (sends.of_error a m, to_http_code-from_error, same_code a c _ _ h) refl
  http_status-as_status_error (status_around a m f) c why h =
      rw (sends.of_around a m f, to_http_code-from_error, same_code a c _ _ h) refl
  http_status-as_status_error (annotated m f) c why h =
      rw (sends.of_annotated m f) (http_status-as_status_error f c why h)
  http_status-as_status_error (foreign g m) c why h = cc

-- What Wrap makes of an error has the code, by its text.
wrap_found_code :
    (c : Code) (f : Fault) (found : Option (Code × Cause))
    → as_status_error f ≡ found
    → (a : Code) × (why : Cause) × (as_status_error (wrap_found c f found) ≡ some (a, why))
      × (code_text a ≡ code_text c)
unfolding as_status_error wrap_found
wrap_found_code c f none e = (c, cause f, refl, refl)
wrap_found_code c f (some (a, why)) e = elim (Bool-cases (code_text a == code_text c)) [
  | inl q ↦ (a, why, rw q e, (string_eq.same_iff (code_text a) (code_text c)).0 q)
  | inr q ↦ (c, cause f, rw q refl, refl)
]

-- A code stands in the log only for an error, and is what the gateway's answer says.
abbrev pub IsMatched : {A : Type 0} → (Fault → GrpcCode) → Option Code → Result Fault A → Type 0
IsMatched sent none r = Unit {0}
IsMatched sent (some c) (ok a) = ⊥
IsMatched sent (some c) (err f) = http_status sent f ≡ to_http_code c

report-IsMatched :
    (A : Type 0) (sent : Fault → GrpcCode) (sends : SendsStatus sent) (f : Fault)
    (found : Option (Code × Cause)) (level : Level) (method id : String)
    → as_status_error f ≡ found
    → IsMatched {A = A} sent
        (logged_code (request_completed level method id (report_found f found)))
        (err f)
unfolding report_found
report-IsMatched A sent sends f none level method id e = tt
report-IsMatched A sent sends f (some (c, why)) level method id e =
    http_status-as_status_error sent sends f c why e

module _ {A : Type 0} (sent : Fault → GrpcCode) (sends : SendsStatus sent)
    (method id : String) where
  -- What is answered, and what is logged last.
  abbrev pub IsTold : Outcome A × List Entry → Outcome A × List Entry → Type 0
  IsTold handled r =
      (r.0 ≡ outcome_of (seen_of handled.0))
      × (e : Entry) × (r.1 ≡ handled.1 ++ e ∷ [])
      × (origin e ≡ some (method, id))
      × (is_alarm e ≡ is_failure (seen_of handled.0))
      × IsMatched sent (logged_code e) (seen_of handled.0)

  closed : (p : Outcome A × List Entry) → IsTold p (recover method id (log_completed method id p))
  unfolding recover log_completed report
  closed (returned a, log) = (refl, request_completed info method id no_error, refl, refl, refl, tt)
  closed (failed f, log) = (
    refl,
    request_completed error method id (report f),
    refl,
    refl,
    refl,
    report-IsMatched A sent sends f (as_status_error f) error method id refl,
  )
  closed (panicked, log) = (refl, panic_recovered method id, refl, refl, refl, tt)

-- Whatever a method's handler does, and also if it panics, the chain of interceptors answers: with
-- what the handler returns or, after a panic, with an internal error. It logs the start of the
-- request, and after all that the handler logs one last entry with the method and the request's id,
-- which is the first x-request-id that came, unless that is empty: at error level exactly if the
-- answer is an error, and with a code only if the gateway answers with the code's HTTP status. gRPC sends the code of
-- an error's status.
pub serve-IsTold :
    {A : Type 0} (sent : Fault → GrpcCode) (md : Metadata) (fresh method : String)
    (handler : Handler A) (log : List Entry)
    → (sends : SendsStatus sent)
    → let id = request_id_of md fresh in
      IsTold sent sends method id
        (handler
          (record { request_id = some id; user_id = none })
          (log ++ request_started method id ∷ []))
        (serve md fresh method handler log)
unfolding serve request_id_interceptor recovery_interceptor logging_interceptor get_request_id
serve-IsTold sent md fresh method handler log sends =
    closed sent sends method (request_id_of md fresh) _
