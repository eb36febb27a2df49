-- ===== src/Shared/Calls.antt =====
-- The interceptors around a handler that fails with an error of a lower layer, and around one that panics.
use efir.Prelude.{String, ◌≡◌, refl, [], ◌∷◌, none, some, ◌==◌, if◌then◌else◌, string_eq}
use efir.Shared.Errors.{GrpcCode, not_found, to_grpc_code}
use efir.Shared.Interceptors.{
  Fault, status_error, status_around, annotated, foreign, request_started, Metadata, failed,
  panicked, Handler, request_id_of, serve, panic_recovered,
}
use efir.Shared.Replies.{SendsStatus, IsTold, serve-IsTold}

-- The code of an error's status, or Unknown.
abbrev sent : Fault → GrpcCode
sent (status_error c m) = to_grpc_code c
sent (status_around c m f) = to_grpc_code c
sent (annotated m f) = sent f
sent (foreign none m) = GrpcCode.unknown
sent (foreign (some g) m) = g

sent-SendsStatus : SendsStatus sent
sent-SendsStatus = record {
  of_error = λ c m. refl;
  of_around = λ c m f. refl;
  of_annotated = λ m f. refl;
  of_foreign = λ g m. refl;
}

abbrev metadata : Metadata
metadata = some (λ key. if key == "x-request-id" then "r1" ∷ [] else [])

abbrev missing : Handler String
missing ctx log = (
  failed (annotated "get room" (status_around not_found "not found" (foreign none "no rows"))),
  log,
)

serve-IsTold_example :
    IsTold sent sent-SendsStatus "GetRoom"
      (request_id_of metadata "new")
      (missing
        (record { request_id = some (request_id_of metadata "new"); user_id = none })
        (request_started "GetRoom" (request_id_of metadata "new") ∷ []))
      (serve metadata "new" "GetRoom" missing [])
serve-IsTold_example = serve-IsTold sent metadata "new" "GetRoom" missing [] sent-SendsStatus

abbrev broken : Handler String
broken ctx log = (panicked, log)

-- Nothing tells of the end of a request whose handler panics but the panic's own entry.
after_panic :
    (serve none "new" "GetRoom" broken []).1
    ≡ request_started "GetRoom" "new" ∷ panic_recovered "GetRoom" "new" ∷ []
unfolding serve
after_panic = refl
