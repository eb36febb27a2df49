-- ===== src/Startup/Prepared.antt =====
-- services/*/cmd/main.go: what has been done when a service is marked as ready.
use efir.Prelude.{List, [], ◌∷◌, ◌++◌, ◌≡◌, refl, ap, sym, ◌∙◌, Bool, true, false, ◌||◌, All, some}
use efir.Startup.Lifecycle.{
  Resource, postgres, valkey, nats, room_client, auth_conn, user_conn, room_conn, message_conn,
  Call, ping_postgres, ping_valkey, provision_streams, start_subscriber, listen_grpc, listen_health,
  Step, call, acquire, defer_close, Reply, succeeds, fails, hangs, Event, done, opened, End,
  failed_step, Serving, first_reply, later_replies, after, close_all, start, Service, auth, room,
  message, user, gateway, websocket, run, run_auth, run_room, run_message, run_user, run_gateway,
  run_websocket, auth_steps, room_steps, message_steps, user_steps, gateway_steps, websocket_steps,
}
use efir.Startup.Release.{is_ready_in, is_ready_in-close_all}

-- What a service relies on: a database that answers, the streams of its own events, the consumers of
-- the events it reads, the ports it serves.
abbrev pub calls_needed : Service → List Call
calls_needed auth = ping_postgres ∷ provision_streams ∷ listen_grpc ∷ listen_health ∷ []
calls_needed room = ping_postgres ∷ provision_streams ∷ listen_grpc ∷ listen_health ∷ []
calls_needed message = ping_postgres ∷ provision_streams ∷ listen_grpc ∷ listen_health ∷ []
calls_needed user = ping_postgres ∷ start_subscriber ∷ listen_grpc ∷ listen_health ∷ []
calls_needed gateway = ping_valkey ∷ []
calls_needed websocket = ping_valkey ∷ start_subscriber ∷ []

-- The stores, the bus and the other services that it talks to.
abbrev pub resources_needed : Service → List Resource
resources_needed auth = postgres ∷ valkey ∷ nats ∷ []
resources_needed room = postgres ∷ nats ∷ []
resources_needed message = postgres ∷ nats ∷ room_client ∷ []
resources_needed user = postgres ∷ nats ∷ []
resources_needed gateway = valkey ∷ auth_conn ∷ user_conn ∷ room_conn ∷ message_conn ∷ []
resources_needed websocket = valkey ∷ nats ∷ []

abbrev pub same_call : Call → Call → Bool
same_call ping_postgres ping_postgres = true
same_call ping_valkey ping_valkey = true
same_call provision_streams provision_streams = true
same_call start_subscriber start_subscriber = true
same_call listen_grpc listen_grpc = true
same_call listen_health listen_health = true
same_call _ _ = false

abbrev pub same_resource : Resource → Resource → Bool
same_resource postgres postgres = true
same_resource valkey valkey = true
same_resource nats nats = true
same_resource room_client room_client = true
same_resource auth_conn auth_conn = true
same_resource user_conn user_conn = true
same_resource room_conn room_conn = true
same_resource message_conn message_conn = true
same_resource _ _ = false

abbrev pub has_done : Call → List Event → Bool
has_done c [] = false
has_done c (done q ∷ events) = same_call c q || has_done c events
has_done c (_ ∷ events) = has_done c events

abbrev pub has_opened : Resource → List Event → Bool
has_opened r [] = false
has_opened r (opened q ∷ events) = same_resource r q || has_opened r events
has_opened r (_ ∷ events) = has_opened r events

abbrev pub IsPrepared : Service → List Event → Type 0
IsPrepared service events =
    All (λ c. has_done c events ≡ true) (calls_needed service)
    × All (λ r. has_opened r events ≡ true) (resources_needed service)

-- The events of a start without an error.
abbrev marks : List Step → List Event
marks [] = []
marks (call c ∷ steps) = done c ∷ marks steps
marks (acquire r ∷ steps) = opened r ∷ marks steps
marks (defer_close r ∷ steps) = marks steps

false_true : (A : Type 0) → false ≡ true → A
false_true A e = cc

after-marks :
    (reply : Reply) (s : Step) (mark : Event) (stack : List Resource) (later : End × List Event)
    (ms : List Event)
    → is_ready_in (mark ∷ later.1) ≡ is_ready_in later.1
    → (is_ready_in later.1 ≡ true → (xs : List Event) × (later.1 ≡ ms ++ xs))
    → is_ready_in (after reply s mark stack later).1 ≡ true
    → (xs : List Event) × ((after reply s mark stack later).1 ≡ mark ∷ (ms ++ xs))
after-marks succeeds s mark stack (end, events) ms same ih h =
    let (xs, e) = ih (sym same ∙ h) in (xs, ap (λ l. mark ∷ l) e)
after-marks fails s mark stack later ms same ih h =
    false_true _ (sym (is_ready_in-close_all stack (some (failed_step s)) []) ∙ h)
after-marks hangs s mark stack later ms same ih h = false_true _ h

start-marks :
    (steps : List Step) (replies : List Reply) (stack : List Resource) (rest : End × List Event)
    → is_ready_in (start steps replies stack rest).1 ≡ true
    → (xs : List Event) × ((start steps replies stack rest).1 ≡ marks steps ++ xs)
unfolding start
start-marks [] replies stack (end, events) h = (events ++ close_all stack end, refl)
start-marks (call c ∷ steps) replies stack rest h =
    after-marks (first_reply replies) (call c) (done c) stack _ (marks steps) refl
      (start-marks steps (later_replies replies) stack rest) h
start-marks (acquire r ∷ steps) replies stack rest h =
    after-marks (first_reply replies) (acquire r) (opened r) stack _ (marks steps) refl
      (start-marks steps (later_replies replies) stack rest) h
start-marks (defer_close r ∷ steps) replies stack rest h =
    start-marks steps replies (r ∷ stack) rest h

-- A service that is marked as ready, whatever its calls have done and whatever has ended it, has
-- opened all that it talks to, has heard from its database or from Valkey where it asks, has
-- provisioned the streams that it publishes on or started the consumers that it reads from, and, if
-- it serves gRPC, listens on both of its ports.
pub run-IsPrepared :
    (service : Service) (replies : List Reply) (v : Serving)
    → is_ready_in (run service replies v).1 ≡ true
    → IsPrepared service (run service replies v).1
unfolding run_auth run_room run_message run_user run_gateway run_websocket auth_steps room_steps
    message_steps user_steps gateway_steps websocket_steps
run-IsPrepared auth replies v h =
    rw (start-marks auth_steps replies [] _ h).1
      ((refl, (refl, (refl, (refl, tt)))), (refl, (refl, (refl, tt))))
run-IsPrepared room replies v h =
    rw (start-marks room_steps replies [] _ h).1
      ((refl, (refl, (refl, (refl, tt)))), (refl, (refl, tt)))
run-IsPrepared message replies v h =
    rw (start-marks message_steps replies [] _ h).1
      ((refl, (refl, (refl, (refl, tt)))), (refl, (refl, (refl, tt))))
run-IsPrepared user replies v h =
    rw (start-marks user_steps replies [] _ h).1
      ((refl, (refl, (refl, (refl, tt)))), (refl, (refl, tt)))
run-IsPrepared gateway replies v h =
    rw (start-marks gateway_steps replies [] _ h).1
      ((refl, tt), (refl, (refl, (refl, (refl, (refl, tt))))))
run-IsPrepared websocket replies v h =
    rw (start-marks websocket_steps replies [] _ h).1 ((refl, (refl, tt)), (refl, (refl, tt)))
