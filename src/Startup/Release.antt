-- ===== src/Startup/Release.antt =====
-- services/*/cmd/main.go: what holds when run returns, and whether it does.
use efir.Prelude.{
  Option, false, arith, List, [], ◌∷◌, ◌++◌, ◌≡◌, refl, ap, sym, ◌∙◌, Bool, true, false, not, some,
}
use mathlib.Core.List.{reverse, reverse-append, append-nil, append_assoc}
use efir.Startup.Lifecycle.{
  Resource, Call, Step, call, acquire, defer_close, Reply, succeeds, fails, hangs, Event, done,
  opened, closed, ready, stopped, forced, Failure, End, returned, waiting, failed_step, Serving,
  first_reply, later_replies, after, close_all, start, serve_grpc, serve_http, Service, auth, room,
  message, user, gateway, websocket, run, run_auth, run_room, run_message, run_user, run_gateway,
  run_websocket, auth_steps, room_steps, message_steps, user_steps, gateway_steps, websocket_steps,
}

abbrev pub opened_in : List Event → List Resource
opened_in [] = []
opened_in (opened r ∷ events) = r ∷ opened_in events
opened_in (_ ∷ events) = opened_in events

abbrev pub closed_in : List Event → List Resource
closed_in [] = []
closed_in (closed r ∷ events) = r ∷ closed_in events
closed_in (_ ∷ events) = closed_in events

abbrev pub is_ready_in : List Event → Bool
is_ready_in [] = false
is_ready_in (ready ∷ events) = true
is_ready_in (_ ∷ events) = is_ready_in events

opened_in-append : (xs ys : List Event) → opened_in (xs ++ ys) ≡ opened_in xs ++ opened_in ys
opened_in-append [] ys = refl
opened_in-append (opened r ∷ xs) ys = ap (λ l. r ∷ l) (opened_in-append xs ys)
opened_in-append (closed r ∷ xs) ys = opened_in-append xs ys
opened_in-append (ready ∷ xs) ys = opened_in-append xs ys
opened_in-append (done c ∷ xs) ys = opened_in-append xs ys
opened_in-append (forced s ∷ xs) ys = opened_in-append xs ys
opened_in-append (stopped s ∷ xs) ys = opened_in-append xs ys

closed_in-append : (xs ys : List Event) → closed_in (xs ++ ys) ≡ closed_in xs ++ closed_in ys
closed_in-append [] ys = refl
closed_in-append (opened r ∷ xs) ys = closed_in-append xs ys
closed_in-append (closed r ∷ xs) ys = ap (λ l. r ∷ l) (closed_in-append xs ys)
closed_in-append (ready ∷ xs) ys = closed_in-append xs ys
closed_in-append (done c ∷ xs) ys = closed_in-append xs ys
closed_in-append (forced s ∷ xs) ys = closed_in-append xs ys
closed_in-append (stopped s ∷ xs) ys = closed_in-append xs ys

abbrev pub has_failed_step : End → Bool
has_failed_step (returned (some (failed_step s))) = true
has_failed_step _ = false

-- What was opened has been closed, the last first, and the service was ready unless a step of its
-- start failed.
abbrev pub IsReleased : End × List Event → Type 0
IsReleased (returned f, events) =
    (closed_in events ≡ reverse (opened_in events))
    × (is_ready_in events ≡ not (has_failed_step (returned f)))
IsReleased (waiting, events) = Unit {0}

-- What holds of the rest of a start, with a stack of what is deferred.
abbrev IsUnwound : List Resource → End × List Event → Type 0
IsUnwound stack (returned f, events) =
    (closed_in events ≡ reverse (opened_in events) ++ stack)
    × (is_ready_in events ≡ not (has_failed_step (returned f)))
IsUnwound stack (waiting, events) = Unit {0}

-- A Close is deferred directly after each opening, and nowhere else.
abbrev IsPaired : List Step → Type 0
IsPaired [] = Unit {0}
IsPaired (call c ∷ steps) = IsPaired steps
IsPaired (acquire r ∷ defer_close q ∷ steps) = (q ≡ r) × IsPaired steps
IsPaired _ = ⊥

closed_in-close_all :
    (stack : List Resource) (f : Option Failure) → closed_in (close_all stack (returned f)) ≡ stack
closed_in-close_all [] f = refl
closed_in-close_all (r ∷ stack) f = ap (λ l. r ∷ l) (closed_in-close_all stack f)

opened_in-close_all :
    (stack : List Resource) (f : Option Failure) → opened_in (close_all stack (returned f)) ≡ []
opened_in-close_all [] f = refl
opened_in-close_all (r ∷ stack) f = opened_in-close_all stack f

pub is_ready_in-close_all :
    (stack : List Resource) (f : Option Failure) (xs : List Event)
    → is_ready_in (xs ++ close_all stack (returned f)) ≡ is_ready_in xs
is_ready_in-close_all stack f [] = none_ready stack
  where
    none_ready : (l : List Resource) → is_ready_in (close_all l (returned f)) ≡ false
    none_ready [] = refl
    none_ready (r ∷ l) = none_ready l
is_ready_in-close_all stack f (done c ∷ xs) = is_ready_in-close_all stack f xs
is_ready_in-close_all stack f (opened q ∷ xs) = is_ready_in-close_all stack f xs
is_ready_in-close_all stack f (closed q ∷ xs) = is_ready_in-close_all stack f xs
is_ready_in-close_all stack f (ready ∷ xs) = refl
is_ready_in-close_all stack f (stopped s ∷ xs) = is_ready_in-close_all stack f xs
is_ready_in-close_all stack f (forced s ∷ xs) = is_ready_in-close_all stack f xs

-- The servers open and close none of the resources.
abbrev IsServed : End × List Event → Type 0
IsServed (end, events) =
    (opened_in events ≡ [])
    × (closed_in events ≡ [])
    × (is_ready_in events ≡ true)
    × (has_failed_step end ≡ false)

fails-IsUnwound :
    (s : Step) (mark : Event) (stack : List Resource) (later : End × List Event)
    → IsUnwound stack (after fails s mark stack later)
fails-IsUnwound s mark stack later = (
  closed_in-close_all stack (some (failed_step s))
      ∙ ap (λ l. reverse l ++ stack) (sym (opened_in-close_all stack (some (failed_step s)))),
  is_ready_in-close_all stack (some (failed_step s)) [],
)

call-IsUnwound :
    (reply : Reply) (c : Call) (stack : List Resource) (later : End × List Event)
    → IsUnwound stack later
    → IsUnwound stack (after reply (call c) (done c) stack later)
call-IsUnwound succeeds c stack (returned f, events) h = h
call-IsUnwound succeeds c stack (waiting, events) h = tt
call-IsUnwound fails c stack later h = fails-IsUnwound (call c) (done c) stack later
call-IsUnwound hangs c stack later h = tt

acquire-IsUnwound :
    (reply : Reply) (r : Resource) (stack : List Resource) (later : End × List Event)
    → IsUnwound (r ∷ stack) later
    → IsUnwound stack (after reply (acquire r) (opened r) stack later)
acquire-IsUnwound succeeds r stack (returned f, events) h = (
  h.0
      ∙ sym (append_assoc (reverse (opened_in events)) (r ∷ []) stack)
      ∙ ap (λ l. l ++ stack) (sym (reverse-append (r ∷ []) (opened_in events))),
  h.1,
)
acquire-IsUnwound succeeds r stack (waiting, events) h = tt
acquire-IsUnwound fails r stack later h = fails-IsUnwound (acquire r) (opened r) stack later
acquire-IsUnwound hangs r stack later h = tt

start-IsUnwound :
    (steps : List Step) (replies : List Reply) (stack : List Resource) (rest : End × List Event)
    → IsPaired steps
    → IsServed rest
    → IsUnwound stack (start steps replies stack rest)
unfolding start
start-IsUnwound [] replies stack (returned f, events) p (o, c, y, n) = (
  closed_in-append events (close_all stack (returned f))
      ∙ ap (λ l. l ++ closed_in (close_all stack (returned f))) c
      ∙ closed_in-close_all stack f
      ∙ ap (λ l. reverse l ++ stack)
          (sym (
            opened_in-append events (close_all stack (returned f))
            ∙ ap (λ l. l ++ opened_in (close_all stack (returned f))) o
            ∙ opened_in-close_all stack f)),
  is_ready_in-close_all stack f events ∙ y ∙ ap not (sym n),
)
start-IsUnwound [] replies stack (waiting, events) p s = tt
start-IsUnwound (call c ∷ steps) replies stack rest p s =
    call-IsUnwound (first_reply replies) c stack _
      (start-IsUnwound steps (later_replies replies) stack rest p s)
start-IsUnwound (acquire r ∷ defer_close q ∷ steps) replies stack rest (e, p) s =
    acquire-IsUnwound (first_reply replies) r stack _
      (rw e (start-IsUnwound steps (later_replies replies) (r ∷ stack) rest p s))
start-IsUnwound (acquire r ∷ []) replies stack rest p s = absurd p
start-IsUnwound (acquire r ∷ call _ ∷ steps) replies stack rest p s = absurd p
start-IsUnwound (acquire r ∷ acquire _ ∷ steps) replies stack rest p s = absurd p
start-IsUnwound (defer_close _ ∷ steps) replies stack rest p s = absurd p

released : (r : End × List Event) → IsUnwound [] r → IsReleased r
released (returned f, events) (c, y) = (c ∙ append-nil (reverse (opened_in events)), y)
released (waiting, events) h = tt

serve_grpc-IsServed : (v : Serving) → IsServed (serve_grpc v)
unfolding serve_grpc
serve_grpc-IsServed v = ground arith

serve_http-IsServed : (v : Serving) → IsServed (serve_http v)
unfolding serve_http
serve_http-IsServed v = ground arith

-- Whatever the calls of a service's start do and whatever ends it: when run returns, each pool, client
-- and connection that it had opened has been closed once, the last first, and the service has been
-- marked as ready exactly if no step of its start had failed.
pub run-IsReleased :
    (service : Service) (replies : List Reply) (v : Serving) → IsReleased (run service replies v)
unfolding run_auth run_room run_message run_user run_gateway run_websocket auth_steps room_steps
    message_steps user_steps gateway_steps websocket_steps
run-IsReleased auth replies v =
    released _
      (start-IsUnwound auth_steps replies [] _ (refl, (refl, (refl, tt))) (serve_grpc-IsServed v))
run-IsReleased room replies v =
    released _ (start-IsUnwound room_steps replies [] _ (refl, (refl, tt)) (serve_grpc-IsServed v))
run-IsReleased message replies v =
    released _ (
      start-IsUnwound message_steps replies [] _ (refl, (refl, (refl, tt))) (serve_grpc-IsServed v))
run-IsReleased user replies v =
    released _ (start-IsUnwound user_steps replies [] _ (refl, (refl, tt)) (serve_grpc-IsServed v))
run-IsReleased gateway replies v = released _ (
    start-IsUnwound gateway_steps replies [] _ (refl, (refl, (refl, (refl, (refl, tt)))))
      (serve_http-IsServed v))
run-IsReleased websocket replies v =
    released _
      (start-IsUnwound websocket_steps replies [] _ (refl, (refl, tt)) (serve_http-IsServed v))
