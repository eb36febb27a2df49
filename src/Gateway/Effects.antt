-- ===== src/Gateway/Effects.antt =====
-- services/gateway: endpoints that leave a service's tables and events as they are.
use efir.Prelude.{
  ℕ, String, ◌≡◌, refl, List, Option, none, some, arith, Option-cases, Bool-cases, inl, inr, ltb,
}
use efir.Exec.{Result, ok, err, World, Exec, advance}
use efir.Exec.Ends.{Ends}
use efir.Shared.Errors.{Code, GrpcCode}
use efir.Gateway.Http.{Response, remote, call, with_body}
use efir.Gateway.Access.{
  Parser, subject, Context, Endpoint, Arrival, with_subject, jwt_auth, request_id,
  user_rate_limiter, protected,
}

abbrev pub Kept : {D V : Type 0} → World D V → D → List V → Type 0
Kept w db events = (db ≡ w.db) × (events ≡ w.events)

-- Whatever the response is, the tables and the events are as before.
abbrev pub Leaves : {D V : Type 0} → World D V → (World D V → Response × World D V) → Type 0
Leaves w endpoint = Kept w (endpoint w).1.db (endpoint w).1.events

-- A method that leaves the tables and events as they are does so when it is called over gRPC.
pub call-Leaves :
    {D V A : Type 0} (failure : GrpcCode) (m : Exec D V Code A) (f : A → Response) (w : World D V)
    → Ends (Kept w) m (advance w)
    → Leaves w (call failure m f)
unfolding call remote
call-Leaves failure m f w h = ground (arith, h.0, h.1)

pub limited-Leaves :
    {D V : Type 0} (requests : ℕ) (count : Option ℕ) (next : Endpoint (World D V)) (ctx : Context)
    (w : World D V)
    → Leaves w (next ctx)
    → Leaves w (user_rate_limiter requests count next ctx)
unfolding user_rate_limiter
limited-Leaves requests none next ctx w h = h
limited-Leaves requests (some count) next ctx w h = elim (Bool-cases (ltb requests count)) [
  | inl e ↦ rw e (refl, refl)
  | inr e ↦ rw e h
]

-- A request that the checks let through runs the endpoint for the token's subject; any other
-- leaves all as it is.
pub protected-Leaves :
    {D V : Type 0} (parse : Parser) (secret : String) (requests : ℕ) (a : Arrival)
    (next : Endpoint (World D V)) (w : World D V)
    → ((sub id : String)
        → subject parse secret a.cookie ≡ some sub
        → Leaves w (next (record { user_id = sub; request_id = id })))
    → Leaves w (protected parse secret requests a next)
unfolding protected jwt_auth with_subject
protected-Leaves parse secret requests a next w h =
    elim (Option-cases (subject parse secret a.cookie)) [
      | inl e ↦ rw (e, with_subject) (refl, refl)
      | inr (sub, e) ↦
          rw (e, with_subject)
            (limited-Leaves requests a.count next _ w (h sub (request_id a.header a.fresh) e))
    ]

pub with_body-Leaves :
    {D V A : Type 0} (r : Result (Option GrpcCode) A) (next : A → World D V → Response × World D V)
    (w : World D V)
    → ((msg : A) → Leaves w (next msg))
    → Leaves w (with_body r next)
unfolding with_body
with_body-Leaves (err e) next w h = (refl, refl)
with_body-Leaves (ok msg) next w h = h msg
