-- ===== src/Gateway/Window.antt =====
-- services/gateway/internal/middleware/ratelimit.go: how many requests of one user are let through,
-- among those of the others.
use text.Mathlib.TextLemmas.{append_cancel_left, append_cancel_right}
use efir.Prelude.{
  ℕ, suc, ◌+◌, ◌-◌, ◌≡◌, ◌<◌, refl, ap, ◌∙◌, String, List, [], ◌∷◌, Bool, true, false, Option, none,
  some, ◌==◌, if◌then◌else◌, ltb, string_eq, arith, All, Bool-cases, inl, inr, eq-cases, eq_self,
}
use efir.Prelude.Keyed.{lookup, insert, lookup-insert, lookup-insert_self}
use efir.Exec.{Outcome, served, refused, reply_lost}
use efir.Auth.Types.{Entry}
use efir.Auth.Repository.{get, incr_with_expiry}
use efir.Auth.Limits.{min}
use efir.Gateway.Http.{Response}
use efir.Gateway.Access.{Endpoint, user_rate_limiter}
use efir.Gateway.Limiter.{Counters, gateway_rate_limit_key, eval_incr, limit_user}

-- A request: what becomes of its command, when it comes, and its user.
pub record Call : Type 0 where
  pub outcome : Outcome
  pub time : ℕ
  pub user : String

-- An endpoint that notes who has reached it.
abbrev pub note : Response → Endpoint (List String)
note response ctx log = (response, ctx.user_id ∷ log)

abbrev pub visits : String → List String → ℕ
visits u [] = 0
visits u (v ∷ log) = if v == u then suc (visits u log) else visits u log

abbrev pub asked : String → List Call → ℕ
asked u [] = 0
asked u (c ∷ calls) = if c.user == u then suc (asked u calls) else asked u calls

-- Each call of the user reaches Valkey before the time.
abbrev pub IsWithin : String → ℕ → Call → Type 0
IsWithin u end c = c.user ≡ u → (c.outcome ≡ served) × (c.time < end)

module _ (itoa : ℕ → String) (window : ℕ) where
  abbrev pub key_of : String → String
  key_of u = gateway_rate_limit_key "user" u (itoa window)

  key_injective : (u v : String) → key_of u ≡ key_of v → u ≡ v
  unfolding gateway_rate_limit_key
  key_injective u v h = append_cancel_right _ _ _ (
      append_cancel_left ":" _ _
        (append_cancel_left "user" _ _ (append_cancel_left "gateway:ratelimit:" _ _ h)))

  key_differs : (u v : String) → (v == u) ≡ false → (key_of v == key_of u) ≡ false
  key_differs u v e = elim (Bool-cases (key_of v == key_of u)) [
    | inl same ↦ absurd (
        ground (
          arith,
          e,
          string_eq.same_iff v u,
          key_injective v u,
          string_eq.same_iff (key_of v) (key_of u),
        ))
    | inr other ↦ other
  ]

module _ (itoa : ℕ → String) (requests window : ℕ) (response : Response) where
  unfoldable pub call : Call → List String × Counters → List String × Counters
  call c s =
      (limit_user itoa requests window c.outcome c.time (note response)
        (record { user_id = c.user; request_id = "" }) s).1

  unfoldable pub run_calls : List Call → List String × Counters → List String × Counters
  run_calls [] s = s
  run_calls (c ∷ calls) s = run_calls calls (call c s)

  abbrev entry : String → Counters → Option Entry
  entry u counters = lookup (key_of itoa window u) counters

  entry-insert_other :
      (u v : String) (x : Entry) (counters : Counters)
      → (v == u) ≡ false
      → entry u (insert (key_of itoa window v) x counters) ≡ entry u counters
  entry-insert_other u v x counters e = rw (lookup-insert, key_differs itoa window u v e) refl

  -- What the limiter's decision makes of the visits.
  visits_if :
      (u v : String) (b : Bool) (refusal : Response) (log : List String)
      → let p : Response × List String = if b then (refusal, log) else (response, v ∷ log) in
        visits u p.1 ≡ (if b then visits u log else visits u (v ∷ log))
  visits_if u v true refusal log = refl
  visits_if u v false refusal log = refl

  same_if : (b : Bool) (n : ℕ) → (if b then n else n) ≡ n
  same_if b n = ground arith

  -- Another user's call leaves the user's counter and visits as they are.
  call_other :
      (u : String) (c : Call) (log : List String) (counters : Counters)
      → (c.user == u) ≡ false
      → (visits u (call c (log, counters)).0 ≡ visits u log)
        × (entry u (call c (log, counters)).1 ≡ entry u counters)
  unfolding call limit_user eval_incr user_rate_limiter
  call_other u c log counters e = elim c.outcome as (λ o. Kept o) [
    | served ↦ (
      visits_if u c.user _ _ log ∙ rw e (same_if _ (visits u log)),
      entry-insert_other u c.user _ counters e,
    )
    | refused ↦ (rw e refl, refl)
    | reply_lost ↦ (rw e refl, entry-insert_other u c.user _ counters e)
  ]
    where
      Kept : Outcome → Type 0
      Kept o =
          let s =
            (limit_user itoa requests window o c.time (note response)
              (record { user_id = c.user; request_id = "" }) (log, counters)).1 in
          (visits u s.0 ≡ visits u log) × (entry u s.1 ≡ entry u counters)

  -- The user's own call, which reaches Valkey.
  call_own :
      (u : String) (t : ℕ) (log : List String) (counters : Counters)
      → let s = call (record { outcome = served; time = t; user = u }) (log, counters) in
        let e = incr_with_expiry window t (get (key_of itoa window u) t counters) in
        (visits u s.0 ≡ (if ltb requests e.value then visits u log else suc (visits u log)))
        × (entry u s.1 ≡ some e)
  unfolding call limit_user eval_incr user_rate_limiter
  call_own u t log counters =
      (visits_if u u _ _ log ∙ rw (eq_self u) refl, lookup-insert_self _ _ counters)

  get_live :
      (u : String) (t : ℕ) (counters : Counters) (e : Entry)
      → entry u counters ≡ some e
      → t < e.expires_at
      → get (key_of itoa window u) t counters ≡ some e
  unfolding get
  get_live u t counters e h k = rw h (ground arith)

  own_call :
      (u : String) (c : Call)
      → c.user ≡ u
      → c.outcome ≡ served
      → c ≡ record { outcome = served; time = c.time; user = u }
  own_call u c h k = ground (arith, h, k)

  -- While the counter lives, it lets through what is left of the limit.
  run_live :
      (u : String) (calls : List Call) (log : List String) (counters : Counters) (e : Entry)
      → entry u counters ≡ some e
      → All (IsWithin u e.expires_at) calls
      → visits u (run_calls calls (log, counters)).0
        ≡ visits u log + min (requests - e.value) (asked u calls)
  unfolding run_calls incr_with_expiry
  run_live u [] log counters e h k = ground arith
  run_live u (c ∷ calls) log counters e h k = elim (eq-cases c.user u) [
    | inr other ↦
        let (v, n) = call_other u c log counters other in
        rw other (
          run_live u calls (call c (log, counters)).0 (call c (log, counters)).1 e (n ∙ h) k.1
          ∙ ap (λ m. m + min (requests - e.value) (asked u calls)) v)
    | inl (same, eq) ↦
        let (reached, soon) = k.0 same in
        let live = get_live u c.time counters e h soon in
        let (v, n) = call_own u c.time log counters in
        let s = call (record { outcome = served; time = c.time; user = u }) (log, counters) in
        let next : Entry = record { value = suc e.value; expires_at = e.expires_at } in
        let n' : entry u s.1 ≡ some next =
          n ∙ ap (λ g. some (incr_with_expiry window c.time g)) live in
        let v' =
          v
          ∙ ap
              (λ g.
                if ltb requests (incr_with_expiry window c.time g).value
                then visits u log
                else suc (visits u log))
              live in
        rw (eq, own_call u c same reached)
          (left u log calls e.value (visits u s.0) _ v' (run_live u calls s.0 s.1 next n' k.1))
  ]
    where
      left :
          (u : String) (log : List String) (calls : List Call) (value seen after : ℕ)
          → seen ≡ (if ltb requests (suc value) then visits u log else suc (visits u log))
          → after ≡ seen + min (requests - suc value) (asked u calls)
          → after ≡ visits u log + min (requests - value) (suc (asked u calls))
      left u log calls value seen after v r = ground (arith, v, r)

-- From the first request of a window on and within the window, exactly the first `requests` requests of
-- a user pass the rate limiter, or all of them if they are fewer, whatever the other users ask, at any
-- times and with any outcomes; Valkey serves the commands for the user's own requests.
pub run_calls_window :
    (itoa : ℕ → String) (requests window : ℕ) (response : Response) (u : String) (t : ℕ)
    (calls : List Call) (counters : Counters)
    → get (key_of itoa window u) t counters ≡ none
    → All (IsWithin u (t + window)) calls
    → let first : Call = record { outcome = served; time = t; user = u } in
      visits u (run_calls itoa requests window response (first ∷ calls) ([], counters)).0
      ≡ min requests (asked u (first ∷ calls))
unfolding run_calls incr_with_expiry
run_calls_window itoa requests window response u t calls counters fresh k =
    let (v, n) = call_own itoa requests window response u t [] counters in
    let s =
      call itoa requests window response (record { outcome = served; time = t; user = u })
        ([], counters) in
    let next : Entry = record { value = 1; expires_at = t + window } in
    let n' : entry itoa requests window response u s.1 ≡ some next =
      n ∙ ap (λ g. some (incr_with_expiry window t g)) fresh in
    let v' : visits u s.0 ≡ (if ltb requests 1 then 0 else 1) =
      v ∙ ap (λ g. if ltb requests (incr_with_expiry window t g).value then 0 else 1) fresh in
    let r = run_live itoa requests window response u calls s.0 s.1 next n' k in
    rw (eq_self u) (ground (arith, v', r))
