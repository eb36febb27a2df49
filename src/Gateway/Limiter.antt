-- ===== src/Gateway/Limiter.antt =====
-- services/gateway/internal/middleware/ratelimit.go with the counters of Valkey (valkey/keys.go and
-- scripts.go): a counter for each user, set to expire by its first increment. strconv.Itoa is a
-- parameter.
use Prim.Native.String.{◌++◌}
use efir.Prelude.{ℕ, String, Option, none, some, string_eq}
use efir.Prelude.Keyed.{Map, insert}
use efir.Exec.{Outcome, served, refused, reply_lost}
use efir.Auth.Types.{Entry}
use efir.Auth.Repository.{get, incr_with_expiry}
use efir.Gateway.Access.{Endpoint, user_rate_limiter}

-- The counters by their keys.
abbrev pub Counters : Type 0
Counters = Map String Entry

unfoldable pub gateway_rate_limit_key : String → String → String → String
gateway_rate_limit_key limit_type value window =
    "gateway:ratelimit:" ++ (limit_type ++ (":" ++ (value ++ (":" ++ window))))

-- EVAL of IncrWithExpiryScript: the counter after the increment, or none if the call failed.
unfoldable pub eval_incr : Outcome → ℕ → String → ℕ → Counters → Option ℕ × Counters
eval_incr served now key window counters =
    let e = incr_with_expiry window now (get key now counters) in
    (some e.value, insert key e counters)
eval_incr refused now key window counters = (none, counters)
eval_incr reply_lost now key window counters =
    (none, insert key (incr_with_expiry window now (get key now counters)) counters)

module _ (itoa : ℕ → String) (requests window : ℕ) where
  -- The user's counter is incremented, then UserRateLimiter decides.
  unfoldable pub limit_user : {S : Type 0} → Outcome → ℕ → Endpoint S → Endpoint (S × Counters)
  limit_user outcome now next ctx (s, counters) =
      let (count, counters') =
        eval_incr outcome now (gateway_rate_limit_key "user" ctx.user_id (itoa window)) window
          counters in
      let (response, s') = user_rate_limiter requests count next ctx s in
      (response, (s', counters'))
