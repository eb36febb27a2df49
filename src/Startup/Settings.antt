-- ===== src/Startup/Settings.antt =====
-- services/{auth,gateway}/internal/config/config.go: the settings with which the services start.
use Prim.Native.String.{len}
use efir.Prelude.{
  ℕ, String, ◌≡◌, ◌≤◌, ◌↔◌, ◌⊎◌, refl, sym, ap, ◌∙◌, inl, inr, Bool, true, false, Option, none,
  some, ◌==◌, arith, string_eq, Bool-cases,
}
use mathlib.Core.Path.{subst}
use efir.Prelude.Int.{ℤ, pos, negsuc, at_least}
use efir.Exec.{Result, ok, err}
use efir.Startup.Config.{
  AuthConfig, GatewayConfig, ConfigError, is_environment, validate_auth, validate_gateway, checked,
  second, RateLimit,
}

abbrev pub IsAtLeast : ℕ → ℤ → Type 0
IsAtLeast k z = (n : ℕ) × (z ≡ pos n) × (k ≤ n)

abbrev pub IsEnvironment : String → Type 0
IsEnvironment e = (e ≡ "development") ⊎ (e ≡ "production")

-- Requests are let through, and a window lasts a second or more, so that the number of its seconds is
-- positive.
abbrev pub IsLimit : RateLimit → Type 0
IsLimit r = IsAtLeast 1 r.requests × IsAtLeast second r.window

abbrev pub IsUsableAuth : AuthConfig → Type 0
IsUsableAuth c =
    IsEnvironment c.env
    × (32 ≤ len c.secret)
    × IsAtLeast 1 c.access_ttl
    × IsAtLeast 1 c.refresh_ttl
    × IsLimit c.rate_limit

abbrev pub IsUsableGateway : GatewayConfig → Type 0
IsUsableGateway c = IsEnvironment c.env × IsLimit c.rate_limit

at_least_iff : (k : ℕ) (z : ℤ) → (at_least k z ≡ true) ↔ IsAtLeast k z
at_least_iff k (pos n) = (λ h. (n, refl, ground (arith, h)), λ (m, e, h). ground (arith, e, h))
at_least_iff k (negsuc n) = (λ h. cc, λ (m, e, h). absurd (ground (arith, e)))

pub is_environment_iff : (e : String) → (is_environment e ≡ true) ↔ IsEnvironment e
unfolding is_environment
is_environment_iff e = (
  λ h. elim (Bool-cases (e == "development")) [
    | inl d ↦ inl ((string_eq.same_iff e "development").0 d)
    | inr d ↦ inr ((string_eq.same_iff e "production").0 (ground (arith, h, d)))
  ],
  λ k. elim k [ inl d ↦ rw d refl | inr d ↦ rw d refl ],
)

checked_iff :
    {C : Type 0} (env valid : Bool) (c c' : C)
    → (checked env valid c ≡ ok c') ↔ ((c' ≡ c) × (env ≡ true) × (valid ≡ true))
checked_iff {C} true true c c' = (λ h. (own c c' h, refl, refl), λ (e, _, _). ap ok (sym e))
  where
    own : (a b : C) → ◌≡◌ {A = Result ConfigError C} (ok a) (ok b) → b ≡ a
    own a b k = ground (arith, k)
checked_iff true false c c' = (λ h. cc, λ k. cc)
checked_iff false valid c c' = (λ h. cc, λ k. cc)

IsLimit-iff :
    (r : RateLimit)
    → ((at_least 1 r.requests ≡ true) × (at_least second r.window ≡ true)) ↔ IsLimit r
IsLimit-iff r = (
  λ (p, q). ((at_least_iff 1 r.requests).0 p, (at_least_iff second r.window).0 q),
  λ (p, q). ((at_least_iff 1 r.requests).1 p, (at_least_iff second r.window).1 q),
)

validate_auth_iff :
    (c : AuthConfig)
    → (validate_auth c ≡ true) ↔ (
        (32 ≤ len c.secret)
        × (at_least 1 c.access_ttl ≡ true)
        × (at_least 1 c.refresh_ttl ≡ true)
        × (at_least 1 c.rate_limit.requests ≡ true)
        × (at_least second c.rate_limit.window ≡ true))
unfolding validate_auth
validate_auth_iff c = (λ h. ground (arith, h), λ h. ground (arith, h))

validate_gateway_iff :
    (c : GatewayConfig)
    → (validate_gateway c ≡ true)
      ↔ ((at_least 1 c.rate_limit.requests ≡ true) × (at_least second c.rate_limit.window ≡ true))
unfolding validate_gateway
validate_gateway_iff c = (λ h. ground (arith, h), λ h. ground (arith, h))

pub IsUsableAuth-iff :
    (c : AuthConfig) → ((is_environment c.env ≡ true) × (validate_auth c ≡ true)) ↔ IsUsableAuth c
IsUsableAuth-iff c = (
  λ (e, v).
      let (s, a, r, q, w) = (validate_auth_iff c).0 v in
      (
        (is_environment_iff c.env).0 e,
        s,
        (at_least_iff 1 c.access_ttl).0 a,
        (at_least_iff 1 c.refresh_ttl).0 r,
        (IsLimit-iff c.rate_limit).0 (q, w),
      ),
  λ (e, s, a, r, l).
      let (q, w) = (IsLimit-iff c.rate_limit).1 l in
      (
        (is_environment_iff c.env).1 e,
        (validate_auth_iff c).1
            (s, (at_least_iff 1 c.access_ttl).1 a, (at_least_iff 1 c.refresh_ttl).1 r, q, w),
      ),
)

pub IsUsableGateway-iff :
    (c : GatewayConfig)
    → ((is_environment c.env ≡ true) × (validate_gateway c ≡ true)) ↔ IsUsableGateway c
IsUsableGateway-iff c = (
  λ (e, v).
      ((is_environment_iff c.env).0 e, (IsLimit-iff c.rate_limit).0 ((validate_gateway_iff c).0 v)),
  λ (e, l).
      ((is_environment_iff c.env).1 e, (validate_gateway_iff c).1 ((IsLimit-iff c.rate_limit).1 l)),
)

-- A configuration that was read, checked and completed.
abbrev pub IsLoaded : {C : Type 0} → (C → C) → (C → Type 0) → Option C → C → Type 0
IsLoaded {C} defaults usable found c =
    (raw : C) × (found ≡ some raw) × (c ≡ defaults raw) × usable c

pub IsLoaded-iff :
    {C : Type 0} (defaults : C → C) (usable : C → Type 0) (env valid : C → Bool)
    → ((c : C) → ((env c ≡ true) × (valid c ≡ true)) ↔ usable c)
    → (found : Option C) (c : C)
    → let r : Result ConfigError C = elim found [
      | none ↦ err ConfigError.read_config
      | some raw ↦ checked (env (defaults raw)) (valid (defaults raw)) (defaults raw)
    ] in
      (r ≡ ok c) ↔ IsLoaded defaults usable found c
IsLoaded-iff defaults usable env valid means none c = (λ h. cc, λ (raw, e, _, _). cc)
IsLoaded-iff {C} defaults usable env valid means (some raw) c = (
  λ h.
      let (same, e, v) =
        (checked_iff (env (defaults raw)) (valid (defaults raw)) (defaults raw) c).0 h in
      (raw, refl, same, subst usable (sym same) ((means (defaults raw)).0 (e, v))),
  λ (raw', found, same, u).
      let own : raw ≡ raw' = unwrapped raw raw' found in
      let same' : c ≡ defaults raw = same ∙ ap defaults (sym own) in
      let (e, v) = (means (defaults raw)).1 (subst usable same' u) in
      (checked_iff (env (defaults raw)) (valid (defaults raw)) (defaults raw) c).1 (same', e, v),
)
  where
    unwrapped : (a b : C) → ◌≡◌ {A = Option C} (some a) (some b) → a ≡ b
    unwrapped a b k = ground (arith, k)
