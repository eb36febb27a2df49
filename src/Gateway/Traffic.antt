-- ===== src/Gateway/Traffic.antt =====
-- The rate limiter's theorem at a user whose three requests come among those of another.
use efir.Prelude.{
  ℕ, String, ◌≡◌, refl, List, [], ◌∷◌, arith, ◌==◌, if◌then◌else◌, string_eq, nat_eq,
}
use efir.Exec.{served, refused}
use efir.Shared.Errors.{rate_limited}
use efir.Auth.Repository.{get}
use efir.Prelude.Keyed.{lookup}
use efir.Gateway.Http.{write_code}
use efir.Gateway.Window.{Call, visits, run_calls, run_calls_window}

abbrev digits : ℕ → String
digits n = if n == 60 then "60" else "other"

abbrev calls : List Call
calls =
    record { outcome = refused; time = 101; user = "bob" }
    ∷ record { outcome = served; time = 102; user = "alice" }
    ∷ record { outcome = served; time = 103; user = "bob" }
    ∷ record { outcome = served; time = 159; user = "alice" }
    ∷ []

abbrev first : Call
first = record { outcome = served; time = 100; user = "alice" }

run_calls_window_example :
    visits "alice" (run_calls digits 2 60 (write_code rate_limited) (first ∷ calls) ([], [])).0 ≡ 2
unfolding get lookup
run_calls_window_example =
    run_calls_window digits 2 60 (write_code rate_limited) "alice" 100 calls [] refl (
      λ e. absurd (other e),
      (λ e. (refl, omega arith), (λ e. absurd (other e), (λ e. (refl, omega arith), tt))),
    )
  where
    other : ◌≡◌ {A = String} "bob" "alice" → ⊥
    other e = ground (arith, e, string_eq.same_iff "bob" "alice")
