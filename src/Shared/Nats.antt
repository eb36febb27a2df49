-- ===== src/Shared/Nats.antt =====
-- services/shared/pkg/nats/nats.go: how streams and consumers are provisioned. What JetStream answers
-- to the i-th attempt, and whether the context ends while the caller waits after it, are functions of i.
use efir.Prelude.{
  ◌≢◌, ◌⊎◌, inl, inr, refl, sym, ◌∙◌, nat_eq, ℕ, zero, suc, ◌+◌, ◌*◌, ◌<◌, ◌≡◌, ◌&&◌, not, String,
  List, [], ◌∷◌, Bool, true, false, Option, none, some, if◌then◌else◌, arith,
}
use efir.Prelude.Int.{ℤ, pos, negsuc, at_least, magnitude}
use efir.Exec.{Result, ok, err}

pub data NatsError : Type 0 where
  stream_not_found : NatsError
  never_appeared : NatsError
  refused : String → NatsError

abbrev pub is_missing : Result NatsError (Unit {0}) → Bool
is_missing (err stream_not_found) = true
is_missing _ = false

-- One after another; the first that fails ends it. `create` is CreateOrUpdateStream.
unfoldable pub provision_streams :
    {C : Type 0} → (C → Result NatsError (Unit {0})) → List C → Result NatsError (Unit {0})
provision_streams create [] = ok tt
provision_streams create (cfg ∷ streams) =
    let rest = provision_streams create streams in elim (create cfg) [ ok _ ↦ rest | err e ↦ err e ]

-- A duration in nanoseconds; one that is not positive is 100 milliseconds.
unfoldable pub retry_interval_of : ℤ → ℕ
retry_interval_of retry_interval =
    if not (at_least 1 retry_interval) then 100_000_000 else magnitude retry_interval

-- The times are in nanoseconds.
pub record Provision : Type 0 where
  pub result : Result NatsError (Unit {0})
  pub attempts : ℕ
  pub waited : ℕ

-- What is waited between two attempts.
abbrev pub IsInterval : ℤ → ℕ → Type 0
IsInterval (pos zero) n = n ≡ 100_000_000
IsInterval (pos (suc m)) n = n ≡ suc m
IsInterval (negsuc m) n = n ≡ 100_000_000

interval_lem : (z : ℤ) (n : ℕ) → IsInterval z n → retry_interval_of z ≡ n
unfolding retry_interval_of
interval_lem (pos zero) n h = sym h
interval_lem (pos (suc m)) n h = ground (arith, h)
interval_lem (negsuc m) n h = sym h

-- What is returned after the last attempt.
abbrev pub answer_of : Result NatsError (Unit {0}) → Result NatsError (Unit {0})
answer_of (err stream_not_found) = err never_appeared
answer_of r = r

module _ (create : ℕ → Result NatsError (Unit {0})) (ended_waiting : ℕ → Bool)
    (retry_interval : ℤ) where
  -- The i-th attempt is the last; there was a wait before each but the first.
  abbrev pub stop_at : ℕ → Result NatsError (Unit {0}) → Option Provision
  stop_at i r =
      some (record { result = r; attempts = suc i; waited = retry_interval_of retry_interval * i })

  -- The loop from the i-th attempt on; none means that the fuel has run out.
  unfoldable pub provision_from : ℕ → ℕ → Option Provision
  provision_from zero i = none
  provision_from (suc fuel) i =
      let again = provision_from fuel (suc i) in
      if is_missing (create i)
      then (if ended_waiting i then stop_at i (err never_appeared) else again)
      else stop_at i (create i)

  unfoldable pub provision_consumer_with_retry : ℕ → Option Provision
  unfolding provision_from
  provision_consumer_with_retry fuel = provision_from fuel 0

  abbrev goes_on : ℕ → Bool
  goes_on i = is_missing (create i) && not (ended_waiting i)

  -- What the last attempt k comes to.
  abbrev outcome : ℕ → Option Provision
  outcome k = stop_at k (if is_missing (create k) then err never_appeared else create k)

  provision_from_ends :
      (fuel i m k : ℕ)
      → k ≡ i + m
      → m < fuel
      → ((j : ℕ) → j < k → goes_on j ≡ true)
      → goes_on k ≡ false
      → provision_from fuel i ≡ outcome k
  unfolding provision_from
  provision_from_ends zero i m k at lt on stops = absurd (omega arith)
  provision_from_ends (suc fuel) i zero k at lt on stops =
      let e : k ≡ i = omega arith in rw (← e) (ground (arith))
  provision_from_ends (suc fuel) i (suc m) k at lt on stops = ground (
    arith,
    on i (omega arith),
    provision_from_ends fuel (suc i) m k (omega arith) (omega arith) on stops,
  )

  missing : (r : Result NatsError (Unit {0})) → r ≡ err stream_not_found → is_missing r ≡ true
  missing r e = rw e refl

  present : (r : Result NatsError (Unit {0})) → r ≢ err stream_not_found → is_missing r ≡ false
  present (ok a) n = refl
  present (err stream_not_found) n = absurd (n refl)
  present (err never_appeared) n = refl
  present (err (refused s)) n = refl

  answered :
      (r : Result NatsError (Unit {0}))
      → (if is_missing r then err never_appeared else r) ≡ answer_of r
  answered (ok a) = refl
  answered (err stream_not_found) = refl
  answered (err never_appeared) = refl
  answered (err (refused s)) = refl

  stops_at :
      (k : ℕ) → (create k ≢ err stream_not_found) ⊎ (ended_waiting k ≡ true) → goes_on k ≡ false
  stops_at k (inl n) = rw (present (create k) n) refl
  stops_at k (inr e) = ground (arith, e)

  -- If the first attempts find no stream, and the context does not end after any of them, and then
  -- either an attempt is answered otherwise or the context ends after it, then with any fuel above
  -- the number of that attempt the loop returns after it, with the attempt's answer, or, if even
  -- that found no stream, with the error that the stream never appeared. Between every two attempts
  -- it has waited for the interval that was asked for, or 100 milliseconds if that is not positive.
  pub provision_consumer_with_retry_ends :
      (fuel k interval : ℕ)
      → IsInterval retry_interval interval
      → k < fuel
      → ((j : ℕ) → j < k → create j ≡ err stream_not_found)
      → ((j : ℕ) → j < k → ended_waiting j ≡ false)
      → (create k ≢ err stream_not_found) ⊎ (ended_waiting k ≡ true)
      → provision_consumer_with_retry fuel
        ≡ some (record { result = answer_of (create k); attempts = suc k; waited = interval * k })
  unfolding provision_consumer_with_retry
  provision_consumer_with_retry_ends fuel k interval is lt none_yet alive stops =
      provision_from_ends fuel 0 k k (omega arith) lt
        (λ j l. rw (missing (create j) (none_yet j l), alive j l) refl) (stops_at k stops)
      ∙ rw (answered (create k), interval_lem retry_interval interval is) refl
