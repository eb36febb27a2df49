-- ===== src/Shared/Examples.antt =====
-- The retry loop at a stream that appears at the third attempt.
use efir.Prelude.{inl, some, ℕ, ◌≡◌, refl, false, if◌then◌else◌, ltb, arith, nat_eq}
use efir.Prelude.Int.{pos}
use efir.Exec.{Result, ok, err}
use efir.Shared.Nats.{
  NatsError, stream_not_found, provision_consumer_with_retry, provision_consumer_with_retry_ends,
}

abbrev create : ℕ → Result NatsError (Unit {0})
create i = if ltb i 2 then err stream_not_found else ok tt

provision_consumer_with_retry_ends_example :
    provision_consumer_with_retry create (λ _. false) (pos 50) 5
    ≡ some (record { result = ok tt; attempts = 3; waited = 100 })
provision_consumer_with_retry_ends_example =
    provision_consumer_with_retry_ends create (λ _. false) (pos 50) 5 2 50 refl (omega arith)
      (λ j lt. ground (arith, lt)) (λ j lt. refl) (inl (λ e. cc))
