-- ===== src/Auth/Publisher.antt =====
-- services/auth/internal/nats/publisher.go: what is put on the bus for a new account. UUID.String is
-- a parameter.
use efir.Prelude.{ℕ, String, [], ◌∷◌}
use efir.Shared.Json.{Object, text}
use efir.Auth.Types.{AuthEvent, user_registered}

-- The subject and the payload.
unfoldable pub publication : (ℕ → String) → AuthEvent → String × Object
publication format (user_registered user_id email) =
    ("auth.user.registered", ("user_id", text (format user_id)) ∷ ("email", text email) ∷ [])
