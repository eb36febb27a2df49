-- ===== src/Gateway/Users.antt =====
-- services/gateway/internal/handler/user/handler.go, over the user service's methods. protojson is a
-- parameter.
use efir.Prelude.{ℕ, String, Option}
use efir.Shared.Errors.{GrpcCode}
use efir.User.Types.{UserWorld}
use efir.User.Handler
use efir.User.Handler.{Packages, ProtoUser}
use efir.Gateway.Http.{write_proto, read_proto, call, with_body}
use efir.Gateway.Access.{Endpoint}

pub record Codec : Type 0 where
  pub read_update : String → Option (String × Option String × Option String × Option String)
  pub write_user : ProtoUser → Option String

module _ (packages : Packages) (codec : Codec) (failure : GrpcCode) (max_body_size : ℕ) where
  unfoldable pub get_me : Endpoint UserWorld
  get_me ctx =
      call failure (Handler.get_user packages ctx.user_id) (write_proto codec.write_user 200)

  unfoldable pub get_by_id : String → Endpoint UserWorld
  get_by_id id ctx = call failure (Handler.get_user packages id) (write_proto codec.write_user 200)

  -- The user's id takes the place of the body's.
  unfoldable pub update_me : Option String → ℕ → Endpoint UserWorld
  update_me body now ctx =
      with_body (read_proto max_body_size codec.read_update body)
        λ (_, display_name, avatar_url, bio).
          call failure (Handler.update_user packages ctx.user_id display_name avatar_url bio now)
            (write_proto codec.write_user 200)
