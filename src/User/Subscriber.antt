-- ===== src/User/Subscriber.antt =====
-- services/user/internal/nats/subscriber.go: how a delivered message is read. encoding/json and
-- uuid.Parse are parameters.
use efir.Prelude.{ℕ, String, Option, none, some}
use efir.Exec.{Exec}
use efir.Shared.Json.{Object, Encoding, string_field}
use efir.User.Types.{Db, RepoError, Answer}
use efir.User.Service.{handle_message}

pub record Payload : Type 0 where
  pub user_id : String
  pub email : String

-- json.Unmarshal into the struct: none if a field holds no text.
unfoldable pub fill : Object → Option Payload
fill o = elim (string_field "user_id" o) [
  | none ↦ none
  | some user_id ↦ elim (string_field "email" o) [
    | none ↦ none
    | some email ↦ some (record { user_id = user_id; email = email })
  ]
]

module _ (encoding : Encoding) (parse : String → Option ℕ) where
  -- The user's id, unless the data is no such payload or names no id.
  unfoldable pub read_user_id : String → Option ℕ
  read_user_id bytes = elim (encoding.unmarshal bytes) [
    | none ↦ none
    | some o ↦ elim (fill o) [ none ↦ none | some payload ↦ parse payload.user_id ]
  ]

  -- handleMessage, of the message's data.
  unfoldable pub handle_data :
      String → (ℕ → Option String) → ℕ → Exec Db Answer RepoError (Unit {0})
  handle_data bytes names now = handle_message (read_user_id bytes) names now
