-- ===== src/User/Handler.antt =====
-- services/user/internal/handler/{user,mapper}.go: the gRPC methods of the user service. The rules of
-- protovalidate and the two directions of uuid's texts are parameters.
use efir.Prelude.{ℕ, String, List, [], ◌∷◌, map, Bool, not, Option, none, some}
use efir.Exec.{Exec, pure, raise, ◌>>=◌, ◌>>◌, fail_if, on_error}
use efir.Shared.Errors.{Code}
use efir.User.Types.{User, Db, Answer}
use efir.User.Service
use efir.User.Service.{ServiceError, user_not_found}

-- The requests, with their fields in the order of the .proto file.
pub data Request : Type 0 where
  get_user_request : String → Request
  get_users_by_ids_request : List String → Request
  update_user_request : String → Option String → Option String → Option String → Request

pub record Packages : Type 0 where
  pub is_valid : Request → Bool
  pub parse : String → Option ℕ
  pub format : ℕ → String

pub record ProtoUser : Type 0 where
  pub user_id : String
  pub username : String
  pub display_name : String
  pub avatar_url : Option String
  pub bio : Option String
  pub created_at : ℕ
  pub updated_at : ℕ

abbrev pub Handler : Type 0 → Type 0
Handler A = Exec Db Answer Code A

-- The codes that the methods' errors become.
abbrev pub user_code : ServiceError → Code
user_code user_not_found = Code.not_found
user_code _ = Code.internal

abbrev pub any_code : ServiceError → Code
any_code _ = Code.internal

module _ (packages : Packages) where
  unfoldable pub validate : Request → Handler (Unit {0})
  validate req = fail_if (not (packages.is_valid req)) Code.invalid_argument

  unfoldable pub parse_id : String → Handler ℕ
  parse_id text = elim (packages.parse text) [
    | none ↦ raise Code.invalid_argument
    | some id ↦ pure id
  ]

  unfoldable pub parse_ids : List String → Handler (List ℕ)
  parse_ids [] = pure []
  parse_ids (text ∷ texts) = do id ← parse_id text; ids ← parse_ids texts; pure (id ∷ ids)

  unfoldable pub user_to_proto : User → ProtoUser
  user_to_proto u = record {
    user_id = packages.format u.id;
    username = u.username;
    display_name = u.display_name;
    avatar_url = u.avatar_url;
    bio = u.bio;
    created_at = u.created_at;
    updated_at = u.updated_at;
  }

  unfoldable pub users_to_proto : List User → List ProtoUser
  unfolding user_to_proto
  users_to_proto users = map user_to_proto users

  unfoldable pub get_user : String → Handler ProtoUser
  get_user user_id = do
    validate (get_user_request user_id)
    id ← parse_id user_id
    user ← on_error user_code (Service.get_user id)
    pure (user_to_proto user)

  unfoldable pub get_users_by_ids : List String → Handler (List ProtoUser)
  get_users_by_ids user_ids = do
    validate (get_users_by_ids_request user_ids)
    ids ← parse_ids user_ids
    users ← on_error any_code (Service.get_users ids)
    pure (users_to_proto users)

  unfoldable pub update_user :
      String → Option String → Option String → Option String → ℕ → Handler ProtoUser
  update_user user_id display_name avatar_url bio now = do
    validate (update_user_request user_id display_name avatar_url bio)
    id ← parse_id user_id
    user ← on_error user_code (Service.update_user id display_name avatar_url bio now)
    pure (user_to_proto user)
